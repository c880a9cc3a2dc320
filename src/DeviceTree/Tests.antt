-- ===== src/DeviceTree/Tests.antt =====
-- A device tree at address 16 with one input device below the root.
use ax_kernel.Prelude.{
  zero, ◌&&◌, if_elim, ltb, suc, Bool, true, ◌+◌, ◌<◌, ℕ, ◌-◌, ◌≡◌, List, [], ◌∷◌, ◌++◌, some, refl,
  arith, inl, get_or, ◌==◌, if◌then◌else◌,
}
use ax_kernel.DeviceTree.{Found, parse_dtb}
use ax_kernel.DeviceTree.Window.{IsFound, parse_dtb-IsFound}
use ax_kernel.DeviceTree.Layout.{
  Token, begin_token, IsTree, IsLaid, IsName, IsProperty, Spells, id_register,
}
use ax_kernel.DeviceTree.Nodes.{scan}
use ax_kernel.DeviceTree.Tokens.{parse_dtb-scan}
use ax_kernel.DeviceTree.Nested.{last_input}

abbrev blob : List ℕ
blob =
    (0xd0 ∷ 0x0d ∷ 0xfe ∷ 0xed ∷ 0 ∷ 0 ∷ 0 ∷ 0 ∷ 0 ∷ 0 ∷ 0 ∷ 16 ∷ 0 ∷ 0 ∷ 0 ∷ 72 ∷ [])
    ++ ((0 ∷ 0 ∷ 0 ∷ 1 ∷ 0 ∷ 0 ∷ 0 ∷ 0 ∷ 0 ∷ 0 ∷ 0 ∷ 1 ∷ 0 ∷ 0 ∷ 0 ∷ 0 ∷ [])
        ++ ((0 ∷ 0 ∷ 0 ∷ 3 ∷ 0 ∷ 0 ∷ 0 ∷ 16 ∷ 0 ∷ 0 ∷ 0 ∷ 0 ∷ [])
            ++ ((0 ∷ 0 ∷ 0 ∷ 0 ∷ 0x0a ∷ 0 ∷ 0x3e ∷ 0 ∷ 0 ∷ 0 ∷ 0 ∷ 0 ∷ 0 ∷ 0 ∷ 2 ∷ 0 ∷ [])
                ++ (0 ∷ 0 ∷ 0 ∷ 2 ∷ 0 ∷ 0 ∷ 0 ∷ 2 ∷ 0 ∷ 0 ∷ 0 ∷ 9 ∷ 114 ∷ 101 ∷ 103 ∷ 0 ∷ []))))

-- Register `device_id` of the device tells an input device.
abbrev ram : ℕ → ℕ
ram a = if a == 0x0a003e08 then 18 else get_or blob (a - 16) 0

abbrev nothing : Found
nothing = record {
  virtio_net_base = 0;
  virtio_gpu_base = 0;
  virtio_blk_base = 0;
  virtio_snd_base = 0;
  virtio_input_bases = λ i. 0;
  virtio_input_irqs = λ i. 0;
  virtio_input_count = 0;
  virtio_net_irq = 0;
  virtio_gpu_irq = 0;
  virtio_blk_irq = 0;
}

abbrev tokens : List Token
tokens = (begin_token 0 ∷ []) ++ last_input 0x0a003e00

-- All elements are bytes.
abbrev are_bytes : List ℕ → Bool
are_bytes [] = true
are_bytes (x ∷ xs) = ltb x 256 && are_bytes xs

get_or-are_bytes : (xs : List ℕ) (i : ℕ) → are_bytes xs ≡ true → get_or xs i 0 < 256
get_or-are_bytes [] i h = omega arith
get_or-are_bytes (x ∷ xs) zero h = ground (arith, h)
get_or-are_bytes (x ∷ xs) (suc i) h = get_or-are_bytes xs i (ground (arith, h))

ram_bytes : (a : ℕ) → ram a < 256
ram_bytes a =
    if_elim (λ (n : ℕ). n < 256) (a == 0x0a003e08) (λ _. omega arith)
      (λ _. get_or-are_bytes blob (a - 16) refl)

empty-IsName : (a : ℕ) → ram (a + 0) ≡ 0 → IsName ram a 0
empty-IsName a e = record {
  short = omega arith;
  full = λ k lt. absurd (omega (arith, lt));
  ends = e;
}

ram-IsTree : IsTree ram 16 tokens
unfolding IsLaid IsProperty Spells
ram-IsTree = record {
  bytes = ram_bytes;
  start = omega arith;
  magic = refl;
  laid = (
    refl,
    (
      empty-IsName 36 refl,
      (
        refl,
        (
          empty-IsName 44 refl,
          (
            (refl, omega arith),
            (refl, (((refl, (refl, (refl, refl))), refl), (refl, (refl, refl)))),
          ),
        ),
      ),
    ),
  );
}

nothing-IsFound : IsFound nothing nothing
nothing-IsFound = record {
  net = inl refl;
  gpu = inl refl;
  blk = inl refl;
  snd = inl refl;
  inputs = λ i lt. inl refl;
  count = omega arith;
  bases = λ i out. refl;
  irqs = λ i out. refl;
}

parse_dtb-scan_example :
    parse_dtb 8 ram 16 nothing ≡ some (scan (id_register ram) tokens [] nothing)
parse_dtb-scan_example = parse_dtb-scan 8 ram 16 tokens nothing ram-IsTree (omega arith)

parse_dtb-IsFound_example : IsFound nothing (scan (id_register ram) tokens [] nothing)
parse_dtb-IsFound_example =
    parse_dtb-IsFound 8 ram 16 nothing (scan (id_register ram) tokens [] nothing) nothing-IsFound
      (parse_dtb-scan 8 ram 16 tokens nothing ram-IsTree (omega arith))
