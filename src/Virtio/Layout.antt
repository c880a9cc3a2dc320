-- ===== src/Virtio/Layout.antt =====
-- Where the rings of a queue lie.
use ax_kernel.Prelude.{
  ap, ◌||◌, ◌∙◌, ◌==◌, ◌-◌, ◌&&◌, leb, if◌then◌else◌, inr, true, ◌+◌, refl, zero, sym, subst, ◌/◌,
  inl, ltb, if_elim, suc, ◌*◌, arith, ◌⊎◌, ◌^◌, ◌≡◌, ◌<◌, ◌≤◌, ℕ,
}
use ax_kernel.Prelude.Word.{u16}
use ax_kernel.Virtio.{
  clear_bytes, Mmio, Setup, QueueState, halve, pick_size, queue_v1, queue_v2, align_4k,
  clear_storage, virtio_queue_size, virtio_queue_storage, mmio_queue_sel, mmio_queue_num_max,
}
use native.Mathlib.Nat.{pow-suc}
use ax_kernel.Virtio.Registers.{reg, set_reg, vq_setup_v1, vq_setup_v2}
use ax_kernel.Prelude.Loop.{
  for_range, write, for_range_hit, for_range_miss, write_self, write_other,
}

-- The largest power of two that is at most 2 ^ k and at most `max`.
IsPick : ℕ → ℕ → ℕ → Type 0
IsPick k max size =
    ((j : ℕ) × ((j ≤ k) × ((size ≡ 2 ^ j) × (size ≤ 2 ^ k))))
    × ((size ≤ max) × ((size ≡ 2 ^ k) ⊎ (max < 2 * size)))

IsPick-suc : (k max size : ℕ) → max < 2 ^ suc k → IsPick k max size → IsPick (suc k) max size
unfolding IsPick
IsPick-suc k max size small h =
    let ((j, (le, (power, bound))), (fits, most)) = h in
    (
      (j, (omega (arith, le), (power, omega (arith, bound, pow-suc 2 k)))),
      (
        fits,
        elim most [ inl e ↦ inr (omega (arith, e, small, pow-suc 2 k)) | inr less ↦ inr less ],
      ),
    )

-- Enough fuel is one more than the number of halvings.
halve-IsPick : (fuel k max : ℕ) → 0 < max → k < fuel → IsPick k max (halve fuel (2 ^ k) max)
unfolding halve IsPick
halve-IsPick zero k max pos lt = absurd (omega (arith, lt))
halve-IsPick (suc fuel) zero max pos lt =
    if_elim (IsPick 0 max) (ltb max (2 ^ 0)) (λ small. absurd (ground (arith, small, pos)))
      (λ _. ((0, (omega arith, (refl, omega arith))), (omega (arith, pos), inl refl)))
halve-IsPick (suc fuel) (suc k) max pos lt =
    let half : 2 ^ suc k / 2 ≡ 2 ^ k = omega (arith, pow-suc 2 k) in
    let smaller = halve-IsPick fuel k max pos (omega (arith, lt)) in
    if_elim (IsPick (suc k) max) (ltb max (2 ^ suc k))
      (λ small.
        subst (λ n. IsPick (suc k) max (halve fuel n max)) (sym half)
          (IsPick-suc k max _ (ground (arith, small)) smaller))
      (λ large. ((suc k, (omega arith, (refl, omega arith))), (ground (arith, large), inl refl)))

clear_bytes_lem :
    (n : ℕ) (memory : ℕ → ℕ) (storage a : ℕ)
    → clear_bytes n memory storage a
      ≡ (if leb storage a && ltb a (storage + n) then 0 else memory a)
unfolding clear_bytes
clear_bytes_lem n memory storage a =
    let clear : ℕ → (ℕ → ℕ) → ℕ → ℕ = λ i m. write m (storage + i) 0 in
    if_elim (λ (v : ℕ). for_range n 0 clear memory a ≡ v) (leb storage a && ltb a (storage + n))
      (λ in_range.
        let le : storage ≤ a = ground (arith, in_range) in
        let lt : a < storage + n = ground (arith, in_range) in
        for_range_hit n 0 clear memory a 0 (a - storage) (omega arith) (omega (arith, le, lt))
          (λ m'. write_self m' (storage + (a - storage)) 0 a (omega (arith, le)))
          (λ k m' ne _ _. write_other m' (storage + k) 0 a (omega (arith, ne, le))))
      (λ out.
        for_range_miss n 0 clear memory a
          (λ k m' _ small. write_other m' (storage + k) 0 a (ground (arith, out, small))))

clear_storage_lem :
    (memory : ℕ → ℕ) (storage a : ℕ)
    → clear_storage memory storage a
      ≡ (if leb storage a && ltb a (storage + virtio_queue_storage) then 0 else memory a)
unfolding clear_storage
clear_storage_lem memory storage a = clear_bytes_lem virtio_queue_storage memory storage a

-- The three rings of a queue lie one behind the other in its storage: descriptors of 16 bytes, two words
-- and the available ring, two words and the used ring.
pub record IsRings (vq : QueueState) (storage : ℕ) : Type 0 where
  pub start : vq.desc ≡ storage
  pub avail_after : vq.desc + 16 * vq.size ≤ vq.avail
  pub used_after : vq.avail + (4 + 2 * vq.size) ≤ vq.used
  pub inside : vq.used + (4 + 8 * vq.size) ≤ storage + virtio_queue_storage

queue_v1-IsRings :
    (storage size : ℕ) → size ≤ virtio_queue_size → IsRings (queue_v1 storage size) storage
unfolding queue_v1 align_4k
queue_v1-IsRings storage size le = record {
  start = refl;
  avail_after = omega (arith, le);
  used_after = omega (arith, le);
  inside = omega (arith, le);
}

queue_v2-IsRings :
    (storage size : ℕ) → size ≤ virtio_queue_size → IsRings (queue_v2 storage size) storage
unfolding queue_v2
queue_v2-IsRings storage size le = record {
  start = refl;
  avail_after = omega (arith, le);
  used_after = omega (arith, le);
  inside = omega (arith, le);
}

-- A queue is set up: its rings are in place, its size is the largest power of two that the device and
-- the storage allow, and of the memory the storage alone is touched, and zeroed.
pub record IsReady {Side : Type 0} (s r : Setup Side) (storage queue_max : ℕ) : Type 0 where
  pub success : r.ok ≡ true
  pub rings : IsRings r.vq storage
  pub power : (j : ℕ) × ((j ≤ 8) × (r.vq.size ≡ 2 ^ j))
  pub fits : r.vq.size ≤ queue_max
  pub most : (r.vq.size ≡ virtio_queue_size) ⊎ (queue_max < 2 * r.vq.size)
  pub zeroed :
      (a : ℕ)
      → r.memory a
        ≡ (if leb storage a && ltb a (storage + virtio_queue_storage) then 0 else s.memory a)

module _ {Side : Type 0} (mmio : Mmio Side) (v_base_addr q_index storage : ℕ) (s : Setup Side) where
  -- What the device tells as the largest size of the queue.
  abbrev pub told_max : ℕ
  told_max =
      mmio.load (mmio.store s.side (v_base_addr + mmio_queue_sel) q_index)
        (v_base_addr + mmio_queue_num_max)

  ready :
      (r : Setup Side)
      → 0 < told_max
      → r.ok ≡ true
      → IsRings r.vq storage
      → r.vq.size ≡ u16 (pick_size told_max)
      → r.memory ≡ clear_storage s.memory storage
      → IsReady s r storage told_max
  unfolding pick_size IsPick
  ready r pos success rings e same =
      let ((j, (le, (power, bound))), (fits, most)) = halve-IsPick 9 8 told_max pos (omega arith) in
      let size : r.vq.size ≡ pick_size told_max = e ∙ omega (arith, bound) in
      record {
        success = success;
        rings = rings;
        power = (j, (le, size ∙ power));
        fits = omega (arith, size, fits);
        most = elim most [
          | inl full ↦ inl (size ∙ full)
          | inr less ↦ inr (omega (arith, less, size))
        ];
        zeroed = λ a. ap (λ (m : ℕ → ℕ). m a) same ∙ clear_storage_lem s.memory storage a;
      }

  -- The size that is picked is not 0, and at most 256.
  pick_bounds : 0 < told_max → (0 < pick_size told_max) × (pick_size told_max ≤ virtio_queue_size)
  unfolding pick_size IsPick
  pick_bounds pos =
      let ((j, (le, (power, bound))), (fits, most)) = halve-IsPick 9 8 told_max pos (omega arith) in
      (omega (arith, most, pos), omega (arith, bound))

  -- Whatever size above 0 the device tells, the set-up of a queue of version 1 succeeds: the rings lie one
  -- behind the other in the storage, with the largest power of two for a size that the device allows, 256
  -- at most; the storage is zeroed, and no byte outside it changes.
  pub vq_setup_v1-IsReady :
      0 < told_max → IsReady s (vq_setup_v1 mmio v_base_addr q_index storage s) storage told_max
  unfolding vq_setup_v1 set_reg reg queue_v1
  vq_setup_v1-IsReady pos =
      let (some_size, bound) = pick_bounds pos in
      if_elim (λ (r : Setup Side). IsReady s r storage told_max)
        ((told_max == 0) || (pick_size told_max == 0))
        (λ bad. absurd (ground (arith, bad, pos, some_size)))
        (λ _. ready _ pos refl (queue_v1-IsRings storage (pick_size told_max) bound) refl refl)

  -- The same for version 2, whose rings have fixed places.
  pub vq_setup_v2-IsReady :
      0 < told_max → IsReady s (vq_setup_v2 mmio v_base_addr q_index storage s) storage told_max
  unfolding vq_setup_v2 set_reg reg queue_v2
  vq_setup_v2-IsReady pos =
      let (some_size, bound) = pick_bounds pos in
      if_elim (λ (r : Setup Side). IsReady s r storage told_max)
        ((told_max == 0) || (pick_size told_max == 0))
        (λ bad. absurd (ground (arith, bad, pos, some_size)))
        (λ _. ready _ pos refl (queue_v2-IsRings storage (pick_size told_max) bound) refl refl)
