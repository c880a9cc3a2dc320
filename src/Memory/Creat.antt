-- ===== src/Memory/Creat.antt =====
-- `mm_creat`: which entries an allocation takes, and how many units they hold.
use ax_kernel.Prelude.{
  ◌⊎◌, ◌||◌, subst, ap₂, ℕ, zero, suc, ◌+◌, ◌-◌, ◌/◌, ◌^◌, ◌≤◌, ◌<◌, ◌≡◌, refl, Bool, true, false,
  ◌==◌, ltb, if◌then◌else◌, arith, ap, ◌∙◌, sym, inl, inr, Bool-cases,
}
use ax_kernel.Memory.{u8, MmStack, regu_push, push_units, units_of, entries_of, no_room, mm_creat}
use ax_kernel.Memory.Entry.{entry, AreBytes, entry-regu_push, AreBytes-regu_push}

-- The units in the `n` entries from `i` on.
abbrev pub units_in : (ℕ → ℕ) → ℕ → ℕ → ℕ
units_in m i zero = 0
units_in m i (suc n) = entry m i + units_in m (i + 1) n

units_in_same :
    (m m' : ℕ → ℕ) (i n : ℕ)
    → ((j : ℕ) → i ≤ j → j < i + n → entry m' j ≡ entry m j)
    → units_in m' i n ≡ units_in m i n
units_in_same m m' i zero h = refl
units_in_same m m' i (suc n) h = omega (
  arith,
  h i (omega arith) (omega arith),
  units_in_same m m' (i + 1) n (λ j lo hi. h j (omega arith) (omega arith)),
)

-- What a run of pushes from `s` to `t` leaves behind: `n` entries more, holding `units`, each of
-- them at least one unit, and everything below untouched.
pub record IsPushed (s t : MmStack) (n units : ℕ) : Type 0 where
  pub top : t.sp_top ≡ s.sp_top + n
  pub bot : t.sp_bot ≡ s.sp_bot
  pub base : t.base ≡ s.base
  pub holds : units_in t.mem s.sp_top n ≡ units
  pub below : (j : ℕ) → j < s.sp_top → entry t.mem j ≡ entry s.mem j
  pub bytes : AreBytes t.mem

module _ (s : MmStack) (v : ℕ) where
  pushed_top : s.sp_top < 0xFFFF → (regu_push s v).1.sp_top ≡ s.sp_top + 1
  unfolding regu_push
  pushed_top h = omega arith

  pushed_bot : (regu_push s v).1.sp_bot ≡ s.sp_bot
  unfolding regu_push
  pushed_bot = refl

  pushed_base : (regu_push s v).1.base ≡ s.base
  unfolding regu_push
  pushed_base = refl

push_one :
    (s : MmStack) (v : ℕ)
    → AreBytes s.mem
    → v < 4
    → s.sp_top < 0xFFFF
    → IsPushed s (regu_push s v).1 1 v
push_one s v bytes hv top = record {
  top = pushed_top s v top;
  bot = pushed_bot s v;
  base = pushed_base s v;
  holds = ground (arith, entry-regu_push s v s.sp_top bytes hv);
  below = λ j lt. ground (arith, entry-regu_push s v j bytes hv);
  bytes = AreBytes-regu_push s v bytes hv;
}

pieces : ℕ → ℕ
pieces n = if ltb 3 n then 3 else u8 n

push_units_step :
    (k : ℕ) (s : MmStack) (r : ℕ)
    → push_units (suc k) s (suc r)
      ≡ push_units k (regu_push s (pieces (suc r))).1 (suc r - pieces (suc r))
unfolding push_units pieces
push_units_step k s r = ground arith

pieces-bounds : (r : ℕ) → (pieces (suc r) < 4) × (pieces (suc r) ≤ suc r)
unfolding pieces
pieces-bounds r = ground arith

pieces-rounds : (r : ℕ) → (suc r + 2) / 3 ≡ suc ((suc r - pieces (suc r) + 2) / 3)
unfolding pieces
pieces-rounds r = ground arith

pieces_pos : (r : ℕ) → 0 < pieces (suc r)
unfolding pieces
pieces_pos r = ground arith

-- One push, then the pushes of the rest.
push_more :
    (s a t : MmStack) (n v rest : ℕ)
    → IsPushed s a 1 v
    → IsPushed a t n rest
    → IsPushed s t (suc n) (v + rest)
push_more s a t n v rest one more = record {
  top = omega (arith, more.top, one.top);
  bot = more.bot ∙ one.bot;
  base = more.base ∙ one.base;
  holds =
      ap₂ (λ x y. x + y) (more.below s.sp_top (omega (arith, one.top)) ∙ omega (arith, one.holds))
        (ap (λ i. units_in t.mem i n) (sym one.top) ∙ more.holds);
  below = λ j lt. more.below j (omega (arith, one.top)) ∙ one.below j lt;
  bytes = more.bytes;
}

IsPushed-none : (s : MmStack) → AreBytes s.mem → IsPushed s s 0 0
IsPushed-none s bytes = record {
  top = omega arith;
  bot = refl;
  base = refl;
  holds = refl;
  below = λ j lt. refl;
  bytes = bytes;
}

push_units_none : (k : ℕ) (s : MmStack) → push_units k s 0 ≡ s
unfolding push_units
push_units_none zero s = refl
push_units_none (suc k) s = refl

-- The loop ends, and has pushed the units asked for, three at a time.
pub push_units_lem :
    (k : ℕ) (s : MmStack) (remaining : ℕ)
    → AreBytes s.mem
    → remaining ≤ k
    → s.sp_top + (remaining + 2) / 3 ≤ 0xFFFF
    → IsPushed s (push_units k s remaining) ((remaining + 2) / 3) remaining
push_units_lem k s zero bytes h room =
    subst (λ t. IsPushed s t 0 0) (sym (push_units_none k s)) (IsPushed-none s bytes)
push_units_lem zero s (suc r) bytes h room = absurd (omega arith)
push_units_lem (suc k) s (suc r) bytes h room =
    let v : ℕ = pieces (suc r) in
    let small = pieces-bounds r in
    let one = push_one s v bytes small.0 (omega arith) in
    let more =
      push_units_lem k (regu_push s v).1 (suc r - v) one.bytes (omega (arith, pieces_pos r))
        (omega (arith, one.top, pieces-rounds r)) in
    let all = push_more s _ _ _ v _ one more in
    subst (λ t. IsPushed s t ((suc r + 2) / 3) (suc r)) (sym (push_units_step k s r))
      (subst (λ n. IsPushed s (push_units k (regu_push s v).1 (suc r - v)) n (suc r))
        (sym (pieces-rounds r)) (subst (IsPushed s _ _) (omega (arith, small.1)) all))

-- A request that is refused: for nothing, or for more entries than there is room for.
abbrev pub is_refused : MmStack → ℕ → Bool
is_refused s val16 = (val16 == 0) || no_room s (entries_of val16)

module _ (s : MmStack) (val16 : ℕ) where
  refused : is_refused s val16 ≡ true → mm_creat s val16 ≡ (0, s)
  unfolding mm_creat
  refused e = ground (arith, e)

  granted :
      is_refused s val16 ≡ false
      → mm_creat s val16 ≡ (s.sp_top, push_units (units_of val16) s (units_of val16))
  unfolding mm_creat
  granted e = ground (arith, e)

  granted_room : is_refused s val16 ≡ false → val16 < 2 ^ 16 → s.sp_top + entries_of val16 ≤ 0xFFFF
  unfolding no_room
  granted_room e h = ground (arith, e)

  taken :
      AreBytes s.mem
      → val16 < 2 ^ 16
      → is_refused s val16 ≡ false
      → IsPushed s
          (push_units (units_of val16) s (units_of val16))
          (((val16 + 127) / 128 + 2) / 3)
          ((val16 + 127) / 128)
  taken bytes h e =
      let units : units_of val16 ≡ (val16 + 127) / 128 = omega arith in
      let entries : entries_of val16 ≡ ((val16 + 127) / 128 + 2) / 3 = omega arith in
      subst
        (λ u. IsPushed s (push_units u s u) (((val16 + 127) / 128 + 2) / 3) ((val16 + 127) / 128))
        (sym units)
        (push_units_lem ((val16 + 127) / 128) s ((val16 + 127) / 128) bytes (omega arith)
          (omega (arith, granted_room e h, entries)))

-- A request in KB, of 16 bits, on a map whose array elements are bytes: when it is refused the
-- answer is 0 and the map is as it was; otherwise the answer is the first of exactly as many new
-- entries as its 128 KB units need at three to an entry, these entries hold together exactly the
-- units that the request rounds up to, every older entry keeps its count, and `base` and `sp_bot`
-- stay.
pub mm_creat_lem :
    (s : MmStack) (val16 : ℕ)
    → AreBytes s.mem
    → val16 < 2 ^ 16
    → ((is_refused s val16 ≡ true) × (mm_creat s val16 ≡ (0, s)))
      ⊎ ((is_refused s val16 ≡ false)
          × (((mm_creat s val16).0 ≡ s.sp_top)
              × IsPushed s
                  (mm_creat s val16).1
                  (((val16 + 127) / 128 + 2) / 3)
                  ((val16 + 127) / 128)))
mm_creat_lem s val16 bytes h = elim (Bool-cases (is_refused s val16)) [
  | inl e ↦ inl (e, refused s val16 e)
  | inr e ↦ inr (
    e,
    (
      ap (λ t. t.0) (granted s val16 e),
      subst (λ t. IsPushed s t (((val16 + 127) / 128 + 2) / 3) ((val16 + 127) / 128))
          (sym (ap (λ t. t.1) (granted s val16 e))) (taken s val16 bytes h e),
    ),
  )
]
