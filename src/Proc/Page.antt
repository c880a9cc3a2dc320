-- ===== src/Proc/Page.antt =====
-- `mm_page` of src/manage/pm.c: the walk of a three-level page table.
use ax_kernel.Prelude.{
  ◌∙◌, ap₂, sym, ℕ, ◌/◌, ◌+◌, ◌^◌, ◌%◌, ◌≡◌, ◌==◌, if◌then◌else◌, bit_and, arith,
}
use ax_kernel.Prelude.Word.{u64}
use ax_kernel.Prelude.Bits.{bit_and_mask}
use ax_kernel.Proc.Create.{Page}

-- The next table: NULL from a leaf or from an empty slot.
unfoldable pub descend : (ℕ → Page) → ℕ → ℕ → ℕ
descend pages table index =
    if table == 0 then 0 else if (pages table).is_leaf == 0 then (pages table).slots index else 0

unfoldable pub last_level : (ℕ → Page) → ℕ → ℕ → ℕ → ℕ
last_level pages table index offset =
    if table == 0
    then 0
    else if (pages table).is_leaf == 0
    then 0
    else u64 ((pages table).slots index + offset)

-- The three levels, from the indices.
unfoldable pub walk : (ℕ → Page) → ℕ → ℕ → ℕ → ℕ → ℕ → ℕ
unfolding descend last_level
walk pages now_page i0 i1 i2 offset =
    last_level pages (descend pages (descend pages now_page i0) i1) i2 offset

-- `now_page` is the table of the current process.
unfoldable pub mm_page : (ℕ → Page) → ℕ → ℕ → ℕ
unfolding walk
mm_page pages now_page vaddr =
    let addr = vaddr / 2 ^ 12 in
    walk pages now_page (bit_and (addr / 2 ^ 18) 0x1FF) (bit_and (addr / 2 ^ 9) 0x1FF)
      (bit_and addr 0x1FF) (bit_and vaddr 0xFFF)

-- Only the low 39 bits of an address are translated: two addresses that agree in them have the same
-- translation, whatever the tables hold.
pub mm_page_low_bits :
    (pages : ℕ → Page) (now_page a b : ℕ)
    → a % 2 ^ 39 ≡ b % 2 ^ 39
    → mm_page pages now_page a ≡ mm_page pages now_page b
unfolding mm_page
mm_page_low_bits pages now_page a b h =
    let nine : (x : ℕ) → bit_and x 0x1FF ≡ x % 512 = λ x. bit_and_mask 9 x in
    let e0 : bit_and (a / 2 ^ 12 / 2 ^ 18) 0x1FF ≡ bit_and (b / 2 ^ 12 / 2 ^ 18) 0x1FF =
      nine (a / 2 ^ 12 / 2 ^ 18) ∙ (omega arith ∙ sym (nine (b / 2 ^ 12 / 2 ^ 18))) in
    let e1 : bit_and (a / 2 ^ 12 / 2 ^ 9) 0x1FF ≡ bit_and (b / 2 ^ 12 / 2 ^ 9) 0x1FF =
      nine (a / 2 ^ 12 / 2 ^ 9) ∙ (omega arith ∙ sym (nine (b / 2 ^ 12 / 2 ^ 9))) in
    let e2 : bit_and (a / 2 ^ 12) 0x1FF ≡ bit_and (b / 2 ^ 12) 0x1FF =
      nine (a / 2 ^ 12) ∙ (omega arith ∙ sym (nine (b / 2 ^ 12))) in
    let e3 : bit_and a 0xFFF ≡ bit_and b 0xFFF =
      bit_and_mask 12 a ∙ (omega arith ∙ sym (bit_and_mask 12 b)) in
    ap₂ (λ f x. f x) (ap₂ (λ f x. f x) (ap₂ (walk pages now_page) e0 e1) e2) e3
