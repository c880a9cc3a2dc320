-- ===== src/Device.antt =====
-- The table of devices of src/manage/dm.c. A function pointer is a number, `none` is NULL; the name of
-- a device is its string.
pub mod Search
use ax_kernel.Text.{strcmp}
use ax_kernel.Prelude.Int.{ℤ, of_nat, eq_int}
use ax_kernel.Prelude.{
  ℕ, zero, suc, ◌+◌, List, Option, none, some, leb, if◌then◌else◌, ◌==◌, Bool, true, false,
}

abbrev pub max_devi_num : ℕ
max_devi_num = 32

-- `dcb_t`, with the functions that the table calls.
pub record Device : Type 0 where
  pub name : Option (List ℕ)
  pub base_addr : ℕ
  pub irq_nr : ℕ
  pub init : Option ℕ

-- `DMv1_mem`.
abbrev pub Driver : Type 0
Driver = ℕ → Device

-- What `dm_creat` answers: the slot, the function that it calls, and the table.
pub record Created : Type 0 where
  pub slot : Option ℕ
  pub called : Option ℕ
  pub driver : Driver

unfoldable pub is_registered : Option (List ℕ) → Bool
is_registered none = false
is_registered (some name) = true

unfoldable pub dm_creat : Driver → ℕ → Device → Created
unfolding is_registered
dm_creat driv irq_nr dev =
    if leb max_devi_num irq_nr
    then record { slot = none; called = none; driver = driv }
    else if is_registered (driv irq_nr).name
    then record { slot = none; called = none; driver = driv }
    else record {
      slot = some irq_nr;
      called = (driv irq_nr).init;
      driver = λ i. if i == irq_nr then record (driv i) { irq_nr = irq_nr } else driv i;
    }

unfoldable pub is_called : Option (List ℕ) → List ℕ → Bool
unfolding strcmp
is_called none name = false
is_called (some found) name = eq_int (strcmp found name) (of_nat 0)

-- The loop over the `n` devices from `i` on.
unfoldable pub find_from : Driver → List ℕ → ℕ → ℕ → Option ℕ
unfolding is_called
find_from driv name zero i = none
find_from driv name (suc n) i =
    let rest = find_from driv name n (i + 1) in
    if is_called (driv i).name name then some i else rest

unfoldable pub dm_find : Driver → List ℕ → Option ℕ
unfolding find_from
dm_find driv name = find_from driv name max_devi_num 0
