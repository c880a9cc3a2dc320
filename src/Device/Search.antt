-- ===== src/Device/Search.antt =====
-- `dm_find` after `dm_creat`.
use ax_kernel.Device.{
  Created, Driver, Device, dm_creat, dm_find, find_from, is_called, is_registered, max_devi_num,
}
use ax_kernel.Prelude.{
  ℕ, zero, suc, ◌+◌, ◌≡◌, List, some, leb, if◌then◌else◌, ◌==◌, refl, ap₂, if_elim,
}

same_name :
    (driv : Driver) (irq_nr : ℕ) (dev : Device) (i : ℕ)
    → ((dm_creat driv irq_nr dev).driver i).name ≡ (driv i).name
unfolding dm_creat
same_name driv irq_nr dev i =
    if_elim (λ (r : Created). (r.driver i).name ≡ (driv i).name) (leb max_devi_num irq_nr)
      (λ _. refl)
      (λ _.
        if_elim (λ (r : Created). (r.driver i).name ≡ (driv i).name)
          (is_registered (driv irq_nr).name) (λ _. refl)
          (λ _.
            if_elim (λ (d : Device). d.name ≡ (driv i).name) (i == irq_nr) (λ _. refl) (λ _. refl)))

find_from-dm_creat :
    (driv : Driver) (irq_nr : ℕ) (dev : Device) (name : List ℕ) (n i : ℕ)
    → find_from (dm_creat driv irq_nr dev).driver name n i ≡ find_from driv name n i
unfolding find_from
find_from-dm_creat driv irq_nr dev name zero i = refl
find_from-dm_creat driv irq_nr dev name (suc n) i =
    ap₂ (λ m rest. if is_called m name then some i else rest) (same_name driv irq_nr dev i)
      (find_from-dm_creat driv irq_nr dev name n (i + 1))

-- The registration of a device, whatever device it is, changes the answer to no search by name.
pub dm_find-dm_creat :
    (driv : Driver) (irq_nr : ℕ) (dev : Device) (name : List ℕ)
    → dm_find (dm_creat driv irq_nr dev).driver name ≡ dm_find driv name
unfolding dm_find
dm_find-dm_creat driv irq_nr dev name = find_from-dm_creat driv irq_nr dev name max_devi_num 0
