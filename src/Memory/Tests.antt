-- ===== src/Memory/Tests.antt =====
-- Runs of the memory manager: one process image of 1024 KB on a fresh map.
use ax_kernel.Prelude.{refl, arith, ◌/◌, ◌+◌, ◌⊎◌, ◌≡◌, true, false}
use ax_kernel.Memory.{MmStack, mm_init, mm_creat, mm_find}
use ax_kernel.Memory.Creat.{mm_creat_lem, is_refused, IsPushed}

abbrev fresh : MmStack
fresh =
    mm_init
      (record {
        base = 0;
        sp_top = 0;
        sp_bot = 0;
        sp_temp = 0;
        mem = λ i. 0;
        sp = 0;
        submem = λ i. 0;
      })
      0x40000000

-- 1024 KB are eight units in three entries, so the next allocation starts 1 MB further on.
next_start : mm_find (mm_creat fresh 1024).1 3 0 ≡ 0x40100000
unfolding mm_find mm_creat mm_init ax_kernel.Memory.regu_push
next_start = refl

mm_creat_lem_example :
    ((is_refused fresh 1024 ≡ true) × (mm_creat fresh 1024 ≡ (0, fresh)))
    ⊎ ((is_refused fresh 1024 ≡ false)
        × (((mm_creat fresh 1024).0 ≡ 0)
            × IsPushed fresh
                (mm_creat fresh 1024).1
                (((1024 + 127) / 128 + 2) / 3)
                ((1024 + 127) / 128)))
unfolding mm_init
mm_creat_lem_example = mm_creat_lem fresh 1024 (λ i. ground arith) (omega arith)
