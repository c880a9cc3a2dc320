-- ===== src/Loader/Exec.antt =====
-- `mata_exec_file` of src/global/meta.c: a program file is started as it is, or loaded as an image.
use ax_kernel.Prelude.Bytes.{little_endian}
use ax_kernel.File.{Bpt, FmRecord, Name, fm_find, fm_data_addr}
use ax_kernel.Loader.{elf_load_image}
use ax_kernel.Proc.{Pcb, at_proc}
use ax_kernel.Proc.Create.{Kernel, pm_create}
use ax_kernel.Prelude.{ℕ, ◌+◌, Option, none, some, ◌==◌, if◌then◌else◌}
use ax_kernel.Prelude.Results.{◌>>=◌}
use ax_kernel.Prelude.Word.{u32}

pub record FmExecHdr : Type 0 where
  pub magic : ℕ
  pub mode : ℕ
  pub entry : ℕ
  pub image_size : ℕ

unfoldable pub read_hdr : (ℕ → ℕ) → ℕ → FmExecHdr
unfolding little_endian
read_hdr memory a = record {
  magic = little_endian memory 8 a;
  mode = little_endian memory 8 (a + 8);
  entry = little_endian memory 8 (a + 16);
  image_size = little_endian memory 8 (a + 24);
}

-- The kernel with the bytes of the memory.
pub record Machine : Type 0 where
  pub kernel : Kernel
  pub memory : ℕ → ℕ

-- From the answer of `elf_load_image` on. A process whose image is refused is not released.
unfoldable pub finish_image : Kernel → ℕ → Option Pcb × (ℕ → ℕ) → Option ℕ × Machine
unfolding at_proc
finish_image k id (none, memory) = (none, record { kernel = k; memory = memory })
finish_image k id (some proc, memory) = (
  some id,
  record {
    kernel = record k { pm = record k.pm { procs = at_proc k.pm.procs id (λ _. proc) } };
    memory = memory;
  },
)

-- From the answer of `pm_create` on.
unfoldable pub fill_image : (ℕ → ℕ) → ℕ → FmExecHdr → Option ℕ × Kernel → Option ℕ × Machine
unfolding elf_load_image finish_image
fill_image memory hdr_addr hdr (none, k) = (none, record { kernel = k; memory = memory })
fill_image memory hdr_addr hdr (some id, k) =
    finish_image k id
      (elf_load_image k.mm_stack (k.pm.procs id) (hdr_addr + 32) (u32 hdr.image_size) memory)

-- The outer `none` is that of `pm_create`.
unfoldable pub exec_at : Machine → ℕ → ℕ → Option (Option ℕ × Machine)
unfolding read_hdr fill_image pm_create
exec_at m hdr_addr parid =
    let hdr = read_hdr m.memory hdr_addr in
    if hdr.magic == 0x415853504144453B
    then if hdr.mode == 0
      then (pm_create m.kernel hdr.entry parid >>= λ answer.
          some (answer.0, record { kernel = answer.1; memory = m.memory }))
      else if hdr.mode == 1
      then (pm_create m.kernel 0 parid >>= λ answer. some (fill_image m.memory hdr_addr hdr answer))
      else some (none, m)
    else some (none, m)

module _ {Node : Type 0} (bpt : Bpt Node) where
  unfoldable pub exec_found : FmRecord Node → Machine → ℕ → Option ℕ → Option (Option ℕ × Machine)
  unfolding exec_at
  exec_found reco m parid none = some (none, m)
  exec_found reco m parid (some slot) = exec_at m (fm_data_addr reco (reco.files slot)) parid

  unfoldable pub mata_exec_file : FmRecord Node → Machine → Name → ℕ → Option (Option ℕ × Machine)
  unfolding exec_found fm_find
  mata_exec_file reco m path parid = exec_found reco m parid (fm_find bpt reco path)
