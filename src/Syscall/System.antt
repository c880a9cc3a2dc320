-- ===== src/Syscall/System.antt =====
-- The state that the system calls work on, and what a call does to its caller. A pointer of the caller
-- is an address in the one memory; the control blocks of the managers are kept apart from it. The
-- address of an object of the kernel that a call hands out is an argument, like what the network
-- device answers.
use ax_kernel.Prelude.Results.{◌>>=◌}
use ax_kernel.Prelude.{◌-◌, ◌^◌, List, ltb, Option, if◌then◌else◌, ◌+◌, ℕ}
use ax_kernel.Device.{Driver}
use ax_kernel.File.{FmRecord, Name, put_at}
use ax_kernel.Network.{Nic}
use ax_kernel.Proc.{Pcb, PmObject}

-- `current_proc` is `none` for NULL. `keys` are the characters that `getchar` is going to give, and
-- `serial` those sent to the serial port, the last one first.
pub record System (Node : Type 0) : Type 0 where
  pub pm : PmObject
  pub current_proc : Option ℕ
  pub fm : FmRecord Node
  pub memory : ℕ → ℕ
  pub driver : Driver
  pub nic : Nic
  pub keys : List ℕ
  pub serial : List ℕ

-- The addresses of the directory blocks, of `payload_buf` and of the frame of `nm_cap`, and the index
-- that the network device shows when so many rounds of waiting are left.
pub record Image : Type 0 where
  pub dir_addr : ℕ → ℕ
  pub payload_base : ℕ
  pub pkt_addr : ℕ
  pub used : ℕ → ℕ

-- A call answers, or it never comes back; a read waits when there are no more characters.
pub data Reply : Type 0 where
  returned : ℕ → Reply
  stopped waiting : Reply

-- The registers `x0` to `x4` of the caller.
pub record Args : Type 0 where
  pub arg1 : ℕ
  pub arg2 : ℕ
  pub arg3 : ℕ
  pub arg4 : ℕ
  pub arg5 : ℕ

-- The characters from an address on.
abbrev pub name_at : (ℕ → ℕ) → ℕ → Name
name_at memory path i = memory (path + i)

-- `(uint64_t)` of an `int32_t`.
unfoldable pub sign_extend : ℕ → ℕ
sign_extend n = if ltb n (2 ^ 31) then n else n + (2 ^ 64 - 2 ^ 32)

-- The result of a call; `none` is what C leaves undefined.
abbrev pub Result : Type 0 → Type 0
Result Node = Option (Reply × System Node)

module _ {Node : Type 0} where
  unfoldable pub set_proc : System Node → ℕ → Pcb → System Node
  unfolding put_at
  set_proc s c p = record s { pm = record s.pm { procs = put_at s.pm.procs c p } }

  -- A call of the running process; without one it reads through NULL.
  unfoldable pub as_current : System Node → (ℕ → Pcb → Result Node) → Result Node
  as_current s call = s.current_proc >>= λ c. call c (s.pm.procs c)
