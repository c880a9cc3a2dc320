-- ===== src/DeviceTree/Layout.antt =====
-- A flattened device tree in the memory, as its format is defined and without the helpers of
-- src/global/dtb.c: big-endian words, names that end with a 0, and tokens at multiples of four bytes
-- from the start.
use ax_kernel.Prelude.{◌%◌, ◌⊎◌, [], ◌*◌, ◌-◌, ◌∷◌, ◌≢◌, List, ◌+◌, ◌<◌, ◌^◌, ◌≡◌, ℕ}

-- What a property says: where the registers are, which interrupt, or something else.
pub data Property : Type 0 where
  reg : ℕ → Property
  interrupts : ℕ → ℕ → Property
  other : Property

-- A token with the length of the name or of the value.
pub data Token : Type 0 where
  begin_token : ℕ → Token
  end_token : Token
  prop_token : ℕ → Property → Token
  nop_token : Token

-- Words with the highest byte first.
abbrev pub word32 : (ℕ → ℕ) → ℕ → ℕ
word32 memory a =
    2 ^ 24 * memory a + 2 ^ 16 * memory (a + 1) + 2 ^ 8 * memory (a + 2) + memory (a + 3)

abbrev pub word64 : (ℕ → ℕ) → ℕ → ℕ
word64 memory a = 2 ^ 32 * word32 memory a + word32 memory (a + 4)

-- The length up to the next multiple of four.
abbrev pub padded : ℕ → ℕ
padded n = n + (4 - n % 4) % 4

-- A name of `len` bytes and the 0 behind it.
pub record IsName (memory : ℕ → ℕ) (a len : ℕ) : Type 0 where
  pub short : len < 256
  pub full : (k : ℕ) → k < len → memory (a + k) ≢ 0
  pub ends : memory (a + len) ≡ 0

-- The string at `a` is the given one.
unfoldable pub Spells : (ℕ → ℕ) → ℕ → List ℕ → Type 0
Spells memory a [] = memory a ≡ 0
Spells memory a (c ∷ cs) = (memory a ≡ c) × Spells memory (a + 1) cs

-- The string at `a` is another one.
unfoldable pub Differs : (ℕ → ℕ) → ℕ → List ℕ → Type 0
Differs memory a [] = memory a ≢ 0
Differs memory a (c ∷ cs) = (memory a ≢ c) ⊎ ((memory a ≡ c) × Differs memory (a + 1) cs)

-- The names "reg" and "interrupts".
abbrev pub reg_string : List ℕ
reg_string = 114 ∷ 101 ∷ 103 ∷ []

abbrev pub interrupts_string : List ℕ
interrupts_string = 105 ∷ 110 ∷ 116 ∷ 101 ∷ 114 ∷ 114 ∷ 117 ∷ 112 ∷ 116 ∷ 115 ∷ []

-- The property with its name at `name` and its value at `prop_val`.
unfoldable pub IsProperty : (ℕ → ℕ) → Property → ℕ → ℕ → Type 0
IsProperty memory (reg mmio_addr) name prop_val =
    Spells memory name reg_string × (word64 memory prop_val ≡ mmio_addr)
IsProperty memory (interrupts intr_type intr_num) name prop_val =
    Spells memory name interrupts_string
    × ((word32 memory prop_val ≡ intr_type) × (word32 memory (prop_val + 4) ≡ intr_num))
IsProperty memory other name prop_val =
    Differs memory name reg_string × Differs memory name interrupts_string

-- The tokens and the end of the tree stand in the memory from `p` on: 1 begins a node, 2 ends it, 3 is
-- a property, 4 nothing, and 9 the end.
unfoldable pub IsLaid : (ℕ → ℕ) → ℕ → List Token → ℕ → Type 0
IsLaid memory strings_ptr [] p = word32 memory p ≡ 9
IsLaid memory strings_ptr (begin_token len ∷ ts) p =
    (word32 memory p ≡ 1)
    × (IsName memory (p + 4) len × IsLaid memory strings_ptr ts (p + 4 + padded (len + 1)))
IsLaid memory strings_ptr (end_token ∷ ts) p =
    (word32 memory p ≡ 2) × IsLaid memory strings_ptr ts (p + 4)
IsLaid memory strings_ptr (prop_token len property ∷ ts) p =
    ((word32 memory p ≡ 3) × (len + 3 < 2 ^ 32))
    × ((word32 memory (p + 4) ≡ len)
        × (IsProperty memory property (strings_ptr + word32 memory (p + 8)) (p + 12)
            × IsLaid memory strings_ptr ts (p + 12 + padded len)))
IsLaid memory strings_ptr (nop_token ∷ ts) p =
    (word32 memory p ≡ 4) × IsLaid memory strings_ptr ts (p + 4)

-- A device tree with the tokens `ts` at address `dtb_addr`.
pub record IsTree (memory : ℕ → ℕ) (dtb_addr : ℕ) (ts : List Token) : Type 0 where
  pub bytes : (a : ℕ) → memory a < 256
  pub start : dtb_addr ≢ 0
  pub magic : word32 memory dtb_addr ≡ 0xd00dfeed
  pub laid :
      IsLaid memory
        (dtb_addr + word32 memory (dtb_addr + 12))
        ts
        (dtb_addr + word32 memory (dtb_addr + 8))

-- The register `device_id` of the device at an address, lowest byte first.
abbrev pub id_register : (ℕ → ℕ) → ℕ → ℕ
id_register memory a =
    memory (a + 8) + 2 ^ 8 * memory (a + 9) + 2 ^ 16 * memory (a + 10) + 2 ^ 24 * memory (a + 11)
