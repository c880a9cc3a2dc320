-- ===== src/File/Tests.antt =====
-- Runs of the file manager, with a list in place of the tree, whose key is the first character.
use ax_kernel.Prelude.{
  ◌⊎◌, inl, ℕ, ◌+◌, ◌%◌, ◌≡◌, ◌↔◌, refl, List, [], ◌∷◌, Option, none, some, ◌==◌, if◌then◌else◌,
  arith,
}
use ax_kernel.File.{Bpt, FmRecord, FileBlock, DirBlock, Name, fm_create, fm_init}
use ax_kernel.File.Data.{
  data_start, file_size, AreApart, fm_write, fm_read, fm_read-fm_write, fm_write_bound, clip,
}
use ax_kernel.File.Create.{IsValid, fm_create-IsValid, data_start-AreApart}

toy_search : List (ℕ × ℕ) → ℕ → Option ℕ
toy_search [] k = none
toy_search ((k', v) ∷ l) k = if k' == k then some v else toy_search l k

toy_remove : List (ℕ × ℕ) → ℕ → List (ℕ × ℕ)
toy_remove [] k = []
toy_remove ((k', v) ∷ l) k = let rest = toy_remove l k in if k' == k then rest else (k', v) ∷ rest

abbrev toy : Bpt (List (ℕ × ℕ))
toy = record {
  create_node = λ leaf. [];
  bpt_insert = λ n name v. (1, (name 0, v) ∷ n);
  bpt_search = λ n name. toy_search n (name 0);
  bpt_delete = λ n name. (1, toy_remove n (name 0));
}

abbrev no_file : FileBlock
no_file = record { alias = λ i. 0; lens = 0; fid = 0; depth = 0; auth = 0; is_alloc = 0 }

abbrev no_dir : DirBlock
no_dir = record {
  alias = λ i. 0;
  files = λ i. 0;
  dirs = λ i. 0;
  p_fid = 0;
  fid = 0;
  depth = 0;
  auth = 0;
  dir_num = 0;
  dir_dnum = 0;
}

abbrev blank : FmRecord (List (ℕ × ℕ))
blank = record {
  base = 0;
  cur_ptr = 0;
  all_file_num = 0;
  all_dir_num = 0;
  root = [];
  dir_root = [];
  files = λ i. no_file;
  dirs = λ i. no_dir;
}

-- The record of a computation that is defined.
record_of : Option (Option ℕ × FmRecord (List (ℕ × ℕ))) → FmRecord (List (ℕ × ℕ))
record_of none = blank
record_of (some (r, reco)) = reco

abbrev start : FmRecord (List (ℕ × ℕ))
unfolding record_of fm_init
start = record_of (fm_init toy blank 0x50000000)

abbrev disk_name : Name
disk_name i = 100

-- Two files of 4096 and 8192 bytes.
abbrev first : FmRecord (List (ℕ × ℕ))
first = record_of (fm_create toy start disk_name 4096 0)

abbrev second : FmRecord (List (ℕ × ℕ))
second = record_of (fm_create toy first (λ i. 101) 8192 0)

start-IsValid : IsValid start
unfolding record_of fm_init
start-IsValid = record {
  positive = omega arith;
  bound = omega arith;
  blocks = λ n lo hi. absurd (omega arith);
}

fm_create_done : fm_create toy start disk_name 4096 0 ≡ some (some 1, first)
unfolding fm_create record_of fm_init toy_search
fm_create_done = refl

fm_create_again : fm_create toy first (λ i. 101) 8192 0 ≡ some (some 2, second)
unfolding fm_create record_of fm_init toy_search
fm_create_again = refl

fm_create-IsValid_example : IsValid first
fm_create-IsValid_example =
    fm_create-IsValid toy start first disk_name 4096 0 (some 1) start-IsValid fm_create_done

second-IsValid : IsValid second
second-IsValid =
    fm_create-IsValid toy first second (λ i. 101) 8192 0 (some 2)
      (fm_create-IsValid toy start first disk_name 4096 0 (some 1) start-IsValid fm_create_done)
      fm_create_again

second_num : second.all_file_num ≡ 3
unfolding fm_create record_of fm_init toy_search
second_num = refl

data_start-AreApart_example :
    ((data_start second 1 ≡ data_start second 2) ↔ (1 % 32 ≡ 2 % 32))
    × ((1 % 32 ≡ 2 % 32)
        ⊎ AreApart
            (data_start second 1)
            (file_size (second.files 1))
            (data_start second 2)
            (file_size (second.files 2)))
data_start-AreApart_example =
    data_start-AreApart second 1 2 second-IsValid (omega arith, omega (arith, second_num))
      (omega arith, omega (arith, second_num))

second_start : data_start second 2 ≡ 0x50200000
unfolding fm_create record_of fm_init toy_search ax_kernel.File.fm_data_addr
second_start = refl

second_size : clip (second.files 2) 3000 1000 ≡ 3000
unfolding fm_create record_of fm_init toy_search clip
second_size = refl

abbrev ram : ℕ → ℕ
ram a = a % 251

fm_read-fm_write_example :
    let written = fm_write second ram (some 2) 4096 3000 1000 in
    let read = fm_read second written.1 (some 2) 8192 3000 1000 in
    ((written.0 ≡ clip (second.files 2) 3000 1000) × (read.0 ≡ written.0))
    × (read.1 (8192 + 2999) ≡ ram (4096 + 2999))
fm_read-fm_write_example =
    fm_read-fm_write second ram 2 4096 8192 3000 1000 2999 (inl (omega (arith, second_start)))
      (inl (omega (arith, second_start))) (omega (arith, second_size))

fm_write_bound_example : (fm_write second ram (some 2) 4096 3000 7000).1 0x50100000 ≡ ram 0x50100000
fm_write_bound_example =
    fm_write_bound second ram 2 4096 3000 7000 0x50100000 (inl (omega (arith, second_start)))
