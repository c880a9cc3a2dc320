-- ===== src/File/Create.antt =====
-- `fm_create`: the control blocks it fills, and where the data of files lies.
use ax_kernel.Prelude.Results.{Every, Every-none, Every-some, Every-if}
use ax_kernel.Prelude.{
  ◌⊎◌, refl, ==_iff, ◌==◌, sym, zero, subst, if_elim, ℕ, suc, ◌%◌, ◌≤◌, ◌<◌, ◌≡◌, ◌↔◌, Option, none,
  some, arith, ltb, leb,
}
use ax_kernel.File.{
  stored, finish_file, Bpt, FileBlock, FmRecord, Name, max_file_size, max_file_num,
  max_dir_file_num, put_at, new_file_block, fill_file, fm_create, fm_dir_in, fm_data_addr,
}
use ax_kernel.File.Data.{data_start, file_size, AreApart}

-- The block of slot `n` was made by `fm_create`.
pub record IsFile (block : FileBlock) (n : ℕ) : Type 0 where
  pub fid : block.fid ≡ n % 32
  pub lens : block.lens ≤ 1024
  pub is_alloc : block.is_alloc ≡ 1

-- Every slot from 1 to the last one given out holds a file. Slot 0 is never given out.
pub record IsValid {Node : Type 0} (reco : FmRecord Node) : Type 0 where
  pub positive : 0 < reco.all_file_num
  pub bound : reco.all_file_num ≤ max_file_num
  pub blocks : (n : ℕ) → 0 < n → n < reco.all_file_num → IsFile (reco.files n) n

new_file_block-IsFile :
    (old : FileBlock) (name : Name) (size auth slot : ℕ)
    → size ≤ max_file_size
    → slot < max_file_num
    → IsFile (new_file_block old name size auth slot) slot
unfolding new_file_block
new_file_block-IsFile old name size auth slot h lt = record {
  fid = omega arith;
  lens = omega arith;
  is_alloc = omega arith;
}

-- Validity reads the blocks and their number only.
IsValid_same :
    {Node : Type 0} (reco reco2 : FmRecord Node)
    → reco2.files ≡ reco.files
    → reco2.all_file_num ≡ reco.all_file_num
    → IsValid reco
    → IsValid reco2
IsValid_same reco reco2 p q v = record {
  positive = omega (arith, v.positive, q);
  bound = omega (arith, v.bound, q);
  blocks = λ n lo hi. subst (λ f. IsFile (f n) n) (sym p) (v.blocks n lo (omega (arith, hi, q)));
}

-- What putting a file into a directory leaves alone.
pub record IsKept {Node : Type 0} (reco reco2 : FmRecord Node) : Type 0 where
  pub files : reco2.files ≡ reco.files
  pub number : reco2.all_file_num ≡ reco.all_file_num
  pub root : reco2.root ≡ reco.root

pub fm_dir_in-IsKept :
    {Node : Type 0} (reco : FmRecord Node) (dir : Option ℕ) (file_id : ℕ)
    → Every (λ t. IsKept reco t.1) (fm_dir_in reco dir file_id)
unfolding fm_dir_in
fm_dir_in-IsKept reco none file_id =
    Every-some _ _ (record { files = refl; number = refl; root = refl })
fm_dir_in-IsKept reco (some d) file_id =
    Every-if _ (ltb reco.all_file_num file_id)
      (λ e. Every-some _ _ (record { files = refl; number = refl; root = refl }))
      (λ e.
        Every-if _ (ltb (reco.dirs d).dir_num max_dir_file_num)
          (λ e2. Every-some _ _ (record { files = refl; number = refl; root = refl }))
          (λ e2. Every-none _))

-- One more file, in the next slot.
IsValid-next :
    {Node : Type 0} (reco : FmRecord Node) (root' : Node) (name : Name) (size auth : ℕ)
    → IsValid reco
    → size ≤ max_file_size
    → reco.all_file_num < max_file_num
    → IsValid (stored reco name size auth root')
unfolding stored put_at
IsValid-next reco root' name size auth v h lt = record {
  positive = omega arith;
  bound = omega arith;
  blocks = λ n lo hi.
      if_elim (λ b. IsFile b n) (n == reco.all_file_num)
        (λ e. subst (IsFile _) (sym ((==_iff n reco.all_file_num).0 e)) (
          new_file_block-IsFile (reco.files reco.all_file_num) name size auth reco.all_file_num h
            lt))
        (λ e. v.blocks n lo (ground (arith, e, hi, lt)));
}

-- A property of what `fm_dir_in` leaves is one of what `fm_create` leaves.
pub Every-finish_file {κ} :
    {Node : Type 0} (P : Option ℕ × FmRecord Node → Type κ) (slot : ℕ)
    (o : Option (ℕ × FmRecord Node))
    → Every (λ t. P (some slot, t.1)) o
    → Every P (finish_file slot o)
unfolding finish_file
Every-finish_file P slot none h = Every-none P
Every-finish_file P slot (some (done, reco2)) h = Every-some P _ (h (done, reco2) refl)

module _ {Node : Type 0} (bpt : Bpt Node) where
  fill_file-IsValid :
      (reco : FmRecord Node) (name : Name) (size auth : ℕ) (answer : ℕ × Node)
      → IsValid reco
      → size ≤ max_file_size
      → reco.all_file_num < max_file_num
      → Every (λ t. IsValid t.1) (fill_file bpt reco name size auth answer)
  unfolding fill_file
  fill_file-IsValid reco name size auth (zero, root') v h lt =
      Every-some _ _ (IsValid_same reco _ refl refl v)
  fill_file-IsValid reco name size auth (suc r, root') v h lt =
      Every-finish_file (λ t. IsValid t.1) reco.all_file_num _
        (λ t e.
          let reco' = stored reco name size auth root' in
          let kept = fm_dir_in-IsKept reco' _ _ t e in
          IsValid_same reco' t.1 kept.files kept.number
            (IsValid-next reco root' name size auth v h lt))

  -- On every branch of `fm_create` (refused for its size or for the number of files, refused by the
  -- tree, or done), a valid record stays valid: every slot given out holds a file with the low five
  -- bits of the slot as its id and at most 1024 KB, and there are at most 4096 slots.
  pub fm_create-IsValid :
      (reco reco' : FmRecord Node) (name : Name) (size auth : ℕ) (answer : Option ℕ)
      → IsValid reco
      → fm_create bpt reco name size auth ≡ some (answer, reco')
      → IsValid reco'
  unfolding fm_create
  fm_create-IsValid reco reco' name size auth answer v =
      Every-if (λ t. IsValid t.1) (ltb max_file_size size) (λ e. Every-some _ _ v)
        (λ e.
          Every-if _ (leb max_file_num reco.all_file_num) (λ e2. Every-some _ _ v)
            (λ e2.
              fill_file-IsValid reco name size auth
                (bpt.bpt_insert reco.root name reco.all_file_num) v (ground (arith, e))
                (ground (arith, e2))))
        (answer, reco')

module _ {Node : Type 0} (reco : FmRecord Node) where
  -- Files of a valid record share their data exactly when their slots agree in the low five bits,
  -- and the data of any two others are apart.
  pub data_start-AreApart :
      (i j : ℕ)
      → IsValid reco
      → (0 < i) × (i < reco.all_file_num)
      → (0 < j) × (j < reco.all_file_num)
      → ((data_start reco i ≡ data_start reco j) ↔ (i % 32 ≡ j % 32))
        × ((i % 32 ≡ j % 32)
            ⊎ AreApart
                (data_start reco i)
                (file_size (reco.files i))
                (data_start reco j)
                (file_size (reco.files j)))
  unfolding fm_data_addr
  data_start-AreApart i j v hi hj =
      let a = v.blocks i hi.0 hi.1 in
      let b = v.blocks j hj.0 hj.1 in ground (arith, a.fid, b.fid, a.lens, b.lens)
