-- ===== src/File/Index.antt =====
-- `fm_create` of src/manage/fm.c and the list of files of the root directory.
use ax_kernel.Prelude.{◌↔◌, ◌<◌, arith, ◌≤◌, ◌≡◌, ℕ, suc}
use ax_kernel.File.{
  root_name, max_file_num, finish_file, put_at, none, max_file_size, fm_dir_find, some,
  new_file_block, fm_dir_in, stored, fm_create, fill_file, Bpt, FmRecord, Name,
}

module _ {Node : Type 0} (bpt : Bpt Node) where
  -- A file that passes the tests of `fm_create` and enters the tree: the write into the list of the
  -- root directory `d` is out of the bounds of the list exactly when it has 16 files already.
  pub fm_create_undefined :
      (reco : FmRecord Node) (root' : Node) (name : Name) (size auth r d : ℕ)
      → (size ≤ max_file_size) × (reco.all_file_num < max_file_num)
      → bpt.bpt_insert reco.root name reco.all_file_num ≡ (suc r, root')
      → bpt.bpt_search reco.dir_root root_name ≡ some d
      → (fm_create bpt reco name size auth ≡ none) ↔ (16 ≤ (reco.dirs d).dir_num)
  unfolding fm_create fill_file fm_dir_in fm_dir_find stored finish_file new_file_block put_at
  fm_create_undefined reco root' name size auth r d h e1 e2 = ground (arith, e1, e2)
