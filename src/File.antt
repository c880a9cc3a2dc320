-- ===== src/File.antt =====
-- The file manager: src/manage/fm.c and include/manage/_fm.h.
-- A pointer to a control block is its index in `FMv3_mem` or `FMv3_dir_mem`, `none` for NULL. Every
-- caller passes the one record `fm_record`, which `fm_create` also names directly. The fields for
-- dates, the checksum, `data_pool` and `is_lock` are never read or written. The B+ tree of
-- tools/fs.c, which Tree models, is here the interface `Bpt`: its operations take and give back one
-- value, so the heap that the two trees share is left out, and so is a root that is NULL because its
-- page could not be had. No law of the operations is assumed.
pub mod Data
pub mod Create
pub mod Index
mod Tests
use ax_kernel.Prelude.{
  ◌||◌, ℕ, zero, suc, ◌+◌, ◌-◌, ◌*◌, ◌/◌, ◌%◌, ◌^◌, Bool, true, false, ◌&&◌, Option, none, some,
  ◌==◌, leb, ltb, if◌then◌else◌,
}
use ax_kernel.Prelude.Word.{u8, u16, u32}

-- The characters at a name, also those after its NUL.
abbrev pub Name : Type 0
Name = ℕ → ℕ

-- The tree: 1 for success, and the value stored with a name.
pub record Bpt (Node : Type 0) : Type 0 where
  pub create_node : ℕ → Node
  pub bpt_insert : Node → Name → ℕ → ℕ × Node
  pub bpt_search : Node → Name → Option ℕ
  pub bpt_delete : Node → Name → ℕ × Node

abbrev pub max_file_name : ℕ
max_file_name = 32

abbrev pub max_file_size : ℕ
max_file_size = 0x100000

abbrev pub max_file_num : ℕ
max_file_num = 0x1000

abbrev pub max_dir_file_num : ℕ
max_dir_file_num = 16

abbrev pub max_dir_num : ℕ
max_dir_num = 0x1000 / 16

-- `fcb_t`; lens has 11 bits, fid 5, depth 4, auth 10.
pub record FileBlock : Type 0 where
  pub alias : ℕ → ℕ
  pub lens : ℕ
  pub fid : ℕ
  pub depth : ℕ
  pub auth : ℕ
  pub is_alloc : ℕ

-- `fcb_e`; p_fid and fid have 6 bits, depth 4, auth 10, dir_num 6.
pub record DirBlock : Type 0 where
  pub alias : ℕ → ℕ
  pub files : ℕ → ℕ
  pub dirs : ℕ → ℕ
  pub p_fid : ℕ
  pub fid : ℕ
  pub depth : ℕ
  pub auth : ℕ
  pub dir_num : ℕ
  pub dir_dnum : ℕ

pub record FmRecord (Node : Type 0) : Type 0 where
  pub base : ℕ
  pub cur_ptr : ℕ
  pub all_file_num : ℕ
  pub all_dir_num : ℕ
  pub root : Node
  pub dir_root : Node
  pub files : ℕ → FileBlock
  pub dirs : ℕ → DirBlock

unfoldable pub put_at {ℓ} : {A : Type ℓ} → (ℕ → A) → ℕ → A → ℕ → A
put_at m i v j = if j == i then v else m j

-- The first 32 characters, and the NUL.
unfoldable pub copy_name : (ℕ → ℕ) → Name → ℕ → ℕ
copy_name old name i =
    if ltb i max_file_name then name i else (if i == max_file_name then 0 else old i)

-- "root" as it stands in memory.
abbrev pub root_name : Name
root_name i =
    if i == 0 then 114 else if (i == 1) || (i == 2) then 111 else if i == 3 then 116 else 0

-- The block of a new file in slot `slot`.
unfoldable pub new_file_block : FileBlock → Name → ℕ → ℕ → ℕ → FileBlock
unfolding copy_name
new_file_block old name size auth slot = record old {
  alias = copy_name old.alias name;
  is_alloc = 1;
  lens = size / 2 ^ 10 % 2 ^ 11;
  fid = u16 slot % 2 ^ 5;
  auth = auth % 2 ^ 10;
}

-- The name and the cleared lists of directory `value`.
unfoldable pub clear_dir : DirBlock → Name → DirBlock
unfolding copy_name
clear_dir old name = record old {
  alias = copy_name old.alias name;
  files = λ i. if ltb i max_dir_file_num then 0 else old.files i;
  dirs = λ i. if ltb i max_dir_file_num then 0 else old.dirs i;
}

module _ {Node : Type 0} where
  -- `none` is a write past the array `files` of the directory, which C leaves undefined.
  unfoldable pub fm_dir_in : FmRecord Node → Option ℕ → ℕ → Option (ℕ × FmRecord Node)
  unfolding put_at
  fm_dir_in reco none file_id = some (0, reco)
  fm_dir_in reco (some d) file_id =
      let dir = reco.dirs d in
      let dir' = record dir {
        files = put_at dir.files dir.dir_num file_id;
        dir_num = (dir.dir_num + 1) % 2 ^ 6;
      } in
      if ltb reco.all_file_num file_id
      then some (0, reco)
      else if ltb dir.dir_num max_dir_file_num
      then some (1, record reco { dirs = put_at reco.dirs d dir' })
      else none

  -- `none` as for `fm_dir_in`.
  unfoldable pub fm_dir_out : FmRecord Node → Option ℕ → ℕ → Option (ℕ × FmRecord Node)
  unfolding put_at
  fm_dir_out reco none file_id = some (0, reco)
  fm_dir_out reco (some d) file_id =
      let dir = reco.dirs d in
      let dir' = record dir { files = put_at dir.files file_id 0 } in
      if leb reco.all_file_num file_id
      then some (0, reco)
      else if ltb file_id max_dir_file_num
      then some (1, record reco { dirs = put_at reco.dirs d dir' })
      else none

  -- The parent's entry for directory `value` below it. `none` is a write past `dirs` of the parent,
  -- or a parent outside the array.
  unfoldable pub link_parent : FmRecord Node → ℕ → ℕ → Option (ℕ → DirBlock)
  unfolding put_at
  link_parent reco p_fid value =
      let up = reco.dirs p_fid in
      if ltb p_fid max_dir_num && ltb up.dir_dnum max_dir_file_num
      then some (
          put_at reco.dirs p_fid (record up {
            dirs = put_at up.dirs up.dir_dnum value;
            dir_dnum = u16 (up.dir_dnum + 1);
          }))
      else none

  -- The end of `fm_dir_create`, with `p_fid` and the parent's list written.
  unfoldable pub finish_dir : FmRecord Node → ℕ → ℕ → ℕ → ℕ → FmRecord Node
  unfolding put_at
  finish_dir reco value p_fid depth auth = record reco {
    dirs = put_at reco.dirs value (record (reco.dirs value) {
      p_fid = p_fid % 2 ^ 6;
      depth = depth % 2 ^ 4;
      fid = value % 2 ^ 6;
      auth = auth % 2 ^ 10;
      dir_num = 0;
      dir_dnum = 0;
    });
    all_dir_num = u16 (value + 1);
  }

  -- The record is not NULL.
  unfoldable pub fm_execute : FmRecord Node → FmRecord Node
  fm_execute reco = if reco.base == 0 then reco else record reco {
    all_file_num = if ltb max_file_num reco.all_file_num then 0 else reco.all_file_num;
    cur_ptr = if ltb max_file_num reco.cur_ptr then 0 else reco.cur_ptr;
  }

  unfoldable pub fm_data_addr : FmRecord Node → FileBlock → ℕ
  fm_data_addr reco file = reco.base + u32 (file.fid * max_file_size)

-- The record with a new file in the next slot, and its name in the tree.
unfoldable pub stored : {Node : Type 0} → FmRecord Node → Name → ℕ → ℕ → Node → FmRecord Node
unfolding put_at new_file_block
stored reco name size auth root' =
    let slot = reco.all_file_num in
    record reco {
      root = root';
      files = put_at reco.files slot (new_file_block (reco.files slot) name size auth slot);
      all_file_num = u16 (slot + 1);
    }

-- The answer of `fm_create` after the one of `fm_dir_in`, which it ignores.
unfoldable pub finish_file :
    {Node : Type 0} → ℕ → Option (ℕ × FmRecord Node) → Option (Option ℕ × FmRecord Node)
finish_file slot none = none
finish_file slot (some (done, reco)) = some (some slot, reco)

module _ {Node : Type 0} (bpt : Bpt Node) where
  unfoldable pub fm_find : FmRecord Node → Name → Option ℕ
  fm_find reco name = bpt.bpt_search reco.root name

  unfoldable pub fm_dir_find : FmRecord Node → Name → Option ℕ
  fm_dir_find reco name = bpt.bpt_search reco.dir_root name

  -- What `fm_create` does with the answer of the insertion.
  unfoldable pub fill_file :
      FmRecord Node → Name → ℕ → ℕ → ℕ × Node → Option (Option ℕ × FmRecord Node)
  unfolding fm_dir_in fm_dir_find stored finish_file
  fill_file reco name size auth (zero, root') = some (none, record reco { root = root' })
  fill_file reco name size auth (suc r, root') =
      let slot = reco.all_file_num in
      let reco' = stored reco name size auth root' in
      finish_file slot (fm_dir_in reco' (fm_dir_find reco' root_name) (reco'.files slot).fid)

  unfoldable pub fm_create : FmRecord Node → Name → ℕ → ℕ → Option (Option ℕ × FmRecord Node)
  unfolding fill_file
  fm_create reco name size auth =
      if ltb max_file_size size
      then some (none, reco)
      else if leb max_file_num reco.all_file_num
      then some (none, reco)
      else fill_file reco name size auth (bpt.bpt_insert reco.root name reco.all_file_num)

  unfoldable pub fm_delete : FmRecord Node → Name → ℕ × FmRecord Node
  fm_delete reco name =
      let (done, root') = bpt.bpt_delete reco.root name in (u8 done, record reco { root = root' })

  unfoldable pub fm_dir_delete : FmRecord Node → Name → ℕ × FmRecord Node
  fm_dir_delete reco name =
      let (done, root') = bpt.bpt_delete reco.dir_root name in
      (u8 done, record reco { dir_root = root' })

  unfoldable pub fill_dir :
      FmRecord Node → Name → ℕ → ℕ → ℕ → ℕ × Node → Option (Option ℕ × FmRecord Node)
  unfolding put_at clear_dir link_parent finish_dir
  fill_dir reco name p_fid depth auth (zero, root') = some (none, record reco { dir_root = root' })
  fill_dir reco name p_fid depth auth (suc r, root') =
      let value = reco.all_dir_num in
      let reco' = record reco {
        dir_root = root';
        dirs = put_at reco.dirs value (clear_dir (reco.dirs value) name);
      } in
      if ltb 2 depth
      then some (none, reco')
      else if depth == 0
      then some (some value, finish_dir reco' value 0 depth auth)
      else elim (link_parent reco' p_fid value) [
        | none ↦ none
        | some dirs' ↦
            some (some value, finish_dir (record reco' { dirs = dirs' }) value p_fid depth auth)
      ]

  -- `none` is a write outside an array: the test is against MAX_FILE_NUM, the array has MAX_DIR_NUM.
  unfoldable pub fm_dir_create :
      FmRecord Node → Name → ℕ → ℕ → ℕ → Option (Option ℕ × FmRecord Node)
  unfolding fill_dir
  fm_dir_create reco name p_fid depth auth =
      let value = reco.all_dir_num in
      let (done, root') = bpt.bpt_insert reco.dir_root name value in
      if leb max_file_num value
      then some (none, reco)
      else if (done == 0) || ltb value max_dir_num
      then fill_dir reco name p_fid depth auth (done, root')
      else none

  unfoldable pub fm_init : FmRecord Node → ℕ → Option (Option ℕ × FmRecord Node)
  unfolding fm_dir_create
  fm_init reco addr =
      fm_dir_create
        (record reco {
          base = addr;
          cur_ptr = 0;
          all_file_num = 1;
          all_dir_num = 1;
          root = bpt.create_node 1;
          dir_root = bpt.create_node 1;
        })
        root_name 0 0 777
