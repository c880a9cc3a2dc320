-- ===== src/DeviceTree/Tokens.antt =====
-- The reader of src/global/dtb.c on a memory that holds a device tree (Layout): its findings are those
-- of the list of tokens (Nodes).
use ax_kernel.Prelude.{
  ◌^◌, zero, suc, Option, arith, some, ◌<◌, sym, ◌∙◌, length, if_elim, ◌==◌, if◌then◌else◌, ap₂, ℕ,
  ◌+◌, ◌≡◌, refl, List, [], ◌∷◌, ap,
}
use ax_kernel.DeviceTree.{
  after_step, parse_dtb_tokens, fdt_magic, parse_dtb, parse_loop, Found, Cursor, more, finished,
  no_info, fdt_begin_node, fdt_end_node, fdt_prop, fdt_nop, word_at, end_node, put_reg, read_reg,
  put_interrupts, read_prop, next_token, fdt_align, fdt_strnlen,
}
use ax_kernel.Prelude.Bytes.{little_endian}
use ax_kernel.DeviceTree.Layout.{
  Property, reg, interrupts, other, Token, begin_token, end_token, prop_token, nop_token, word32,
  padded, IsName, IsProperty, IsLaid, IsTree, id_register,
}
use ax_kernel.DeviceTree.Reading.{
  id_register_lem, word_at-word32, fdt64_to_cpu-word64, fdt_align-padded, fdt_strnlen_lem,
  reg-is_named, interrupts-is_named, other-is_named,
}
use ax_kernel.DeviceTree.Nodes.{
  scan, info, info_empty, put_reg-info, put_interrupts-info, info-other, end_node-info,
}

module _ (memory : ℕ → ℕ) (bytes : (a : ℕ) → memory a < 256) where
  read_prop_lem :
      (property : Property) (name prop_val : ℕ) (said : List Property)
      → IsProperty memory property name prop_val
      → read_prop memory name prop_val (info (id_register memory) said)
        ≡ info (id_register memory) (property ∷ said)
  unfolding read_prop read_reg IsProperty
  read_prop_lem (reg mmio_addr) name prop_val said h =
      let n = info (id_register memory) said in
      let named = reg-is_named memory bytes name h.0 in
      rw (named.0, named.1)
        (ap₂ (λ a k. put_reg a k n) (fdt64_to_cpu-word64 memory bytes prop_val ∙ h.1)
            (ap (λ a. little_endian memory 4 (a + 8))
                (fdt64_to_cpu-word64 memory bytes prop_val ∙ h.1)
              ∙ id_register_lem memory mmio_addr)
          ∙ put_reg-info (id_register memory) mmio_addr said)
  read_prop_lem (interrupts intr_type intr_num) name prop_val said h =
      let n = info (id_register memory) said in
      let named = interrupts-is_named memory bytes name h.0 in
      rw (named.0, named.1)
        (ap₂ (λ t i. put_interrupts t i n) (word_at-word32 memory bytes prop_val ∙ h.1.0)
            (word_at-word32 memory bytes (prop_val + 4) ∙ h.1.1)
          ∙ put_interrupts-info (id_register memory) intr_type intr_num said)
  read_prop_lem other name prop_val said h =
      let named = other-is_named memory bytes name h.0 h.1 in
      rw (named.0, named.1) (info-other (id_register memory) said)

module _ (memory : ℕ → ℕ) (strings_ptr : ℕ) where
  at_end :
      (c : Cursor) → word_at memory c.p ≡ 9 → next_token memory strings_ptr c ≡ finished c.found
  unfolding next_token
  at_end c e = rw e refl

  at_begin :
      (c : Cursor)
      → word_at memory c.p ≡ fdt_begin_node
      → next_token memory strings_ptr c
        ≡ more (record c {
          p = c.p + 4 + fdt_align (fdt_strnlen memory (c.p + 4) 256 + 1);
          node = no_info;
        })
  unfolding next_token
  at_begin c e = rw e refl

  at_end_node :
      (c : Cursor)
      → word_at memory c.p ≡ fdt_end_node
      → next_token memory strings_ptr c
        ≡ more (record c { p = c.p + 4; found = end_node c.node c.found })
  unfolding next_token
  at_end_node c e = rw e refl

  at_prop :
      (c : Cursor)
      → word_at memory c.p ≡ fdt_prop
      → next_token memory strings_ptr c
        ≡ more (record c {
          p = c.p + 4 + 8 + fdt_align (word_at memory (c.p + 4));
          node = read_prop memory (strings_ptr + word_at memory (c.p + 4 + 4)) (c.p + 4 + 8) c.node;
        })
  unfolding next_token
  at_prop c e = rw e refl

  at_nop :
      (c : Cursor)
      → word_at memory c.p ≡ fdt_nop
      → next_token memory strings_ptr c ≡ more (record c { p = c.p + 4 })
  unfolding next_token
  at_nop c e = rw e refl

  -- Where the reader stands, `said` being what the node has told.
  abbrev cursor : ℕ → List Property → Found → Cursor
  cursor p said f = record { p = p; node = info (id_register memory) said; found = f }

  module _ (bytes : (a : ℕ) → memory a < 256) where
    word : (a n : ℕ) → word32 memory a ≡ n → word_at memory a ≡ n
    word a n e = word_at-word32 memory bytes a ∙ e

    -- Behind a name and behind a value.
    after_name :
        (p len : ℕ)
        → IsName memory (p + 4) len
        → p + 4 + fdt_align (fdt_strnlen memory (p + 4) 256 + 1) ≡ p + 4 + padded (len + 1)
    after_name p len name =
        ap (λ l. p + 4 + fdt_align (l + 1))
          (fdt_strnlen_lem memory bytes 256 (p + 4) len name.short name.full name.ends)
        ∙ ap (λ l. p + 4 + l) (fdt_align-padded memory bytes (len + 1) (omega (arith, name.short)))

    after_value :
        (p len : ℕ)
        → len + 3 < 2 ^ 32
        → word32 memory (p + 4) ≡ len
        → p + 4 + 8 + fdt_align (word_at memory (p + 4)) ≡ p + 12 + padded len
    after_value p len small e =
        ap (λ l. p + 4 + 8 + fdt_align l) (word (p + 4) len e)
        ∙ omega (arith, fdt_align-padded memory bytes len small)

    prop_node :
        (p : ℕ) (property : Property) (said : List Property)
        → IsProperty memory property (strings_ptr + word32 memory (p + 8)) (p + 12)
        → read_prop memory
            (strings_ptr + word_at memory (p + 4 + 4))
            (p + 4 + 8)
            (info (id_register memory) said)
          ≡ info (id_register memory) (property ∷ said)
    prop_node p property said h =
        let n = info (id_register memory) said in
        let four : p + 4 + 4 ≡ p + 8 = omega arith in
        let name : word_at memory (p + 4 + 4) ≡ word32 memory (p + 8) =
          ap (word_at memory) four ∙ word_at-word32 memory bytes (p + 8) in
        ap₂ (λ w v. read_prop memory (strings_ptr + w) v n) name (omega arith)
        ∙ read_prop_lem memory bytes property (strings_ptr + word32 memory (p + 8)) (p + 12) said h

    parse_loop_lem :
        (ts : List Token) (fuel p : ℕ) (said : List Property) (f : Found)
        → IsLaid memory strings_ptr ts p
        → length ts < fuel
        → parse_loop fuel memory strings_ptr (cursor p said f)
          ≡ some (scan (id_register memory) ts said f)
    unfolding parse_loop IsLaid scan
    parse_loop_lem ts zero p said f h lt = absurd (omega (arith, lt))
    parse_loop_lem [] (suc k) p said f h lt =
        ap (after_step (parse_loop k memory strings_ptr)) (at_end (cursor p said f) (word p 9 h))
    parse_loop_lem (begin_token len ∷ ts) (suc k) p said f h lt =
        ap (after_step (parse_loop k memory strings_ptr))
          (at_begin (cursor p said f) (word p 1 h.0))
        ∙ (ap₂ (λ q n. parse_loop k memory strings_ptr (record { p = q; node = n; found = f }))
              (after_name p len h.1.0) (sym (info_empty (id_register memory)))
            ∙ parse_loop_lem ts k (p + 4 + padded (len + 1)) [] f h.1.1 (omega (arith, lt)))
    parse_loop_lem (end_token ∷ ts) (suc k) p said f h lt =
        ap (after_step (parse_loop k memory strings_ptr))
          (at_end_node (cursor p said f) (word p 2 h.0))
        ∙ (ap (λ g. parse_loop k memory strings_ptr (cursor (p + 4) said g))
              (end_node-info (id_register memory) said f)
            ∙ parse_loop_lem ts k (p + 4) said _ h.1 (omega (arith, lt)))
    parse_loop_lem (prop_token len property ∷ ts) (suc k) p said f h lt =
        ap (after_step (parse_loop k memory strings_ptr))
          (at_prop (cursor p said f) (word p 3 h.0.0))
        ∙ (ap₂ (λ q n. parse_loop k memory strings_ptr (record { p = q; node = n; found = f }))
              (after_value p len h.0.1 h.1.0) (prop_node p property said h.1.1.0)
            ∙ parse_loop_lem ts k (p + 12 + padded len) (property ∷ said) f h.1.1.1
                (omega (arith, lt)))
    parse_loop_lem (nop_token ∷ ts) (suc k) p said f h lt =
        ap (after_step (parse_loop k memory strings_ptr)) (at_nop (cursor p said f) (word p 4 h.0))
        ∙ parse_loop_lem ts k (p + 4) said f h.1 (omega (arith, lt))

-- A memory of bytes holds a flattened device tree: big-endian words, names and values padded to four
-- bytes, names that end within 256 bytes and values of less than 2 ^ 32 - 3 bytes. The
-- reader, with more fuel than the tree has tokens, ends, and its findings are those of the list of the
-- tokens: every end of a node enters what the properties since the last start of a node say, which are
-- the last place in the window of the Virtio devices, the last interrupt, with 32 added if it is shared,
-- and the kind that the register of the device names.
pub parse_dtb-scan :
    (fuel : ℕ) (memory : ℕ → ℕ) (dtb_addr : ℕ) (ts : List Token) (f : Found)
    → IsTree memory dtb_addr ts
    → length ts < fuel
    → parse_dtb fuel memory dtb_addr f ≡ some (scan (id_register memory) ts [] f)
unfolding parse_dtb parse_dtb_tokens
parse_dtb-scan fuel memory dtb_addr ts f tree enough =
    let result = some (scan (id_register memory) ts [] f) in
    let start : (if dtb_addr == 0 then 0x40000000 else dtb_addr) ≡ dtb_addr =
      ground (arith, tree.start) in
    let magic : word_at memory dtb_addr ≡ fdt_magic =
      word_at-word32 memory tree.bytes dtb_addr ∙ tree.magic in
    let loop : (strings tokens : ℕ)
        → strings ≡ word32 memory (dtb_addr + 12)
        → tokens ≡ word32 memory (dtb_addr + 8)
        → parse_loop fuel memory (dtb_addr + strings)
            (record { p = dtb_addr + tokens; node = no_info; found = f })
          ≡ result =
      λ strings tokens e1 e2.
        ap₂
          (λ s n.
            parse_loop fuel memory (dtb_addr + s)
              (record { p = dtb_addr + tokens; node = n; found = f }))
          e1 (sym (info_empty (id_register memory)))
        ∙ (ap
              (λ q.
                parse_loop fuel memory (dtb_addr + word32 memory (dtb_addr + 12))
                  (record { p = dtb_addr + q; node = info (id_register memory) []; found = f }))
              e2
            ∙ parse_loop_lem memory (dtb_addr + word32 memory (dtb_addr + 12)) tree.bytes ts fuel
                (dtb_addr + word32 memory (dtb_addr + 8)) [] f tree.laid enough) in
    let read : parse_dtb_tokens fuel memory dtb_addr f ≡ result =
      if_elim (λ (r : Option Found). r ≡ result) (word_at memory dtb_addr == fdt_magic)
        (λ _.
          loop (word_at memory (dtb_addr + 12)) (word_at memory (dtb_addr + 8))
            (word_at-word32 memory tree.bytes (dtb_addr + 12))
            (word_at-word32 memory tree.bytes (dtb_addr + 8)))
        (λ bad. absurd (ground (arith, bad, magic))) in
    ap (λ a. if word_at memory a == fdt_magic then parse_dtb_tokens fuel memory a f else some f)
      start
    ∙ if_elim (λ (r : Option Found). r ≡ result) (word_at memory dtb_addr == fdt_magic) (λ _. read)
        (λ bad. absurd (ground (arith, bad, magic)))
