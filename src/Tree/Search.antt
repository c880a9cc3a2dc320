-- ===== src/Tree/Search.antt =====
-- Searching a tree in which one leaf has changed.
use ax_kernel.Prelude.{
  ◌≢◌, ap, sym, ◌∙◌, inl, inr, Bool-cases, ==_iff, ℕ, ◌≡◌, true, ◌&&◌, Option, none, some, ◌==◌,
  if◌then◌else◌, arith,
}
use ax_kernel.Prelude.Results.{◌>>=◌, >>=_assoc, some_inj}
use ax_kernel.Tree.{Node, value_at, leaf_value, store_node, search_leaf, search_keys}
use ax_kernel.Tree.Walk.{search_leaf-store, search_leaf-leaf, store_node_self, store_node_other}

-- The answer `o` for the pair of hashes `f` and `d`, and what was read before for the others.
abbrev pub override : ℕ → ℕ → Option ℕ → ℕ → ℕ → Option ℕ → Option ℕ
override f d o f' d' before = if (f' == f) && (d' == d) then o else before

module _ (nodes : ℕ → Node) (p : ℕ) (n : Node) (f d : ℕ) (o : Option ℕ) (f' d' : ℕ) where
  -- After the walk `w`.
  value_at-store :
      (w : Option (Option ℕ))
      → (f' ≡ f → w ≡ some (some p))
      → leaf_value n f' d' ≡ override f d o f' d' (leaf_value (nodes p) f' d')
      → (w >>= λ leaf. some (value_at (store_node nodes p n) leaf f' d'))
        ≡ (w >>= λ leaf. some (override f d o f' d' (value_at nodes leaf f' d')))
  unfolding value_at store_node
  value_at-store none h e = ground arith
  value_at-store (some none) h e = ground (arith, h)
  value_at-store (some (some q)) h e = elim (Bool-cases (q == p)) [
    | inl same ↦
        let here : leaf_value (nodes p) f' d' ≡ leaf_value (nodes q) f' d' =
          ap (λ x. leaf_value (nodes x) f' d') (sym ((==_iff q p).0 same)) in
        ap some (
          ap (λ m. leaf_value m f' d') (store_node_self nodes p n q same)
          ∙ (e ∙ ap (override f d o f' d') here))
    | inr away ↦
        let apart : f' ≢ f = λ z. ground (arith, away, some_inj _ _ (some_inj _ _ (h z))) in
        ap some
          (ap (λ m. leaf_value m f' d') (store_node_other nodes p n q away) ∙ ground (arith, apart))
  ]

  -- The leaf that the walk for `f` ends at is exchanged: all searches see exactly what the exchange
  -- changes.
  pub search_keys-store :
      (k root : ℕ)
      → search_leaf k nodes (some root) f ≡ some (some p)
      → n.is_leaf ≡ true
      → leaf_value n f' d' ≡ override f d o f' d' (leaf_value (nodes p) f' d')
      → search_keys k (store_node nodes p n) root f' d'
        ≡ (search_keys k nodes root f' d' >>= λ v. some (override f d o f' d' v))
  unfolding search_keys
  search_keys-store k root walk leaf e =
      let here : (nodes p).is_leaf ≡ true = search_leaf-leaf nodes f k (some root) p walk in
      ap (λ w. w >>= λ l. some (value_at (store_node nodes p n) l f' d'))
        (search_leaf-store nodes f' p n k (some root) here leaf)
      ∙ (value_at-store (search_leaf k nodes (some root) f')
            (λ same. ap (search_leaf k nodes (some root)) same ∙ walk) e
          ∙ sym (
              >>=_assoc (search_leaf k nodes (some root) f') (λ l. some (value_at nodes l f' d'))
                (λ v. some (override f d o f' d' v))))
