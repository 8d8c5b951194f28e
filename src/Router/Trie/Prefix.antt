-- ===== src/Router/Trie/Prefix.antt =====
-- The prefix lookup finds the value of the longest prefix of the key that holds one.
use mathlib.Core.Path.{fun_ext}
use wruster.Base.{
  ℕ, zero, suc, ◌≡◌, refl, ◌∙◌, inl, inr, Option, none, some, [], ◌∷◌, Bytes, arith, Option-cases,
  take, length,
}
use wruster.Router.Trie.{
  Children, Node, node, Trie, child, or_else, node_get, node_get_prefix, get_value,
  get_value_prefix,
}
use wruster.Router.Trie.Lookup.{get_value-root}

-- The first value found on trying the prefixes of `key` of `n`, `n - 1`, … and 0 bytes.
unfoldable pub longest : {A : Type 0} → (Bytes → Option A) → ℕ → Bytes → Option A
longest find zero key = find []
longest find (suc n) key = elim (find (take (suc n) key)) [
  | none ↦ longest find n key
  | some v ↦ some v
]

module _ {A : Type 0} where
  or_else_assoc : (a b c : Option A) → or_else (or_else a b) c ≡ or_else a (or_else b c)
  or_else_assoc none b c = refl
  or_else_assoc (some a) b c = refl

  longest-absent :
      (find : Bytes → Option A) (k : ℕ) (key : Bytes) (m : ℕ)
      → ((j : Bytes) → find (k ∷ j) ≡ none)
      → longest find m (k ∷ key) ≡ find []
  unfolding longest
  longest-absent find k key zero h = refl
  longest-absent find k key (suc m) h =
      ground (arith, h (take m key), longest-absent find k key m h)

  -- Below a child the prefixes grow by one byte, and the empty prefix comes last.
  longest-child :
      (find below : Bytes → Option A) (k : ℕ) (key : Bytes) (m : ℕ)
      → ((j : Bytes) → find (k ∷ j) ≡ below j)
      → longest find (suc m) (k ∷ key) ≡ or_else (longest below m key) (find [])
  unfolding longest
  longest-child find below k key zero h = ground (arith, h [])
  longest-child find below k key (suc m) h =
      ground (arith, h (take (suc m) key), longest-child find below k key m h)

  module _ (cs : Children A) (v : Option A) (k : ℕ) where
    below-absent : child cs k ≡ none → (j : Bytes) → node_get (node cs v) (k ∷ j) ≡ none
    unfolding node_get
    below-absent e j = rw (e, node_get)

    below-present :
        (c : Node A)
        → child cs k ≡ some c
        → (j : Bytes) → node_get (node cs v) (k ∷ j) ≡ node_get c j
    unfolding node_get
    below-present c e j = rw (e, node_get)

    prefix-absent :
        (key : Bytes) (before : Option A)
        → child cs k ≡ none
        → node_get_prefix (node cs v) (k ∷ key) before ≡ or_else v before
    unfolding node_get_prefix
    prefix-absent key before e = rw (e, node_get_prefix)

    prefix-present :
        (key : Bytes) (before : Option A) (c : Node A)
        → child cs k ≡ some c
        → node_get_prefix (node cs v) (k ∷ key) before ≡ node_get_prefix c key (or_else v before)
    unfolding node_get_prefix
    prefix-present key before c e = rw (e, node_get_prefix)

  node_get-nil : (cs : Children A) (v : Option A) → node_get (node cs v) [] ≡ v
  unfolding node_get
  node_get-nil cs v = refl

  node_get_prefix-longest :
      (n : Node A) (key : Bytes) (before : Option A)
      → node_get_prefix n key before ≡ or_else (longest (node_get n) (length key) key) before
  node_get_prefix-longest (node cs v) [] before = unfold node_get_prefix longest node_get in refl
  node_get_prefix-longest (node cs v) (k ∷ key) before = elim (Option-cases (child cs k)) [
    | inl e ↦
        prefix-absent cs v k key before e
        ∙ rw (longest-absent _ k key (suc (length key)) (below-absent cs v k e), node_get-nil cs v)
    | inr (c, e) ↦
        prefix-present cs v k key before c e
        ∙ node_get_prefix-longest c key (or_else v before)
        ∙ rw (
          longest-child _ _ k key (length key) (below-present cs v k c e),
          node_get-nil cs v,
          or_else_assoc (longest (node_get c) (length key) key) v before,
        )
  ]

  or_else-none : (a : Option A) → or_else a none ≡ a
  or_else-none none = refl
  or_else-none (some a) = refl

  get_value_prefix-root :
      (t : Trie A) (k : ℕ) (key : Bytes)
      → get_value_prefix t (k ∷ key) ≡ node_get_prefix (node t.children none) (k ∷ key) none
  unfolding get_value_prefix node_get_prefix
  get_value_prefix-root t k key = refl

  -- For every key: the value of the longest prefix that holds one, and none if no prefix does.
  pub get_value_prefix-longest :
      (t : Trie A) (key : Bytes) → get_value_prefix t key ≡ longest (get_value t) (length key) key
  get_value_prefix-longest t [] = unfold get_value_prefix longest get_value in refl
  get_value_prefix-longest t (k ∷ key) = rw (fun_ext (get_value-root t)) (
      get_value_prefix-root t k key
      ∙ node_get_prefix-longest (node t.children none) (k ∷ key) none
      ∙ or_else-none _)
