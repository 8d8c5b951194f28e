-- ===== src/Router/Trie/Lookup.antt =====
-- A trie is a map from keys to values: what a lookup finds after each operation.
use mathlib.Core.Option.{some-injective}
use wruster.Base.{
  sym, ap, ℕ, zero, suc, ◌≡◌, refl, ◌∙◌, inl, inr, Option, none, some, [], ◌∷◌, Bytes, IsByte, All,
  arith, Option-cases, equal, if◌then◌else◌,
}
use wruster.Router.Trie.{
  Node, node, Children, Trie, vacancies, vacant, taken, end, empty_children, child, set_child,
  new_node, child_or_new, node_add, node_get, node_move_out, new, add_value, get_value,
  move_value_out,
}
use wruster.Router.Trie.Width.{
  NodeHasWidth, HasWidth, child-set_child_self, child-set_child_ne, child_or_new-HasWidth,
}

child-vacancies : (A : Type 0) (n i : ℕ) → child (vacancies {A = A} n) i ≡ none
unfolding child vacancies
child-vacancies A zero i = refl
child-vacancies A (suc n) zero = refl
child-vacancies A (suc n) (suc i) = child-vacancies A n i

module _ {A : Type 0} where
  node_get-new_node : (key : Bytes) → node_get (new_node {A = A}) key ≡ none
  unfolding node_get new_node empty_children
  node_get-new_node [] = refl
  node_get-new_node (k ∷ key) = rw (child-vacancies A 256 k, node_get)

  -- A child that is made when it is missing answers as the missing one.
  node_get-child_or_new :
      (cs : Children A) (v : Option A) (k : ℕ) (key : Bytes)
      → node_get (child_or_new (child cs k)) key ≡ node_get (node cs v) (k ∷ key)
  unfolding node_get child_or_new
  node_get-child_or_new cs v k key = elim (Option-cases (child cs k)) [
    | inl e ↦ rw (e, child_or_new, node_get) (node_get-new_node key)
    | inr (n, e) ↦ rw (e, child_or_new, node_get)
  ]

  node_get-node_add :
      (n : Node A) (key j : Bytes) (value : A)
      → NodeHasWidth n
      → All IsByte key
      → node_get (node_add n key value) j ≡ (if equal key j then some value else node_get n j)
  unfolding node_get node_add equal
  node_get-node_add (node cs v) [] [] value w b = refl
  node_get-node_add (node cs v) [] (i ∷ j) value w b = refl
  node_get-node_add (node cs v) (k ∷ key) [] value w b = refl
  node_get-node_add (node cs v) (k ∷ key) (i ∷ j) value w b = ground (
    arith,
    child-set_child_self cs k (node_add (child_or_new (child cs k)) key value),
    child-set_child_ne cs k i (node_add (child_or_new (child cs k)) key value),
    node_get-child_or_new cs v k j,
    node_get-node_add (child_or_new (child cs k)) key j value (child_or_new-HasWidth cs k w.1) b.1,
  )

  child-set_child_present :
      (cs : Children A) (k : ℕ) (m : Node A) {n : Node A}
      → child cs k ≡ some n
      → child (set_child cs k m) k ≡ some m
  unfolding child set_child
  child-set_child_present end k m e = cc
  child-set_child_present (vacant cs) zero m e = refl
  child-set_child_present (vacant cs) (suc k) m e = child-set_child_present cs k m e
  child-set_child_present (taken n cs) zero m e = refl
  child-set_child_present (taken n cs) (suc k) m e = child-set_child_present cs k m e

  node_get-node_move_out :
      (n : Node A) (key j : Bytes)
      → node_get (node_move_out n key).0 j ≡ (if equal key j then none else node_get n j)
  unfolding node_get node_move_out equal
  node_get-node_move_out (node cs v) [] [] = refl
  node_get-node_move_out (node cs v) [] (i ∷ j) = refl
  node_get-node_move_out (node cs v) (k ∷ key) [] = elim (Option-cases (child cs k)) [
    | inl e ↦ rw (e, node_move_out)
    | inr (c, e) ↦ rw (e, node_move_out)
  ]
  node_get-node_move_out (node cs v) (k ∷ key) (i ∷ j) = elim (Option-cases (child cs k)) [
    | inl e ↦ ground arith
    | inr (c, e) ↦ ground (
      arith,
      child-set_child_present cs k (node_move_out c key).0 e,
      child-set_child_ne cs k i (node_move_out c key).0,
      node_get-node_move_out c key j,
    )
  ]

  node_move_out-value : (n : Node A) (key : Bytes) → (node_move_out n key).1 ≡ node_get n key
  unfolding node_get node_move_out
  node_move_out-value (node cs v) [] = refl
  node_move_out-value (node cs v) (k ∷ key) = elim (Option-cases (child cs k)) [
    | inl e ↦ rw (e, node_move_out, node_get)
    | inr (c, e) ↦ rw (e, node_move_out, node_get) (node_move_out-value c key)
  ]

  -- A trie answers as the node of its children that holds no value.
  pub get_value-root :
      (t : Trie A) (key : Bytes) → get_value t key ≡ node_get (node t.children none) key
  unfolding get_value node_get
  get_value-root t [] = refl
  get_value-root t (k ∷ key) = refl

  -- In a trie of full width, a value that was added under a key of bytes is found under that key,
  -- and every other key keeps its answer.
  pub get_value-add_value :
      (t t' : Trie A) (key j : Bytes) (value : A)
      → HasWidth t
      → All IsByte key
      → add_value t key value ≡ some t'
      → get_value t' j ≡ (if equal key j then some value else get_value t j)
  unfolding add_value
  get_value-add_value t t' [] j value w b e = cc
  get_value-add_value t t' (k ∷ key) j value w b e =
      ap (λ u. get_value u j) (sym (some-injective _ _ e))
      ∙ rw (get_value-root, get_value-root)
          (unfold node_add in node_get-node_add (node t.children none) (k ∷ key) j value w b)

  moved_out-absent :
      (t : Trie A) (k : ℕ) (key : Bytes)
      → child t.children k ≡ none
      → node_move_out (node t.children none) (k ∷ key) ≡ (node t.children none, none)
  unfolding node_move_out
  moved_out-absent t k key e = rw (e, node_move_out)

  moved_out-present :
      (t : Trie A) (k : ℕ) (key : Bytes) {n : Node A}
      → child t.children k ≡ some n
      → (node_move_out (node t.children none) (k ∷ key)).0
        ≡ node (move_value_out t (k ∷ key)).0.children none
  unfolding node_move_out move_value_out
  moved_out-present t k key e = rw (e, node_move_out, move_value_out)

  -- Moving a value out returns what the key held, and empties that key alone.
  pub get_value-move_value_out :
      (t : Trie A) (key j : Bytes)
      → ((move_value_out t key).1 ≡ get_value t key)
        × (get_value (move_value_out t key).0 j ≡ (if equal key j then none else get_value t j))
  unfolding move_value_out get_value equal
  get_value-move_value_out t [] [] = (refl, refl)
  get_value-move_value_out t [] (i ∷ j) = (refl, refl)
  get_value-move_value_out t (k ∷ key) j = elim (Option-cases (child t.children k)) [
    | inl e ↦ ground (
      arith,
      get_value-root t j,
      node_get-node_move_out (node t.children none) (k ∷ key) j,
      moved_out-absent t k key e,
    )
    | inr (n, e) ↦ ground (
      arith,
      get_value-root t j,
      get_value-root (move_value_out t (k ∷ key)).0 j,
      node_move_out-value n key,
      node_get-node_move_out (node t.children none) (k ∷ key) j,
      moved_out-present t k key e,
    )
  ]

pub get_value-new : {A : Type 0} (key : Bytes) → get_value (new {A = A}) key ≡ none
unfolding new node_get new_node
get_value-new {A} key = get_value-root (new {A = A}) key ∙ node_get-new_node key
