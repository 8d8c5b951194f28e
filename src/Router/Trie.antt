-- ===== src/Router/Trie.antt =====
-- wruster/src/router/trie.rs: the tree of byte-indexed children behind the routes.
-- `Children` is the source's `Vec<Option<Node<T>>>`. An index past its end, a panic in the source,
-- reads as an absent child and writes nothing; `HasWidth` says that bytes never reach it.
pub mod Width
pub mod Lookup
pub mod Prefix
use wruster.Base.{ℕ, zero, suc, ◌≡◌, Option, none, some, List, [], ◌∷◌, Bytes, length}

mutual
  pub data Node (A : Type 0) : Type 0 where
    node : Children A → Option A → Node A

  pub data Children (A : Type 0) : Type 0 where
    end : Children A
    vacant : Children A → Children A
    taken : Node A → Children A → Children A

pub record Trie (A : Type 0) : Type 0 where
  pub children : Children A

module _ {A : Type 0} where
  unfoldable pub vacancies : ℕ → Children A
  vacancies zero = end
  vacancies (suc n) = vacant (vacancies n)

  -- for _ in 0..256 { children.push(None) }
  unfoldable pub empty_children : Children A
  empty_children = vacancies 256

  -- children[i]
  unfoldable pub child : Children A → ℕ → Option (Node A)
  child end i = none
  child (vacant cs) zero = none
  child (vacant cs) (suc i) = child cs i
  child (taken n cs) zero = some n
  child (taken n cs) (suc i) = child cs i

  -- children[i] = Some(n)
  unfoldable pub set_child : Children A → ℕ → Node A → Children A
  set_child end i n = end
  set_child (vacant cs) zero n = taken n cs
  set_child (vacant cs) (suc i) n = vacant (set_child cs i n)
  set_child (taken m cs) zero n = taken n cs
  set_child (taken m cs) (suc i) n = taken m (set_child cs i n)

  unfoldable pub new_node : Node A
  new_node = node empty_children none

  -- The child, or the node put in its place when there is none.
  unfoldable pub child_or_new : Option (Node A) → Node A
  child_or_new none = new_node
  child_or_new (some n) = n

  unfoldable pub node_add : Node A → Bytes → A → Node A
  node_add (node cs v) [] value = node cs (some value)
  node_add (node cs v) (k ∷ key) value =
      node (set_child cs k (node_add (child_or_new (child cs k)) key value)) v

  unfoldable pub node_get : Node A → Bytes → Option A
  node_get (node cs v) [] = v
  node_get (node cs v) (k ∷ key) = elim (child cs k) [ none ↦ none | some n ↦ node_get n key ]

  -- `match &self.value { None => prefix_value, Some(value) => Some(value) }`
  abbrev pub or_else : Option A → Option A → Option A
  or_else none before = before
  or_else (some v) before = some v

  unfoldable pub node_get_prefix : Node A → Bytes → Option A → Option A
  node_get_prefix (node cs v) [] before = or_else v before
  node_get_prefix (node cs v) (k ∷ key) before = elim (child cs k) [
    | none ↦ or_else v before
    | some n ↦ node_get_prefix n key (or_else v before)
  ]

  -- The node left behind, and the value moved out.
  unfoldable pub node_move_out : Node A → Bytes → Node A × Option A
  node_move_out (node cs v) [] = (node cs none, v)
  node_move_out (node cs v) (k ∷ key) = elim (child cs k) [
    | none ↦ (node cs v, none)
    | some n ↦ let (n', moved) = node_move_out n key in (node (set_child cs k n') v, moved)
  ]

  unfoldable pub new : Trie A
  new = record { children = empty_children }

  -- `none` is the failed assertion that the key is not empty.
  unfoldable pub add_value : Trie A → Bytes → A → Option (Trie A)
  add_value t [] value = none
  add_value t (k ∷ key) value = some (record {
    children = set_child t.children k (node_add (child_or_new (child t.children k)) key value);
  })

  unfoldable pub get_value : Trie A → Bytes → Option A
  get_value t [] = none
  get_value t (k ∷ key) = elim (child t.children k) [ none ↦ none | some n ↦ node_get n key ]

  unfoldable pub move_value_out : Trie A → Bytes → Trie A × Option A
  move_value_out t [] = (t, none)
  move_value_out t (k ∷ key) = elim (child t.children k) [
    | none ↦ (t, none)
    | some n ↦
        let (n', moved) = node_move_out n key in
        (record { children = set_child t.children k n' }, moved)
  ]

  unfoldable pub get_value_prefix : Trie A → Bytes → Option A
  get_value_prefix t [] = none
  get_value_prefix t (k ∷ key) = elim (child t.children k) [
    | none ↦ none
    | some n ↦ node_get_prefix n key none
  ]
