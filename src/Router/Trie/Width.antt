-- ===== src/Router/Trie/Width.antt =====
-- Every vector of children in a trie has 256 places, so that a byte is always in range.
use mathlib.Core.Path.{subst}
use mathlib.Core.Option.{some-injective}
use wruster.Base.{
  ◌∙◌, ℕ, zero, suc, ◌<◌, ◌≡◌, ◌≢◌, refl, ap, inl, inr, none, some, [], ◌∷◌, Bytes, arith,
  Option-cases,
}
use wruster.Router.Trie.{
  Node, node, Children, end, vacant, taken, Trie, vacancies, empty_children, child, set_child,
  new_node, child_or_new, node_add, node_move_out, new, add_value, move_value_out,
}

abbrev pub width : {A : Type 0} → Children A → ℕ
width end = 0
width (vacant cs) = suc (width cs)
width (taken n cs) = suc (width cs)

abbrev mutual
  pub NodeHasWidth : {A : Type 0} → Node A → Type 0
  NodeHasWidth (node cs v) = (width cs ≡ 256) × ChildrenHaveWidth cs

  pub ChildrenHaveWidth : {A : Type 0} → Children A → Type 0
  ChildrenHaveWidth end = Unit {0}
  ChildrenHaveWidth (vacant cs) = ChildrenHaveWidth cs
  ChildrenHaveWidth (taken n cs) = NodeHasWidth n × ChildrenHaveWidth cs

abbrev pub HasWidth : {A : Type 0} → Trie A → Type 0
HasWidth t = (width t.children ≡ 256) × ChildrenHaveWidth t.children

width-vacancies : (A : Type 0) (n : ℕ) → width (vacancies {A = A} n) ≡ n
unfolding vacancies
width-vacancies A zero = refl
width-vacancies A (suc n) = ap suc (width-vacancies A n)

vacancies-HaveWidth : (A : Type 0) (n : ℕ) → ChildrenHaveWidth (vacancies {A = A} n)
unfolding vacancies
vacancies-HaveWidth A zero = tt
vacancies-HaveWidth A (suc n) = vacancies-HaveWidth A n

pub new_node-HasWidth : (A : Type 0) → NodeHasWidth (new_node {A = A})
unfolding new_node empty_children
new_node-HasWidth A = (width-vacancies A 256, vacancies-HaveWidth A 256)

module _ {A : Type 0} where
  pub width-set_child : (cs : Children A) (i : ℕ) (n : Node A) → width (set_child cs i n) ≡ width cs
  unfolding set_child
  width-set_child end i n = refl
  width-set_child (vacant cs) zero n = refl
  width-set_child (vacant cs) (suc i) n = ap suc (width-set_child cs i n)
  width-set_child (taken m cs) zero n = refl
  width-set_child (taken m cs) (suc i) n = ap suc (width-set_child cs i n)

  pub child-set_child_self :
      (cs : Children A) (i : ℕ) (n : Node A) → i < width cs → child (set_child cs i n) i ≡ some n
  unfolding set_child child
  child-set_child_self end i n h = elim h [ ]
  child-set_child_self (vacant cs) zero n h = refl
  child-set_child_self (vacant cs) (suc i) n h = child-set_child_self cs i n (omega arith)
  child-set_child_self (taken m cs) zero n h = refl
  child-set_child_self (taken m cs) (suc i) n h = child-set_child_self cs i n (omega arith)

  pub child-set_child_ne :
      (cs : Children A) (i j : ℕ) (n : Node A) → i ≢ j → child (set_child cs i n) j ≡ child cs j
  unfolding set_child child
  child-set_child_ne end i j n h = refl
  child-set_child_ne (vacant cs) zero zero n h = absurd (h refl)
  child-set_child_ne (vacant cs) zero (suc j) n h = refl
  child-set_child_ne (vacant cs) (suc i) zero n h = refl
  child-set_child_ne (vacant cs) (suc i) (suc j) n h = child-set_child_ne cs i j n λ e. h (ap suc e)
  child-set_child_ne (taken m cs) zero zero n h = absurd (h refl)
  child-set_child_ne (taken m cs) zero (suc j) n h = refl
  child-set_child_ne (taken m cs) (suc i) zero n h = refl
  child-set_child_ne (taken m cs) (suc i) (suc j) n h =
      child-set_child_ne cs i j n λ e. h (ap suc e)

  pub child-HasWidth :
      (cs : Children A) (i : ℕ) {n : Node A}
      → ChildrenHaveWidth cs
      → child cs i ≡ some n
      → NodeHasWidth n
  unfolding child
  child-HasWidth end i w e = cc
  child-HasWidth (vacant cs) zero w e = cc
  child-HasWidth (vacant cs) (suc i) w e = child-HasWidth cs i w e
  child-HasWidth (taken m cs) zero w e = ground arith
  child-HasWidth (taken m cs) (suc i) w e = child-HasWidth cs i w.1 e

  set_child-HaveWidth :
      (cs : Children A) (i : ℕ) (n : Node A)
      → ChildrenHaveWidth cs
      → NodeHasWidth n
      → ChildrenHaveWidth (set_child cs i n)
  unfolding set_child
  set_child-HaveWidth end i n w h = tt
  set_child-HaveWidth (vacant cs) zero n w h = (h, w)
  set_child-HaveWidth (vacant cs) (suc i) n w h = set_child-HaveWidth cs i n w h
  set_child-HaveWidth (taken m cs) zero n w h = (h, w.1)
  set_child-HaveWidth (taken m cs) (suc i) n w h = (w.0, set_child-HaveWidth cs i n w.1 h)

  pub child_or_new-HasWidth :
      (cs : Children A) (i : ℕ) → ChildrenHaveWidth cs → NodeHasWidth (child_or_new (child cs i))
  unfolding child_or_new
  child_or_new-HasWidth cs i w = elim (Option-cases (child cs i)) [
    | inl e ↦ rw (e, child_or_new) (new_node-HasWidth A)
    | inr (n, e) ↦ rw (e, child_or_new) (child-HasWidth cs i w e)
  ]

  pub node_add-HasWidth :
      (n : Node A) (key : Bytes) (value : A) → NodeHasWidth n → NodeHasWidth (node_add n key value)
  unfolding node_add
  node_add-HasWidth (node cs v) [] value w = w
  node_add-HasWidth (node cs v) (k ∷ key) value w = (
    width-set_child cs k _ ∙ w.0,
    set_child-HaveWidth cs k _ w.1
        (node_add-HasWidth (child_or_new (child cs k)) key value (child_or_new-HasWidth cs k w.1)),
  )

  node_move_out-HasWidth :
      (n : Node A) (key : Bytes) → NodeHasWidth n → NodeHasWidth (node_move_out n key).0
  unfolding node_move_out
  node_move_out-HasWidth (node cs v) [] w = w
  node_move_out-HasWidth (node cs v) (k ∷ key) w = elim (Option-cases (child cs k)) [
    | inl e ↦ rw (e, node_move_out) w
    | inr (n, e) ↦
        rw (e, node_move_out)
          (
            width-set_child cs k _ ∙ w.0,
            set_child-HaveWidth cs k _ w.1
                (node_move_out-HasWidth n key (child-HasWidth cs k w.1 e)),
          )
  ]

  -- When every vector of children has 256 places, adding a value keeps that so.
  pub add_value-HasWidth :
      (t : Trie A) (key : Bytes) (value : A) {t' : Trie A}
      → HasWidth t
      → add_value t key value ≡ some t'
      → HasWidth t'
  unfolding add_value node_add
  add_value-HasWidth t [] value w e = cc
  add_value-HasWidth t (k ∷ key) value w e =
      subst HasWidth (some-injective _ _ e)
        (node_add-HasWidth (node t.children none) (k ∷ key) value w)

  pub move_value_out-HasWidth :
      (t : Trie A) (key : Bytes) → HasWidth t → HasWidth (move_value_out t key).0
  unfolding move_value_out
  move_value_out-HasWidth t [] w = w
  move_value_out-HasWidth t (k ∷ key) w = elim (Option-cases (child t.children k)) [
    | inl e ↦ rw (e, move_value_out) w
    | inr (n, e) ↦
        rw (e, move_value_out)
          (
            width-set_child t.children k _ ∙ w.0,
            set_child-HaveWidth t.children k _ w.1
                (node_move_out-HasWidth n key (child-HasWidth t.children k w.1 e)),
          )
  ]

pub new-HasWidth : (A : Type 0) → HasWidth (new {A = A})
unfolding new empty_children
new-HasWidth A = (width-vacancies A 256, vacancies-HaveWidth A 256)
