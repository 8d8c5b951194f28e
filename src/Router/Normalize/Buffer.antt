-- ===== src/Router/Normalize/Buffer.antt =====
-- `push` and `parent` on the buffer act as a push and a pop on the stack of names.
use mathlib.Core.List.{reverse-append, reverse-cons, reverse-reverse, append_assoc}
use mathlib.Core.Bool.{false≢true}
use wruster.Base.{
  ℕ, ◌≡◌, ◌≢◌, refl, sym, ap, ◌∙◌, Bool, true, false, none, some, List, [], ◌∷◌, ◌++◌, Bytes, All,
  All-append, equal, equal_iff, arith, reverse,
}
use wruster.Router.Normalize.Resolve.{IsName, joined, render}
use wruster.Router.Normalize.{
  sep, has_root, ends_with_sep, push, drop_seps, drop_name, before_last, parent_rev, parent,
}

abbrev NoSep : Bytes → Type 0
NoSep = All (λ c. c ≢ sep)

has_root-NoSep : (s : Bytes) → NoSep s → has_root s ≡ false
unfolding has_root
has_root-NoSep [] h = refl
has_root-NoSep (c ∷ cs) h = ground arith

ends_with_sep-append :
    (a : Bytes) (c : ℕ) (s : Bytes) → ends_with_sep (a ++ (c ∷ s)) ≡ ends_with_sep (c ∷ s)
unfolding ends_with_sep
ends_with_sep-append [] c s = refl
ends_with_sep-append (x ∷ []) c s = refl
ends_with_sep-append (x ∷ y ∷ a) c s = ends_with_sep-append (y ∷ a) c s

ends_with_sep-NoSep : (s : Bytes) → NoSep s → ends_with_sep s ≡ false
unfolding ends_with_sep
ends_with_sep-NoSep [] h = refl
ends_with_sep-NoSep (c ∷ []) h = ground arith
ends_with_sep-NoSep (c ∷ d ∷ s) h = ends_with_sep-NoSep (d ∷ s) h.1

ends_with_sep-joined :
    (s : Bytes) (st : List Bytes) → IsName s → ends_with_sep (joined (s ∷ st)) ≡ false
unfolding joined
ends_with_sep-joined [] st h = absurd (h.ne_nil refl)
ends_with_sep-joined (c ∷ s) st h =
    ends_with_sep-append (joined st) sep (c ∷ s)
    ∙ (unfold ends_with_sep in ends_with_sep-NoSep (c ∷ s) h.no_sep)

append-ne-nil : (a : Bytes) (c : ℕ) (s : Bytes) → equal (a ++ (c ∷ s)) [] ≡ false
unfolding equal
append-ne-nil [] c s = refl
append-ne-nil (x ∷ a) c s = refl

-- Pushing a name onto the buffer pushes it onto the stack.
pub push-render :
    (st : List Bytes) (s : Bytes) → All IsName st → IsName s → push (render st) s ≡ render (s ∷ st)
unfolding push render
push-render [] s hs h = rw (has_root-NoSep s h.no_sep) (unfold joined equal ends_with_sep in refl)
push-render (t ∷ st) s hs h =
    rw (has_root-NoSep s h.no_sep, ends_with_sep-joined t st hs.0)
      (unfold joined in rw (append-ne-nil (joined st) sep t))

NoSep-reverse : (s : Bytes) → NoSep s → NoSep (reverse s)
NoSep-reverse [] h = tt
NoSep-reverse (c ∷ s) h =
    rw (reverse-cons c s) (All-append _ (reverse s) (c ∷ []) (NoSep-reverse s h.1) (h.0, tt))

drop_name-NoSep : (s r : Bytes) → NoSep s → drop_name (s ++ (sep ∷ r)) ≡ sep ∷ r
unfolding drop_name
drop_name-NoSep [] r h = refl
drop_name-NoSep (c ∷ s) r h = ground (arith, drop_name-NoSep s r h.1)

drop_seps-NoSep : (s r : Bytes) → s ≢ [] → NoSep s → drop_seps (s ++ r) ≡ s ++ r
unfolding drop_seps
drop_seps-NoSep [] r ne h = absurd (ne refl)
drop_seps-NoSep (c ∷ s) r ne h = ground arith

drop_seps-sep : (r : Bytes) → drop_seps (sep ∷ r) ≡ drop_seps r
unfolding drop_seps
drop_seps-sep r = refl

reverse-ne-nil : (s : Bytes) → s ≢ [] → reverse s ≢ []
reverse-ne-nil s ne e = ne (sym (reverse-reverse s) ∙ ap reverse e)

reverse-joined :
    (s : Bytes) (st : List Bytes)
    → reverse (joined (s ∷ st)) ≡ reverse s ++ (sep ∷ reverse (joined st))
unfolding joined
reverse-joined s st =
    reverse-append (joined st) (sep ∷ s)
    ∙ rw (reverse-cons sep s, append_assoc (reverse s) (sep ∷ []) (reverse (joined st)))

-- The buffer has no separators at its end.
drop_seps-joined :
    (st : List Bytes) → All IsName st → drop_seps (reverse (joined st)) ≡ reverse (joined st)
drop_seps-joined [] h = unfold joined drop_seps in refl
drop_seps-joined (s ∷ st) h =
    rw (reverse-joined s st)
      (drop_seps-NoSep (reverse s) _ (reverse-ne-nil s h.0.ne_nil) (NoSep-reverse s h.0.no_sep))

has_root-append : (a b : Bytes) → has_root a ≡ true → has_root (a ++ b) ≡ true
unfolding has_root
has_root-append [] b h = cc
has_root-append (c ∷ a) b h = h

has_root-joined : (s : Bytes) (st : List Bytes) → has_root (joined (s ∷ st)) ≡ true
unfolding has_root joined
has_root-joined s [] = refl
has_root-joined s (t ∷ st) = has_root-append (joined (t ∷ st)) (sep ∷ s) (has_root-joined t st)

pub has_root-render : (st : List Bytes) → has_root (render st) ≡ true
unfolding render
has_root-render [] = unfold has_root in refl
has_root-render (s ∷ st) = has_root-joined s st

parent_rev-name :
    (root : Bool) (n r : Bytes)
    → n ≢ []
    → NoSep n
    → parent_rev root (n ++ (sep ∷ r)) ≡ some (before_last root (drop_seps (sep ∷ r)))
unfolding parent_rev
parent_rev-name root [] r ne h = absurd (ne refl)
parent_rev-name root (c ∷ n) r ne h =
    ap (λ t. some (before_last root (drop_seps t))) (drop_name-NoSep (c ∷ n) r h)

joined-ne-nil : (s : Bytes) (st : List Bytes) → joined (s ∷ st) ≢ []
unfolding joined
joined-ne-nil s st e = false≢true (sym (append-ne-nil (joined st) sep s) ∙ (equal_iff _ []).1 e)

before_last-ne : (x : Bytes) → x ≢ [] → before_last true x ≡ reverse x
unfolding before_last
before_last-ne [] ne = absurd (ne refl)
before_last-ne (c ∷ x) ne = refl

before_last-reverse : (st : List Bytes) → before_last true (reverse (joined st)) ≡ render st
before_last-reverse [] = unfold before_last joined render in refl
before_last-reverse (s ∷ st) =
    before_last-ne (reverse (joined (s ∷ st))) (reverse-ne-nil _ (joined-ne-nil s st))
    ∙ reverse-reverse (joined (s ∷ st))
    ∙ (unfold render in refl)

-- Taking the parent of the buffer drops the top name; the root has no parent.
pub parent-render-cons :
    (st : List Bytes) (s : Bytes)
    → All IsName st
    → IsName s
    → parent (render (s ∷ st)) ≡ some (render st)
parent-render-cons st s hs h =
    unfold render parent in
    rw (has_root-joined s st, drop_seps-joined (s ∷ st) (h, hs), reverse-joined s st)
      (parent_rev-name true (reverse s) (reverse (joined st)) (reverse-ne-nil s h.ne_nil)
          (NoSep-reverse s h.no_sep)
        ∙ ap (λ t. some (before_last true t))
            (drop_seps-sep (reverse (joined st)) ∙ drop_seps-joined st hs)
        ∙ ap some (before_last-reverse st))

pub parent-render-nil : parent (render []) ≡ none
unfolding parent render has_root drop_seps parent_rev
parent-render-nil = refl
