-- ===== src/Router/Normalize/Laws.antt =====
-- Normalising a path is resolving its parts on a stack of names.
use mathlib.Core.List.{append_assoc, append-nil}
use mathlib.Core.Option
use mathlib.Core.Bool.{false≢true}
use mathlib.Core.Option.{some-injective}
use mathlib.Core.Path.{subst}
use wruster.Base.{
  ◌≡◌, ◌≢◌, refl, sym, ◌∙◌, inl, inr, false, Option, none, some, List, [], ◌∷◌, ◌++◌, Bytes, All,
  All-append, equal, equal_iff, codes, if◌then◌else◌, ◌==◌, arith, Bool-cases, Option-cases,
}
use wruster.Router.Normalize.Buffer.{
  push-render, parent-render-cons, parent-render-nil, has_root-render,
}
use wruster.Router.Normalize.Resolve.{IsName, read_part, resolve, joined, render, drop_top}
use wruster.Router.Normalize.{
  Component, root_dir, parent_dir, normal, sep, has_root, split, part, parts, components, push,
  normalize_component, normalize_components, normalize,
}

pub split-NoSep : (p cur : Bytes) → All (λ c. c ≢ sep) cur → All (All (λ c. c ≢ sep)) (split cur p)
unfolding split
split-NoSep [] cur h = (h, tt)
split-NoSep (c ∷ p) cur h = elim (Bool-cases (c == sep)) [
  | inl e ↦ rw e (h, split-NoSep p [] tt)
  | inr e ↦ rw e (split-NoSep p (cur ++ c ∷ []) (All-append _ cur (c ∷ []) h (ground arith, tt)))
]

-- What one part of a path does: nothing, a step up, or a name.
data PartCase (s : Bytes) : Type 0 where
  skipped : part s ≡ [] → ((st : List Bytes) → read_part st s ≡ some st) → PartCase s
  up : part s ≡ parent_dir ∷ [] → ((st : List Bytes) → read_part st s ≡ drop_top st) → PartCase s
  named :
      IsName s
      → part s ≡ normal s ∷ []
      → ((st : List Bytes) → read_part st s ≡ some (s ∷ st))
      → PartCase s

ne_of_equal : (s t : Bytes) → equal s t ≡ false → s ≢ t
ne_of_equal s t h e = false≢true (sym h ∙ (equal_iff s t).1 e)

part-cases : (s : Bytes) → All (λ c. c ≢ sep) s → PartCase s
unfolding part read_part
part-cases s h = elim (Bool-cases (equal s [])) [
  | inl e ↦ skipped (rw e) (λ st. rw e)
  | inr ne_nil ↦ elim (Bool-cases (equal s (codes "."))) [
    | inl e ↦ skipped (rw (ne_nil, e)) (λ st. rw (ne_nil, e))
    | inr ne_dot ↦ elim (Bool-cases (equal s (codes ".."))) [
      | inl e ↦ up (rw (ne_nil, ne_dot, e)) (λ st. rw (ne_nil, ne_dot, e))
      | inr ne_dots ↦
          named
            (record {
              ne_nil = ne_of_equal s [] ne_nil;
              no_sep = h;
              ne_dot = ne_of_equal s _ ne_dot;
              ne_dots = ne_of_equal s _ ne_dots;
            })
            (rw (ne_nil, ne_dot, ne_dots)) (λ st. rw (ne_nil, ne_dot, ne_dots))
    ]
  ]
]

drop_top-IsName :
    (st : List Bytes) {st' : List Bytes} → All IsName st → drop_top st ≡ some st' → All IsName st'
drop_top-IsName [] h e = cc
drop_top-IsName (s ∷ st) h e = subst (All IsName) (some-injective _ _ e) h.1

read_part-IsName :
    (st : List Bytes) (s : Bytes) {st' : List Bytes}
    → All IsName st
    → All (λ c. c ≢ sep) s
    → read_part st s ≡ some st'
    → All IsName st'
read_part-IsName st s hs h e = elim (part-cases s h) [
  | skipped _ r ↦ subst (All IsName) (some-injective _ _ (sym (r st) ∙ e)) hs
  | up _ r ↦ drop_top-IsName st hs (sym (r st) ∙ e)
  | named n _ r ↦ subst (All IsName) (some-injective _ _ (sym (r st) ∙ e)) (n, hs)
]

pub resolve-IsName :
    (st : List Bytes) (ss : List Bytes) {out : List Bytes}
    → All IsName st
    → All (All (λ c. c ≢ sep)) ss
    → resolve st ss ≡ some out
    → All IsName out
unfolding resolve
resolve-IsName st [] hs h e = subst (All IsName) (some-injective _ _ e) hs
resolve-IsName st (s ∷ ss) {out} hs h e = elim (Option-cases (read_part st s)) [
  | inl z ↦ cc (rw (z, resolve) at e)
  | inr (st', z) ↦ resolve-IsName st' ss (read_part-IsName st s hs h.0 z) h.1 (rw (z, resolve) at e)
]

-- What the loop makes of a stack, or of its absence.
abbrev resume : Option (List Bytes) → List Component → Option Bytes
resume none cs = none
resume (some st) cs = normalize_components (render st) cs

-- A step up on the buffer is a step up on the stack.
normalize_components-up :
    (st : List Bytes) (cs : List Component)
    → All IsName st
    → normalize_components (render st) (parent_dir ∷ cs) ≡ resume (drop_top st) cs
unfolding normalize_components normalize_component
normalize_components-up [] cs h = rw (parent-render-nil, normalize_components)
normalize_components-up (s ∷ st) cs h = rw (parent-render-cons st s h.1 h.0, normalize_components)

normalize_components-name :
    (st : List Bytes) (s : Bytes) (cs : List Component)
    → All IsName st
    → IsName s
    → normalize_components (render st) (normal s ∷ cs) ≡ normalize_components (render (s ∷ st)) cs
unfolding normalize_components normalize_component
normalize_components-name st s cs hs h = rw (push-render st s hs h)

-- The buffer after the components of one part is the stack after that part.
normalize_components-part :
    (st : List Bytes) (s : Bytes) (cs : List Component)
    → All IsName st
    → All (λ c. c ≢ sep) s
    → normalize_components (render st) (part s ++ cs) ≡ resume (read_part st s) cs
normalize_components-part st s cs hs h = elim (part-cases s h) [
  | skipped p r ↦ rw (p, r st)
  | up p r ↦ rw (p, r st) (normalize_components-up st cs hs)
  | named n p r ↦ rw (p, r st) (normalize_components-name st s cs hs n)
]

normalize_components-resolve :
    (st ss : List Bytes)
    → All IsName st
    → All (All (λ c. c ≢ sep)) ss
    → normalize_components (render st) (parts ss) ≡ Option.map render (resolve st ss)
unfolding parts resolve
normalize_components-resolve st [] hs h = unfold normalize_components in refl
normalize_components-resolve st (s ∷ ss) hs h =
    normalize_components-part st s (parts ss) hs h.0 ∙ (elim (Option-cases (read_part st s)) [
      | inl z ↦ rw (z, resolve)
      | inr (st', z) ↦
          rw (z, resolve) (normalize_components-resolve st' ss (read_part-IsName st s hs h.0 z) h.1)
    ])

normalize_components-root :
    (cs : List Component)
    → normalize_components [] (root_dir ∷ cs) ≡ normalize_components (render []) cs
unfolding normalize_components normalize_component push has_root render
normalize_components-root cs = refl

-- A path with a root normalises to the stack of names that its parts leave, written from the root;
-- it is refused when a ".." meets the empty stack, and a path with no root is always refused.
pub normalize-resolve :
    (p : Bytes)
    → normalize p ≡ (if has_root p then Option.map render (resolve [] (split [] p)) else none)
normalize-resolve p = elim (Bool-cases (has_root p)) [
  | inl rooted ↦
      unfold normalize components in
      rw rooted (
        normalize_components-root (parts (split [] p))
        ∙ normalize_components-resolve [] (split [] p) tt (split-NoSep p [] tt))
  | inr relative ↦ unfold normalize in rw relative
]

split-name :
    (s cur rest : Bytes)
    → All (λ c. c ≢ sep) s
    → split cur (s ++ (sep ∷ rest)) ≡ (cur ++ s) ∷ split [] rest
unfolding split
split-name [] cur rest h = rw append-nil
split-name (c ∷ s) cur rest h =
    ground (arith, split-name s (cur ++ c ∷ []) rest h.1, append_assoc cur (c ∷ []) s)

split_last : (s cur : Bytes) → All (λ c. c ≢ sep) s → split cur s ≡ (cur ++ s) ∷ []
unfolding split
split_last [] cur h = rw append-nil
split_last (c ∷ s) cur h =
    ground (arith, split_last s (cur ++ c ∷ []) h.1, append_assoc cur (c ∷ []) s)

equal-ne : (s t : Bytes) → s ≢ t → equal s t ≡ false
equal-ne s t ne = elim (Bool-cases (equal s t)) [
  | inl e ↦ absurd (ne ((equal_iff s t).0 e))
  | inr e ↦ e
]

read_part_name : (st : List Bytes) (s : Bytes) → IsName s → read_part st s ≡ some (s ∷ st)
unfolding read_part
read_part_name st s h =
    rw (equal-ne s [] h.ne_nil, equal-ne s (codes ".") h.ne_dot, equal-ne s (codes "..") h.ne_dots)

resolve-joined :
    (st : List Bytes) (rest : Bytes)
    → All IsName st
    → resolve [] (split [] (joined st ++ (sep ∷ rest))) ≡ resolve st (split [] rest)
unfolding joined
resolve-joined [] rest h = unfold split resolve read_part equal in refl
resolve-joined (s ∷ st) rest h = rw (append_assoc (joined st) (sep ∷ s) (sep ∷ rest)) (
    resolve-joined st (s ++ (sep ∷ rest)) h.1
    ∙ rw (split-name s [] rest h.0.no_sep)
        (unfold resolve in rw (read_part_name st s h.0, resolve)))

-- Resolving the parts of a rendered stack gives the stack.
resolve-render : (st : List Bytes) → All IsName st → resolve [] (split [] (render st)) ≡ some st
unfolding render joined
resolve-render [] h = unfold split resolve read_part equal in refl
resolve-render (s ∷ st) h =
    resolve-joined st s h.1
    ∙ rw (split_last s [] h.0.no_sep) (unfold resolve in rw (read_part_name st s h.0, resolve))

-- A rendered stack is already normal.
pub normalize-render : (st : List Bytes) → All IsName st → normalize (render st) ≡ some (render st)
normalize-render st h = normalize-resolve (render st) ∙ rw (has_root-render st, resolve-render st h)

-- The normal paths are the rendered stacks of names: the result is one, and normalising it again
-- changes nothing.
pub normalize-normalize :
    (p q : Bytes)
    → normalize p ≡ some q
    → (st : List Bytes) × (q ≡ render st) × All IsName st × (normalize q ≡ some q)
normalize-normalize p q e = elim (Bool-cases (has_root p)) [
  | inr relative ↦ cc (rw relative at (sym (normalize-resolve p) ∙ e))
  | inl rooted ↦ elim (Option-cases (resolve [] (split [] p))) [
    | inl refused ↦ cc (rw (rooted, refused) at (sym (normalize-resolve p) ∙ e))
    | inr (st, r) ↦
        let names = resolve-IsName [] (split [] p) tt (split-NoSep p [] tt) r in
        let is_q : render st ≡ q =
          some-injective _ _ (rw (rooted, r) at (sym (normalize-resolve p) ∙ e)) in
        (st, sym is_q, names, subst (λ x. normalize x ≡ some x) is_q (normalize-render st names))
  ]
]
