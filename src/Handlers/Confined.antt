-- ===== src/Handlers/Confined.antt =====
-- wruster_handlers/src/lib.rs: which file is served.
use mathlib.Core.List.{append_assoc}
use wruster.Base.{
  ℕ, ◌≡◌, ◌∙◌, refl, sym, ap, false, Option, some, List, [], ◌∷◌, ◌++◌, Bytes, All, arith,
  Bool-cases, inl, inr, ◌==◌, ltb, length, equal,
}
use wruster.Handlers.{Files, relative, serve_path, serve_relative, serve_static}
use wruster.Http.Body.{Mime}
use wruster.Http.Request.{Request}
use wruster.Http.Response
use wruster.Http.Status
use wruster.Router.Normalize.Buffer.{push-render}
use wruster.Router.Normalize.Resolve.{IsName, joined, render}
use wruster.Router.Normalize.{sep, has_root, ends_with_sep, push}

-- What is pushed is appended, piece by piece.
push-append :
    (buf : Bytes) (c : ℕ) (cs x : Bytes) → push buf ((c ∷ cs) ++ x) ≡ push buf (c ∷ cs) ++ x
unfolding push has_root
push-append buf c cs x = elim (Bool-cases (c == sep)) [
  | inl rooted ↦ rw rooted
  | inr relative ↦ rw relative (elim (Bool-cases (equal buf [])) [
    | inl empty ↦ rw empty
    | inr more ↦ rw more (elim (Bool-cases (ends_with_sep buf)) [
      | inl ended ↦ rw ended (sym (append_assoc buf (c ∷ cs) x))
      | inr open_end ↦ rw open_end (sym (append_assoc buf (sep ∷ c ∷ cs) x))
    ])
  ])
]

-- A path of names below `base`, without the separator at its front.
push-joined :
    (base : List Bytes) (s : Bytes) (st : List Bytes)
    → All IsName base
    → All IsName (s ∷ st)
    → (c : ℕ) × (cs : Bytes) × (joined (s ∷ st) ≡ sep ∷ c ∷ cs)
      × (push (render base) (c ∷ cs) ≡ joined ((s ∷ st) ++ base))
unfolding joined
push-joined base [] [] hb h = absurd (h.0.ne_nil refl)
push-joined base (c ∷ s) [] hb h =
    (c, s, refl, push-render base (c ∷ s) hb h.0 ∙ (unfold render joined in refl))
push-joined base s (t ∷ st) hb h =
    let (c, cs, front, pushed) = push-joined base t st hb h.1 in
    (
      c,
      cs ++ (sep ∷ s),
      ap (λ p. p ++ (sep ∷ s)) front,
      push-append (render base) c cs (sep ∷ s) ∙ ap (λ p. p ++ (sep ∷ s)) pushed,
    )

module _ (mime : Mime) (files : Files mime.Media) where
  open mime use {Media}

  -- The directory itself is not served, and a list of names is the file of these names below it.
  abbrev pub below : List Bytes → List Bytes → Option (Response.Response Media)
  below base [] = some (Response.from_status mime Status.not_found)
  below base (s ∷ st) = serve_path mime files (render ((s ∷ st) ++ base))

  -- With a directory whose canonical path has the names `base`, a request whose text is the path of
  -- a list of names, as the server hands it on, is answered by the file at these names below `base`,
  -- and with "Not Found" if there are none.
  pub serve_static-below :
      (dir : Bytes) (base st : List Bytes) (request : Request Media)
      → files.canonicalize dir ≡ some (render base)
      → All IsName base
      → All IsName st
      → request.uri ≡ render st
      → serve_static mime files dir request ≡ below base st
  unfolding serve_static serve_relative relative
  serve_static-below dir base [] request canonical hb h text =
      let text' : request.uri ≡ sep ∷ [] = text ∙ (unfold render in refl) in
      rw (serve_static, canonical, text') (unfold has_root in refl)
  serve_static-below dir base (s ∷ st) request canonical hb h text =
      let (c, cs, front, pushed) = push-joined base s st hb h in
      let text' : request.uri ≡ sep ∷ c ∷ cs = text ∙ (unfold render in front) in
      let long : ltb (length (sep ∷ c ∷ cs)) 2 ≡ false = ground arith in
      let at_file : push (render base) (c ∷ cs) ≡ render ((s ∷ st) ++ base) =
        pushed ∙ (unfold render in refl) in
      rw (serve_static, canonical, text') (unfold has_root in rw (long, at_file))
