-- ===== src/Router/Routes/Refine.antt =====
-- The router over the trie implements the specification.
use wruster.Base.{
  ℕ, zero, suc, ◌+◌, ◌≡◌, refl, sym, ◌∙◌, ◌≢◌, inl, inr, true, false, Option, none, some, List, [],
  ◌∷◌, Bytes, IsByte, All, equal, equal_iff, ◌==◌, if◌then◌else◌, take, length, length-set,
  get_elem?-set_self, get_elem?-set_ne, arith, Bool-cases,
}
use wruster.Http.Method.{
  HttpMethod, get as get_method, discriminant, get_last, discriminant-le-last,
}
use wruster.Router.Trie.Lookup.{get_value-add_value, get_value-move_value_out, get_value-new}
use wruster.Router.Trie.Prefix.{longest, get_value_prefix-longest}
use wruster.Router.Trie.Width.{HasWidth, new-HasWidth, add_value-HasWidth, move_value_out-HasWidth}
use wruster.Router.Trie.{add_value, get_value, move_value_out}
use wruster.Router.Routes.Spec.{Route, build, is_registered, action_of, nearest, dispatch}
use wruster.Router.Routes.{
  MethodHandlers, Router, new_handlers, get_action, set_action, unwrap_or_new, new, add, get,
  get_prefix,
}

module _ {H : Type 0} where
  -- What a lookup in the trie says of the routes that were added at one path.
  abbrev Holds : List (Route H) → Bytes → Option (MethodHandlers H) → Type 0
  Holds es path none =
      (is_registered es path ≡ false) × ((m : HttpMethod) → action_of es path m ≡ none)
  Holds es path (some h) =
      (is_registered es path ≡ true)
      × (length h.actions ≡ discriminant get_last + 1)
      × ((m : HttpMethod) → get_action h m ≡ action_of es path m)

  -- The router answers for every path as the list of routes does.
  pub record Represents (es : List (Route H)) (r : Router H) : Type 0 where
    pub width : HasWidth r.routes
    pub holds : (path : Bytes) → Holds es path (get_value r.routes path)

  get_action-set_action :
      (h : MethodHandlers H) (m j : HttpMethod) (action : H)
      → length h.actions ≡ discriminant get_last + 1
      → get_action (set_action h m action) j
        ≡ (if discriminant m == discriminant j then some action else get_action h j)
  unfolding get_action set_action
  get_action-set_action h m j action e = ground (
    arith,
    discriminant-le-last m,
    get_elem?-set_self h.actions (discriminant m) (some action),
    get_elem?-set_ne h.actions (discriminant m) (discriminant j) (some action),
  )

  get_action-new_handlers : (m : HttpMethod) → get_action (new_handlers {H = H}) m ≡ none
  unfolding get_action new_handlers
  get_action-new_handlers get_method = refl
  get_action-new_handlers _ = refl

  new-Represents : Represents [] (new {H = H})
  unfolding new is_registered action_of
  new-Represents = record {
    width = new-HasWidth _;
    holds = λ path. rw (get_value-new path) (refl, λ m. refl);
  }

  -- The handlers that `add` starts from: those moved out, or new ones.
  unwrap_or_new-Holds :
      (es : List (Route H)) (path : Bytes) (moved : Option (MethodHandlers H))
      → Holds es path moved
      → (length (unwrap_or_new moved).actions ≡ discriminant get_last + 1)
        × ((m : HttpMethod) → get_action (unwrap_or_new moved) m ≡ action_of es path m)
  unfolding unwrap_or_new
  unwrap_or_new-Holds es path none h =
      (unfold new_handlers in refl, λ m. get_action-new_handlers m ∙ sym (h.1 m))
  unwrap_or_new-Holds es path (some x) h = (h.1, h.2)

  add-adds :
      (r r' : Router H) (path : Bytes) (method : HttpMethod) (action : H)
      → add r path method action ≡ some r'
      → add_value
          (move_value_out r.routes path).0
          path
          (set_action (unwrap_or_new (move_value_out r.routes path).1) method action)
        ≡ some r'.routes
  unfolding add
  add-adds r r' path method action e = ground arith

  -- `add` puts the extended handlers at its path, and leaves every other path alone.
  add_lem :
      (r r' : Router H) (path : Bytes) (method : HttpMethod) (action : H) (j : Bytes)
      → HasWidth r.routes
      → All IsByte path
      → add r path method action ≡ some r'
      → HasWidth r'.routes
        × (get_value r'.routes j ≡ (
            if equal path j
            then some (set_action (unwrap_or_new (get_value r.routes path)) method action)
            else get_value r.routes j))
  add_lem r r' path method action j w b e =
      let moved = move_value_out r.routes path in
      let extended = set_action (unwrap_or_new moved.1) method action in
      let added = add-adds r r' path method action e in
      let w' = move_value_out-HasWidth r.routes path w in
      (
        add_value-HasWidth moved.0 path extended w' added,
        ground (
          arith,
          get_value-add_value moved.0 r'.routes path j extended w' b added,
          get_value-move_value_out r.routes path j,
        ),
      )

  Holds-same :
      (es : List (Route H)) (e : Route H) (j : Bytes) (before : Option (MethodHandlers H))
      → equal e.path j ≡ true
      → Holds es e.path before
      → Holds (e ∷ es) j (some (set_action (unwrap_or_new before) e.method e.action))
  unfolding is_registered action_of
  Holds-same es e j before here h =
      let old = unwrap_or_new-Holds es e.path before h in
      let at_j : e.path ≡ j = (equal_iff e.path j).0 here in
      (
        rw here,
        unfold set_action in
            length-set (unwrap_or_new before).actions (discriminant e.method) (some e.action)
            ∙ old.0,
        λ m.
            get_action-set_action (unwrap_or_new before) e.method m e.action old.0
            ∙ rw (here, old.1 m, at_j),
      )

  Holds-other :
      (es : List (Route H)) (e : Route H) (j : Bytes) (before : Option (MethodHandlers H))
      → equal e.path j ≡ false
      → Holds es j before
      → Holds (e ∷ es) j before
  unfolding is_registered action_of
  Holds-other es e j none there h = (rw there h.0, λ m. rw there (h.1 m))
  Holds-other es e j (some x) there h = (rw there h.0, h.1, λ m. rw there (h.2 m))

  -- Adding a route to the router is adding it to the list.
  add-Represents :
      (es : List (Route H)) (r r' : Router H) (e : Route H)
      → Represents es r
      → All IsByte e.path
      → add r e.path e.method e.action ≡ some r'
      → Represents (e ∷ es) r'
  add-Represents es r r' e v b added = record {
    width = (add_lem r r' e.path e.method e.action e.path v.width b added).0;
    holds = λ j.
        rw (add_lem r r' e.path e.method e.action j v.width b added).1
          (elim (Bool-cases (equal e.path j)) [
            | inl here ↦
                rw here (Holds-same es e j (get_value r.routes e.path) here (v.holds e.path))
            | inr there ↦ rw there (Holds-other es e j (get_value r.routes j) there (v.holds j))
          ]);
  }

  -- A route that the router takes: a path of bytes that is not empty.
  abbrev pub IsRoute : Route H → Type 0
  IsRoute e = (e.path ≢ []) × All IsByte e.path

  add_total :
      (r : Router H) (path : Bytes) (method : HttpMethod) (action : H)
      → path ≢ []
      → (r' : Router H) × (add r path method action ≡ some r')
  unfolding add add_value
  add_total r [] method action ne = absurd (ne refl)
  add_total r (k ∷ path) method action ne = (_, refl)

  build_total :
      (es : List (Route H))
      → All IsRoute es
      → (r : Router H) × (build es ≡ some r) × Represents es r
  unfolding build
  build_total [] h = (new, refl, new-Represents)
  build_total (e ∷ es) (h, hs) =
      let (r, built, v) = build_total es hs in
      let (r', added) = add_total r e.path e.method e.action h.0 in
      (r', rw (built, build) added, add-Represents es r r' e v h.1 added)

  -- What the handlers found answer for one method.
  abbrev answer : Option (MethodHandlers H) → HttpMethod → Option H
  answer none method = none
  answer (some h) method = get_action h method

  answer-Holds :
      (es : List (Route H)) (path : Bytes) (found : Option (MethodHandlers H)) (m : HttpMethod)
      → Holds es path found
      → answer found m ≡ action_of es path m
  answer-Holds es path none m h = sym (h.1 m)
  answer-Holds es path (some x) m h = h.2 m

  get-answer :
      (r : Router H) (path : Bytes) (m : HttpMethod)
      → get r path m ≡ answer (get_value r.routes path) m
  unfolding get
  get-answer r path m = ground arith

  get_prefix-answer :
      (r : Router H) (path : Bytes) (m : HttpMethod)
      → get_prefix r path m ≡ answer (longest (get_value r.routes) (length path) path) m
  unfolding get_prefix
  get_prefix-answer r path m = ground (arith, get_value_prefix-longest r.routes path)

  abbrev chosen : List (Route H) → Option Bytes → HttpMethod → Option H
  chosen es none m = none
  chosen es (some p) m = action_of es p m

  longest-nearest :
      (es : List (Route H)) (r : Router H) (n : ℕ) (path : Bytes) (m : HttpMethod)
      → Represents es r
      → answer (longest (get_value r.routes) n path) m ≡ chosen es (nearest es n path) m
  unfolding longest nearest
  longest-nearest es r zero path m v = unfold get_value in refl
  longest-nearest es r (suc n) path m v = ground (
    arith,
    v.holds (take (suc n) path),
    answer-Holds es (take (suc n) path) (get_value r.routes (take (suc n) path)) m
        (v.holds (take (suc n) path)),
    longest-nearest es r n path m v,
  )

  -- From any list of routes, each with a non-empty path of bytes, a router is built. It then finds
  -- the newest action of a path and a method, and serves a request by the action that the longest
  -- registered prefix of its path has for the method, or by none if that prefix has none.
  pub build-dispatch :
      (es : List (Route H)) (path : Bytes) (method : HttpMethod)
      → All IsRoute es
      → (r : Router H) × (build es ≡ some r)
        × (get r path method ≡ action_of es path method)
        × (get_prefix r path method ≡ dispatch es path method)
  unfolding dispatch
  build-dispatch es path method h =
      let (r, built, v) = build_total es h in
      (
        r,
        built,
        get-answer r path method
            ∙ answer-Holds es path (get_value r.routes path) method (v.holds path),
        get_prefix-answer r path method
            ∙ longest-nearest es r (length path) path method v
            ∙ ground arith,
      )
