-- ===== src/Tests/Router.antt =====
-- The router and the normalisation of paths at small inputs.
use wruster.Base.{ℕ, ◌≡◌, refl, none, some, List, [], ◌∷◌, Bytes, All, IsByte, arith, codes, equal}
use wruster.Http.Method.{HttpMethod, get as get_method, post}
use wruster.Router.Normalize.Laws.{normalize-resolve}
use wruster.Router.Normalize.Resolve.{render, resolve, read_part, joined}
use wruster.Router.Normalize.{normalize, has_root, split}
use wruster.Router.Routes.Refine.{build-dispatch, IsRoute}
use wruster.Router.Routes.Spec.{Route, build, action_of, dispatch, nearest, is_registered}
use wruster.Router.Routes.{Router, get, get_prefix}
use wruster.Router.Trie.{Trie, new, set_child, child, child_or_new, node_add, add_value}

abbrev route : Bytes → HttpMethod → ℕ → Route ℕ
route path method action = record { path = path; method = method; action = action }

-- The last one is added first.
abbrev routes : List (Route ℕ)
routes =
    route (codes "/a/b") post 9
    ∷ route (codes "/a/b") get_method 7
    ∷ route (codes "/a") get_method 5
    ∷ []

routes-IsRoute : All IsRoute routes
routes-IsRoute = ground arith

-- The longest registered prefix decides: "/a" has no action for POST, though it matches.
build-dispatch_example :
    (r : Router ℕ) × (build routes ≡ some r)
    × (get r (codes "/a/c") get_method ≡ none)
    × (get_prefix r (codes "/a/c") get_method ≡ some 5)
unfolding action_of dispatch nearest is_registered equal
build-dispatch_example = build-dispatch routes (codes "/a/c") get_method routes-IsRoute

abbrev empty : Trie ℕ
empty = new

abbrev key : Bytes
key = codes "/a"

-- The trie that holds 5 under "/a".
abbrev stored : Trie ℕ
stored = record {
  children =
      set_child empty.children b'/'
        (node_add (child_or_new (child empty.children b'/')) (codes "a") 5);
}

stored-add_value : add_value empty key 5 ≡ some stored
unfolding add_value
stored-add_value = refl

key-bytes : All IsByte key
key-bytes = ground arith

normalize-resolve_example : normalize (codes "/a/./b/../c//d") ≡ some (codes "/a/c/d")
unfolding render resolve read_part has_root split equal joined
normalize-resolve_example = normalize-resolve (codes "/a/./b/../c//d")

normalize_parent : normalize (codes "/a/../c") ≡ some (codes "/c")
unfolding render resolve read_part has_root split equal joined
normalize_parent = normalize-resolve (codes "/a/../c")
