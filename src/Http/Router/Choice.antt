-- ===== src/Http/Router/Choice.antt =====
-- server/router.cxx: which route answers, and that the middleware of a route stands before its handler.
use dicker.Base.{
  ℕ, ◌≡◌, refl, ◌∙◌, ◌⊎◌, inl, inr, List, [], ◌∷◌, ◌++◌, Bool, true, false, ◌&&◌, ◌||◌, Option,
  none, some, arith, bytes_eq, if◌then◌else◌, Bool-cases, Option-cases, bytes,
}
use dicker.Http.Message.{HttpRequest, reason_phrase}
use dicker.Http.Router.{
  HttpHandler, Middleware, Route, Router, Reply, simple, path_matches, find, or_builtin, choose,
  dispatch, on_route, run_route, next, require_auth, fresh, reply_of, text_plain,
  method_not_allowed, not_found, add_builtin_routes, root_route, list_route, download_route,
}

-- The reference: the first route that fits, and whether any route has the path.
abbrev pub fits : HttpRequest → Route → Bool
fits request route = path_matches route request.path && bytes_eq request.method route.method

abbrev pub first_fit : HttpRequest → List Route → Option Route
first_fit request [] = none
first_fit request (route ∷ routes) =
    if fits request route then some route else first_fit request routes

abbrev pub any_path : HttpRequest → List Route → Bool
any_path request [] = false
any_path request (route ∷ routes) = path_matches route request.path || any_path request routes

-- What the specification answers: the first route that fits, or 405 where the path is known, or 404.
abbrev pub answered : Option Route → Bool → HttpRequest → Reply
answered (some route) known request = run_route route request
answered none known request = if known then method_not_allowed else not_found

abbrev pub found_as : Option Route → Bool → Option Route × Bool
found_as (some route) known = (some route, true)
found_as none known = (none, known)

find_lem :
    (routes : List Route) (request : HttpRequest) (known : Bool)
    → find routes request known
      ≡ found_as (first_fit request routes) (known || any_path request routes)
unfolding find path_matches
find_lem [] request true = refl
find_lem [] request false = refl
find_lem (route ∷ routes) request known =
    ground (arith, find_lem routes request known, find_lem routes request true)

abbrev or_else : Option Route → Option Route → Option Route
or_else none second = second
or_else (some route) second = some route

first_fit-append :
    (request : HttpRequest) (xs ys : List Route)
    → first_fit request (xs ++ ys) ≡ or_else (first_fit request xs) (first_fit request ys)
first_fit-append request [] ys = refl
first_fit-append request (x ∷ xs) ys = elim (Bool-cases (fits request x)) [
  | inl f ↦ rw f
  | inr f ↦ rw f (first_fit-append request xs ys)
]

any_path-append :
    (request : HttpRequest) (xs ys : List Route)
    → any_path request (xs ++ ys) ≡ (any_path request xs || any_path request ys)
any_path-append request [] ys = refl
any_path-append request (x ∷ xs) ys = elim (Bool-cases (path_matches x request.path)) [
  | inl p ↦ rw p
  | inr p ↦ rw p (any_path-append request xs ys)
]

on_route-found_as :
    (chosen : Option Route) (known : Bool) (request : HttpRequest)
    → on_route (found_as chosen known) request ≡ answered chosen known request
on_route-found_as (some route) known request = refl
on_route-found_as none true request = refl
on_route-found_as none false request = refl

dispatch-append :
    (own builtins : List Route) (request : HttpRequest)
    → on_route (or_builtin builtins request (find own request false)) request
      ≡ answered (first_fit request (own ++ builtins)) (any_path request (own ++ builtins)) request
dispatch-append own builtins request =
    rw
      (
        find_lem own request false,
        first_fit-append request own builtins,
        any_path-append request own builtins,
      )
      (elim (Option-cases (first_fit request own)) [
        | inl e ↦
            rw (e, find_lem builtins request (any_path request own))
              (on_route-found_as (first_fit request builtins) _ request)
        | inr (route, e) ↦ rw e
      ])

pub dispatch-answered :
    (router : Router) (request : HttpRequest)
    → dispatch router request
      ≡ answered
          (first_fit request (router.routes ++ router.builtins))
          (any_path request (router.routes ++ router.builtins))
          request
unfolding dispatch choose
dispatch-answered router request = dispatch-append router.routes router.builtins request

-- The reply of `require_auth` itself.
abbrev pub unauthorized : Reply
unauthorized =
    simple 401 (bytes "Unauthorized") text_plain (bytes "unauthorized\n")
      ((bytes "WWW-Authenticate", bytes "Bearer") ∷ [])

next-require_auth :
    (authorized : HttpRequest → Bool) (onward : List Middleware) (handler : HttpHandler)
    (request : HttpRequest) (param : List ℕ)
    → authorized request ≡ false
    → reply_of (next (require_auth authorized ∷ onward) handler (fresh request param))
      ≡ unauthorized
unfolding next require_auth reason_phrase
next-require_auth authorized onward handler request param denied = rw denied

module _ (authorized : HttpRequest → Bool) (root uploads_list uploads_download : HttpHandler) where
  abbrev builtins : List Route
  builtins =
      root_route authorized root uploads_list uploads_download
      ∷ list_route authorized root uploads_list uploads_download
      ∷ download_route authorized root uploads_list uploads_download
      ∷ []

  fit-list :
      (request : HttpRequest)
      → request.method ≡ bytes "GET"
      → request.path ≡ bytes "/uploads"
      → first_fit request builtins ≡ some (list_route authorized root uploads_list uploads_download)
  unfolding path_matches bytes_eq
  fit-list request get path = simp (get, path)

  fit-download :
      (request : HttpRequest) (tail : List ℕ)
      → request.method ≡ bytes "GET"
      → request.path ≡ bytes "/uploads/" ++ tail
      → first_fit request builtins
        ≡ some (download_route authorized root uploads_list uploads_download)
  unfolding path_matches bytes_eq
  fit-download request tail get path = simp (get, path) (ground arith)

  -- Whatever the controllers do, on a server none of whose own routes fits it a GET request for /uploads, or for a
  -- path that begins with /uploads/, is answered 401 where it is not authorized.
  pub dispatch-unauthorized :
      (own : List Route) (request : HttpRequest) (tail : List ℕ)
      → authorized request ≡ false
      → first_fit request own ≡ none
      → request.method ≡ bytes "GET"
      → (request.path ≡ bytes "/uploads") ⊎ (request.path ≡ bytes "/uploads/" ++ tail)
      → dispatch
          (add_builtin_routes authorized root uploads_list uploads_download
            (record { routes = own; builtins = [] }))
          request
        ≡ unauthorized
  unfolding add_builtin_routes
  dispatch-unauthorized own request tail denied none_own get path =
      dispatch-answered (record { routes = own; builtins = builtins }) request ∙ (elim path [
        | inl p ↦
            rw (first_fit-append request own builtins, none_own, fit-list request get p)
              (next-require_auth authorized [] uploads_list request _ denied)
        | inr p ↦
            rw (first_fit-append request own builtins, none_own, fit-download request tail get p)
              (next-require_auth authorized [] uploads_download request _ denied)
      ])
