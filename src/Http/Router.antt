-- ===== src/Http/Router.antt =====
-- server/router.cxx, server/router.h, server/http_context.cxx and server/middleware/auth.cxx: routes, middleware and the
-- choice of a handler. A middleware takes the context and what follows it; a handler is a function of the context.
pub mod Choice
use dicker.Base.{
  ℕ, List, [], ◌∷◌, ◌++◌, Bool, true, false, ◌&&◌, not, Option, none, some, length, take, drop, leb,
  bytes_eq, if◌then◌else◌, bytes, get_or,
}
use dicker.Http.Message.{HttpRequest, reason_phrase}

-- `HttpContext`, with the reply that a handler or a middleware leaves in it, and the session and the directory that
-- it has handed to `Connection::begin_download_response`.
pub record HttpContext : Type 0 where
  pub req : HttpRequest
  pub param : List ℕ
  pub status : ℕ
  pub type : List ℕ
  pub body : List ℕ
  pub headers : List (List ℕ × List ℕ)
  pub respond : Bool
  pub download : Option (List ℕ × List ℕ)

-- `HttpContext::set`
abbrev pub set_header : HttpContext → List ℕ → List ℕ → HttpContext
set_header ctx name value = record ctx { headers = ctx.headers ++ ((name, value) ∷ []) }

-- `HttpContext::begin_download`
unfoldable pub begin_download : HttpContext → List ℕ → List ℕ → HttpContext
begin_download ctx session_id dir_path = record ctx {
  respond = false;
  download = some (session_id, dir_path);
}

pub data Match : Type 0 where
  exact prefix : Match

abbrev pub HttpHandler : Type 0
HttpHandler = HttpContext → HttpContext

abbrev pub Middleware : Type 0
Middleware = HttpContext → (HttpContext → HttpContext) → HttpContext

pub record Route : Type 0 where
  pub method : List ℕ
  pub match : Match
  pub path : List ℕ
  pub middleware : List Middleware
  pub handler : HttpHandler

abbrev pub is_prefix : Match → Bool
is_prefix exact = false
is_prefix prefix = true

unfoldable pub path_matches : Route → List ℕ → Bool
path_matches route path =
    if is_prefix route.match
    then leb (length route.path) (length path)
      && bytes_eq (take (length route.path) path) route.path
    else bytes_eq path route.path

-- The route, and `path_matched` after the call.
unfoldable pub find : List Route → HttpRequest → Bool → Option Route × Bool
unfolding path_matches
find [] request path_matched = (none, path_matched)
find (route ∷ routes) request path_matched =
    let skipped = find routes request path_matched in
    let refused = find routes request true in
    if not (path_matches route request.path)
    then skipped
    else if bytes_eq request.method route.method
    then (some route, true)
    else refused

-- `Next::operator()`, from the middleware that is left on.
unfoldable pub next : List Middleware → HttpHandler → HttpContext → HttpContext
next [] handler ctx = handler ctx
next (current ∷ onward) handler ctx = current ctx (next onward handler)

pub record Router : Type 0 where
  pub routes : List Route
  pub builtins : List Route

-- `Router::add`
unfoldable pub add : Router → Route → Router
add router route = record router { routes = router.routes ++ (route ∷ []) }

-- What a dispatch asks of the connection.
pub data Reply : Type 0 where
  -- `send_http_simple`
  simple : (status : ℕ) (reason type body : List ℕ) (headers : List (List ℕ × List ℕ)) → Reply
  -- the handler has taken the socket over
  taken_over : Option (List ℕ × List ℕ) → Reply

abbrev pub text_plain : List ℕ
text_plain = bytes "text/plain; charset=utf-8"

abbrev pub method_not_allowed : Reply
method_not_allowed =
    simple 405 (bytes "Method Not Allowed") text_plain (bytes "method not allowed\n") []

abbrev pub not_found : Reply
not_found = simple 404 (bytes "Not Found") text_plain (bytes "not found\n") []

abbrev pub or_builtin : List Route → HttpRequest → Option Route × Bool → Option Route × Bool
or_builtin builtins request (none, path_matched) = find builtins request path_matched
or_builtin builtins request (some route, path_matched) = (some route, path_matched)

-- The server's own routes first, then the built-in ones.
unfoldable pub choose : Router → HttpRequest → Option Route × Bool
unfolding find
choose router request = or_builtin router.builtins request (find router.routes request false)

-- `HttpContext ctx(conn, request, std::move(param))`
abbrev pub fresh : HttpRequest → List ℕ → HttpContext
fresh request param = record {
  req = request;
  param = param;
  status = 200;
  type = text_plain;
  body = [];
  headers = [];
  respond = true;
  download = none;
}

abbrev pub param_of : Route → HttpRequest → List ℕ
param_of route request = if is_prefix route.match then drop (length route.path) request.path else []

abbrev pub reply_of : HttpContext → Reply
reply_of ctx =
    if ctx.respond
    then simple ctx.status (reason_phrase ctx.status) ctx.type ctx.body ctx.headers
    else taken_over ctx.download

-- A route's middleware and handler, run on a fresh context.
abbrev pub run_route : Route → HttpRequest → Reply
run_route route request =
    reply_of (next route.middleware route.handler (fresh request (param_of route request)))

abbrev pub on_route : Option Route × Bool → HttpRequest → Reply
on_route (none, true) request = method_not_allowed
on_route (none, false) request = not_found
on_route (some route, _) request = run_route route request

-- `Router::dispatch`
unfoldable pub dispatch : Router → HttpRequest → Reply
unfolding choose next
dispatch router request = on_route (choose router request) request

-- `mw::require_auth`, where `authorized` is `Connection::authorized` on the request.
unfoldable pub require_auth : (HttpRequest → Bool) → Middleware
require_auth authorized ctx onward =
    if not (authorized ctx.req)
    then set_header (record ctx { status = 401; type = text_plain; body = bytes "unauthorized\n" })
        (bytes "WWW-Authenticate") (bytes "Bearer")
    else onward ctx

module _ (authorized : HttpRequest → Bool) (root uploads_list uploads_download : HttpHandler) where
  abbrev pub root_route : Route
  root_route = record {
    method = bytes "GET";
    match = exact;
    path = bytes "/";
    middleware = [];
    handler = root;
  }

  abbrev pub list_route : Route
  list_route = record {
    method = bytes "GET";
    match = exact;
    path = bytes "/uploads";
    middleware = require_auth authorized ∷ [];
    handler = uploads_list;
  }

  abbrev pub download_route : Route
  download_route = record {
    method = bytes "GET";
    match = prefix;
    path = bytes "/uploads/";
    middleware = require_auth authorized ∷ [];
    handler = uploads_download;
  }

  -- `add_builtin_routes`
  unfoldable pub add_builtin_routes : Router → Router
  add_builtin_routes router = record router {
    builtins = router.builtins ++ (root_route ∷ list_route ∷ download_route ∷ []);
  }
