-- ===== src/Tests/Https.antt =====
-- server/http.cxx, server/router.cxx and the controllers at concrete inputs.
use dicker.Base.{ℕ, ◌≡◌, refl, inl, List, [], ◌∷◌, ◌++◌, Bool, true, false, arith, bytes, some}
use dicker.Http.Message.{HttpRequest, http_header_end, parse_http_request}
use dicker.Http.Message.Framing.{Ends, http_header_end-Ends}
use dicker.Http.Message.Parse.{AreHeaders, parse-print_request, print_request, query_text}
use dicker.Http.Message.LowerCase.{AreRead}
use dicker.Http.Router.{HttpContext, HttpHandler, Router, add_builtin_routes, dispatch, fresh}
use dicker.Http.Router.Choice.{unauthorized, dispatch-unauthorized}
use dicker.Http.Controllers.{root, uploads_list, uploads_download}

abbrev asked : List ℕ
asked = bytes "GET / HTTP/1.1\r\n\r\nrest"

http_header_end-Ends_example : Ends 0 asked (http_header_end asked)
http_header_end-Ends_example = http_header_end-Ends asked

header_end_run : http_header_end asked ≡ 18
unfolding http_header_end
header_end_run = refl

abbrev headers : List (List ℕ × List ℕ)
headers = (bytes "Authorization", bytes "Bearer abc") ∷ []

headers_ok : AreHeaders headers
headers_ok = (
  record {
    name_line = omega arith;
    name_colon = omega arith;
    name_starts = refl;
    name_ends = refl;
    value_line = omega arith;
    value_starts = refl;
    value_ends = refl;
  },
  tt,
)

parse-print_request_example :
    (read : List (List ℕ × List ℕ)) × (parse_http_request (
        print_request
          (bytes "GET")
          (bytes "/uploads" ++ query_text (some (bytes "n=1")))
          (bytes "HTTP/1.1")
          headers)
      ≡ some (record {
        method = bytes "GET";
        target = bytes "/uploads" ++ query_text (some (bytes "n=1"));
        path = bytes "/uploads";
        version = bytes "HTTP/1.1";
        headers = read;
      }))
    × AreRead headers read
parse-print_request_example =
    parse-print_request (bytes "GET") (bytes "/uploads") (some (bytes "n=1")) (bytes "HTTP/1.1")
      headers
      (record {
        method_some = λ e. cc;
        method_line = omega arith;
        method_spaces = omega arith;
        target_some = λ e. cc;
        target_line = omega arith;
        target_spaces = omega arith;
        path_query = omega arith;
        version_line = omega arith;
      })
      headers_ok

abbrev request : HttpRequest
request = record {
  method = bytes "GET";
  target = bytes "/uploads";
  path = bytes "/uploads";
  version = bytes "HTTP/1.1";
  headers = [];
}

abbrev nobody : HttpRequest → Bool
nobody _ = false

abbrev download : HttpHandler
download = uploads_download (bytes "/srv") (λ dir name. dir ++ b'/' ∷ name) (λ _. true)

abbrev router : Router
router =
    add_builtin_routes nobody root (uploads_list []) download
      (record { routes = []; builtins = [] })

dispatch-unauthorized_example : dispatch router request ≡ unauthorized
dispatch-unauthorized_example =
    dispatch-unauthorized nobody root (uploads_list []) download [] request [] refl refl refl
      (inl refl)

abbrev ctx : HttpContext
ctx = fresh request (bytes "../etc")
