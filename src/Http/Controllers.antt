-- ===== src/Http/Controllers.antt =====
-- server/controllers/root.cxx and server/controllers/uploads.cxx: the built-in endpoints. The listing of the session log
-- as JSON, the directory test and the join of two paths are the libraries', and parameters.
pub mod Download
use dicker.Base.{
  ℕ, List, [], ◌∷◌, ◌++◌, Bool, true, false, ◌&&◌, ◌||◌, not, length, leb, ltb, if◌then◌else◌,
  bytes, is_nil,
}
use dicker.Http.Router.{HttpContext, HttpHandler, begin_download}

abbrev pub is_lower_hex : ℕ → Bool
is_lower_hex c = (leb b'0' c && leb c b'9') || (leb b'a' c && leb c b'f')

abbrev pub all_lower_hex : List ℕ → Bool
all_lower_hex [] = true
all_lower_hex (c ∷ cs) = is_lower_hex c && all_lower_hex cs

unfoldable pub valid_session_id : List ℕ → Bool
valid_session_id id = if is_nil id || ltb 64 (length id) then false else all_lower_hex id

unfoldable pub root : HttpHandler
root ctx = record ctx {
  type = bytes "text/html; charset=utf-8";
  body =
      bytes "<!doctype html>\n<html><head><meta charset=\"utf-8\">"
      ++ bytes "<title>dicker</title></head>"
      ++ bytes "<body><h1>dicker</h1><p>hello world</p></body></html>\n";
}

-- `listing` is what `load_sessions` and `dump` make of the session log.
unfoldable pub uploads_list : List ℕ → HttpHandler
uploads_list listing ctx = record ctx { type = bytes "application/json"; body = listing }

module _ (root_dir : List ℕ) (join : List ℕ → List ℕ → List ℕ) (is_directory : List ℕ → Bool) where
  abbrev pub missing : HttpHandler
  missing ctx = record ctx { status = 404; body = bytes "not found\n" }

  unfoldable pub uploads_download : HttpHandler
  unfolding begin_download valid_session_id
  uploads_download ctx =
      let dir = join root_dir ctx.param in
      if not (valid_session_id ctx.param)
      then missing ctx
      else if not (is_directory dir)
      then missing ctx
      else begin_download ctx ctx.param dir
