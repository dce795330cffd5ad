-- ===== src/Http/Message.antt =====
-- server/http.cxx: the header block of a request, its parse, and the header block of a response. A std::string is a list
-- of bytes; a request that is refused is `none`. The bytes of a name are lowered as in the "C" locale.
pub mod Framing
pub mod LowerCase
pub mod Parse
use dicker.Base.{
  ℕ, zero, suc, ◌+◌, ◌/◌, ◌%◌, List, [], ◌∷◌, ◌++◌, Bool, true, false, ◌&&◌, ◌||◌, Option, none,
  some, ◌>>=◌, length, drop, leb, ltb, ◌==◌, bytes_eq, if◌then◌else◌, map, bytes, starts_with,
  is_nil, cut_at,
}

pub record HttpRequest : Type 0 where
  pub method : List ℕ
  pub target : List ℕ
  pub path : List ℕ
  pub version : List ℕ
  pub headers : List (List ℕ × List ℕ)

abbrev pub header_of : List (List ℕ × List ℕ) → List ℕ → Option (List ℕ)
header_of [] lower_name = none
header_of ((name, value) ∷ headers) lower_name =
    if bytes_eq name lower_name then some value else header_of headers lower_name

-- `HttpRequest::header`
unfoldable pub header : HttpRequest → List ℕ → Option (List ℕ)
header request lower_name = header_of request.headers lower_name

abbrev pub crlf : List ℕ
crlf = 13 ∷ 10 ∷ []

-- The end of the header block.
abbrev pub blank_line : List ℕ
blank_line = 13 ∷ 10 ∷ 13 ∷ 10 ∷ []

-- The scan from position `i` on.
unfoldable pub header_end_from : ℕ → List ℕ → ℕ
header_end_from i [] = 0
header_end_from i (c ∷ rest) =
    let onward = header_end_from (i + 1) rest in
    if starts_with blank_line (c ∷ rest) then i + 4 else onward

unfoldable pub http_header_end : List ℕ → ℕ
unfolding header_end_from
http_header_end text = header_end_from 0 text

abbrev pub is_blank : ℕ → Bool
is_blank c = c == 32 || c == 9

unfoldable pub trim_start : List ℕ → List ℕ
trim_start [] = []
trim_start (c ∷ cs) = if is_blank c then trim_start cs else c ∷ cs

unfoldable pub trim_end : List ℕ → List ℕ
trim_end [] = []
trim_end (c ∷ cs) = let rest = trim_end cs in if is_blank c && is_nil rest then [] else c ∷ rest

unfoldable pub trim : List ℕ → List ℕ
unfolding trim_start trim_end
trim s = trim_end (trim_start s)

unfoldable pub lower_byte : ℕ → ℕ
lower_byte c = if leb b'A' c && leb c b'Z' then c + 32 else c

unfoldable pub lower : List ℕ → List ℕ
unfolding lower_byte
lower [] = []
lower (c ∷ cs) = lower_byte c ∷ lower cs

-- `find("\r\n")`: what stands before it and behind it.
unfoldable pub cut_line : List ℕ → Option (List ℕ × List ℕ)
cut_line [] = none
cut_line (c ∷ cs) =
    if starts_with crlf (c ∷ cs)
    then some ([], drop 1 cs)
    else elim (cut_line cs) [ none ↦ none | some p ↦ some (c ∷ p.0, p.1) ]

-- A header line without a colon is passed over.
unfoldable pub header_line : List ℕ → List (List ℕ × List ℕ)
header_line line = elim (cut_at b':' line) [
  | none ↦ []
  | some (name, value) ↦ (lower (trim name), trim value) ∷ []
]

abbrev pub line_and_rest : Option (List ℕ × List ℕ) → List ℕ → List ℕ × List ℕ
line_and_rest none text = (text, [])
line_and_rest (some p) text = p

-- The loop over the header lines, on the text from `pos` on. A round takes a byte at least.
unfoldable pub header_lines : ℕ → List ℕ → List (List ℕ × List ℕ)
header_lines zero text = []
header_lines (suc fuel) text =
    let (line, rest) = line_and_rest (cut_line text) text in
    let onward = header_lines fuel rest in
    if is_nil text || is_nil line then [] else header_line line ++ onward

-- `target` up to the query string
unfoldable pub path_of : List ℕ → List ℕ
unfolding cut_at
path_of target = elim (cut_at b'?' target) [ none ↦ target | some (path, query) ↦ path ]

unfoldable pub parse_http_request : List ℕ → Option HttpRequest
unfolding header_lines
parse_http_request text = do
  (request_line, rest) ← cut_line text
  (method, behind) ← cut_at 32 request_line
  (target, version) ← cut_at 32 behind
  if is_nil method || is_nil target
      then none
      else some (record {
        method = method;
        target = target;
        path = path_of target;
        version = version;
        headers = header_lines (length rest) rest;
      })

-- `std::to_string` of a number that is not negative; the fuel is the number itself, which has at most as many
-- digits.
unfoldable pub digits_of : ℕ → ℕ → List ℕ → List ℕ
digits_of zero n out = out
digits_of (suc fuel) n out =
    let digit = 48 + n % 10 in
    let onward = digits_of fuel (n / 10) (digit ∷ out) in if ltb n 10 then digit ∷ out else onward

unfoldable pub to_string : ℕ → List ℕ
unfolding digits_of
to_string n = digits_of (n + 1) n []

abbrev pub header_text : List (List ℕ × List ℕ) → List ℕ
header_text [] = []
header_text ((name, value) ∷ headers) =
    name ++ (bytes ": " ++ (value ++ (crlf ++ header_text headers)))

-- `none` is a negative content length.
unfoldable pub http_response_headers :
    ℕ → List ℕ → List ℕ → Option ℕ → List (List ℕ × List ℕ) → List ℕ
unfolding to_string
http_response_headers status reason content_type content_length extra =
    bytes "HTTP/1.1 "
    ++ (to_string status
        ++ (bytes " "
            ++ (reason
                ++ (crlf
                    ++ ((if is_nil content_type
                          then []
                          else bytes "Content-Type: " ++ (content_type ++ crlf))
                        ++ ((elim content_length [
                          | none ↦ []
                          | some n ↦ bytes "Content-Length: " ++ (to_string n ++ crlf)
                        ])
                            ++ (bytes "Server: dicker"
                                ++ (crlf ++ (header_text extra ++ crlf)))))))))

unfoldable pub reason_phrase : ℕ → List ℕ
reason_phrase status =
    if status == 200
    then bytes "OK"
    else if status == 201
    then bytes "Created"
    else if status == 204
    then bytes "No Content"
    else if status == 400
    then bytes "Bad Request"
    else if status == 401
    then bytes "Unauthorized"
    else if status == 403
    then bytes "Forbidden"
    else if status == 404
    then bytes "Not Found"
    else if status == 405
    then bytes "Method Not Allowed"
    else if status == 500
    then bytes "Internal Server Error"
    else if leb 200 status && ltb status 300
    then bytes "OK"
    else if leb 300 status && ltb status 400
    then bytes "Redirect"
    else if leb 400 status && ltb status 500
    then bytes "Client Error"
    else bytes "Server Error"
