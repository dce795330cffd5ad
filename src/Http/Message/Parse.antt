-- ===== src/Http/Message/Parse.antt =====
-- server/http.cxx, `parse_http_request`, against a printer of requests.
use dicker.Base.{
  ℕ, zero, suc, ◌<◌, ◌≡◌, ◌≢◌, refl, ap, ap₂, ◌∙◌, List, [], ◌∷◌, ◌++◌, append_assoc, append-nil,
  false, Option, none, some, arith, length, length-append, is_nil, cut_at-append, cut_at-Lacks,
  Lacks, ==_iff,
}
use dicker.Http.Message.LowerCase.{AreRead, lowered, lowered-AreRead}
use dicker.Http.Message.{
  parse_http_request, crlf, cut_line, trim, trim_start, trim_end, is_blank, lower, header_line,
  header_lines, header_text, path_of,
}

-- A text that neither begins nor ends with a space or a tab.
abbrev pub StartsDark : List ℕ → Type 0
StartsDark [] = Unit {0}
StartsDark (c ∷ cs) = is_blank c ≡ false

abbrev pub EndsDark : List ℕ → Type 0
EndsDark [] = Unit {0}
EndsDark (c ∷ []) = is_blank c ≡ false
EndsDark (c ∷ d ∷ cs) = EndsDark (d ∷ cs)

-- A header that a client may send: no line break in it, no colon in its name, no blanks around either part.
pub record IsHeader (name value : List ℕ) : Type 0 where
  pub name_line : Lacks 13 name
  pub name_colon : Lacks b':' name
  pub name_starts : StartsDark name
  pub name_ends : EndsDark name
  pub value_line : Lacks 13 value
  pub value_starts : StartsDark value
  pub value_ends : EndsDark value

abbrev pub AreHeaders : List (List ℕ × List ℕ) → Type 0
AreHeaders [] = Unit {0}
AreHeaders ((name, value) ∷ headers) = IsHeader name value × AreHeaders headers

Lacks-append : (c : ℕ) (xs ys : List ℕ) → Lacks c xs → Lacks c ys → Lacks c (xs ++ ys)
Lacks-append c [] ys h k = k
Lacks-append c (x ∷ xs) ys h k = (h.0, Lacks-append c xs ys h.1 k)

is_nil-append : (c : ℕ) (xs ys : List ℕ) → is_nil (xs ++ c ∷ ys) ≡ false
is_nil-append c [] ys = refl
is_nil-append c (x ∷ xs) ys = refl

cut_line-append : (xs ys : List ℕ) → Lacks 13 xs → cut_line (xs ++ 13 ∷ 10 ∷ ys) ≡ some (xs, ys)
unfolding cut_line
cut_line-append [] ys h = refl
cut_line-append (x ∷ xs) ys h = ground (arith, ==_iff x 13, cut_line-append xs ys h.1)

trim_start-StartsDark : (s : List ℕ) → StartsDark s → trim_start s ≡ s
unfolding trim_start
trim_start-StartsDark [] h = refl
trim_start-StartsDark (c ∷ cs) h = rw h

trim_end-EndsDark : (s : List ℕ) → EndsDark s → trim_end s ≡ s
unfolding trim_end
trim_end-EndsDark [] h = refl
trim_end-EndsDark (c ∷ []) h = rw h
trim_end-EndsDark (c ∷ d ∷ cs) h = ground (arith, trim_end-EndsDark (d ∷ cs) h)

trim_lem : (s : List ℕ) → StartsDark s → EndsDark s → trim s ≡ s
unfolding trim
trim_lem s h k = rw (trim_start-StartsDark s h) (trim_end-EndsDark s k)

trim-blank : (s : List ℕ) → StartsDark s → EndsDark s → trim (32 ∷ s) ≡ s
unfolding trim trim_start
trim-blank s h k = trim_lem s h k

-- The line of one header is read as that header.
header_line_lem :
    (name value : List ℕ)
    → IsHeader name value
    → header_line (name ++ b':' ∷ 32 ∷ value) ≡ (lower name, value) ∷ []
unfolding header_line
header_line_lem name value h =
    rw (cut_at-append b':' name (32 ∷ value) h.name_colon, header_line)
      (rw (trim_lem name h.name_starts h.name_ends, trim-blank value h.value_starts h.value_ends))

abbrev line_of : List ℕ → List ℕ → List ℕ
line_of name value = name ++ b':' ∷ 32 ∷ value

line_of-Lacks : (name value : List ℕ) → IsHeader name value → Lacks 13 (line_of name value)
line_of-Lacks name value h =
    Lacks-append 13 name (b':' ∷ 32 ∷ value) h.name_line (omega arith, (omega arith, h.value_line))

header_text-cons :
    (name value : List ℕ) (headers : List (List ℕ × List ℕ))
    → header_text ((name, value) ∷ headers) ++ crlf
      ≡ line_of name value ++ 13 ∷ 10 ∷ (header_text headers ++ crlf)
header_text-cons name value headers = simp append_assoc

header_lines-cons :
    (fuel : ℕ) (line rest : List ℕ)
    → Lacks 13 line
    → is_nil line ≡ false
    → header_lines (suc fuel) (line ++ 13 ∷ 10 ∷ rest) ≡ header_line line ++ header_lines fuel rest
unfolding header_lines
header_lines-cons fuel line rest h k =
    rw (cut_line-append line rest h, is_nil-append 13 line (10 ∷ rest), k)

-- The block of headers is read as the headers, each name in lower case.
header_lines-header_text :
    (fuel : ℕ) (headers : List (List ℕ × List ℕ))
    → length headers < fuel
    → AreHeaders headers
    → header_lines fuel (header_text headers ++ crlf) ≡ lowered headers
header_lines-header_text zero headers lt h = absurd (omega arith)
header_lines-header_text (suc fuel) [] lt h = unfold header_lines cut_line in refl
header_lines-header_text (suc fuel) ((name, value) ∷ headers) lt h =
    ap (header_lines (suc fuel)) (header_text-cons name value headers)
    ∙ header_lines-cons fuel (line_of name value) (header_text headers ++ crlf)
        (line_of-Lacks name value h.0) (is_nil-append b':' name (32 ∷ value))
    ∙ ap₂ ◌++◌ (header_line_lem name value h.0)
        (header_lines-header_text fuel headers (omega arith) h.1)

length-header_text :
    (headers : List (List ℕ × List ℕ)) → length headers < length (header_text headers ++ crlf)
length-header_text [] = omega arith
length-header_text ((name, value) ∷ headers) = rw (header_text-cons name value headers) (
    omega (
      arith,
      length-append (line_of name value) (13 ∷ 10 ∷ (header_text headers ++ crlf)),
      length-header_text headers,
    ))

abbrev pub query_text : Option (List ℕ) → List ℕ
query_text none = []
query_text (some query) = b'?' ∷ query

path_of-append :
    (path : List ℕ) (query : Option (List ℕ))
    → Lacks b'?' path
    → path_of (path ++ query_text query) ≡ path
unfolding path_of
path_of-append path none h = rw append-nil (rw (cut_at-Lacks b'?' path h, path_of))
path_of-append path (some query) h = rw (cut_at-append b'?' path query h, path_of)

-- What a client asks for, and how it is printed: the request line, the headers, the blank line.
pub record IsRequest (method path : List ℕ) (query : Option (List ℕ)) (version : List ℕ)
    : Type 0 where
  pub method_some : method ≢ []
  pub method_line : Lacks 13 method
  pub method_spaces : Lacks 32 method
  pub target_some : path ++ query_text query ≢ []
  pub target_line : Lacks 13 (path ++ query_text query)
  pub target_spaces : Lacks 32 (path ++ query_text query)
  pub path_query : Lacks b'?' path
  pub version_line : Lacks 13 version

abbrev pub request_line : List ℕ → List ℕ → List ℕ → List ℕ
request_line method target version = method ++ 32 ∷ (target ++ 32 ∷ version)

abbrev pub print_request : List ℕ → List ℕ → List ℕ → List (List ℕ × List ℕ) → List ℕ
print_request method target version headers =
    request_line method target version ++ 13 ∷ 10 ∷ (header_text headers ++ crlf)

is_nil-false : (xs : List ℕ) → xs ≢ [] → is_nil xs ≡ false
is_nil-false [] h = absurd (h refl)
is_nil-false (x ∷ xs) h = refl

request_line-Lacks :
    (method target version : List ℕ)
    → Lacks 13 method
    → Lacks 13 target
    → Lacks 13 version
    → Lacks 13 (request_line method target version)
request_line-Lacks method target version h k l =
    Lacks-append 13 method (32 ∷ (target ++ 32 ∷ version)) h
      (omega arith, Lacks-append 13 target (32 ∷ version) k (omega arith, l))

print_request_lem :
    (method path : List ℕ) (query : Option (List ℕ)) (version : List ℕ)
    (headers : List (List ℕ × List ℕ))
    → IsRequest method path query version
    → AreHeaders headers
    → parse_http_request (print_request method (path ++ query_text query) version headers)
      ≡ some (record {
        method = method;
        target = path ++ query_text query;
        path = path;
        version = version;
        headers = lowered headers;
      })
unfolding parse_http_request
print_request_lem method path query version headers h k =
    let target = path ++ query_text query in
    let rest = header_text headers ++ crlf in
    rw
      (cut_line-append (request_line method target version) rest
        (request_line-Lacks method target version h.method_line h.target_line h.version_line))
      (rw (cut_at-append 32 method (target ++ 32 ∷ version) h.method_spaces) (
        rw (cut_at-append 32 target version h.target_spaces) (
          rw (
            is_nil-false method h.method_some,
            is_nil-false target h.target_some,
            path_of-append path query h.path_query,
            header_lines-header_text (length rest) headers (length-header_text headers) k,
          ))))

-- A request that is printed with a method, a target and headers without stray blanks or line breaks is read back:
-- method, target, the path before the query string, version, and every header in its order, its value as it was sent
-- and its name with the letters A to Z turned into a to z.
pub parse-print_request :
    (method path : List ℕ) (query : Option (List ℕ)) (version : List ℕ)
    (headers : List (List ℕ × List ℕ))
    → IsRequest method path query version
    → AreHeaders headers
    → (read : List (List ℕ × List ℕ)) × (parse_http_request
          (print_request method (path ++ query_text query) version headers)
        ≡ some (record {
          method = method;
          target = path ++ query_text query;
          path = path;
          version = version;
          headers = read;
        }))
      × AreRead headers read
parse-print_request method path query version headers h k = (
  lowered headers,
  print_request_lem method path query version headers h k,
  lowered-AreRead headers,
)
