-- ===== src/Http.antt =====
-- What the handlers use of net/http: requests, and the writer of a response.
pub mod Headers
pub mod Mux
use poly_balance.Base.{
  ℕ, ◌+◌, String, Bool, true, false, Option, none, some, ℤ, List, [], ◌∷◌, ◌++◌, ◌==◌, str_eq,
  if◌then◌else◌,
}

-- `http.Header`: canonical names with their values.
abbrev pub Header : Type 0
Header = List (String × List String)

-- `Header.Get`: the first value of a name, or the empty text.
unfoldable pub header_get : String → Header → String
header_get name [] = ""
header_get name ((n, []) ∷ h) = if str_eq n name then "" else header_get name h
header_get name ((n, v ∷ vs) ∷ h) = if str_eq n name then v else header_get name h

-- `Header.Set`: one value in place of all others of the name.
unfoldable pub header_set : String → String → Header → Header
header_set name v [] = (name, v ∷ []) ∷ []
header_set name v ((n, vs) ∷ h) =
    if str_eq n name then (name, v ∷ []) ∷ h else (n, vs) ∷ header_set name v h

-- A request: `uri` is the text of `URL.RequestURI()`, and `query` gives the values of the
-- query `raw_query` by name, the empty text for a missing one.
pub record Request : Type 0 where
  pub method : String
  pub host : String
  pub uri : String
  pub path : String
  pub raw_query : String
  pub query : String → String
  pub remote_addr : String
  pub header : Header
  pub content_length : ℤ
  pub body : List ℕ

-- The server's writer: the status sent to the client, once it is, the Location header sent with it,
-- and the body written after it. Other headers of a response are left out.
pub record Writer : Type 0 where
  pub sent : Option ℕ
  pub location : Option String
  pub body : List String

abbrev pub unsent : Writer
unsent = record { sent = none; location = none; body = [] }

-- Only the first call sends a status; a later one is superfluous and is logged by the library.
unfoldable pub write_header : ℕ → Writer → Writer
write_header code w = elim w.sent [ none ↦ record w { sent = some code } | some _ ↦ w ]

-- A write before any status sends 200 first.
unfoldable pub write : String → Writer → Writer
unfolding write_header
write chunk w = let w' = write_header 200 w in record w' { body = w'.body ++ (chunk ∷ []) }

-- `http.Error`.
unfoldable pub http_error : String → ℕ → Writer → Writer
unfolding write_header write
http_error message code w = write message (write_header code w)

-- `http.Redirect` to a target that is a whole URL or a path from the root; `page` is its short text,
-- which only a GET is sent.
unfoldable pub redirect : (String → String) → Request → String → ℕ → Writer → Writer
unfolding write_header write
redirect page r target code w =
    let located : Writer = elim w.sent [
      | none ↦ record w { location = some target }
      | some _ ↦ w
    ] in
    let w' = write_header code located in
    if str_eq r.method "GET" then write (page target) w' else w'
