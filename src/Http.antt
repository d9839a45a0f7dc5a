-- ===== src/Http.antt =====
-- The parts of Go's net/http and net/url that groove/proxy reads and writes.
pub mod History
use grooveproxy.Base.{ℕ, List, [], ◌∷◌, ◌++◌, Option, none, some, String, ite, string_dec}

-- A parsed `*url.URL`: its text (`String()`), its parts, and its query. The query is a Go map; the
-- list holds its keys in some order.
pub record Url : Type 0 where
  pub text : String
  pub scheme : String
  pub host : String
  pub hostname : String
  pub path : String
  pub query : List (String × List String)

-- `http.Header`, keys in canonical form.
abbrev pub Header : Type 0
Header = List (String × List String)

-- A body stream: the bytes that reading gives, or nothing if reading fails. Whoever reads one whole
-- puts a fresh stream of the same bytes in its place.
abbrev pub Body : Type 0
Body = Option (List ℕ)

-- `Header.values` of a canonical key.
unfoldable pub header_values : Header → String → List String
header_values [] key = []
header_values ((k, vs) ∷ h) key = ite (string_dec k key) vs (header_values h key)

abbrev first_or_empty : List String → String
first_or_empty [] = ""
first_or_empty (v ∷ vs) = v

-- `Header.Get` of a canonical key.
unfoldable pub header_get : Header → String → String
header_get h key = first_or_empty (header_values h key)

-- `Header.Del`
unfoldable pub header_del : Header → String → Header
header_del [] key = []
header_del ((k, vs) ∷ h) key =
    ite (string_dec k key) (header_del h key) ((k, vs) ∷ header_del h key)

-- `Header.Add` for a key in its canonical form, as those of a parsed header are; the code's own keys
-- are written in it.
unfoldable pub header_add : Header → String → String → Header
header_add [] key value = (key, value ∷ []) ∷ []
header_add ((k, vs) ∷ h) key value =
    ite (string_dec k key) ((k, vs ++ value ∷ []) ∷ h) ((k, vs) ∷ header_add h key value)

pub record RequestParts : Type 0 where
  pub method : String
  pub url : Url
  pub header : Header
  pub body : Body

pub record ResponseParts : Type 0 where
  pub status_code : ℕ
  pub header : Header
  pub body : Body

-- A request names the redirect response that caused it, and a response names its request.
mutual
  pub data Request : Type 0 where
    request : RequestParts → Previous → Request

  pub data Previous : Type 0 where
    first : Previous
    after : Response → Previous

  pub data Response : Type 0 where
    response : ResponseParts → Request → Response

unfoldable pub request_parts : Request → RequestParts
request_parts (request parts previous) = parts

unfoldable pub previous_of : Request → Previous
previous_of (request parts previous) = previous

unfoldable pub response_parts : Response → ResponseParts
response_parts (response parts q) = parts

unfoldable pub request_of : Response → Request
request_of (response parts q) = q
