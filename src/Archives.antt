-- ===== src/Archives.antt =====
-- groove/proxy/archives.go: the archived form of requests and responses.
pub mod Replay
use grooveproxy.Base.{ℕ, List, [], ◌∷◌, Option, none, some, String, length, ◌≡◌, refl}
use grooveproxy.Http.{
  Header, Body, Request, Response, RequestParts, ResponseParts, response, request_parts,
  response_parts, header_add,
}

pub record ArchivedRequest : Type 0 where
  pub url : String
  pub method : String
  pub headers : Header
  pub body : List ℕ

pub record ArchivedResponse : Type 0 where
  pub status : ℕ
  pub headers : Header
  pub body : List ℕ

unfoldable pub request_to_archived_request : Request → Option ArchivedRequest
request_to_archived_request q =
    let parts : RequestParts = request_parts q in
    elim parts.body [
      | none ↦ none
      | some request_body ↦ some (record {
        url = parts.url.text;
        method = parts.method;
        headers = parts.header;
        body = request_body;
      })
    ]

unfoldable pub response_to_archived_response : Response → Option ArchivedResponse
response_to_archived_response r =
    let parts : ResponseParts = response_parts r in
    elim parts.body [
      | none ↦ none
      | some response_body ↦
          some (record { status = parts.status_code; headers = parts.header; body = response_body })
    ]

-- The inner loop of `archivedResponseToResponse`, over the values of one key.
unfoldable pub add_values : Header → String → List String → Header
add_values header key [] = header
add_values header key (value ∷ value_list) = add_values (header_add header key value) key value_list

-- Its outer loop, from `make(http.Header)`.
unfoldable pub add_headers : Header → Header → Header
add_headers header [] = header
add_headers header ((key, value_list) ∷ rest) = add_headers (add_values header key value_list) rest

-- `archivedResponseToResponse`. The transfer encoding of the request, the text of the status and the
-- length of the body, which it sets too, are no part of a modelled response.
unfoldable pub archived_response_to_response : Request → ArchivedResponse → Response
archived_response_to_response q archived =
    response
      (record {
        status_code = archived.status;
        header = add_headers [] archived.headers;
        body = some archived.body;
      })
      q
