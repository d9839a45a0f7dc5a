-- ===== src/Headers.antt =====
-- groove/proxy/headers.go: the middleware that takes the proxy's own headers off a request.
use grooveproxy.Base.{
  ◌≡◌, ◌≢◌, refl, ◌∙◌, String, [], ◌∷◌, string_dec, Option, none, arith, ite, if_pos, if_neg,
}
use grooveproxy.Dialers.{proxy_resource_type}
use grooveproxy.Http.{
  Header, Request, Response, request, request_parts, header_get, header_del, header_values,
}

pub record HeaderDefinition : Type 0 where
  pub tape_id : String
  pub resource_type : String

-- The canonical form of `ProxyTapeIdentifier`, which `Get` and `Del` look for.
abbrev pub proxy_tape_identifier : String
proxy_tape_identifier = "Tape-Id"

unfoldable pub header_definition : Header → HeaderDefinition
header_definition header = record {
  tape_id = header_get header proxy_tape_identifier;
  resource_type = header_get header proxy_resource_type;
}

-- The handler of `setupHeadersMiddleware`: the context's `UserData`, and the request that goes on; it
-- never answers itself.
unfoldable pub handle_headers : Request → HeaderDefinition × Request × Option Response
handle_headers (request parts previous) = (
  header_definition parts.header,
  request (record parts { header = header_del parts.header proxy_tape_identifier }) previous,
  none,
)

values-del :
    (h : Header) (k j : String)
    → header_values (header_del h k) j ≡ ite (string_dec k j) [] (header_values h j)
unfolding header_del header_values
values-del [] k j = ground arith
values-del ((i, vs) ∷ h) k j = ground (arith, values-del h k j)

-- The middleware takes the tape and the resource type of the request as the client sent them, removes
-- the tape header, which no later handler or server sees, and keeps the values of every other header.
pub handle_headers_lem :
    (q : Request)
    → let (definition, q', answer) = handle_headers q in
      (definition.tape_id ≡ header_get (request_parts q).header proxy_tape_identifier)
      × (definition.resource_type ≡ header_get (request_parts q).header proxy_resource_type)
      × (header_values (request_parts q').header proxy_tape_identifier ≡ [])
      × ((k : String)
          → proxy_tape_identifier ≢ k
          → header_values (request_parts q').header k ≡ header_values (request_parts q).header k)
unfolding handle_headers request_parts header_definition
handle_headers_lem (request parts previous) = (
  refl,
  refl,
  values-del parts.header proxy_tape_identifier proxy_tape_identifier
      ∙ if_pos (string_dec proxy_tape_identifier proxy_tape_identifier) refl _ _,
  λ k other.
      values-del parts.header proxy_tape_identifier k
      ∙ if_neg (string_dec proxy_tape_identifier k) other _ _,
)
