-- ===== src/Transport.antt =====
-- groove/proxy/transport.go: `CustomRoundTripper`. The network, the TLS library, Go's transports
-- and `net.SplitHostPort` are the operations of a `Network`, over the state `W` of the outside
-- world.
pub mod Solve
pub mod Attempts
pub mod Dial
pub mod Requests
pub mod Failover
pub mod Session
pub mod Received
use Prim.Native.String.{◌++◌ as text_append}
use text.Mathlib.Text.{find?}
use grooveproxy.Base.{
  ℕ, zero, suc, ◌+◌, Bool, true, false, ◌&&◌, ◌||◌, List, [], ◌∷◌, Option, none, some, String,
  Result, ok, err, if◌then◌else◌, ltb, leb, ◌==◌, is_some, ite, string_dec, StringMap, empty_map,
  insert,
}
use grooveproxy.Dialers.{
  DialerDefinition, DialerContext, DialerSession, new_dialer_context, next_dialer,
  proxy_resource_type,
}
use grooveproxy.Http.{Request, Response, Url, request, request_parts, response_parts, header_del}

pub data Protocol : Type 0 where
  http1 http1_tls http2_tls : Protocol

pub Protocol-discrete : Discrete Protocol
Protocol-discrete = hlevel

-- Whether `mainDialer` makes a TLS handshake.
unfoldable pub is_tls : Protocol → Bool
is_tls http1 = false
is_tls http1_tls = true
is_tls http2_tls = true

-- What `solveTransportNew` builds: one of Go's transports, over HTTP/1 or HTTP/2 by the protocol, that
-- dials by `main_dialer`.
pub record Handler : Type 0 where
  pub protocol : Protocol
  pub dialer : DialerDefinition

pub record ConnectionState : Type 0 where
  pub handshake_complete : Bool
  pub negotiated_protocol : String

pub record Network (W Conn : Type 0) : Type 0 where
  pub split_host_port : String → Result (String × String)
  pub to_lower : String → String
  -- `dialerDefinition.Dial(network, addr)`
  pub dial : W → DialerDefinition → String → String → W × Result Conn
  -- `utls.UClient`, with the server name
  pub u_client : Conn → String → Conn
  -- `Handshake`, with its error
  pub handshake : W → Conn → W × Option String
  pub connection_state : W → Conn → ConnectionState
  pub close : W → Conn → W
  -- `handler.RoundTrip(req)`
  pub exchange : W → Handler → Request → W × Result Response

pub record CustomRoundTripper : Type 0 where
  pub handler_map : StringMap (Protocol → Option Handler)
  pub protocol_map : StringMap Protocol
  pub dialer_session : DialerSession

unfoldable pub new_custom_round_tripper : DialerSession → CustomRoundTripper
new_custom_round_tripper dialer_session = record {
  handler_map = empty_map;
  protocol_map = empty_map;
  dialer_session = dialer_session;
}

-- `net.JoinHostPort`: a host with a colon is put in brackets.
unfoldable pub join_host_port : String → String → String
join_host_port host port =
    if is_some (find? host ":")
    then text_append "[" (text_append host (text_append "]:" port))
    else text_append host (text_append ":" port)

-- The two levels of `handlerMap`: a missing identifier reads as a map without entries.
unfoldable pub known_handler : CustomRoundTripper → String → Protocol → Option Handler
known_handler rt identifier protocol = elim (rt.handler_map identifier) [
  | none ↦ none
  | some handlers ↦ handlers protocol
]

unfoldable pub with_handler :
    Option (Protocol → Option Handler) → Protocol → Handler → Protocol → Option Handler
with_handler none protocol handler p = ite (Protocol-discrete protocol p) (some handler) none
with_handler (some handlers) protocol handler p =
    ite (Protocol-discrete protocol p) (some handler) (handlers p)

unfoldable pub remember_handler :
    CustomRoundTripper → String → Protocol → Handler → CustomRoundTripper
remember_handler rt identifier protocol handler = record rt {
  handler_map =
      insert rt.handler_map identifier (with_handler (rt.handler_map identifier) protocol handler);
}

-- `solveTransport`; `solveTransportNew` does not fail.
unfoldable pub solve_transport :
    CustomRoundTripper → Protocol → DialerDefinition → CustomRoundTripper × Handler
solve_transport rt protocol dialer = elim (known_handler rt dialer.identifier protocol) [
  | some handler ↦ (rt, handler)
  | none ↦
      let handler : Handler = record { protocol = protocol; dialer = dialer } in
      (remember_handler rt dialer.identifier protocol handler, handler)
]

abbrev pub next_proto_tls : String
next_proto_tls = "h2"

-- The end of `solveProtocolNew`, on the state of the TLS connection.
unfoldable pub protocol_of : ConnectionState → Result Protocol
protocol_of state =
    if state.handshake_complete
    then ok (ite (string_dec state.negotiated_protocol next_proto_tls) http2_tls http1_tls)
    else err "Unable to solve protocol"

-- `req.Header.Del(ProxyResourceType)`
unfoldable pub strip_resource_type : Request → Request
strip_resource_type (request parts previous) =
    request (record parts { header = header_del parts.header proxy_resource_type }) previous

module _ {W Conn : Type 0} (net : Network W Conn) where
  unfoldable pub get_dialer_address : Url → String
  get_dialer_address url = elim (net.split_host_port url.host) [
    | ok (host, port) ↦ join_host_port host port
    | err e ↦ join_host_port url.host url.scheme
  ]

  unfoldable pub address_to_host : String → String
  address_to_host addr = elim (net.split_host_port addr) [ ok (host, port) ↦ host | err e ↦ addr ]

  unfoldable pub shaken : Conn → W × Option String → W × Result Conn
  shaken connection (w, some e) = (net.close w connection, err e)
  shaken connection (w, none) = (w, ok connection)

  unfoldable pub wrap_connection_with_tls : W → String → Conn → W × Result Conn
  wrap_connection_with_tls w host raw =
      let connection = net.u_client raw host in shaken connection (net.handshake w connection)

  unfoldable pub secured : Protocol → String → W × Result Conn → W × Result Conn
  secured protocol addr (w, err e) = (w, err e)
  secured protocol addr (w, ok connection) =
      if is_tls protocol
      then wrap_connection_with_tls w (address_to_host addr) connection
      else (w, ok connection)

  -- `mainDialer` of `solveTransportNew`: how a handler gets its connections.
  unfoldable pub main_dialer : W → Handler → String → String → W × Result Conn
  main_dialer w handler network addr =
      secured handler.protocol addr (net.dial w handler.dialer network addr)

  unfoldable pub handshake_protocol : W × Result Conn → W × Result Protocol
  handshake_protocol (w, err e) = (w, err e)
  handshake_protocol (w, ok connection) = (w, protocol_of (net.connection_state w connection))

  unfoldable pub probed : Url → W × Result Conn → W × Result Protocol
  probed url (w, err e) = (w, err e)
  probed url (w, ok connection) =
      ite (string_dec (net.to_lower url.scheme) "http") (w, ok http1)
        (handshake_protocol
          (wrap_connection_with_tls w (address_to_host (get_dialer_address url)) connection))

  -- `solveProtocolNew`
  unfoldable pub solve_protocol_new : W → Request → DialerDefinition → W × Result Protocol
  solve_protocol_new w q dialer =
      let url : Url = (request_parts q).url in
      probed url (net.dial w dialer "tcp" (get_dialer_address url))

  unfoldable pub learn_protocol :
      CustomRoundTripper → String → W × Result Protocol → W × CustomRoundTripper × Result Protocol
  learn_protocol rt host (w, err e) = (w, rt, err e)
  learn_protocol rt host (w, ok protocol) =
      (w, record rt { protocol_map = insert rt.protocol_map host protocol }, ok protocol)

  -- `solveProtocol`
  unfoldable pub solve_protocol :
      W → CustomRoundTripper → Request → DialerDefinition → W × CustomRoundTripper × Result Protocol
  solve_protocol w rt q dialer =
      let host = get_dialer_address ((request_parts q).url) in
      elim (rt.protocol_map host) [
        | some protocol ↦ (w, rt, ok protocol)
        | none ↦ learn_protocol rt host (solve_protocol_new w q dialer)
      ]

  -- 200s and 300s are valid.
  unfoldable pub is_valid_response : Response → Bool
  is_valid_response r =
      leb 200 (response_parts r).status_code && ltb (response_parts r).status_code 400

  unfoldable pub received :
      CustomRoundTripper → W × Result Response → W × CustomRoundTripper × Option Response
  received rt (w, err e) = (w, rt, none)
  received rt (w, ok r) = (w, rt, (if is_valid_response r then some r else none))

  -- One round of the loop for a dialer: the response, if it is valid.
  unfoldable pub try_handler :
      W × CustomRoundTripper × Result Protocol
      → Request
      → DialerDefinition
      → W × CustomRoundTripper × Option Response
  try_handler (w, rt, err e) q dialer = (w, rt, none)
  try_handler (w, rt, ok protocol) q dialer =
      let (rt', handler) = solve_transport rt protocol dialer in
      received rt' (net.exchange w handler q)

  unfoldable pub try_dialer :
      W → CustomRoundTripper → Request → DialerDefinition → W × CustomRoundTripper × Option Response
  try_dialer w rt q dialer = try_handler (solve_protocol w rt q dialer) q dialer

  -- The loop of `RoundTrip`, with fuel; `none` means that the fuel ran out. `draws` are the random
  -- draws of the rounds.
  unfoldable pub round_trip_loop :
      ℕ
      → (ℕ → ℕ)
      → W
      → CustomRoundTripper
      → DialerContext
      → Request
      → Option (W × CustomRoundTripper × Result Response)
  round_trip_loop zero draws w rt context q = none
  round_trip_loop (suc fuel) draws w rt context q =
      let (chosen, context') = next_dialer (draws fuel) rt.dialer_session context in
      elim chosen [
        | none ↦ some (w, rt, err "Exhausted dialers")
        | some dialer ↦
            let (w', rt', valid) = try_dialer w rt q dialer in
            elim valid [
              | some r ↦ some (w', rt', ok r)
              | none ↦ round_trip_loop fuel draws w' rt' context' q
            ]
      ]

  -- `RoundTrip`: the context is built before the resource type is stripped.
  unfoldable pub round_trip :
      ℕ
      → (ℕ → ℕ)
      → W
      → CustomRoundTripper
      → Request
      → Option (W × CustomRoundTripper × Result Response)
  round_trip fuel draws w rt q = elim (new_dialer_context rt.dialer_session (some q)) [
    | none ↦ none
    | some context ↦ round_trip_loop fuel draws w rt context (strip_resource_type q)
  ]
