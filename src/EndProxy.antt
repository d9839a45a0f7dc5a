-- ===== src/EndProxy.antt =====
-- groove/proxy/end_proxy.go and the choice of the dial function in `NewDialerDefinition` of
-- groove/proxy/dialers.go: a connection through an upstream proxy. `net.Dial`, the TLS client, the
-- reads and writes of a connection, `url.Parse` and base64 are the operations of a `Wire`.
pub mod Tunnel
use Prim.Native.String.{◌++◌ as text_append}
use text.Mathlib.Text.{find?}
use grooveproxy.Base.{
  same_text, ℕ, ◌≡◌, refl, sym, ◌∙◌, ap, subst, Bool, true, false, ◌&&◌, ◌||◌, not, List, [], ◌∷◌,
  Option, none, some, String, Result, ok, err, if◌then◌else◌, ◌==◌, is_some, ite, string_dec, arith,
  ◌⊎◌, inl, inr, Bool-cases, ==_iff,
}
use grooveproxy.Dialers.{ProxyDefinition}
use grooveproxy.Http.{Header, header_add, header_del, header_get}

pub record ProxyUrl : Type 0 where
  pub scheme : String
  pub host : String

pub record ConnectRequest : Type 0 where
  pub method : String
  pub host : String
  pub header : Header

-- The reply to a CONNECT: its status, and its text or the error of reading it.
pub record ConnectReply : Type 0 where
  pub status_code : ℕ
  pub body : Result String

pub record Wire (W Conn : Type 0) : Type 0 where
  pub parse : String → Result ProxyUrl
  pub base64 : String → String
  pub net_dial : W → String → W × Result Conn
  pub tls_client : Conn → Conn
  pub write : W → Conn → ConnectRequest → W
  pub read_response : W → Conn → W × Result ConnectReply
  -- at most the given bytes of a text
  pub limit : ℕ → String → String
  pub close : W → Conn → W

abbrev pub proxy_auth_header : String
proxy_auth_header = "Proxy-Authorization"

-- `Header.Set`
unfoldable pub header_set : Header → String → String → Header
header_set header key value = header_add (header_del header key) key value

unfoldable pub connect_request : String → ConnectRequest
connect_request addr = record { method = "CONNECT"; host = addr; header = [] }

-- A host without a colon gets the default port.
unfoldable pub with_port : String → String → String
with_port host port = if is_some (find? host ":") then host else text_append host port

module _ {W Conn : Type 0} (wire : Wire W Conn) where
  unfoldable pub basic_auth : String → String → String
  basic_auth username password = wire.base64 (text_append username (text_append ":" password))

  unfoldable pub set_basic_auth : String → String → ConnectRequest → ConnectRequest
  set_basic_auth username password q = record q {
    header =
        header_set q.header proxy_auth_header (text_append "Basic " (basic_auth username password));
  }

  -- A reply that is not accepted; a body that cannot be read leaves the connection open.
  unfoldable pub refuse_reply : (String → String) → W → Conn → Result String → W × Result Conn
  refuse_reply cut w c (err e) = (w, err e)
  refuse_reply cut w c (ok text) =
      (wire.close w c, err (text_append "proxy refused connection" (cut text)))

  -- The end of both dial functions.
  unfoldable pub accept_reply : (String → String) → Conn → W × Result ConnectReply → W × Result Conn
  accept_reply cut c (w, err e) = (wire.close w c, err e)
  accept_reply cut c (w, ok reply) =
      if reply.status_code == 200 then (w, ok c) else refuse_reply cut w c reply.body

  unfoldable pub connect : (String → String) → ConnectRequest → W → Conn → W × Result Conn
  connect cut q w c = accept_reply cut c (wire.read_response (wire.write w c q) c)

  unfoldable pub dialed :
      (String → String) → (Conn → Conn) → ConnectRequest → W × Result Conn → W × Result Conn
  dialed cut wrap q (w, err e) = (w, err e)
  dialed cut wrap q (w, ok c) = connect cut q w (wrap c)

  -- `NewConnectDialToProxyWithHandler`: no dial function for a URL that does not parse or a scheme
  -- that is not known.
  unfoldable pub new_connect_dial :
      String → (ConnectRequest → ConnectRequest) → Option (W → String → W × Result Conn)
  new_connect_dial https_proxy handler = elim (wire.parse https_proxy) [
    | err e ↦ none
    | ok u ↦
        if same_text u.scheme "" || same_text u.scheme "http"
        then some (λ w addr.
          dialed (λ text. text) (λ c. c) (handler (connect_request addr))
            (wire.net_dial w (with_port u.host ":80")))
        else if same_text u.scheme "https" || same_text u.scheme "wss"
        then some (λ w addr.
          dialed (wire.limit 500) wire.tls_client (handler (connect_request addr))
            (wire.net_dial w (with_port u.host ":443")))
        else none
  ]

  -- The dial function of a definition: the network itself, or its proxy, with authentication if both
  -- a name and a password are given.
  unfoldable pub dialer_of : Option ProxyDefinition → Option (W → String → W × Result Conn)
  dialer_of none = some wire.net_dial
  dialer_of (some proxy) =
      if not (same_text proxy.username "") && not (same_text proxy.password "")
      then new_connect_dial proxy.url (set_basic_auth proxy.username proxy.password)
      else new_connect_dial proxy.url (λ q. q)
