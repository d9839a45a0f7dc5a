-- ===== src/EndProxy/Tunnel.antt =====
-- groove/proxy/end_proxy.go: what a connection through an upstream proxy went through.
use Prim.Native.String.{◌++◌ as text_append}
use text.Mathlib.Text.{find?}
use grooveproxy.Base.{
  same_text, ◌≡◌, refl, sym, ◌∙◌, ap, subst, ◌&&◌, ◌||◌, not, true, is_some, [], ◌∷◌, Option, none,
  some, String, Result, ok, err, if◌then◌else◌, ◌==◌, arith, ◌⊎◌, inl, inr, Bool-cases, ==_iff,
}
use grooveproxy.Dialers.{ProxyDefinition}
use grooveproxy.EndProxy.{
  ProxyUrl, ConnectRequest, ConnectReply, Wire, connect_request, with_port, set_basic_auth,
  refuse_reply, accept_reply, connect, dialed, new_connect_dial, dialer_of, basic_auth, header_set,
}
use grooveproxy.Http.{Header, header_add, header_del}
use grooveproxy.Recorder.Tape.{same_text-≡}

-- Specification: the header of a tunnel's request, with the proxy's authentication if both a name and
-- a password are given.
abbrev pub authentication : (base64 : String → String) → ProxyDefinition → Header
authentication base64 proxy =
    if not (same_text proxy.username "") && not (same_text proxy.password "")
    then (
      "Proxy-Authorization",
      text_append "Basic " (base64 (text_append proxy.username (text_append ":" proxy.password)))
          ∷ [],
    )
      ∷ []
    else []

-- Specification: the host to dial, which gets the port if it names none.
abbrev pub dialed_host : ProxyUrl → String → String
dialed_host u port = if is_some (find? u.host ":") then u.host else text_append u.host port

module _ {W Conn : Type 0} (wire : Wire W Conn) where
  -- A connection that was tunnelled: dialed, wrapped, asked by the request, and accepted with status
  -- 200.
  pub record Tunnels (wrap : Conn → Conn) (q : ConnectRequest) (host : String) (w w' : W) (c : Conn)
      : Type 0 where
    pub raw : Conn
    pub opened : W
    pub dials : wire.net_dial w host ≡ (opened, ok raw)
    pub wrapped : c ≡ wrap raw
    pub reply : ConnectReply
    pub answers : wire.read_response (wire.write opened c q) c ≡ (w', ok reply)
    pub accepted : reply.status_code ≡ 200

  refused :
      (cut : String → String) (w w' : W) (c c' : Conn) (b : Result String)
      → ¬ (refuse_reply wire cut w c b ≡ (w', ok c'))
  unfolding refuse_reply
  refused cut w w' c c' (err e) h = ground (arith, h)
  refused cut w w' c c' (ok t) h = ground (arith, h)

  accept_lem :
      (cut : String → String) (c c' : Conn) (w' : W) (r : W × Result ConnectReply)
      → accept_reply wire cut c r ≡ (w', ok c')
      → (reply : ConnectReply) × (r ≡ (w', ok reply)) × (c ≡ c') × (reply.status_code ≡ 200)
  unfolding accept_reply
  accept_lem cut c c' w' (w, err e) h = ground (arith, h)
  accept_lem cut c c' w' (w, ok reply) h = elim (Bool-cases (reply.status_code == 200)) [
    | inl good ↦
        let ends : ◌≡◌ {A = W × Result Conn} (w, ok c) (w', ok c') = ground (arith, h, good) in
        let same : ok c ≡ ok c' = ap (λ x. x.1) ends in
        let same_conn : c ≡ c' = ground (arith, same) in
        (reply, ap (λ x. (x.0, ok reply)) ends, same_conn, (==_iff reply.status_code 200).0 good)
    | inr bad ↦ absurd (refused cut w w' c c' reply.body (ground (arith, h, bad)))
  ]

  dialed-Tunnels :
      (cut : String → String) (wrap : Conn → Conn) (q : ConnectRequest) (host : String) (w w' : W)
      (c : Conn)
      → dialed wire cut wrap q (wire.net_dial w host) ≡ (w', ok c)
      → Tunnels wrap q host w w' c
  unfolding dialed connect
  dialed-Tunnels cut wrap q host w w' c h = go (wire.net_dial w host) refl h
    where
      go :
          (r : W × Result Conn)
          → wire.net_dial w host ≡ r
          → dialed wire cut wrap q r ≡ (w', ok c)
          → Tunnels wrap q host w w' c
      go (v, err e) there k = ground (arith, k)
      go (v, ok raw) there k =
          let (reply, answers, same, accepted) = accept_lem cut (wrap raw) c w' _ k in
          record {
            raw = raw;
            opened = v;
            dials = there;
            wrapped = sym same;
            reply = reply;
            answers =
                subst (λ x. wire.read_response (wire.write v x q) x ≡ (w', ok reply)) same answers;
            accepted = accepted;
          }

  -- A tunnel by the scheme of the proxy's URL: over TLS, with the port 443, only for https and wss.
  pub record SchemeTunnels (q : ConnectRequest) (u : ProxyUrl) (w w' : W) (c : Conn) : Type 0 where
    pub tunnel :
        (((u.scheme ≡ "") ⊎ (u.scheme ≡ "http")) × Tunnels (λ x. x) q (dialed_host u ":80") w w' c)
        ⊎ (((u.scheme ≡ "https") ⊎ (u.scheme ≡ "wss"))
            × Tunnels wire.tls_client q (dialed_host u ":443") w w' c)

  one_of : (s a b : String) → (same_text s a || same_text s b) ≡ true → (s ≡ a) ⊎ (s ≡ b)
  one_of s a b h = elim (Bool-cases (same_text s a)) [
    | inl first ↦ inl (same_text-≡ s a first)
    | inr other ↦ inr (same_text-≡ s b (ground (arith, h, other)))
  ]

  same_dial :
      (f g : W → String → W × Result Conn) (w : W) (addr : String)
      → some f ≡ some g
      → f w addr ≡ g w addr
  same_dial f g w addr e = ap (λ o. run o) e
    where
      run : Option (W → String → W × Result Conn) → W × Result Conn
      run none = f w addr
      run (some h) = h w addr

  new_connect_dial-Tunnels :
      (url : String) (handler : ConnectRequest → ConnectRequest)
      (dial : W → String → W × Result Conn) (w w' : W) (addr : String) (c : Conn)
      → new_connect_dial wire url handler ≡ some dial
      → dial w addr ≡ (w', ok c)
      → (u : ProxyUrl) × (wire.parse url ≡ ok u)
        × SchemeTunnels (handler (connect_request addr)) u w w' c
  unfolding new_connect_dial with_port
  new_connect_dial-Tunnels url handler dial w w' addr c made dialed_ok = go (wire.parse url) refl
    where
      go :
          (r : Result ProxyUrl)
          → wire.parse url ≡ r
          → (u : ProxyUrl) × (wire.parse url ≡ ok u)
            × SchemeTunnels (handler (connect_request addr)) u w w' c
      go (err e) p = ground (arith, made, p)
      go (ok u) p = elim (Bool-cases (same_text u.scheme "" || same_text u.scheme "http")) [
        | inl plain ↦
            let f : W → String → W × Result Conn = λ w addr.
              dialed wire (λ text. text) (λ c. c) (handler (connect_request addr))
                (wire.net_dial w (with_port u.host ":80")) in
            let made_f : new_connect_dial wire url handler ≡ some f =
              rw (p, new_connect_dial, plain) refl in
            (
              u,
              p,
              record {
                tunnel = inl (
                  one_of u.scheme "" "http" plain,
                  dialed-Tunnels (λ text. text) (λ c. c) (handler (connect_request addr))
                      (with_port u.host ":80") w w' c
                      (same_dial f dial w addr (sym made_f ∙ made) ∙ dialed_ok),
                );
              },
            )
        | inr other ↦ elim (Bool-cases (same_text u.scheme "https" || same_text u.scheme "wss")) [
          | inl secure ↦
              let f : W → String → W × Result Conn = λ w addr.
                dialed wire (wire.limit 500) wire.tls_client (handler (connect_request addr))
                  (wire.net_dial w (with_port u.host ":443")) in
              let made_f : new_connect_dial wire url handler ≡ some f =
                rw (p, new_connect_dial, other, secure) refl in
              (
                u,
                p,
                record {
                  tunnel = inr (
                    one_of u.scheme "https" "wss" secure,
                    dialed-Tunnels (wire.limit 500) wire.tls_client (handler (connect_request addr))
                        (with_port u.host ":443") w w' c
                        (same_dial f dial w addr (sym made_f ∙ made) ∙ dialed_ok),
                  );
                },
              )
          | inr unknown ↦ ground (arith, made, p, other, unknown)
        ]
      ]

  -- A connection through a proxy is one that the proxy accepted with status 200. For a URL without a
  -- scheme or with `http` it was dialed at the proxy's host, with port 80 if the host names none, and
  -- is the dialed one; for `https` and `wss` the port is 443 and it is the TLS client over the dialed
  -- one; there is none for another scheme. It was asked by a request with method CONNECT and the
  -- address for its host, whose only header is `Proxy-Authorization`, `Basic ` before the base64 of
  -- name, colon and password, if neither of these is empty, and which has no header otherwise.
  pub dialer_of-Tunnels :
      (proxy : ProxyDefinition) (dial : W → String → W × Result Conn) (w w' : W) (addr : String)
      (c : Conn)
      → dialer_of wire (some proxy) ≡ some dial
      → dial w addr ≡ (w', ok c)
      → (u : ProxyUrl) × (wire.parse proxy.url ≡ ok u)
        × SchemeTunnels
            (record { method = "CONNECT"; host = addr; header = authentication wire.base64 proxy })
            u
            w
            w'
            c
  unfolding dialer_of connect_request set_basic_auth header_set header_add header_del basic_auth
  dialer_of-Tunnels proxy dial w w' addr c made dialed_ok =
      elim (Bool-cases (not (same_text proxy.username "") && not (same_text proxy.password ""))) [
        | inl named ↦ rw named (
            new_connect_dial-Tunnels proxy.url (set_basic_auth wire proxy.username proxy.password)
              dial w w' addr c (ground (arith, made, named)) dialed_ok)
        | inr anonymous ↦ rw anonymous (
            new_connect_dial-Tunnels proxy.url (λ q. q) dial w w' addr c
              (ground (arith, made, anonymous)) dialed_ok)
      ]
