-- ===== src/Transport/Dial.antt =====
-- groove/proxy/transport.go: the connections of the handlers that `solveTransportNew` builds.
use grooveproxy.Base.{
  ◌≡◌, ◌↔◌, refl, sym, ◌∙◌, ap, subst, ◌⊎◌, true, Option, none, some, String, Result, ok, err,
  arith, inl, inr, Bool-cases, if_neg, string_dec,
}
use grooveproxy.Dialers.{DialerDefinition}
use grooveproxy.Http.{Request, Url, request_parts}
use grooveproxy.Transport.{
  Protocol, http1, http1_tls, http2_tls, Network, ConnectionState, is_tls, next_proto_tls,
  protocol_of, get_dialer_address, address_to_host, shaken, wrap_connection_with_tls, secured,
  main_dialer, handshake_protocol, probed, solve_protocol_new,
}

-- The protocol that a TLS connection stands for.
abbrev pub Negotiated : ConnectionState → Protocol → Type 0
Negotiated state p =
    (state.handshake_complete ≡ true)
    × (is_tls p ≡ true)
    × ((p ≡ http2_tls) ↔ (state.negotiated_protocol ≡ next_proto_tls))

protocol_of-Negotiated :
    (state : ConnectionState) (p : Protocol) → protocol_of state ≡ ok p → Negotiated state p
unfolding protocol_of is_tls
protocol_of-Negotiated state p e = elim (Bool-cases state.handshake_complete) [
  | inr incomplete ↦ ground (arith, incomplete, e)
  | inl complete ↦ elim (string_dec state.negotiated_protocol next_proto_tls) [
    | yes h2 ↦
        let found : http2_tls ≡ p = ground (arith, complete, h2, e) in
        rw (sym found) (complete, refl, ((λ same. h2), (λ same. refl)))
    | no other ↦
        let found : http1_tls ≡ p = ground (arith, complete, other, e) in
        rw (sym found) (complete, refl, ((λ same. cc), (λ same. absurd (other same))))
  ]
]

module _ {W Conn : Type 0} (net : Network W Conn) where
  shaken-state :
      (c : Conn) (s : W × Option String) (w' : W) (p : Protocol)
      → handshake_protocol net (shaken net c s) ≡ (w', ok p)
      → (shaken net c s ≡ (w', ok c)) × Negotiated (net.connection_state w' c) p
  unfolding shaken handshake_protocol
  shaken-state c (w, some e) w' p h = ground (arith, h)
  shaken-state c (w, none) w' p h =
      let same : w ≡ w' = ground (arith, h) in
      let solved : protocol_of (net.connection_state w c) ≡ ok p = ground (arith, h) in
      (
        ap (λ x. (x, ok c)) same,
        subst (λ x. Negotiated (net.connection_state x c) p) same
            (protocol_of-Negotiated (net.connection_state w c) p solved),
      )

  -- What a solved protocol says of the connection that a handler of it gets.
  abbrev pub Fits : Url → W → Conn → Protocol → Type 0
  Fits url w c p =
      ((p ≡ http1) × (net.to_lower url.scheme ≡ "http")) ⊎ Negotiated (net.connection_state w c) p

  probed-secured :
      (url : Url) (s : W × Result Conn) (w' : W) (p : Protocol)
      → probed net url s ≡ (w', ok p)
      → (c : Conn) × (secured net p (get_dialer_address net url) s ≡ (w', ok c)) × Fits url w' c p
  unfolding probed secured wrap_connection_with_tls is_tls
  probed-secured url (w, err e) w' p h = ground (arith, h)
  probed-secured url (w, ok raw) w' p h = elim (string_dec (net.to_lower url.scheme) "http") [
    | yes plain ↦
        let solved : http1 ≡ p = ground (arith, plain, h) in
        let same : w ≡ w' = ground (arith, plain, h) in
        (raw, rw (sym solved) (ap (λ x. (x, ok raw)) same), inl (sym solved, plain))
    | no other ↦
        let c = net.u_client raw (address_to_host net (get_dialer_address net url)) in
        let s = shaken net c (net.handshake w c) in
        let run : handshake_protocol net s ≡ (w', ok p) =
          sym (if_neg (string_dec (net.to_lower url.scheme) "http") other _ _) ∙ h in
        let (shook, state) = shaken-state c (net.handshake w c) w' p run in
        (c, rw state.1 shook, inr state)
  ]

  -- Where `solveProtocolNew` solves the protocol of a request through a dialer, a handler of this
  -- protocol and dialer that dials the same address in the same state of the world gets a
  -- connection, and leaves the world as the solving did: the dialer's own one for the protocol of a
  -- request whose scheme is http, and else one with a complete TLS handshake, which negotiated
  -- HTTP/2 exactly if the solved protocol is HTTP/2.
  pub solve_protocol_new-main_dialer :
      (w w' : W) (q : Request) (d : DialerDefinition) (p : Protocol)
      → solve_protocol_new net w q d ≡ (w', ok p)
      → let url : Url = (request_parts q).url in
        (c : Conn) × (main_dialer net w
            (record { protocol = p; dialer = d })
            "tcp"
            (get_dialer_address net url)
          ≡ (w', ok c))
        × Fits url w' c p
  unfolding solve_protocol_new main_dialer
  solve_protocol_new-main_dialer w w' q d p h =
      let url : Url = (request_parts q).url in
      probed-secured url (net.dial w d "tcp" (get_dialer_address net url)) w' p h
