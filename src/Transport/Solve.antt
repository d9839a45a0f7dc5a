-- ===== src/Transport/Solve.antt =====
-- groove/proxy/transport.go: what `solveProtocol` and `solveTransport` remember.
use grooveproxy.Base.{
  ◌≡◌, refl, sym, ◌∙◌, none, some, String, Result, ok, err, arith, inl, inr, Option-cases, ite,
  if_pos, string_dec,
}
use grooveproxy.Dialers.{DialerDefinition}
use grooveproxy.Http.{Request, request_parts}
use grooveproxy.Transport.{
  Protocol, Protocol-discrete, Handler, Network, CustomRoundTripper, known_handler, with_handler,
  remember_handler, solve_transport, get_dialer_address, solve_protocol, learn_protocol,
  solve_protocol_new,
}

-- Every remembered handler is the one that `solveTransportNew` builds for its protocol, for a dialer
-- of its identifier.
abbrev pub HandlersFit : CustomRoundTripper → Type 0
HandlersFit rt =
    (i : String) (p : Protocol) (h : Handler)
    → known_handler rt i p ≡ some h
    → (h.protocol ≡ p) × (h.dialer.identifier ≡ i)

known-remember :
    (rt : CustomRoundTripper) (i j : String) (p r : Protocol) (h : Handler)
    → known_handler (remember_handler rt i p h) j r
      ≡ ite
          (string_dec i j)
          (ite (Protocol-discrete p r) (some h) (known_handler rt i r))
          (known_handler rt j r)
unfolding known_handler remember_handler with_handler
known-remember rt i j p r h = elim (string_dec i j) [
  | yes same ↦ elim (Option-cases (rt.handler_map i)) [
    | inl missing ↦ ground (arith, missing)
    | inr (handlers, found) ↦ ground (arith, found)
  ]
  | no other ↦ ground arith
]

solve_known :
    (rt : CustomRoundTripper) (p : Protocol) (d : DialerDefinition) (h : Handler)
    → known_handler rt d.identifier p ≡ some h
    → solve_transport rt p d ≡ (rt, h)
unfolding solve_transport
solve_known rt p d h known = ground (arith, known)

solve_new :
    (rt : CustomRoundTripper) (p : Protocol) (d : DialerDefinition)
    → known_handler rt d.identifier p ≡ none
    → let h : Handler = record { protocol = p; dialer = d } in
      solve_transport rt p d ≡ (remember_handler rt d.identifier p h, h)
unfolding solve_transport
solve_new rt p d new = ground (arith, new)

remember-HandlersFit :
    (rt : CustomRoundTripper) (p : Protocol) (d : DialerDefinition)
    → HandlersFit rt
    → HandlersFit (remember_handler rt d.identifier p (record { protocol = p; dialer = d }))
remember-HandlersFit rt p d fit i r h known =
    let this : Handler = record { protocol = p; dialer = d } in
    let read = sym (known-remember rt d.identifier i p r this) ∙ known in
    elim (string_dec d.identifier i) [
      | yes same ↦ elim (Protocol-discrete p r) [
        | yes eq ↦
            let found : this ≡ h = ground (arith, read, same, eq) in rw (sym found) (eq, same)
        | no ne ↦ fit i r h (ground (arith, read, same, ne))
      ]
      | no other ↦ fit i r h (ground (arith, read, other))
    ]

known_after :
    (rt : CustomRoundTripper) (i : String) (p : Protocol) (h : Handler)
    → known_handler (remember_handler rt i p h) i p ≡ some h
known_after rt i p h =
    known-remember rt i i p p h
    ∙ if_pos (string_dec i i) refl _ _
    ∙ if_pos (Protocol-discrete p p) refl _ _

-- Where the remembered handlers fit their keys, `solveTransport` returns a handler of the protocol through a dialer of the identifier, keeps what
-- it remembers fit, and the next call for the same dialer and protocol returns the same handler.
solve_transport_lem :
    (rt : CustomRoundTripper) (p : Protocol) (d : DialerDefinition)
    → HandlersFit rt
    → let (rt', h) = solve_transport rt p d in
      (h.protocol ≡ p)
      × (h.dialer.identifier ≡ d.identifier)
      × HandlersFit rt'
      × (solve_transport rt' p d ≡ (rt', h))
solve_transport_lem rt p d fit = elim (Option-cases (known_handler rt d.identifier p)) [
  | inr (h, known) ↦ rw (solve_known rt p d h known) (
    (fit d.identifier p h known).0,
    (fit d.identifier p h known).1,
    fit,
    solve_known rt p d h known,
  )
  | inl new ↦
      let h : Handler = record { protocol = p; dialer = d } in
      let rt' = remember_handler rt d.identifier p h in
      rw (solve_new rt p d new) (
        refl,
        refl,
        remember-HandlersFit rt p d fit,
        solve_known rt' p d h (known_after rt d.identifier p h),
      )
]

module _ {W Conn : Type 0} (net : Network W Conn) where
  learned :
      (rt rt' : CustomRoundTripper) (host : String) (s : W × Result Protocol) (w' : W)
      (p : Protocol)
      → learn_protocol net rt host s ≡ (w', rt', ok p)
      → rt'.protocol_map host ≡ some p
  unfolding learn_protocol
  learned rt rt' host (w, err e) w' p ran = ground (arith, ran)
  learned rt rt' host (w, ok p') w' p ran = ground (arith, ran)

  -- Once the protocol of a request's address is solved, a later request to that address takes it
  -- from the map, through any dialer and with no use of the network.
  solve_protocol_again :
      (w w' v : W) (rt rt' : CustomRoundTripper) (q r : Request) (d e : DialerDefinition)
      (p : Protocol)
      → solve_protocol net w rt q d ≡ (w', rt', ok p)
      → get_dialer_address net ((request_parts r).url)
        ≡ get_dialer_address net ((request_parts q).url)
      → solve_protocol net v rt' r e ≡ (v, rt', ok p)
  unfolding solve_protocol
  solve_protocol_again w w' v rt rt' q r d e p ran same =
      let host = get_dialer_address net ((request_parts q).url) in
      let known : rt'.protocol_map host ≡ some p = elim (Option-cases (rt.protocol_map host)) [
        | inr (p', found) ↦ ground (arith, found, ran)
        | inl new ↦
            learned rt rt' host (solve_protocol_new net w q d) w' p (ground (arith, new, ran))
      ] in
      ground (arith, same, known)
