-- ===== src/Transport/Session.antt =====
-- groove/proxy/transport.go: a round of `RoundTrip` keeps the session.
use grooveproxy.Base.{
  ℕ, zero, suc, ◌≡◌, refl, sym, ◌∙◌, ap, some, String, Result, ok, err, arith, inl, inr,
  Option-cases,
}
use grooveproxy.Dialers.Next.{}
use grooveproxy.Dialers.{DialerDefinition, DialerContext, new_dialer_context, next_dialer}
use grooveproxy.Http.{Request, Response, request_parts}
use grooveproxy.Transport.{
  Network, CustomRoundTripper, Protocol, known_handler, solve_transport, learn_protocol,
  solve_protocol, received, try_handler, try_dialer, round_trip_loop, round_trip,
  strip_resource_type, get_dialer_address, solve_protocol_new, remember_handler,
}

module _ {W Conn : Type 0} (net : Network W Conn) where
  -- No try changes the session.
  solve_transport-session :
      (rt : CustomRoundTripper) (p : Protocol) (d : DialerDefinition)
      → (solve_transport rt p d).0.dialer_session ≡ rt.dialer_session
  unfolding solve_transport remember_handler
  solve_transport-session rt p d = elim (Option-cases (known_handler rt d.identifier p)) [
    | inl missing ↦ rw (missing, solve_transport) refl
    | inr (h, there) ↦ rw (there, solve_transport) refl
  ]

  received-session :
      (rt : CustomRoundTripper) (e : W × Result Response)
      → (received net rt e).1.dialer_session ≡ rt.dialer_session
  unfolding received
  received-session rt (w, ok r) = refl
  received-session rt (w, err e) = refl

  try_handler-session :
      (s : W × CustomRoundTripper × Result Protocol) (q : Request) (d : DialerDefinition)
      → (try_handler net s q d).1.dialer_session ≡ s.1.dialer_session
  unfolding try_handler
  try_handler-session (w, rt, err e) q d = refl
  try_handler-session (w, rt, ok p) q d =
      let (rt', h) = solve_transport rt p d in
      received-session rt' (net.exchange w h q) ∙ solve_transport-session rt p d

  learn-session :
      (rt : CustomRoundTripper) (host : String) (s : W × Result Protocol)
      → (learn_protocol net rt host s).1.dialer_session ≡ rt.dialer_session
  unfolding learn_protocol
  learn-session rt host (w, ok p) = refl
  learn-session rt host (w, err e) = refl

  solve_protocol-session :
      (w : W) (rt : CustomRoundTripper) (q : Request) (d : DialerDefinition)
      → (solve_protocol net w rt q d).1.dialer_session ≡ rt.dialer_session
  unfolding solve_protocol
  solve_protocol-session w rt q d =
      let host = get_dialer_address net ((request_parts q).url) in
      elim (Option-cases (rt.protocol_map host)) [
        | inl missing ↦
            rw (missing, solve_protocol) (learn-session rt host (solve_protocol_new net w q d))
        | inr (p, there) ↦ rw (there, solve_protocol) refl
      ]

  pub try_dialer-session :
      (w : W) (rt : CustomRoundTripper) (q : Request) (d : DialerDefinition)
      → (try_dialer net w rt q d).1.dialer_session ≡ rt.dialer_session
  unfolding try_dialer
  try_dialer-session w rt q d =
      try_handler-session (solve_protocol net w rt q d) q d ∙ solve_protocol-session w rt q d

  loop-session :
      (fuel : ℕ) (draws : ℕ → ℕ) (w w' : W) (rt rt' : CustomRoundTripper) (c : DialerContext)
      (q : Request) (r : Result Response)
      → round_trip_loop net fuel draws w rt c q ≡ some (w', rt', r)
      → rt'.dialer_session ≡ rt.dialer_session
  unfolding round_trip_loop
  loop-session zero draws w w' rt rt' c q r ran = ground (arith, ran)
  loop-session (suc fuel) draws w w' rt rt' c q r ran =
      elim (Option-cases (next_dialer (draws fuel) rt.dialer_session c).0) [
        | inl nothing ↦
            let same : rt ≡ rt' = ground (arith, ran, nothing) in
            ap (λ x. x.dialer_session) (sym same)
        | inr (d, chosen) ↦
            let tried = try_dialer net w rt q d in
            elim (Option-cases tried.2) [
              | inr (x, valid) ↦
                  let same : tried.1 ≡ rt' = ground (arith, ran, chosen, valid) in
                  ap (λ x. x.dialer_session) (sym same) ∙ try_dialer-session w rt q d
              | inl invalid ↦
                  loop-session fuel draws tried.0 w' tried.1 rt'
                    ((next_dialer (draws fuel) rt.dialer_session c).1) q r
                    (ground (arith, ran, chosen, invalid))
                  ∙ try_dialer-session w rt q d
            ]
      ]

  pub round_trip-session :
      (fuel : ℕ) (draws : ℕ → ℕ) (w w' : W) (rt rt' : CustomRoundTripper) (q : Request)
      (r : Result Response)
      → round_trip net fuel draws w rt q ≡ some (w', rt', r)
      → rt'.dialer_session ≡ rt.dialer_session
  unfolding round_trip new_dialer_context
  round_trip-session fuel draws w w' rt rt' q r ran =
      loop-session fuel draws w w' rt rt' _ (strip_resource_type q) r ran
