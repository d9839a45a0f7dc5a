-- ===== src/Transport/Received.antt =====
-- groove/proxy/transport.go: the response of a round trip is one that a transport received.
use grooveproxy.Base.{
  ℕ, zero, suc, ◌≡◌, refl, ◌∙◌, ap, subst, some, Result, ok, err, arith, inl, inr, Bool-cases,
  Option-cases,
}
use grooveproxy.Dialers.{DialerDefinition, DialerContext, new_dialer_context, next_dialer}
use grooveproxy.Http.{Request, Response}
use grooveproxy.Transport.{
  Protocol, Handler, Network, CustomRoundTripper, is_valid_response, received, solve_transport,
  solve_protocol, try_handler, try_dialer, round_trip_loop, round_trip, strip_resource_type,
}

module _ {W Conn : Type 0} (net : Network W Conn) (P : Response → Type 0) (q : Request)
    (exchanges : (w : W) (h : Handler) (r : Response) → (net.exchange w h q).1 ≡ ok r → P r) where
  received-P :
      (rt : CustomRoundTripper) (e : W × Result Response) (r : Response)
      → ((x : Response) → e.1 ≡ ok x → P x)
      → (received net rt e).2 ≡ some r
      → P r
  unfolding received
  received-P rt (w, err x) r all h = ground (arith, h)
  received-P rt (w, ok x) r all h = elim (Bool-cases (is_valid_response net x)) [
    | inl valid ↦ let same : x ≡ r = ground (arith, h, valid) in subst P same (all x refl)
    | inr invalid ↦ ground (arith, h, invalid)
  ]

  try_handler-P :
      (s : W × CustomRoundTripper × Result Protocol) (d : DialerDefinition) (r : Response)
      → (try_handler net s q d).2 ≡ some r
      → P r
  unfolding try_handler
  try_handler-P (w, rt, err e') d r e = ground (arith, e)
  try_handler-P (w, rt, ok p) d r e =
      let (rt', h) = solve_transport rt p d in
      received-P rt' (net.exchange w h q) r (exchanges w h) e

  try_dialer-P :
      (w : W) (rt : CustomRoundTripper) (d : DialerDefinition) (r : Response)
      → (try_dialer net w rt q d).2 ≡ some r
      → P r
  unfolding try_dialer
  try_dialer-P w rt d r e = try_handler-P (solve_protocol net w rt q d) d r e

  loop-P :
      (fuel : ℕ) (draws : ℕ → ℕ) (w w' : W) (rt rt' : CustomRoundTripper) (c : DialerContext)
      (r : Response)
      → round_trip_loop net fuel draws w rt c q ≡ some (w', rt', ok r)
      → P r
  unfolding round_trip_loop
  loop-P zero draws w w' rt rt' c r ran = ground (arith, ran)
  loop-P (suc fuel) draws w w' rt rt' c r ran =
      elim (Option-cases (next_dialer (draws fuel) rt.dialer_session c).0) [
        | inl nothing ↦ ground (arith, ran, nothing)
        | inr (d, chosen) ↦
            let tried = try_dialer net w rt q d in
            elim (Option-cases tried.2) [
              | inr (x, valid) ↦
                  let same : x ≡ r = ground (arith, ran, chosen, valid) in
                  try_dialer-P w rt d r (valid ∙ ap some same)
              | inl invalid ↦
                  loop-P fuel draws tried.0 w' tried.1 rt'
                    ((next_dialer (draws fuel) rt.dialer_session c).1) r
                    (ground (arith, ran, chosen, invalid))
            ]
      ]

module _ {W Conn : Type 0} (net : Network W Conn) (P : Response → Type 0) where
  -- What holds of every response that a transport returns for a request, once it is stripped, holds of
  -- the response of its round trip.
  pub round_trip-P :
      (fuel : ℕ) (draws : ℕ → ℕ) (w w' : W) (rt rt' : CustomRoundTripper) (q : Request)
      (r : Response)
      → ((v : W) (h : Handler) (x : Response)
          → (net.exchange v h (strip_resource_type q)).1 ≡ ok x
          → P x)
      → round_trip net fuel draws w rt q ≡ some (w', rt', ok r)
      → P r
  unfolding round_trip new_dialer_context
  round_trip-P fuel draws w w' rt rt' q r exchanges ran =
      loop-P net P (strip_resource_type q) exchanges fuel draws w w' rt rt' _ r ran
