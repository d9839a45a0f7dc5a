-- ===== src/Transport/Requests.antt =====
-- groove/proxy/transport.go: how many requests a round trip sends.
use grooveproxy.Base.{
  ℕ, zero, suc, ◌+◌, ◌-◌, ◌^◌, ◌≤◌, ◌<◌, ◌≡◌, refl, ◌∙◌, Option, none, some, String, Result, ok,
  err, arith, inl, inr, Option-cases, string_dec,
}
use grooveproxy.Base.Int64.{pos}
use grooveproxy.Dialers.{DialerDefinition, DialerContext, new_dialer_context, next_dialer}
use grooveproxy.Dialers.Next.{next_dialer-Chooses}
use grooveproxy.Http.{Request, Response, Url, request_parts}
use grooveproxy.Transport.{
  Protocol, Handler, Network, CustomRoundTripper, get_dialer_address, address_to_host, shaken,
  wrap_connection_with_tls, handshake_protocol, probed, solve_protocol_new, learn_protocol,
  solve_protocol, solve_transport, received, try_handler, try_dialer, round_trip_loop, round_trip,
  strip_resource_type,
}
use grooveproxy.Transport.Attempts.{allowed_tries, spent_try}

-- A count of the requests that transports were given: a dial, a handshake and a close are none, and an
-- exchange is one at most.
pub record CountsRequests {W Conn : Type 0} (net : Network W Conn) (count : W → ℕ) : Type 0 where
  pub dial_same :
      (w : W) (d : DialerDefinition) (n a : String) → count (net.dial w d n a).0 ≡ count w
  pub handshake_same : (w : W) (c : Conn) → count (net.handshake w c).0 ≡ count w
  pub close_same : (w : W) (c : Conn) → count (net.close w c) ≡ count w
  pub exchange_one :
      (w : W) (h : Handler) (q : Request) → count (net.exchange w h q).0 ≤ count w + 1

module _ {W Conn : Type 0} (net : Network W Conn) (count : W → ℕ)
    (counts : CountsRequests net count) where
  shaken-same :
      (c : Conn) (s : W × Option String)
      → count (handshake_protocol net (shaken net c s)).0 ≡ count s.0
  unfolding shaken handshake_protocol
  shaken-same c (w, none) = refl
  shaken-same c (w, some e) = counts.close_same w c

  probed-same : (url : Url) (s : W × Result Conn) → count (probed net url s).0 ≡ count s.0
  unfolding probed wrap_connection_with_tls
  probed-same url (w, err e) = refl
  probed-same url (w, ok raw) = elim (string_dec (net.to_lower url.scheme) "http") [
    | yes plain ↦ ground (arith, plain)
    | no other ↦
        let c = net.u_client raw (address_to_host net (get_dialer_address net url)) in
        ground (arith, other, shaken-same c (net.handshake w c), counts.handshake_same w c)
  ]

  learned-same :
      (rt : CustomRoundTripper) (host : String) (s : W × Result Protocol)
      → count (learn_protocol net rt host s).0 ≡ count s.0
  unfolding learn_protocol
  learned-same rt host (w, err e) = refl
  learned-same rt host (w, ok p) = refl

  solve_protocol-same :
      (w : W) (rt : CustomRoundTripper) (q : Request) (d : DialerDefinition)
      → count (solve_protocol net w rt q d).0 ≡ count w
  unfolding solve_protocol solve_protocol_new
  solve_protocol-same w rt q d =
      let url : Url = (request_parts q).url in
      let host = get_dialer_address net url in
      let dialed = net.dial w d "tcp" host in
      elim (Option-cases (rt.protocol_map host)) [
        | inr (p, known) ↦ ground (arith, known)
        | inl new ↦ ground (
          arith,
          new,
          learned-same rt host (probed net url dialed),
          probed-same url dialed,
          counts.dial_same w d "tcp" host,
        )
      ]

  received-one :
      (rt : CustomRoundTripper) (w : W) (h : Handler) (q : Request)
      → count (received net rt (net.exchange w h q)).0 ≤ count w + 1
  received-one rt w h q = omega (arith, world rt (net.exchange w h q), counts.exchange_one w h q)
    where
      world :
          (rt : CustomRoundTripper) (e : W × Result Response)
          → count (received net rt e).0 ≡ count e.0
      world rt (w, err e) = unfold received in refl
      world rt (w, ok r) = unfold received in refl

  try_handler-one :
      (s : W × CustomRoundTripper × Result Protocol) (q : Request) (d : DialerDefinition)
      → count (try_handler net s q d).0 ≤ count s.0 + 1
  unfolding try_handler
  try_handler-one (w, rt, err e) q d = omega arith
  try_handler-one (w, rt, ok p) q d =
      let (rt', h) = solve_transport rt p d in received-one rt' w h q

  try_dialer-one :
      (w : W) (rt : CustomRoundTripper) (q : Request) (d : DialerDefinition)
      → count (try_dialer net w rt q d).0 ≤ count w + 1
  unfolding try_dialer
  try_dialer-one w rt q d =
      omega (arith, try_handler-one (solve_protocol net w rt q d) q d, solve_protocol-same w rt q d)

  loop-le-tries :
      (fuel : ℕ) (draws : ℕ → ℕ) (w : W) (rt : CustomRoundTripper) (c : DialerContext) (q : Request)
      (n : ℕ)
      → c.remaining_tries ≡ pos n
      → n < fuel
      → n < 2 ^ 63
      → (r : W × CustomRoundTripper × Result Response) × (round_trip_loop net fuel draws w rt c q
          ≡ some r)
        × (count r.0 ≤ count w + n)
  unfolding round_trip_loop
  loop-le-tries zero draws w rt c q n tries f small = absurd (omega arith)
  loop-le-tries (suc fuel) draws w rt c q n tries f small =
      elim (Option-cases (next_dialer (draws fuel) rt.dialer_session c).0) [
        | inl nothing ↦ ((w, rt, err "Exhausted dialers"), ground (arith, nothing), omega arith)
        | inr (d, chosen) ↦
            let tried = try_dialer net w rt q d in
            let c' = (next_dialer (draws fuel) rt.dialer_session c).1 in
            let done =
              next_dialer-Chooses (draws fuel) rt.dialer_session c c' d (ground (arith, chosen)) in
            let (spent, some_left) = spent_try net n c.remaining_tries tries done.left small in
            let one = try_dialer-one w rt q d in
            elim (Option-cases tried.2) [
              | inr (r, valid) ↦ (
                (tried.0, tried.1, ok r),
                ground (arith, chosen, valid),
                omega (arith, one, some_left),
              )
              | inl invalid ↦
                  let (r, ran, bound) =
                    loop-le-tries fuel draws tried.0 tried.1 c' q (n - 1) (done.spent ∙ spent)
                      (omega arith) (omega arith) in
                  (r, ground (arith, chosen, invalid, ran), omega (arith, one, bound, some_left))
            ]
      ]

  -- `RoundTrip` ends and sends at most as many requests as there are tries, those of the session or,
  -- where these are 0, the number of its dialers, when the fuel is above this number and the number
  -- below 2 ^ 63, by any count of requests that an exchange of a transport raises by one at most and
  -- that dials, handshakes and closes of connections leave as it is.
  pub round_trip-le-tries :
      (fuel : ℕ) (draws : ℕ → ℕ) (w : W) (rt : CustomRoundTripper) (q : Request) (n : ℕ)
      → allowed_tries rt.dialer_session ≡ pos n
      → n < fuel
      → n < 2 ^ 63
      → (r : W × CustomRoundTripper × Result Response) × (round_trip net fuel draws w rt q ≡ some r)
        × (count r.0 ≤ count w + n)
  unfolding round_trip new_dialer_context
  round_trip-le-tries fuel draws w rt q n tries f small =
      loop-le-tries fuel draws w rt _ (strip_resource_type q) n tries f small
