-- ===== src/Transport/Attempts.antt =====
-- groove/proxy/transport.go: `RoundTrip` ends, and what it returns.
use grooveproxy.Base.{
  ℕ, zero, suc, ◌-◌, ◌^◌, ◌≤◌, ◌<◌, ◌≡◌, refl, sym, ◌∙◌, ap, true, false, some, Result, ok, err,
  arith, inl, inr, Option-cases, length, Bool-cases, if◌then◌else◌,
}
use grooveproxy.Base.Int64.{ℤ, pos, ◌-ℤ◌, pos--ℤ, leb_ℤ}
use grooveproxy.Dialers.Next.{next_dialer-Chooses}
use grooveproxy.Dialers.{
  DialerDefinition, eq_ℤ, DialerContext, DialerSession, new_dialer_context, next_dialer,
}
use grooveproxy.Http.{Request, Response, response_parts}
use grooveproxy.Transport.{
  Network, CustomRoundTripper, try_dialer, try_handler, is_valid_response, round_trip_loop,
  round_trip, strip_resource_type, solve_protocol, Protocol, received, solve_transport,
}

-- A call of `RoundTrip` either returns a response with a status from 200 to 399, or reports that the
-- dialers are exhausted.
abbrev pub IsOutcome : Result Response → Type 0
IsOutcome (ok r) = (200 ≤ (response_parts r).status_code) × ((response_parts r).status_code < 400)
IsOutcome (err e) = e ≡ "Exhausted dialers"

-- How many dialers a request may try.
abbrev pub allowed_tries : DialerSession → ℤ
allowed_tries session =
    if eq_ℤ session.total_tries (pos 0)
    then pos (length session.dialer_definitions)
    else session.total_tries

module _ {W Conn : Type 0} (net : Network W Conn) where
  valid_status : (r : Response) → is_valid_response net r ≡ true → IsOutcome (ok r)
  unfolding is_valid_response
  valid_status r h = ground arith

  exchanged :
      (e : W × Result Response) (w : W) (rt : CustomRoundTripper) (r : Response)
      → (received net rt e).2 ≡ some r
      → IsOutcome (ok r)
  unfolding received
  exchanged (w', err x) w rt r h = ground (arith, h)
  exchanged (w', ok x) w rt r h = elim (Bool-cases (is_valid_response net x)) [
    | inl valid ↦
        let same : x ≡ r = ground (arith, h, valid) in
        valid_status r (ap (is_valid_response net) (sym same) ∙ valid)
    | inr invalid ↦ ground (arith, h, invalid)
  ]

  handled :
      (s : W × CustomRoundTripper × Result Protocol) (q : Request) (d : DialerDefinition)
      (r : Response)
      → (try_handler net s q d).2 ≡ some r
      → IsOutcome (ok r)
  unfolding try_handler
  handled (w, rt, err e') q d r e = ground (arith, e)
  handled (w, rt, ok p) q d r e =
      let (rt', h) = solve_transport rt p d in exchanged (net.exchange w h q) w rt' r e

  try_dialer-IsOutcome :
      (w : W) (rt : CustomRoundTripper) (q : Request) (d : DialerDefinition) (r : Response)
      → (try_dialer net w rt q d).2 ≡ some r
      → IsOutcome (ok r)
  unfolding try_dialer
  try_dialer-IsOutcome w rt q d r e = handled (solve_protocol net w rt q d) q d r e

  pub spent_try :
      (n : ℕ) (z : ℤ)
      → z ≡ pos n
      → leb_ℤ z (pos 0) ≡ false
      → n < 2 ^ 63
      → (z -ℤ pos 1 ≡ pos (n - 1)) × (0 < n)
  spent_try n z same left small =
      let some_left : 0 < n = ground (arith, same, left) in
      (ap (λ x. x -ℤ pos 1) same ∙ pos--ℤ n 1 some_left small, some_left)

  -- With more fuel than tries the loop ends.
  loop-IsOutcome :
      (fuel : ℕ) (draws : ℕ → ℕ) (w : W) (rt : CustomRoundTripper) (c : DialerContext) (q : Request)
      (n : ℕ)
      → c.remaining_tries ≡ pos n
      → n < fuel
      → n < 2 ^ 63
      → (r : W × CustomRoundTripper × Result Response) × (round_trip_loop net fuel draws w rt c q
          ≡ some r)
        × IsOutcome r.2
  unfolding round_trip_loop
  loop-IsOutcome zero draws w rt c q n tries f small = absurd (omega arith)
  loop-IsOutcome (suc fuel) draws w rt c q n tries f small =
      elim (Option-cases (next_dialer (draws fuel) rt.dialer_session c).0) [
        | inl nothing ↦ ((w, rt, err "Exhausted dialers"), ground (arith, nothing), refl)
        | inr (d, chosen) ↦
            let tried = try_dialer net w rt q d in
            elim (Option-cases tried.2) [
              | inr (r, valid) ↦ (
                (tried.0, tried.1, ok r),
                ground (arith, chosen, valid),
                try_dialer-IsOutcome w rt q d r valid,
              )
              | inl invalid ↦
                  let c' = (next_dialer (draws fuel) rt.dialer_session c).1 in
                  let done =
                    next_dialer-Chooses (draws fuel) rt.dialer_session c c' d
                      (ground (arith, chosen)) in
                  let (spent, some_left) = spent_try n c.remaining_tries tries done.left small in
                  let (r, ran, outcome) =
                    loop-IsOutcome fuel draws tried.0 tried.1 c' q (n - 1) (done.spent ∙ spent)
                      (omega arith) (omega arith) in
                  (r, ground (arith, chosen, invalid, ran), outcome)
            ]
      ]

  -- `RoundTrip` ends, whatever the network does and whatever is drawn, when the fuel is above the
  -- number of tries, which is that of the session or, where this is 0, the number of its dialers; it
  -- gives an outcome: a response with a status from 200 to 399, or the error that the dialers are
  -- exhausted.
  pub round_trip-IsOutcome :
      (fuel : ℕ) (draws : ℕ → ℕ) (w : W) (rt : CustomRoundTripper) (q : Request) (n : ℕ)
      → allowed_tries rt.dialer_session ≡ pos n
      → n < fuel
      → n < 2 ^ 63
      → (r : W × CustomRoundTripper × Result Response) × (round_trip net fuel draws w rt q ≡ some r)
        × IsOutcome r.2
  unfolding round_trip new_dialer_context
  round_trip-IsOutcome fuel draws w rt q n tries f small =
      loop-IsOutcome fuel draws w rt _ (strip_resource_type q) n tries f small
