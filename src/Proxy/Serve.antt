-- ===== src/Proxy/Serve.antt =====
-- groove/proxy/main.go: a whole exchange, from the request handlers through `RoundTrip` to the response
-- handlers. goproxy calls the response handlers with the error of a failed round trip and no response.
pub mod Recorded
pub mod Cached
pub mod Locked
pub mod Freed
pub mod Session
pub mod Transparent
use grooveproxy.Base.{
  ℕ, zero, suc, ◌+◌, ◌^◌, ◌<◌, ◌≡◌, refl, sym, ◌∙◌, ap, List, [], ◌∷◌, Option, none, some, String,
  Result, ok, err, and_then, length, arith, ◌⊎◌, inl, inr,
}
use grooveproxy.Base.Int64.{ℤ, pos}
use grooveproxy.Cache.{Cache, Environment, finish_acquire}
use grooveproxy.Headers.{HeaderDefinition, handle_headers}
use grooveproxy.Http.{Request, Response}
use grooveproxy.Proxy.{Proxy, Outcome, answered, forwarded, waiting, serve_request, serve_response}
use grooveproxy.Transport.{Network, CustomRoundTripper, strip_resource_type, round_trip}

-- The state behind the proxy's listener.
pub record Groove (D : Type 0) : Type 0 where
  pub proxy : Proxy D
  pub round_tripper : CustomRoundTripper

-- How far an exchange comes: to its answer, which is none after a failed round trip, or to a lock that
-- is held.
pub data Exchange (W D : Type 0) : Type 0 where
  done : W → Groove D → Option Response → Exchange W D
  held_up : Groove D → String → Request → Exchange W D

module _ {D W Conn : Type 0} (env : Environment D) (net : Network W Conn) (fuel : ℕ) (draws : ℕ → ℕ)
    (later : ℕ) where
  unfoldable pub respond :
      W
      → Groove D
      → HeaderDefinition
      → Request
      → Option String
      → Option Response
      → Option (Exchange W D)
  respond w g definition q error answer =
      and_then (serve_response env fuel later g.proxy definition q error answer)
        λ (p, answer'). some (done w (record g { proxy = p }) answer')

  unfoldable pub respond_to :
      Groove D
      → HeaderDefinition
      → Request
      → W × CustomRoundTripper × Result Response
      → Option (Exchange W D)
  respond_to g definition q (w, rt, ok r) =
      respond w (record g { round_tripper = rt }) definition q none (some r)
  respond_to g definition q (w, rt, err e) =
      respond w (record g { round_tripper = rt }) definition q (some e) none

  -- A request that goes to the network; `RoundTrip` strips the request of the context, too.
  unfoldable pub send : W → Groove D → HeaderDefinition → Request → Option (Exchange W D)
  send w g definition q =
      and_then (round_trip net fuel draws w g.round_tripper q)
        (respond_to g definition (strip_resource_type q))

  unfoldable pub proceed :
      W
      → Proxy D
      → CustomRoundTripper
      → HeaderDefinition
      → Outcome
      → Request
      → Option (Exchange W D)
  proceed w p rt definition (answered r) q =
      respond w (record { proxy = p; round_tripper = rt }) definition q none (some r)
  proceed w p rt definition (forwarded q') q =
      send w (record { proxy = p; round_tripper = rt }) definition q'
  proceed w p rt definition (waiting url q') q = elim (finish_acquire p.cache url) [
    | none ↦ some (held_up (record { proxy = p; round_tripper = rt }) url q')
    | some c ↦ send w (record { proxy = record p { cache = c }; round_tripper = rt }) definition q'
  ]

  -- An exchange with a client, started at the time `now` and answered at the time `later`.
  unfoldable pub serve : ℕ → W → Groove D → Request → Option (Exchange W D)
  serve now w g q =
      let (definition, p, outcome) = serve_request env now g.proxy q in
      proceed w p g.round_tripper definition outcome (handle_headers q).1
