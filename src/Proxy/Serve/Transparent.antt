-- ===== src/Proxy/Serve/Transparent.antt =====
-- groove/proxy/main.go: an exchange while the recorder and the cache are off.
use grooveproxy.Base.{
  ℕ, ◌^◌, ◌<◌, ◌≡◌, refl, ◌∙◌, ap, Option, none, some, String, Result, ok, err, length,
}
use grooveproxy.Base.Int64.{pos}
use grooveproxy.Cache.{
  Cache, Environment, cache_mode_off, is_mode_aggressive, request_url, set_history, store_history,
  set_valid_cache_contents, set_failed_cache_contents, release_request_lock,
}
use grooveproxy.Cache
use grooveproxy.Headers.{HeaderDefinition, handle_headers}
use grooveproxy.Http.History.{timeline, get_redirect_history-timeline}
use grooveproxy.Http.{Request, Response}
use grooveproxy.Proxy.Serve.{Groove, done, respond, respond_to, send, proceed, serve}
use grooveproxy.Proxy.Serve.Recorded.{off-set_history, off-failed, release-disk}
use grooveproxy.Proxy.{Proxy, serve_response, off_forwards}
use grooveproxy.Recorder
use grooveproxy.Recorder.{
  Recorder, recorder_mode_off, recorder_mode_read, recorder_mode_write, append_records, log_history,
}
use grooveproxy.Transport.Attempts.{IsOutcome, allowed_tries, round_trip-IsOutcome}
use grooveproxy.Transport.Received.{round_trip-P}
use grooveproxy.Transport.{Network, Handler, CustomRoundTripper, strip_resource_type, round_trip}

-- The answer to a client after a round trip: none if it failed.
abbrev pub answer_of : Result Response → Option Response
answer_of (ok r) = some r
answer_of (err e) = none

module _ {D : Type 0} (env : Environment D) where
  passed-response :
      (fuel later : ℕ) (p : Proxy D) (definition : HeaderDefinition) (q : Request) (r : Response)
      → p.recorder.mode ≡ recorder_mode_off
      → p.cache.mode ≡ cache_mode_off
      → length (timeline r) < fuel
      → (c : Cache D) × (serve_response env fuel later p definition q none (some r)
          ≡ some (record { recorder = p.recorder; cache = c }, some r))
        × (c.cache_disk_cache ≡ p.cache.cache_disk_cache)
  unfolding serve_response Cache.handle_response store_history Recorder.handle_response
  passed-response fuel later p definition q r off off_cache enough =
      let (c, stored, disk, mode) = off-set_history env fuel p.cache (timeline r) off_cache in
      (c, rw (off, get_redirect_history-timeline fuel r enough, stored) refl, disk)

  passed-failure :
      (fuel later : ℕ) (p : Proxy D) (definition : HeaderDefinition) (q : Request) (e : String)
      → p.recorder.mode ≡ recorder_mode_off
      → p.cache.mode ≡ cache_mode_off
      → (c : Cache D) × (serve_response env fuel later p definition q (some e) none
          ≡ some (record { recorder = p.recorder; cache = c }, none))
        × (c.cache_disk_cache ≡ p.cache.cache_disk_cache)
  unfolding serve_response Cache.handle_response Recorder.handle_response
  passed-failure fuel later p definition q e off off_cache = (
    release_request_lock p.cache (request_url q),
    rw (off, off-failed env fuel later p.cache q e off_cache) refl,
    release-disk env p.cache (request_url q),
  )

  module _ {W Conn : Type 0} (net : Network W Conn) (fuel : ℕ) (draws : ℕ → ℕ) (later : ℕ) where
    -- What an exchange leaves of the state of the proxy.
    abbrev pub IsKept : Groove D → Groove D → Type 0
    IsKept g g' =
        (g'.proxy.recorder ≡ g.proxy.recorder)
        × (g'.proxy.cache.cache_disk_cache ≡ g.proxy.cache.cache_disk_cache)

    answered-IsKept :
        (g : Groove D) (definition : HeaderDefinition) (q : Request) (w : W)
        (rt : CustomRoundTripper) (e : Result Response)
        → g.proxy.recorder.mode ≡ recorder_mode_off
        → g.proxy.cache.mode ≡ cache_mode_off
        → ((r : Response) → e ≡ ok r → length (timeline r) < fuel)
        → (g' : Groove D) × (respond_to env net fuel draws later g definition q (w, rt, e)
            ≡ some (done w g' (answer_of e)))
          × (g'.round_tripper ≡ rt)
          × IsKept g g'
    unfolding respond_to respond
    answered-IsKept g definition q w rt (ok r) off off_cache short =
        let (c, ran, disk) =
          passed-response fuel later g.proxy definition q r off off_cache (short r refl) in
        (
          record { proxy = record { recorder = g.proxy.recorder; cache = c }; round_tripper = rt },
          rw ran refl,
          refl,
          (refl, disk),
        )
    answered-IsKept g definition q w rt (err e) off off_cache short =
        let (c, ran, disk) = passed-failure fuel later g.proxy definition q e off off_cache in
        (
          record { proxy = record { recorder = g.proxy.recorder; cache = c }; round_tripper = rt },
          rw ran refl,
          refl,
          (refl, disk),
        )

    -- While the recorder and the cache are off, the proxy is transparent: an exchange ends, given more
    -- fuel than tries and than hops in any chain of redirects that a transport returns for the
    -- request, and fewer than 2 ^ 63 tries, and the client gets what `RoundTrip` returns for its
    -- request without the tape header, a response with a status from 200 to 399, or no response
    -- if the dialers are exhausted; recorder and stored entries are as before.
    pub serve-transparent :
        (now n : ℕ) (w : W) (g : Groove D) (q : Request)
        → g.proxy.recorder.mode ≡ recorder_mode_off
        → g.proxy.cache.mode ≡ cache_mode_off
        → allowed_tries g.round_tripper.dialer_session ≡ pos n
        → n < fuel
        → n < 2 ^ 63
        → ((v : W) (h : Handler) (r : Response)
            → (net.exchange v h (strip_resource_type (handle_headers q).1)).1 ≡ ok r
            → length (timeline r) < fuel)
        → (w' : W) × (g' : Groove D) × (e : Result Response) × (round_trip net fuel draws w
              g.round_tripper
              (handle_headers q).1
            ≡ some (w', g'.round_tripper, e))
          × IsOutcome e
          × (serve env net fuel draws later now w g q ≡ some (done w' g' (answer_of e)))
          × IsKept g g'
    unfolding serve proceed send
    serve-transparent now n w g q off off_cache tries enough small short =
        let q' = (handle_headers q).1 in
        let ((w', rt, e), ran, outcome) =
          round_trip-IsOutcome net fuel draws w g.round_tripper q' n tries enough small in
        let hops = λ (x : Response) (h : e ≡ ok x).
          round_trip-P net (λ y. length (timeline y) < fuel) fuel draws w w' g.round_tripper rt q' x
            short (ran ∙ ap (λ y. some (w', rt, y)) h) in
        let (g', responded, same, kept) =
          answered-IsKept g (handle_headers q).0 (strip_resource_type q') w' rt e off off_cache
            hops in
        (
          w',
          g',
          e,
          rw same ran,
          outcome,
          rw (off_forwards env now g.proxy q off off_cache, ran) responded,
          kept,
        )
