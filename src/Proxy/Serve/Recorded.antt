-- ===== src/Proxy/Serve/Recorded.antt =====
-- groove/proxy/main.go: an exchange while the recorder writes a tape and the cache is off.
use mathlib.Core.Option.{some-injective}
use grooveproxy.Base.{
  ℕ, ◌^◌, ◌<◌, ◌≡◌, refl, ◌∙◌, ap, List, [], ◌∷◌, map, Option, none, some, String, Result, ok, err,
  length, arith, ◌⊎◌, inl, inr,
}
use grooveproxy.Base.Int64.{pos}
use grooveproxy.Cache.{
  Cache, Environment, cache_mode_off, is_mode_aggressive, request_url, set_history, store_history,
  set_valid_cache_contents, set_failed_cache_contents, release_request_lock,
}
use grooveproxy.Cache
use grooveproxy.Cache.Reads.{off_passes}
use grooveproxy.Headers.{HeaderDefinition, handle_headers}
use grooveproxy.Http.History.{
  get_redirect_history, history_start, timeline, get_redirect_history-timeline,
}
use grooveproxy.Http.{Request, Response, request_of}
use grooveproxy.Slices.Reverse.{reverse_slice-reverse}
use grooveproxy.Proxy.Serve.{Groove, done, respond, respond_to, send, proceed, serve}
use grooveproxy.Proxy.{Proxy, serve_response, write_forwards}
use grooveproxy.Recorder
use grooveproxy.Recorder.Recording.{records_of, handle_response-append, mode-append_records}
use grooveproxy.Recorder.{
  Recorder, recorder_mode_off, recorder_mode_read, recorder_mode_write, append_records, log_history,
}
use grooveproxy.Transport.Attempts.{IsOutcome, allowed_tries, round_trip-IsOutcome}
use grooveproxy.Transport.Session.{round_trip-session}
use grooveproxy.Transport.Received.{round_trip-P}
use grooveproxy.Transport.{Network, Handler, CustomRoundTripper, strip_resource_type}

-- Without a response there is no history.
no_history : (fuel : ℕ) → 0 < fuel → get_redirect_history fuel none ≡ some ([], [])
unfolding get_redirect_history history_start
no_history fuel enough =
    rw
      (
        reverse_slice-reverse {A = Request} fuel [] enough,
        reverse_slice-reverse {A = Response} fuel [] enough,
      )
      refl

module _ {D : Type 0} (env : Environment D) where
  release-mode : (c : Cache D) (url : String) → (release_request_lock c url).mode ≡ c.mode
  unfolding release_request_lock
  release-mode c url = ground arith

  pub release-disk :
      (c : Cache D) (url : String)
      → (release_request_lock c url).cache_disk_cache ≡ c.cache_disk_cache
  unfolding release_request_lock
  release-disk c url = ground arith

  -- With the cache off the response handler only frees locks.
  pub off-set_history :
      (fuel : ℕ) (c : Cache D) (responses : List Response)
      → c.mode ≡ cache_mode_off
      → (c' : Cache D) × (set_history env fuel c (map request_of responses) responses ≡ some c')
        × (c'.cache_disk_cache ≡ c.cache_disk_cache)
        × (c'.mode ≡ c.mode)
  unfolding set_history
  off-set_history fuel c [] off = (c, refl, refl, refl)
  off-set_history fuel c (r ∷ responses) off =
      let url = request_url (request_of r) in
      let stored = (off_passes env fuel 0 c (request_of r) r "" recorder_mode_off off).1 in
      let (c', rest, disk, mode) =
        off-set_history fuel (release_request_lock c url) responses (release-mode c url ∙ off) in
      (c', rw stored rest, disk ∙ release-disk c url, mode ∙ release-mode c url)

  recorded-response :
      (fuel later : ℕ) (p : Proxy D) (definition : HeaderDefinition) (q : Request) (r : Response)
      → p.recorder.mode ≡ recorder_mode_write
      → p.cache.mode ≡ cache_mode_off
      → length (timeline r) < fuel
      → (c : Cache D) × (serve_response env fuel later p definition q none (some r)
          ≡ some (
            record {
              recorder = append_records p.recorder (records_of definition (timeline r));
              cache = c;
            },
            some r,
          ))
        × (c.mode ≡ p.cache.mode)
  unfolding serve_response Cache.handle_response store_history
  recorded-response fuel later p definition q r writes off enough =
      let xs = records_of definition (timeline r) in
      let (c, stored, disk, mode) = off-set_history fuel p.cache (timeline r) off in
      (
        c,
        rw
            (
              handle_response-append fuel p.recorder definition r writes enough,
              mode-append_records p.recorder xs,
              writes,
              get_redirect_history-timeline fuel r enough,
              stored,
            )
            refl,
        mode,
      )

  pub off-failed :
      (fuel now : ℕ) (c : Cache D) (q : Request) (e : String)
      → c.mode ≡ cache_mode_off
      → set_failed_cache_contents env fuel now c q e ≡ some c
  unfolding set_failed_cache_contents is_mode_aggressive
  off-failed fuel now c q e off = rw off refl

  failed-response :
      (fuel later : ℕ) (p : Proxy D) (definition : HeaderDefinition) (q : Request) (e : String)
      → p.recorder.mode ≡ recorder_mode_write
      → p.cache.mode ≡ cache_mode_off
      → 0 < fuel
      → (c : Cache D) × (serve_response env fuel later p definition q (some e) none
          ≡ some (record { recorder = p.recorder; cache = c }, none))
        × (c.mode ≡ p.cache.mode)
  unfolding serve_response Cache.handle_response Recorder.handle_response log_history
  failed-response fuel later p definition q e writes off enough =
      let c = release_request_lock p.cache (request_url q) in
      (
        c,
        rw (writes, no_history fuel enough, off-failed fuel later p.cache q e off) refl,
        release-mode p.cache (request_url q),
      )

  -- What an exchange answers, and what the recorder then holds.
  abbrev pub Records : Recorder → HeaderDefinition → Recorder → Option Response → Type 0
  Records r definition r' answer =
      ((answer ≡ none) × (r' ≡ r))
      ⊎ ((x : Response) × (answer ≡ some x)
          × IsOutcome (ok x)
          × (r' ≡ append_records r (records_of definition (timeline x))))

  module _ {W Conn : Type 0} (net : Network W Conn) (fuel : ℕ) (draws : ℕ → ℕ) (later : ℕ) where
    answered-Records :
        (P : Response → Type 0)
        → ((r : Response) → P r → length (timeline r) < fuel)
        → (g : Groove D) (definition : HeaderDefinition) (q : Request)
          (e : W × CustomRoundTripper × Result Response)
        → g.proxy.recorder.mode ≡ recorder_mode_write
        → g.proxy.cache.mode ≡ cache_mode_off
        → IsOutcome e.2
        → 0 < fuel
        → ((r : Response) → e.2 ≡ ok r → P r)
        → (w : W) × (g' : Groove D) × (answer : Option Response) × (respond_to env net fuel draws
              later g definition q e
            ≡ some (done w g' answer))
          × Records g.proxy.recorder definition g'.proxy.recorder answer
          × (g'.proxy.cache.mode ≡ g.proxy.cache.mode)
          × (g'.round_tripper ≡ e.1)
          × ((x : Response) → answer ≡ some x → P x)
    unfolding respond_to respond
    answered-Records P bound g definition q (w, rt, ok r) writes off outcome enough short =
        let (c, ran, mode) =
          recorded-response fuel later g.proxy definition q r writes off (bound r (short r refl)) in
        let p : Proxy D = record {
          recorder = append_records g.proxy.recorder (records_of definition (timeline r));
          cache = c;
        } in
        (
          w,
          record { proxy = p; round_tripper = rt },
          some r,
          rw ran refl,
          inr (r, refl, outcome, refl),
          mode,
          refl,
          λ x h. short x (ap ok (some-injective r x h)),
        )
    answered-Records P bound g definition q (w, rt, err e) writes off outcome enough short =
        let (c, ran, mode) = failed-response fuel later g.proxy definition q e writes off enough in
        (
          w,
          record { proxy = record { recorder = g.proxy.recorder; cache = c }; round_tripper = rt },
          none,
          rw ran refl,
          inl (refl, refl),
          mode,
          refl,
          λ x h. cc,
        )

    -- What an exchange leaves for the next, and what its answer has of the responses of the network.
    pub record Continues (P : Response → Type 0) (g g' : Groove D) (answer : Option Response)
        : Type 0 where
      pub mode : g'.proxy.cache.mode ≡ g.proxy.cache.mode
      pub session : g'.round_tripper.dialer_session ≡ g.round_tripper.dialer_session
      pub answers : (x : Response) → answer ≡ some x → P x

    pub exchange-Records :
        (P : Response → Type 0)
        → ((r : Response) → P r → length (timeline r) < fuel)
        → (now n : ℕ) (w : W) (g : Groove D) (q : Request)
        → g.proxy.recorder.mode ≡ recorder_mode_write
        → g.proxy.cache.mode ≡ cache_mode_off
        → allowed_tries g.round_tripper.dialer_session ≡ pos n
        → n < fuel
        → n < 2 ^ 63
        → ((v : W) (h : Handler) (r : Response)
            → (net.exchange v h (strip_resource_type (handle_headers q).1)).1 ≡ ok r
            → P r)
        → (w' : W) × (g' : Groove D) × (answer : Option Response) × (serve env net fuel draws later
              now w g q
            ≡ some (done w' g' answer))
          × Records g.proxy.recorder (handle_headers q).0 g'.proxy.recorder answer
          × Continues P g g' answer
    unfolding serve proceed send
    exchange-Records P bound now n w g q writes off tries enough small short =
        let definition = (handle_headers q).0 in
        let q' = (handle_headers q).1 in
        let ((w', rt, r), ran, outcome) =
          round_trip-IsOutcome net fuel draws w g.round_tripper q' n tries enough small in
        let hops = λ (x : Response) (e : r ≡ ok x).
          round_trip-P net P fuel draws w w' g.round_tripper rt q' x short
            (ran ∙ ap (λ y. some (w', rt, y)) e) in
        let (v, g', answer, responded, records, mode, tripper, hops') =
          answered-Records P bound g definition (strip_resource_type q') (w', rt, r) writes off
            outcome (omega (arith, enough)) hops in
        (
          v,
          g',
          answer,
          rw (write_forwards env now g.proxy q writes off, ran) responded,
          records,
          record {
            mode = mode;
            session =
                ap (λ x. x.dialer_session) tripper
                ∙ round_trip-session net fuel draws w w' g.round_tripper rt q' r ran;
            answers = hops';
          },
        )
