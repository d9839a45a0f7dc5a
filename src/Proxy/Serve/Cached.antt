-- ===== src/Proxy/Serve/Cached.antt =====
-- groove/proxy/main.go: an exchange that fills the cache, and the requests that it then answers.
use grooveproxy.Archives.{
  ArchivedResponse, response_to_archived_response, archived_response_to_response,
}
use grooveproxy.Base.{
  ℕ, ◌<◌, ◌≡◌, ◌≢◌, refl, sym, ◌∙◌, ap, Bool, true, false, ◌||◌, List, [], ◌∷◌, none, some, String,
  ok, insert, string_dec, if_pos, if◌then◌else◌,
}
use grooveproxy.Cache
use grooveproxy.Cache.Reads.{HasRoom, response_entry, set_valid-answers}
use grooveproxy.Cache.{
  Cache, CacheEntry, Environment, Progress, set_entry, answers, passes, waits, is_off, is_empty,
  is_mode_aggressive, cache_entry_valid, request_url, ensure_lock, blocking_count, begin_acquire,
  finish_acquire, release_request_lock, get_cache_contents, answer_or_acquire, set_history,
  store_history, set_valid_cache_contents,
}
use grooveproxy.CacheKey.{get_cache_key}
use grooveproxy.Headers.{HeaderDefinition, handle_headers}
use grooveproxy.Http.History.{timeline}
use grooveproxy.Http.{Request, Response, request_of}
use grooveproxy.Invalidator
use grooveproxy.Lru.Callbacks.{IsStore}
use grooveproxy.Proxy.Serve.{Groove, done, respond, respond_to, send, proceed, serve}
use grooveproxy.Proxy.Serve.Locked.{
  key-strip, url-strip, acquire-free, HasRoom-locks, progress-locks, outcome-off, unknown-waits,
  set_valid-locks, freed, stored-response,
}
use grooveproxy.Proxy.{Proxy, Outcome, answered, waiting, outcome_of, serve_request, serve_response}
use grooveproxy.Recorder.{recorder_mode_off}
use grooveproxy.Transport.{Network, CustomRoundTripper, round_trip, strip_resource_type}

-- The two ways in which a request is answered or held up by what the cache knows.
abbrev pub known_or_waiting : Bool → ArchivedResponse → Request → Outcome
known_or_waiting valid archived q =
    if valid then answered (archived_response_to_response q archived) else waiting (request_url q) q

module _ {D W Conn : Type 0} (env : Environment D) (sto : IsStore env.backend)
    (net : Network W Conn) (fuel : ℕ) (draws : ℕ → ℕ) (later : ℕ) where
  shown :
      (valid : Bool) (archived : ArchivedResponse) (q : Request)
      → outcome_of env q (
          if valid
          then answers (archived_response_to_response q archived)
          else waits (request_url q))
        ≡ known_or_waiting valid archived q
  unfolding outcome_of
  shown true archived q = refl
  shown false archived q = refl

  resumed :
      (w w' : W) (p : Proxy D) (rt rt' : CustomRoundTripper) (definition : HeaderDefinition)
      (url : String) (q q' : Request) (c : Cache D) (p' : Proxy D) (r : Response)
      → finish_acquire p.cache url ≡ some c
      → round_trip net fuel draws w rt q' ≡ some (w', rt', ok r)
      → serve_response env fuel later
          (record p { cache = c })
          definition
          (strip_resource_type q')
          none
          (some r)
        ≡ some (p', some r)
      → proceed env net fuel draws later w p rt definition (waiting url q') q
        ≡ some (done w' (record { proxy = p'; round_tripper = rt' }) (some r))
  unfolding proceed send respond_to respond
  resumed w w' p rt rt' definition url q q' c p' r acquired ran responded =
      rw (proceed, acquired, ran, responded) refl

  -- An exchange with the recorder off and the cache on, for a request that the cache does not know
  -- and whose lock is not held. If the round trip gives a response of no redirects, given more fuel
  -- than one hop, and the response may be cached, since the mode is aggressive for the request or
  -- nothing speaks against it, then, given room for its entry, the client gets this response, the
  -- lock is free again, and each later request with the same key is answered with the archived
  -- response and without the network while the entry is valid for it, and asks for its lock when it
  -- is not.
  pub serve-fills :
      (now second mm md : ℕ) (w w' : W) (rt : CustomRoundTripper) (g : Groove D) (q q2 : Request)
      (r : Response) (archived : ArchivedResponse) (v : List ℕ)
      → g.proxy.recorder.mode ≡ recorder_mode_off
      → is_off g.proxy.cache.mode ≡ false
      → let c = g.proxy.cache in
        let sent = strip_resource_type (handle_headers q).1 in
        let again = (handle_headers q2).1 in
        Invalidator.has env.backend env.codec c.cache_disk_cache (get_cache_key env.base64 sent)
          ≡ false
        → c.inflight_requests (request_url sent) ≢ some true
        → round_trip net fuel draws w g.round_tripper (handle_headers q).1 ≡ some (w', rt, ok r)
        → timeline r ≡ r ∷ []
        → request_of r ≡ sent
        → 1 < fuel
        → HasRoom env sto fuel mm md c sent (response_entry env sto sent r) v
        → (is_mode_aggressive c.mode sent || is_empty (env.cachable_response sent r).0) ≡ true
        → response_to_archived_response r ≡ some archived
        → get_cache_key env.base64 again ≡ get_cache_key env.base64 sent
        → (g' : Groove D) × (serve env net fuel draws later now w g q ≡ some (done w' g' (some r)))
          × (g'.proxy.cache.inflight_requests (request_url sent) ≡ some false)
          × ((serve_request env second g'.proxy q2).2
              ≡ known_or_waiting
                  (cache_entry_valid second c.mode again (response_entry env sto sent r))
                  archived
                  again)
  unfolding serve
  serve-fills now second mm md w w' rt g q q2 r archived v off on unknown free ran alone asked
        enough room may read same =
      let c = g.proxy.cache in
      let q' = (handle_headers q).1 in
      let sent = strip_resource_type q' in
      let again = (handle_headers q2).1 in
      let url = request_url sent in
      let new =
        ap (Invalidator.has env.backend env.codec c.cache_disk_cache)
          (sym (key-strip env.base64 q'))
        ∙ unknown in
      let (m, b, held, acquired) = acquire-free c url on free in
      let taken : Cache D = record c { inflight_requests = m; blocking_locks = b } in
      let (kept, stored, progressed) =
        set_valid-answers env sto fuel mm md second taken sent again r archived v recorder_mode_off
          (HasRoom-locks env sto fuel mm md c m b sent (response_entry env sto sent r) v room) on
          may read same (λ e. cc) in
      let locked = ap (λ i. i url) (set_valid-locks env fuel taken kept sent r stored) ∙ held in
      let free_again = freed env kept url locked in
      let p : Proxy D = record g.proxy { cache = release_request_lock kept url } in
      let started =
        unknown-waits env now g.proxy q off on new
        ∙ ap
            (λ u.
              ((handle_headers q).0, record g.proxy { cache = begin_acquire c u }, waiting u q'))
            (sym (url-strip q')) in
      let responded =
        stored-response env fuel later (record g.proxy { cache = taken }) kept (handle_headers q).0
          sent r off alone asked enough stored in
      (
        record { proxy = p; round_tripper = rt },
        rw started (
            resumed w w' (record g.proxy { cache = begin_acquire c url }) g.round_tripper rt
              (handle_headers q).0 url q' q' taken p r acquired ran responded),
        ap (λ x. x.inflight_requests url) free_again ∙ if_pos (string_dec url url) refl _ _,
        outcome-off env second p q2 off
            ∙ ap (outcome_of env again) (
                ap (λ x. (Cache.handle_request env second recorder_mode_off x again).1) free_again
                ∙ progress-locks env second kept (insert kept.inflight_requests url false) again
                    recorder_mode_off
                ∙ progressed)
            ∙ shown (cache_entry_valid second c.mode again (response_entry env sto sent r)) archived
                again,
      )
