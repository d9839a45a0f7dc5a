-- ===== src/Proxy/Serve/Freed.antt =====
-- groove/proxy/main.go: an exchange that is answered from the cache, and the lock of its address.
use grooveproxy.Archives.{ArchivedResponse, response_to_archived_response}
use grooveproxy.Base.{
  ℕ, ◌<◌, ◌≡◌, refl, ◌∙◌, ap, true, false, ◌||◌, List, [], ◌∷◌, none, some, string_dec, if_pos,
}
use grooveproxy.Cache.Acquire.{finish-free}
use grooveproxy.Cache.Reads.{HasRoom, response_entry, set_valid-answers}
use grooveproxy.Cache.{
  Cache, Environment, is_off, is_empty, is_mode_aggressive, request_url, finish_acquire,
  release_request_lock,
}
use grooveproxy.Headers.{HeaderDefinition, handle_headers}
use grooveproxy.Http.History.{timeline}
use grooveproxy.Http.{Request, Response, request_of}
use grooveproxy.Lru.Callbacks.{IsStore}
use grooveproxy.Proxy.Serve.{Groove, done, respond, proceed, serve}
use grooveproxy.Proxy.Serve.Locked.{set_valid-locks, freed, stored-response}
use grooveproxy.Proxy.{Proxy, answered, serve_request, serve_response}
use grooveproxy.Recorder.{recorder_mode_off}
use grooveproxy.Transport.{Network, CustomRoundTripper}

module _ {D W Conn : Type 0} (env : Environment D) (sto : IsStore env.backend)
    (net : Network W Conn) (fuel : ℕ) (draws : ℕ → ℕ) (later : ℕ) where
  responded-answered :
      (w : W) (p p' : Proxy D) (rt : CustomRoundTripper) (definition : HeaderDefinition)
      (q : Request) (r : Response)
      → serve_response env fuel later p definition q none (some r) ≡ some (p', some r)
      → proceed env net fuel draws later w p rt definition (answered r) q
        ≡ some (done w (record { proxy = p'; round_tripper = rt }) (some r))
  unfolding proceed respond
  responded-answered w p p' rt definition q r responded = rw (proceed, responded) refl

  -- With the recorder off and the cache on, an exchange whose request the cache answers frees the lock
  -- of its address though another exchange holds it, and the next call that waits for the lock can go
  -- on to the network before the holder is done. This is for an answer of no redirects that may be
  -- cached, since the mode is aggressive for the request or nothing speaks against it, given more
  -- fuel than one hop and room for the entry that is stored again.
  pub serve-frees :
      (now mm md : ℕ) (w : W) (g : Groove D) (q : Request) (p : Proxy D) (r : Response)
      (archived : ArchivedResponse) (v : List ℕ)
      → let sent = (handle_headers q).1 in
        serve_request env now g.proxy q ≡ ((handle_headers q).0, p, answered r)
        → p.recorder.mode ≡ recorder_mode_off
        → is_off p.cache.mode ≡ false
        → p.cache.inflight_requests (request_url sent) ≡ some true
        → timeline r ≡ r ∷ []
        → request_of r ≡ sent
        → 1 < fuel
        → HasRoom env sto fuel mm md p.cache sent (response_entry env sto sent r) v
        → (is_mode_aggressive p.cache.mode sent || is_empty (env.cachable_response sent r).0) ≡ true
        → response_to_archived_response r ≡ some archived
        → (g' : Groove D) × (serve env net fuel draws later now w g q ≡ some (done w g' (some r)))
          × (g'.proxy.cache.inflight_requests (request_url sent) ≡ some false)
          × ((c : Cache D) × (finish_acquire g'.proxy.cache (request_url sent) ≡ some c))
  unfolding serve
  serve-frees now mm md w g q p r archived v answers_it off on held alone asked enough room may
        read =
      let sent = (handle_headers q).1 in
      let url = request_url sent in
      let (kept, stored, progressed) =
        set_valid-answers env sto fuel mm md later p.cache sent sent r archived v recorder_mode_off
          room on may read refl (λ e. cc) in
      let locked = ap (λ i. i url) (set_valid-locks env fuel p.cache kept sent r stored) ∙ held in
      let is_free : (release_request_lock kept url).inflight_requests url ≡ some false =
        ap (λ x. x.inflight_requests url) (freed env kept url locked)
        ∙ if_pos (string_dec url url) refl _ _ in
      let responded =
        stored-response env fuel later p kept (handle_headers q).0 sent r off alone asked enough
          stored in
      let p' : Proxy D = record p { cache = release_request_lock kept url } in
      (
        record { proxy = p'; round_tripper = g.round_tripper },
        rw answers_it
            (responded-answered w p p' g.round_tripper (handle_headers q).0 sent r responded),
        is_free,
        finish-free (release_request_lock kept url) url is_free,
      )
