-- ===== src/Startup/First.antt =====
-- groove/proxy/main.go: what the proxy does once it has started.
use grooveproxy.Base.{
  ℕ, ◌%◌, ◌≡◌, ◌≢◌, refl, ◌∙◌, ap, true, false, List, [], ◌∷◌, Option, none, some, String, arith,
}
use grooveproxy.Base.Int64.{pos}
use grooveproxy.Cache.{
  Cache, Environment, new_cache, request_url, begin_acquire, finish_acquire, is_off,
}
use grooveproxy.CacheKey.{get_cache_key}
use grooveproxy.Dialers.{
  DialerDefinition, DialerContext, new_dialer_definition, new_dialer_session, new_dialer_context,
  next_dialer, candidate_dialers, matching_dialers, meets, best_dialers, max_priority, use_dialer,
  proxy_resource_type,
}
use grooveproxy.Headers.{HeaderDefinition, handle_headers}
use grooveproxy.Http.{Request, request_parts, header_get}
use grooveproxy.Invalidator
use grooveproxy.Invalidator.MemoryStore.{memory_backend}
use grooveproxy.Invalidator.{
  new_cache_invalidator, build_memory_cache, build_disk_cache, load_index, push_back, read_index,
}
use grooveproxy.Lru
use grooveproxy.Lru.{LruCache, new_lru_cache}
use grooveproxy.Lru.Recency.{CacheMetadata}
use grooveproxy.Proxy.Serve.Locked.{acquire-free, unknown-waits}
use grooveproxy.Proxy.Serve.{Groove, send, serve, proceed}
use grooveproxy.Proxy.{Proxy, waiting}
use grooveproxy.Recorder.{new_recorder}
use grooveproxy.Slices.{filter_slice, filter_loop, contains}
use grooveproxy.Startup.{Flags, passthrough_session, initial_groove}
use grooveproxy.Transport.{Network, CustomRoundTripper, new_custom_round_tripper}

abbrev pub passthrough : String → DialerDefinition
passthrough uuid = record {
  identifier = uuid;
  priority = pos 0;
  proxy = none;
  request_requires = none;
}

-- The context of a request in the first session.
abbrev pub first_context : Request → DialerContext
first_context q = record {
  request = some q;
  request_type = header_get (request_parts q).header proxy_resource_type;
  attempted_dial_identifiers = [];
  remaining_tries = pos 1;
}

new-context :
    (uuid : String) (q : Request)
    → new_dialer_context (passthrough_session uuid) (some q) ≡ some (first_context q)
unfolding new_dialer_context passthrough_session new_dialer_session
new-context uuid q = refl

chooses-passthrough :
    (draw : ℕ) (uuid : String) (q : Request)
    → (next_dialer draw (passthrough_session uuid) (first_context q)).0 ≡ some (passthrough uuid)
unfolding next_dialer candidate_dialers matching_dialers filter_slice filter_loop meets contains
    best_dialers max_priority use_dialer passthrough_session new_dialer_session
    new_dialer_definition
chooses-passthrough draw uuid q = let first : draw % 1 ≡ 0 = omega arith in rw first refl

load_index-backing :
    {D : Type 0} (metadatas : List CacheMetadata) (c : LruCache D)
    → (load_index metadatas c).backing_cache ≡ c.backing_cache
unfolding load_index push_back
load_index-backing [] c = refl
load_index-backing (m ∷ rest) c = load_index-backing rest (push_back m c)

-- A fresh cache knows what the disk store has.
has-fresh :
    {D : Type 0} (env : Environment D) (disk : D) (index_file : Option (List CacheMetadata))
    (size : ℕ) (key : String)
    → Invalidator.has env.backend env.codec (new_cache disk index_file size).cache_disk_cache key
      ≡ env.backend.has_value disk key
unfolding Invalidator.has Lru.has new_cache new_cache_invalidator build_memory_cache new_lru_cache
    memory_backend build_disk_cache read_index load_index
has-fresh env disk none size key = refl
has-fresh env disk (some metadatas) size key =
    ap (λ s. env.backend.has_value s key) (load_index-backing metadatas _)

fresh-on :
    {D : Type 0} (disk : D) (index_file : Option (List CacheMetadata)) (size : ℕ)
    → is_off (new_cache disk index_file size).mode ≡ false
unfolding is_off new_cache
fresh-on disk index_file size = refl

fresh-free :
    {D : Type 0} (disk : D) (index_file : Option (List CacheMetadata)) (size : ℕ) (url : String)
    → (new_cache disk index_file size).inflight_requests url ≢ some true
unfolding new_cache
fresh-free disk index_file size url e = cc

module _ {D W Conn : Type 0} (env : Environment D) (net : Network W Conn) (fuel : ℕ) (draws : ℕ → ℕ)
    (later : ℕ) where
  proceed-sends :
      (w : W) (p : Proxy D) (rt : CustomRoundTripper) (definition : HeaderDefinition) (url : String)
      (q q' : Request) (c : Cache D)
      → finish_acquire p.cache url ≡ some c
      → proceed env net fuel draws later w p rt definition (waiting url q') q
        ≡ send env net fuel draws later w
            (record { proxy = record p { cache = c }; round_tripper = rt })
            definition
            q'
  unfolding proceed
  proceed-sends w p rt definition url q q' c acquired = rw (acquired, proceed) refl

  -- Once the proxy has started, the first request, if the disk store has nothing for its key, takes the
  -- free lock of its address and goes to the network without its tape header, where it has one try,
  -- through the dialer straight to the Internet, whatever is drawn.
  pub serve-first :
      (now draw : ℕ) (w : W) (disk : D) (index_file : Option (List CacheMetadata)) (uuid : String)
      (flags : Flags) (q : Request)
      → env.backend.has_value disk (get_cache_key env.base64 (handle_headers q).1) ≡ false
      → let g = initial_groove disk index_file uuid flags in
        let sent = (handle_headers q).1 in
        (c : Cache D) × (context : DialerContext) × (serve env net fuel draws later now w g q
          ≡ send env net fuel draws later w
              (record g { proxy = record g.proxy { cache = c } })
              (handle_headers q).0
              sent)
        × (new_dialer_context g.round_tripper.dialer_session (some sent) ≡ some context)
        × (context.remaining_tries ≡ pos 1)
        × ((next_dialer draw g.round_tripper.dialer_session context).0 ≡ some (passthrough uuid))
  unfolding serve initial_groove new_recorder new_custom_round_tripper
  serve-first now draw w disk index_file uuid flags q empty =
      let g : Groove D = initial_groove disk index_file uuid flags in
      let c : Cache D = new_cache disk index_file flags.cache_memory_size in
      let sent = (handle_headers q).1 in
      let url = request_url sent in
      let unknown =
        has-fresh env disk index_file flags.cache_memory_size (get_cache_key env.base64 sent)
        ∙ empty in
      let (m, b, held, acquired) =
        acquire-free c url (fresh-on disk index_file flags.cache_memory_size)
          (fresh-free disk index_file flags.cache_memory_size url) in
      (
        record c { inflight_requests = m; blocking_locks = b },
        first_context sent,
        rw
            (unknown-waits env now g.proxy q refl (fresh-on disk index_file flags.cache_memory_size)
              unknown)
            (proceed-sends w (record g.proxy { cache = begin_acquire c url }) g.round_tripper
              (handle_headers q).0 url sent sent
              (record c { inflight_requests = m; blocking_locks = b }) acquired),
        new-context uuid sent,
        refl,
        chooses-passthrough draw uuid sent,
      )
