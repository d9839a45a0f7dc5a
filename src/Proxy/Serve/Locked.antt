-- ===== src/Proxy/Serve/Locked.antt =====
-- groove/proxy/main.go: what the handlers of an exchange do to the lock of its address, with the recorder
-- off.
use grooveproxy.Archives.{response_to_archived_response}
use grooveproxy.Base.{
  ℕ, ◌<◌, ◌≡◌, ◌≢◌, refl, ◌∙◌, ap, Bool, true, false, List, [], ◌∷◌, none, some, String, StringMap,
  insert, string_dec, if_pos, arith, inl, inr, Option-cases,
}
use grooveproxy.Base.Int64.{ℤ, pos, ◌+ℤ◌, ◌-ℤ◌}
use grooveproxy.Cache
use grooveproxy.Cache.Reads.{HasRoom}
use grooveproxy.Cache.{
  Cache, CacheEntry, Environment, Progress, set_entry, answers, passes, waits, is_off, is_empty,
  is_mode_aggressive, cache_entry_valid, request_url, ensure_lock, blocking_count, begin_acquire,
  finish_acquire, release_request_lock, get_cache_contents, answer_or_acquire, set_history,
  store_history, set_valid_cache_contents,
}
use grooveproxy.CacheKey.{get_cache_key, plain_key}
use grooveproxy.Headers.{HeaderDefinition, handle_headers}
use grooveproxy.Http.History.{timeline, get_redirect_history-timeline}
use grooveproxy.Http.{Request, Response, request, request_parts, request_of}
use grooveproxy.Invalidator
use grooveproxy.Lru.Callbacks.{IsStore}
use grooveproxy.Proxy.{Proxy, waiting, outcome_of, after_recorder, serve_request, serve_response}
use grooveproxy.Recorder
use grooveproxy.Recorder.{RecorderMode, recorder_mode_off, recorder_mode_read, recorder_mode_write}
use grooveproxy.Transport.{strip_resource_type}

-- Stripping the resource type changes neither the key nor the address.
pub key-strip :
    (base64 : String → String) (q : Request)
    → get_cache_key base64 (strip_resource_type q) ≡ get_cache_key base64 q
unfolding get_cache_key plain_key strip_resource_type request_parts
key-strip base64 (request parts previous) = refl

pub url-strip : (q : Request) → request_url (strip_resource_type q) ≡ request_url q
unfolding request_url strip_resource_type request_parts
url-strip (request parts previous) = refl

ensure-free :
    (m : StringMap Bool) (url : String) → m url ≢ some true → ensure_lock m url url ≡ some false
unfolding ensure_lock
ensure-free m url free = elim (Option-cases (m url)) [
  | inl missing ↦ ground (arith, missing, if_pos (string_dec url url) refl (some false) (m url))
  | inr (true, there) ↦ absurd (free there)
  | inr (false, there) ↦ ground (arith, there)
]

module _ {D : Type 0} where
  finish-of :
      (c : Cache D) (url : String)
      → c.inflight_requests url ≡ some false
      → finish_acquire c url
        ≡ some (record c {
          inflight_requests = insert c.inflight_requests url true;
          blocking_locks =
              insert c.blocking_locks url (blocking_count c.blocking_locks url -ℤ pos 1);
        })
  unfolding finish_acquire
  finish-of c url free = rw (free, finish_acquire) refl

  begin-on :
      (c : Cache D) (url : String)
      → is_off c.mode ≡ false
      → begin_acquire c url ≡ record c {
        inflight_requests = ensure_lock c.inflight_requests url;
        blocking_locks = insert c.blocking_locks url (blocking_count c.blocking_locks url +ℤ pos 1);
      }
  unfolding begin_acquire
  begin-on c url on = rw on refl

  -- A lock that is not held is taken at once.
  pub acquire-free :
      (c : Cache D) (url : String)
      → is_off c.mode ≡ false
      → c.inflight_requests url ≢ some true
      → (m : StringMap Bool) × (b : StringMap ℤ) × (m url ≡ some true)
        × (finish_acquire (begin_acquire c url) url
            ≡ some (record c { inflight_requests = m; blocking_locks = b }))
  acquire-free c url on free =
      let lock = ensure-free c.inflight_requests url free in
      let m = ensure_lock c.inflight_requests url in
      let b = insert c.blocking_locks url (blocking_count c.blocking_locks url +ℤ pos 1) in
      (
        insert m url true,
        insert b url (blocking_count b url -ℤ pos 1),
        if_pos (string_dec url url) refl _ _,
        ap (λ x. finish_acquire x url) (begin-on c url on)
            ∙ finish-of (record c { inflight_requests = m; blocking_locks = b }) url lock,
      )

pub HasRoom-locks :
    {D : Type 0} (env : Environment D) (sto : IsStore env.backend) (fuel mm md : ℕ) (c : Cache D)
    (m : StringMap Bool) (b : StringMap ℤ) (q : Request) (entry : CacheEntry) (v : List ℕ)
    → HasRoom env sto fuel mm md c q entry v
    → HasRoom env sto fuel mm md (record c { inflight_requests = m; blocking_locks = b }) q entry v
HasRoom-locks env sto fuel mm md c m b q entry v room = record {
  good = room.good;
  fuel_memory = room.fuel_memory;
  fuel_disk = room.fuel_disk;
  small_memory = room.small_memory;
  small_disk = room.small_disk;
  fits = room.fits;
  encodes = room.encodes;
  decodes = room.decodes;
  accepts = room.accepts;
}

module _ {D : Type 0} (env : Environment D) where
  -- What the request handler makes of a request does not depend on the locks.
  pub progress-locks :
      (now : ℕ) (c : Cache D) (m : StringMap Bool) (q : Request) (mode : RecorderMode)
      → (Cache.handle_request env now mode (record c { inflight_requests = m }) q).1
        ≡ (Cache.handle_request env now mode c q).1
  unfolding Cache.handle_request answer_or_acquire get_cache_contents
  progress-locks now c m q recorder_mode_read = refl
  progress-locks now c m q recorder_mode_off = ground arith
  progress-locks now c m q recorder_mode_write = ground arith

  pub outcome-off :
      (now : ℕ) (p : Proxy D) (q : Request)
      → p.recorder.mode ≡ recorder_mode_off
      → (serve_request env now p q).2
        ≡ outcome_of env
            (handle_headers q).1
            (Cache.handle_request env now recorder_mode_off p.cache (handle_headers q).1).1
  unfolding serve_request after_recorder Recorder.handle_request
  outcome-off now p q off = rw off refl

  -- A request that the cache does not know asks for its lock.
  pub unknown-waits :
      (now : ℕ) (p : Proxy D) (q : Request)
      → p.recorder.mode ≡ recorder_mode_off
      → is_off p.cache.mode ≡ false
      → Invalidator.has env.backend env.codec p.cache.cache_disk_cache
          (get_cache_key env.base64 (handle_headers q).1)
        ≡ false
      → let url = request_url (handle_headers q).1 in
        serve_request env now p q ≡ (
          (handle_headers q).0,
          record p { cache = begin_acquire p.cache url },
          waiting url (handle_headers q).1,
        )
  unfolding serve_request after_recorder Recorder.handle_request Cache.handle_request
      answer_or_acquire get_cache_contents outcome_of
  unknown-waits now p q off on unknown = rw (off, on, unknown, on) refl

  set_entry-locks :
      (fuel : ℕ) (c c' : Cache D) (q : Request) (entry : CacheEntry)
      → set_entry env fuel c q entry ≡ some c'
      → c'.inflight_requests ≡ c.inflight_requests
  unfolding set_entry
  set_entry-locks fuel c c' q entry ran =
      elim (Option-cases (
        Invalidator.set env.backend env.codec fuel c.cache_disk_cache (get_cache_key env.base64 q)
          entry)) [
            | inl stuck ↦ ground (arith, ran, stuck)
            | inr (s, set) ↦ ground (arith, ran, set)
          ]

  pub set_valid-locks :
      (fuel : ℕ) (c c' : Cache D) (q : Request) (answer : Response)
      → set_valid_cache_contents env fuel c q answer ≡ some c'
      → c'.inflight_requests ≡ c.inflight_requests
  unfolding set_valid_cache_contents
  set_valid-locks fuel c c' q answer ran = ground (
    arith,
    ran,
    set_entry-locks fuel c c' q (record {
      cache_invalidation = (env.cachable_response q answer).1;
      value = response_to_archived_response answer;
      error = "";
    }),
  )

  pub freed :
      (c : Cache D) (url : String)
      → c.inflight_requests url ≡ some true
      → release_request_lock c url
        ≡ record c { inflight_requests = insert c.inflight_requests url false }
  unfolding release_request_lock
  freed c url held = rw (held, release_request_lock) refl

  pub stored-response :
      (fuel later : ℕ) (p : Proxy D) (c : Cache D) (definition : HeaderDefinition) (q : Request)
      (r : Response)
      → p.recorder.mode ≡ recorder_mode_off
      → timeline r ≡ r ∷ []
      → request_of r ≡ q
      → 1 < fuel
      → set_valid_cache_contents env fuel p.cache q r ≡ some c
      → serve_response env fuel later p definition q none (some r)
        ≡ some (record p { cache = release_request_lock c (request_url q) }, some r)
  unfolding serve_response Recorder.handle_response Cache.handle_response store_history set_history
  stored-response fuel later p c definition q r off alone asked enough stored =
      let history = get_redirect_history-timeline fuel r (rw alone enough) in
      rw (off, history, alone, asked, stored) refl
