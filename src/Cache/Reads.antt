-- ===== src/Cache/Reads.antt =====
-- groove/proxy/cache.go: what a stored entry answers.
use grooveproxy.Archives.{
  ArchivedResponse, response_to_archived_response, archived_response_to_response,
}
use grooveproxy.Base.{
  ℕ, ◌+◌, ◌*◌, ◌^◌, ◌≤◌, ◌<◌, ◌≡◌, ◌≢◌, refl, sym, ◌∙◌, ap, true, false, ◌||◌, List, Option, none,
  some, String, ok, arith, inl, inr, Bool-cases, if◌then◌else◌, length,
}
use grooveproxy.CacheKey.{get_cache_key}
use grooveproxy.Cache.{
  Cache, CacheMode, CacheEntry, Environment, cache_mode_off, cache_mode_standard,
  cache_mode_get_aggressive, cache_mode_aggressive, is_mode_aggressive, is_off, cache_entry_valid,
  is_empty, request_url, begin_acquire, Progress, answers, passes, waits, set_entry,
  set_valid_cache_contents, set_failed_cache_contents, valid_entry, get_cache_contents,
  entry_answer, answer_or_acquire, handle_request,
}
use grooveproxy.Http.{Request, Response}
use grooveproxy.Invalidator
use grooveproxy.Invalidator.{CacheInvalidator, get_memory, get_disk, decode_found}
use grooveproxy.Invalidator.MemoryStore.{memory_backend}
use grooveproxy.Invalidator.RoundTrip.{IsGood, get-set}
use grooveproxy.Lru
use grooveproxy.Lru.Callbacks.{IsStore}
use grooveproxy.Recorder.{RecorderMode, recorder_mode_off, recorder_mode_read, recorder_mode_write}

aggressive-on :
    (mode : CacheMode) (q : Request) → is_mode_aggressive mode q ≡ true → is_off mode ≡ false
unfolding is_mode_aggressive is_off
aggressive-on cache_mode_off q h = sym h
aggressive-on cache_mode_standard q h = refl
aggressive-on cache_mode_get_aggressive q h = refl
aggressive-on cache_mode_aggressive q h = refl

module _ {D : Type 0} (env : Environment D) (sto : IsStore env.backend) where
  -- A value that `Get` finds is one that `Has` reports.
  get-has :
      (c : CacheInvalidator D) (k : String) (e : CacheEntry)
      → (Invalidator.get env.backend env.codec c k).1 ≡ ok e
      → Invalidator.has env.backend env.codec c k ≡ true
  unfolding Invalidator.get Invalidator.has get_memory get_disk decode_found
  get-has c k e h = elim (Bool-cases (Lru.has memory_backend c.memory_cache k)) [
    | inl in_memory ↦ ground (arith, in_memory)
    | inr not_in_memory ↦ elim (Bool-cases (Lru.has env.backend c.disk_cache k)) [
      | inl on_disk ↦ ground (arith, on_disk)
      | inr not_on_disk ↦ ground (arith, h, not_in_memory, not_on_disk)
    ]
  ]

  -- An entry can be stored: both levels of the cache are good, the purges have fuel enough, the
  -- sizes stay below 2 ^ 63, and the codec and the disk take the entry.
  pub record HasRoom (fuel mm md : ℕ) (c : Cache D) (q : Request) (entry : CacheEntry) (v : List ℕ)
      : Type 0 where
    pub good : IsGood env.backend sto env.codec mm md c.cache_disk_cache
    pub fuel_memory : length c.cache_disk_cache.memory_cache.ordered_cache_keys < fuel
    pub fuel_disk : length c.cache_disk_cache.disk_cache.ordered_cache_keys < fuel
    pub small_memory : mm + length v < 2 ^ 63
    pub small_disk : md + length v < 2 ^ 63
    pub fits : length v ≤ md
    pub encodes : env.codec.object_to_bytes entry ≡ ok v
    pub decodes : env.codec.object_from_bytes v ≡ ok entry
    pub accepts : (w : D) → (env.backend.set_value w (get_cache_key env.base64 q) v).1 ≡ none

  set_entry-reads :
      (fuel mm md now : ℕ) (c : Cache D) (q q' : Request) (entry : CacheEntry) (v : List ℕ)
      → HasRoom fuel mm md c q entry v
      → is_off c.mode ≡ false
      → get_cache_key env.base64 q' ≡ get_cache_key env.base64 q
      → (c' : Cache D) × (set_entry env fuel c q entry ≡ some c')
        × (c'.mode ≡ c.mode)
        × ((get_cache_contents env now c' q').1 ≡ valid_entry env now c.mode q' (ok entry))
  unfolding set_entry get_cache_contents
  set_entry-reads fuel mm md now c q q' entry v room on same =
      let key = get_cache_key env.base64 q in
      let (d, stored, reads, good) =
        get-set env.backend sto env.codec fuel mm md c.cache_disk_cache key entry v room.good
          room.fuel_memory room.fuel_disk room.small_memory room.small_disk room.fits room.encodes
          room.decodes room.accepts in
      let there = get-has d key entry reads in
      (
        record c { cache_disk_cache = d },
        ground (arith, stored),
        refl,
        rw (on, same, there, reads) refl,
      )

  -- What the request handler does with a cache whose valid entry is known.
  abbrev pub progress : Option CacheEntry → Request → Progress
  progress (some entry) q = answers (entry_answer env q entry)
  progress none q = waits (request_url q)

  get-mode :
      (now : ℕ) (c : Cache D) (q : Request) → (get_cache_contents env now c q).0.mode ≡ c.mode
  unfolding get_cache_contents
  get-mode now c q = ground arith

  progress_of :
      (now : ℕ) (c : Cache D) (q : Request) (e : Option CacheEntry)
      → is_off c.mode ≡ false
      → (get_cache_contents env now c q).1 ≡ e
      → (answer_or_acquire env q (get_cache_contents env now c q)).1 ≡ progress e q
  unfolding answer_or_acquire
  progress_of now c q e on found =
      known (get_cache_contents env now c q) (ap is_off (get-mode now c q) ∙ on) found
    where
      known :
          (g : Cache D × Option CacheEntry)
          → is_off g.0.mode ≡ false
          → g.1 ≡ e
          → (answer_or_acquire env q g).1 ≡ progress e q
      known (c', none) on' f = rw (sym f, on') refl
      known (c', some entry) on' f = rw (sym f) refl

  handle_request-progress :
      (now : ℕ) (c : Cache D) (q : Request) (m : RecorderMode) (e : Option CacheEntry)
      → is_off c.mode ≡ false
      → m ≢ recorder_mode_read
      → (get_cache_contents env now c q).1 ≡ e
      → (handle_request env now m c q).1 ≡ progress e q
  unfolding handle_request
  handle_request-progress now c q recorder_mode_read e on writes found = absurd (writes refl)
  handle_request-progress now c q recorder_mode_off e on writes found =
      progress_of now c q e on found
  handle_request-progress now c q recorder_mode_write e on writes found =
      progress_of now c q e on found

  -- The entry that `SetValidCacheContents` makes of a response.
  abbrev pub response_entry : Request → Response → CacheEntry
  response_entry q answer = record {
    cache_invalidation = (env.cachable_response q answer).1;
    value = response_to_archived_response answer;
    error = "";
  }

  -- A response that may be cached, since the mode is aggressive for its request or nothing speaks
  -- against it, is stored, given room for it: outside the read mode of the recorder each later
  -- request with the same key is answered with the archived response, while the entry is valid for
  -- that request, that is in an aggressive mode always and else before it expires, and waits for its
  -- lock when it is not.
  pub set_valid-answers :
      (fuel mm md now : ℕ) (c : Cache D) (q q' : Request) (answer : Response)
      (archived : ArchivedResponse) (v : List ℕ) (m : RecorderMode)
      → HasRoom fuel mm md c q (response_entry q answer) v
      → is_off c.mode ≡ false
      → (is_mode_aggressive c.mode q || is_empty (env.cachable_response q answer).0) ≡ true
      → response_to_archived_response answer ≡ some archived
      → get_cache_key env.base64 q' ≡ get_cache_key env.base64 q
      → m ≢ recorder_mode_read
      → (c' : Cache D) × (set_valid_cache_contents env fuel c q answer ≡ some c')
        × ((handle_request env now m c' q').1 ≡ (
            if cache_entry_valid now c.mode q' (response_entry q answer)
            then answers (archived_response_to_response q' archived)
            else waits (request_url q')))
  unfolding set_valid_cache_contents valid_entry entry_answer
  set_valid-answers fuel mm md now c q q' answer archived v m room on may read same writes =
      let (c', stored, mode, reads) =
        set_entry-reads fuel mm md now c q q' (response_entry q answer) v room on same in
      let progressed =
        handle_request-progress now c' q' m
          (valid_entry env now c.mode q' (ok (response_entry q answer))) (ap is_off mode ∙ on)
          writes reads in
      (
        c',
        rw (on, may) stored,
        progressed ∙ elim (Bool-cases (cache_entry_valid now c.mode q' (response_entry q answer))) [
          | inl valid ↦ rw (valid, read) refl
          | inr stale ↦ rw stale refl
        ],
      )

  -- In a mode that is aggressive for a request, its failure is stored, given room for it: outside
  -- the read mode of the recorder each later request with the same key, for which the mode is
  -- aggressive too, is answered with status 502 and the text of the error, at any time.
  pub set_failed-answers :
      (fuel mm md now later : ℕ) (c : Cache D) (q q' : Request) (error : String) (v : List ℕ)
      (m : RecorderMode)
      → HasRoom fuel mm md c q
          (record { cache_invalidation = now + 24 * 3600; value = none; error = error })
          v
      → is_mode_aggressive c.mode q ≡ true
      → is_mode_aggressive c.mode q' ≡ true
      → get_cache_key env.base64 q' ≡ get_cache_key env.base64 q
      → m ≢ recorder_mode_read
      → (c' : Cache D) × (set_failed_cache_contents env fuel now c q error ≡ some c')
        × ((handle_request env later m c' q').1 ≡ answers (env.new_response q' 502 error))
  unfolding set_failed_cache_contents valid_entry entry_answer cache_entry_valid
  set_failed-answers fuel mm md now later c q q' error v m room aggressive aggressive' same writes =
      let entry : CacheEntry = record {
        cache_invalidation = now + 24 * 3600;
        value = none;
        error = error;
      } in
      let on = aggressive-on c.mode q aggressive in
      let (c', stored, mode, reads) =
        set_entry-reads fuel mm md later c q q' entry v room on same in
      let progressed =
        handle_request-progress later c' q' m (valid_entry env later c.mode q' (ok entry))
          (ap is_off mode ∙ on) writes reads in
      (c', rw aggressive stored, progressed ∙ rw aggressive' refl)

module _ {D : Type 0} (env : Environment D) where
  -- In the off mode the cache is not used: each request passes at once, with no lock, and neither
  -- responses nor failures are stored.
  pub off_passes :
      (fuel now : ℕ) (c : Cache D) (q : Request) (answer : Response) (error : String)
      (m : RecorderMode)
      → c.mode ≡ cache_mode_off
      → (handle_request env now m c q ≡ (c, passes))
        × (set_valid_cache_contents env fuel c q answer ≡ some c)
        × (set_failed_cache_contents env fuel now c q error ≡ some c)
  unfolding handle_request get_cache_contents answer_or_acquire begin_acquire is_off
      is_mode_aggressive set_valid_cache_contents set_failed_cache_contents
  off_passes fuel now c q answer error m off = (passing m, ground (arith, off), ground (arith, off))
    where
      passing : (m : RecorderMode) → handle_request env now m c q ≡ (c, passes)
      passing recorder_mode_read = refl
      passing recorder_mode_off = ground (arith, off)
      passing recorder_mode_write = ground (arith, off)
