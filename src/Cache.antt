-- ===== src/Cache.antt =====
-- groove/proxy/cache.go: the cache modes, the entries, the locks and the middleware. Times are
-- numbers. `cachecontrol.CachableResponse`, `goproxy.NewResponse`, base64, the gob codec and the
-- disk store are parameters. A `*sync.Mutex` of the map is whether it is locked; what blocks is
-- written as two operations, before and after the wait.
pub mod Reads
pub mod Release
pub mod Turns
pub mod Exclusive
pub mod Waiting
pub mod Acquire
pub mod Locks
use grooveproxy.Archives.{
  ArchivedResponse, response_to_archived_response, archived_response_to_response,
}
use grooveproxy.Base.{
  ℕ, ◌+◌, ◌*◌, Bool, true, false, ◌&&◌, ◌||◌, List, [], ◌∷◌, Option, none, some, String, Result, ok,
  err, and_then, if◌then◌else◌, ltb, ite, string_dec, StringMap, empty_map, insert,
}
use grooveproxy.Base.Int64.{ℤ, pos, ◌+ℤ◌, ◌-ℤ◌}
use grooveproxy.CacheKey.{get_cache_key}
use grooveproxy.Http.History.{get_redirect_history}
use grooveproxy.Http.{Request, Response, Url, RequestParts, request_parts}
use grooveproxy.Invalidator
use grooveproxy.Invalidator.{CacheInvalidator, Codec, new_cache_invalidator}
use grooveproxy.Lru.Callbacks.{Backend}
use grooveproxy.Lru.Recency.{CacheMetadata}
use grooveproxy.Recorder.{
  Recorder, RecorderMode, recorder_mode_off, recorder_mode_read, recorder_mode_write, NewResponse,
}

pub data CacheMode : Type 0 where
  cache_mode_off cache_mode_standard cache_mode_get_aggressive cache_mode_aggressive : CacheMode

pub record CacheEntry : Type 0 where
  pub cache_invalidation : ℕ
  pub value : Option ArchivedResponse
  pub error : String

pub record Cache (D : Type 0) : Type 0 where
  pub mode : CacheMode
  pub cache_disk_cache : CacheInvalidator D
  -- the locks, and whether each is locked
  pub inflight_requests : StringMap Bool
  pub blocking_locks : StringMap ℤ

-- `NewCache`: its argument is not used.
unfoldable pub new_cache :
    {D : Type 0} → D → Option (List CacheMetadata) → (cache_size_max_mb : ℕ) → Cache D
new_cache disk index_file cache_size_max_mb = record {
  mode = cache_mode_standard;
  cache_disk_cache = new_cache_invalidator disk index_file 20 500 10;
  inflight_requests = empty_map;
  blocking_locks = empty_map;
}

pub record Environment (D : Type 0) : Type 0 where
  pub backend : Backend D
  pub codec : Codec CacheEntry
  pub base64 : String → String
  -- the reasons not to cache, and the time of expiry
  pub cachable_response : Request → Response → List String × ℕ
  pub new_response : NewResponse

unfoldable pub is_mode_aggressive : CacheMode → Request → Bool
is_mode_aggressive cache_mode_aggressive q = true
is_mode_aggressive cache_mode_get_aggressive q =
    let parts : RequestParts = request_parts q in ite (string_dec parts.method "GET") true false
is_mode_aggressive cache_mode_standard q = false
is_mode_aggressive cache_mode_off q = false

unfoldable pub is_off : CacheMode → Bool
is_off cache_mode_off = true
is_off cache_mode_standard = false
is_off cache_mode_get_aggressive = false
is_off cache_mode_aggressive = false

-- `cacheEntryValid` at the time `now`.
unfoldable pub cache_entry_valid : ℕ → CacheMode → Request → CacheEntry → Bool
cache_entry_valid now mode q entry =
    if is_mode_aggressive mode q then true else ltb now entry.cache_invalidation

unfoldable pub is_empty : List String → Bool
is_empty [] = true
is_empty (x ∷ xs) = false

unfoldable pub request_url : Request → String
request_url q = let url : Url = (request_parts q).url in url.text

-- A new lock is free.
unfoldable pub ensure_lock : StringMap Bool → String → StringMap Bool
ensure_lock inflight_requests url = elim (inflight_requests url) [
  | none ↦ insert inflight_requests url false
  | some locked ↦ inflight_requests
]

-- A missing count reads as 0.
unfoldable pub blocking_count : StringMap ℤ → String → ℤ
blocking_count blocking_locks url = elim (blocking_locks url) [ none ↦ pos 0 | some count ↦ count ]

module _ {D : Type 0} where
  -- `AcquireRequestLock` up to `lock.Lock()`: the creation of the lock and the count, each under its
  -- own mutex in the code, are one step.
  unfoldable pub begin_acquire : Cache D → String → Cache D
  begin_acquire c url = if is_off c.mode then c else record c {
    inflight_requests = ensure_lock c.inflight_requests url;
    blocking_locks = insert c.blocking_locks url (blocking_count c.blocking_locks url +ℤ pos 1);
  }

  -- `lock.Lock()` when the lock is free, and the decrement of the count after it, as one step; `none`
  -- while it is locked.
  unfoldable pub finish_acquire : Cache D → String → Option (Cache D)
  finish_acquire c url = elim (c.inflight_requests url) [
    | none ↦ none
    | some locked ↦
        if locked
        then none
        else some (record c {
          inflight_requests = insert c.inflight_requests url true;
          blocking_locks =
              insert c.blocking_locks url (blocking_count c.blocking_locks url -ℤ pos 1);
        })
  ]

  -- `ReleaseRequestLock`, its two calls with nothing between them: locked or not, the lock is free.
  unfoldable pub release_request_lock : Cache D → String → Cache D
  release_request_lock c url = elim (c.inflight_requests url) [
    | none ↦ c
    | some locked ↦ record c { inflight_requests = insert c.inflight_requests url false }
  ]

-- What the request handler does: it answers, it passes the request on, or it first waits for the lock
-- of an address.
pub data Progress : Type 0 where
  answers : Response → Progress
  passes : Progress
  waits : String → Progress

module _ {D : Type 0} (env : Environment D) where
  unfoldable pub clear : Cache D → Cache D
  clear c = record c {
    cache_disk_cache = Invalidator.clear env.backend env.codec c.cache_disk_cache;
  }

  -- A set of an entry, its error dropped; `none` is a purge that does not end.
  unfoldable pub set_entry : ℕ → Cache D → Request → CacheEntry → Option (Cache D)
  set_entry fuel c q entry =
      and_then
        (Invalidator.set env.backend env.codec fuel c.cache_disk_cache (get_cache_key env.base64 q)
          entry)
        λ (disk, error). some (record c { cache_disk_cache = disk })

  unfoldable pub set_valid_cache_contents : ℕ → Cache D → Request → Response → Option (Cache D)
  set_valid_cache_contents fuel c q answer =
      let (no_cache_reasons, expires) = env.cachable_response q answer in
      if is_off c.mode
      then some c
      else if is_mode_aggressive c.mode q || is_empty no_cache_reasons
      then set_entry fuel c q (record {
        cache_invalidation = expires;
        value = response_to_archived_response answer;
        error = "";
      })
      else some c

  -- `24 * time.Hour`, in seconds.
  unfoldable pub set_failed_cache_contents : ℕ → ℕ → Cache D → Request → String → Option (Cache D)
  set_failed_cache_contents fuel now c q error =
      if is_mode_aggressive c.mode q
      then set_entry fuel c q
          (record { cache_invalidation = now + 24 * 3600; value = none; error = error })
      else some c

  unfoldable pub valid_entry : ℕ → CacheMode → Request → Result CacheEntry → Option CacheEntry
  valid_entry now mode q (err e) = none
  valid_entry now mode q (ok entry) =
      if cache_entry_valid now mode q entry then some entry else none

  unfoldable pub get_cache_contents : ℕ → Cache D → Request → Cache D × Option CacheEntry
  get_cache_contents now c q =
      let request_key = get_cache_key env.base64 q in
      let (disk, found) = Invalidator.get env.backend env.codec c.cache_disk_cache request_key in
      if is_off c.mode
      then (c, none)
      else if Invalidator.has env.backend env.codec c.cache_disk_cache request_key
      then (record c { cache_disk_cache = disk }, valid_entry now c.mode q found)
      else (c, none)

  -- The answer from an entry: the archived response, or the recorded failure.
  unfoldable pub entry_answer : Request → CacheEntry → Response
  entry_answer q entry = elim entry.value [
    | some archived ↦ archived_response_to_response q archived
    | none ↦ env.new_response q 502 entry.error
  ]

  -- Without an entry the handler acquires the lock of the address, which the off mode does not.
  unfoldable pub answer_or_acquire : Request → Cache D × Option CacheEntry → Cache D × Progress
  answer_or_acquire q (c, some entry) = (c, answers (entry_answer q entry))
  answer_or_acquire q (c, none) =
      (begin_acquire c (request_url q), (if is_off c.mode then passes else waits (request_url q)))

  -- The request handler of `setupCacheMiddleware`.
  unfoldable pub handle_request : ℕ → RecorderMode → Cache D → Request → Cache D × Progress
  handle_request now recorder_mode_read c q = (c, passes)
  handle_request now recorder_mode_off c q = answer_or_acquire q (get_cache_contents now c q)
  handle_request now recorder_mode_write c q = answer_or_acquire q (get_cache_contents now c q)

  -- The loop of the response handler; `none` is also an index out of range.
  unfoldable pub set_history : ℕ → Cache D → List Request → List Response → Option (Cache D)
  set_history fuel c [] responses = some c
  set_history fuel c (q ∷ requests) [] = none
  set_history fuel c (q ∷ requests) (answer ∷ responses) =
      and_then (set_valid_cache_contents fuel c q answer)
        λ c'. set_history fuel (release_request_lock c' (request_url q)) requests responses

  unfoldable pub store_history :
      ℕ → RecorderMode → Cache D → Option Response → Option (Cache D × Option Response)
  store_history fuel recorder_mode_read c answer = some (c, answer)
  store_history fuel recorder_mode_off c answer =
      and_then (get_redirect_history fuel answer) λ (requests, responses).
        and_then (set_history fuel c requests responses) λ c'. some (c', answer)
  store_history fuel recorder_mode_write c answer =
      and_then (get_redirect_history fuel answer) λ (requests, responses).
        and_then (set_history fuel c requests responses) λ c'. some (c', answer)

  -- The response handler, for the request of the context, with the context's error if there is one.
  unfoldable pub handle_response :
      ℕ
      → ℕ
      → RecorderMode
      → Cache D
      → Request
      → Option String
      → Option Response
      → Option (Cache D × Option Response)
  handle_response fuel now mode c q (some error) answer =
      and_then (set_failed_cache_contents fuel now c q error)
        λ c'. some (release_request_lock c' (request_url q), none)
  handle_response fuel now mode c q none answer = store_history fuel mode c answer
