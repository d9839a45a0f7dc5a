-- ===== src/Tests/Stored.antt =====
-- groove/proxy/cache and cache.go: entries in a cache over two stores in memory.
use grooveproxy.Archives.{
  ArchivedResponse, response_to_archived_response, archived_response_to_response,
}
use grooveproxy.Base.{
  ℕ, ◌≡◌, refl, List, [], ◌∷◌, none, some, String, Result, ok, err, empty_map, arith,
}
use grooveproxy.Base.Int64.{pos}
use grooveproxy.Cache.{
  Cache, CacheEntry, Environment, cache_mode_standard, cache_mode_aggressive,
  set_valid_cache_contents, set_failed_cache_contents, handle_request, answers, cache_entry_valid,
  is_mode_aggressive, is_off, is_empty,
}
use grooveproxy.Cache.Reads.{set_valid-answers, set_failed-answers}
use grooveproxy.Http.{Request, Response, Url, request, response, first, response_parts}
use grooveproxy.Invalidator
use grooveproxy.Invalidator.{CacheInvalidator, Codec, build_disk_cache}
use grooveproxy.Invalidator.Index.{Reach-index_file}
use grooveproxy.Invalidator.Index
use grooveproxy.Invalidator.MemoryStore.{MemoryCache, memory_backend, memory_store}
use grooveproxy.Invalidator.RoundTrip.{IsGood, get-set}
use grooveproxy.Lru.Recency.{CacheMetadata}
use grooveproxy.Recorder.{recorder_mode_off, recorder_mode_write}
use grooveproxy.Tests.Caches.{pair, pair-IsSound}

abbrev identity : Codec (List ℕ)
identity = record { object_to_bytes = λ a. ok a; object_from_bytes = λ v. ok v }

abbrev index : List CacheMetadata
index = record { key = "a"; size = pos 1 } ∷ []

abbrev pub two_level : CacheInvalidator MemoryCache
two_level = record {
  index_file = some index;
  disk_cache = pair;
  memory_cache = pair;
  save_interval = 10;
  operation_counter = 9;
  save_waiter = 0;
}

get-set_example :
    (d : CacheInvalidator MemoryCache) × (Invalidator.set memory_backend identity 3 two_level "c"
        (1 ∷ 2 ∷ [])
      ≡ some (d, ok tt))
    × ((Invalidator.get memory_backend identity d "c").1 ≡ ok (1 ∷ 2 ∷ []))
    × IsGood memory_backend memory_store identity 5 5 d
unfolding memory_backend
get-set_example =
    get-set memory_backend memory_store identity 3 5 5 two_level "c" (1 ∷ 2 ∷ []) (1 ∷ 2 ∷ [])
      (record { memory = pair-IsSound; disk = pair-IsSound }) (omega arith) (omega arith)
      (omega arith) (omega arith) (omega arith) refl refl (λ w. refl)

Reach-index_file_example :
    (Invalidator.delete memory_backend identity
      (Invalidator.get memory_backend identity two_level "a").0
      "b").index_file
    ≡ some index
Reach-index_file_example =
    Reach-index_file memory_backend identity
      (Index.Reach.next (Index.Reach.next Index.Reach.here (Index.Step.gets "a"))
        (Index.Step.deletes "b"))
      refl

abbrev pub page : Url
page = record {
  text = "http://a/x";
  scheme = "http";
  host = "a";
  hostname = "a";
  path = "/x";
  query = [];
}

abbrev pub ask : Request
ask = request (record { method = "GET"; url = page; header = []; body = some [] }) first

abbrev pub reply : Response
reply =
    response
      (record { status_code = 200; header = ("Etag", "1" ∷ "2" ∷ []) ∷ []; body = some (65 ∷ []) })
      ask

abbrev pub bare : Response
bare = response (record { status_code = 200; header = []; body = some (65 ∷ []) }) ask

-- An entry without headers as its expiry, its status and its body.
abbrev encode : CacheEntry → Result (List ℕ)
encode entry = elim entry.value [
  | none ↦ ok (entry.cache_invalidation ∷ [])
  | some archived ↦ ok (entry.cache_invalidation ∷ archived.status ∷ archived.body)
]

abbrev decode : List ℕ → Result CacheEntry
decode [] = err "EOF"
decode (expires ∷ []) =
    ok (record { cache_invalidation = expires; value = none; error = "refused" })
decode (expires ∷ status ∷ body) = ok (record {
  cache_invalidation = expires;
  value = some (record { status = status; headers = []; body = body });
  error = "";
})

-- A refusal without its text.
abbrev pub refusal : Request → ℕ → String → Response
refusal q status body = response (record { status_code = status; header = []; body = some [] }) q

abbrev pub env : Environment MemoryCache
env = record {
  backend = memory_backend;
  codec = record { object_to_bytes = encode; object_from_bytes = decode };
  base64 = λ s. s;
  cachable_response = λ q r. ([], 100);
  new_response = refusal;
}

abbrev pub cache : Cache MemoryCache
cache = record {
  mode = cache_mode_standard;
  cache_disk_cache = two_level;
  inflight_requests = empty_map;
  blocking_locks = empty_map;
}

abbrev pub greedy : Cache MemoryCache
greedy = record cache { mode = cache_mode_aggressive }

abbrev pub kept : ArchivedResponse
kept = record { status = 200; headers = []; body = 65 ∷ [] }

set_valid-answers_example :
    (c' : Cache MemoryCache) × (set_valid_cache_contents env 3 cache ask bare ≡ some c')
    × ((handle_request env 50 recorder_mode_off c' ask).1
        ≡ answers (archived_response_to_response ask kept))
unfolding memory_backend is_off is_mode_aggressive is_empty response_to_archived_response
    response_parts cache_entry_valid
set_valid-answers_example =
    set_valid-answers env memory_store 3 5 5 50 cache ask ask bare kept (100 ∷ 200 ∷ 65 ∷ [])
      recorder_mode_off
      (record {
        good = record { memory = pair-IsSound; disk = pair-IsSound };
        fuel_memory = omega arith;
        fuel_disk = omega arith;
        small_memory = omega arith;
        small_disk = omega arith;
        fits = omega arith;
        encodes = refl;
        decodes = refl;
        accepts = λ w. refl;
      })
      refl refl refl refl (λ e. cc)

set_failed-answers_example :
    (c' : Cache MemoryCache) × (set_failed_cache_contents env 3 7 greedy ask "refused" ≡ some c')
    × ((handle_request env 900000 recorder_mode_write c' ask).1
        ≡ answers (refusal ask 502 "refused"))
unfolding memory_backend is_mode_aggressive
set_failed-answers_example =
    set_failed-answers env memory_store 3 5 5 7 900000 greedy ask ask "refused" (86407 ∷ [])
      recorder_mode_write
      (record {
        good = record { memory = pair-IsSound; disk = pair-IsSound };
        fuel_memory = omega arith;
        fuel_disk = omega arith;
        small_memory = omega arith;
        small_disk = omega arith;
        fits = omega arith;
        encodes = refl;
        decodes = refl;
        accepts = λ w. refl;
      })
      refl refl refl (λ e. cc)
