-- ===== src/Tests/Overlap.antt =====
-- groove/proxy/main.go: a request that the cache answers while another exchange holds the lock of its
-- address.
use grooveproxy.Archives.{add_headers, archived_response_to_response, response_to_archived_response}
use grooveproxy.Base.{
  ◌≡◌, refl, [], ◌∷◌, some, string_dec, empty_map, insert, ℕ_discrete, true, false, arith,
}
use grooveproxy.Base.Int64.{pos}
use grooveproxy.Cache
use grooveproxy.Cache.{
  Cache, finish_acquire, is_mode_aggressive, is_empty, is_off, request_url, answer_or_acquire,
  get_cache_contents, valid_entry, entry_answer, cache_entry_valid,
}
use grooveproxy.CacheKey.{
  get_cache_key, plain_key, append_queries, sort, insertion_sort, new_query_array,
}
use grooveproxy.Headers.{handle_headers}
use grooveproxy.Http.{Response, request_of, request_parts, response_parts, header_del}
use grooveproxy.Http.History.{timeline}
use grooveproxy.Invalidator
use grooveproxy.Invalidator.{get_memory, get_disk, decode_found}
use grooveproxy.Invalidator.MemoryStore.{MemoryCache, memory_backend, memory_store, memory_get}
use grooveproxy.Lru
use grooveproxy.Lru.{LruCache}
use grooveproxy.Lru.Linked.{IsLinked}
use grooveproxy.Lru.Contents.{IsStored}
use grooveproxy.Lru.Recency.{Element, find_key, weight, move_to_front, is_element, remove_element}
use grooveproxy.Lru.Set.{IsSound}
use grooveproxy.Proxy.{serve_request, answered, after_recorder, outcome_of}
use grooveproxy.Proxy.Serve.{Groove, done, serve}
use grooveproxy.Proxy.Serve.Freed.{serve-frees}
use grooveproxy.Recorder
use grooveproxy.Recorder.{new_recorder}
use grooveproxy.Tests.Exchanges.{answering, tripper}
use grooveproxy.Tests.Stored.{ask, env, kept, cache, two_level}

abbrev known : Element
known = record { id = 0; value = record { key = "GET-a/x-"; size = pos 3 } }

-- A level of the cache that holds the page.
abbrev level : LruCache MemoryCache
level = record {
  backing_cache = insert empty_map "GET-a/x-" (100 ∷ 200 ∷ 65 ∷ []);
  ordered_cache_keys = known ∷ [];
  key_to_element = insert empty_map "GET-a/x-" known;
  current_size = pos 3;
  max_size = pos 5;
  next_element = 1;
}

level-IsLinked : IsLinked level
unfolding find_key weight string_dec
level-IsLinked = record {
  proper = (tt, omega arith, refl, tt);
  indexed = λ k. refl;
  counted = refl;
  small = omega arith;
}

level-IsStored : IsStored memory_backend memory_store level
unfolding find_key memory_store memory_backend
level-IsStored = record { listed = λ j. ground arith; sized = λ j e v found stored. ground arith }

level-IsSound : IsSound memory_backend memory_store 5 level
unfolding weight
level-IsSound = record {
  linked = level-IsLinked;
  stored = level-IsStored;
  limit = refl;
  within = omega arith;
}

abbrev crowded : Groove MemoryCache
crowded = record {
  proxy = record {
    recorder = new_recorder;
    cache = record cache {
      cache_disk_cache = record two_level { memory_cache = level; disk_cache = level };
      inflight_requests = insert empty_map "http://a/x" true;
    };
  };
  round_tripper = tripper;
}

abbrev cached : Response
cached = archived_response_to_response (handle_headers ask).1 kept

answers_it :
    serve_request env 50 crowded.proxy ask
    ≡ ((handle_headers ask).0, crowded.proxy, answered cached)
unfolding serve_request after_recorder outcome_of Recorder.handle_request new_recorder
    Cache.handle_request answer_or_acquire get_cache_contents valid_entry entry_answer is_off
    is_mode_aggressive cache_entry_valid Invalidator.get Invalidator.has get_memory get_disk
    decode_found Lru.get Lru.has move_to_front is_element remove_element memory_backend memory_get
    string_dec get_cache_key plain_key append_queries sort insertion_sort new_query_array
    request_parts handle_headers ℕ_discrete
answers_it = refl

serve-frees_example :
    (g' : Groove MemoryCache) × (serve env answering 3 (λ n. n) 2 50 0 crowded ask
      ≡ some (done 0 g' (some cached)))
    × (g'.proxy.cache.inflight_requests "http://a/x" ≡ some false)
    × ((c : Cache MemoryCache) × (finish_acquire g'.proxy.cache "http://a/x" ≡ some c))
unfolding new_recorder is_off request_of response_to_archived_response response_parts memory_backend
    is_mode_aggressive is_empty handle_headers header_del request_url request_parts timeline
    string_dec archived_response_to_response add_headers
serve-frees_example =
    serve-frees env memory_store answering 3 (λ n. n) 2 50 5 5 0 crowded ask crowded.proxy cached
      kept (100 ∷ 200 ∷ 65 ∷ []) answers_it refl refl refl refl refl (omega arith)
      (record {
        good = record { memory = level-IsSound; disk = level-IsSound };
        fuel_memory = omega arith;
        fuel_disk = omega arith;
        small_memory = omega arith;
        small_disk = omega arith;
        fits = omega arith;
        encodes = refl;
        decodes = refl;
        accepts = λ w. refl;
      })
      refl refl
