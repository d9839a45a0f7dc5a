-- ===== src/Tests/Exchanges.antt =====
-- groove/proxy/main.go: whole exchanges over a network that counts them.
use grooveproxy.Archives.{archived_response_to_response, response_to_archived_response}
use grooveproxy.Base.{
  ℕ, suc, ◌≡◌, refl, sym, [], ◌∷◌, Option, none, some, String, string_dec, Result, ok, arith, false,
}
use grooveproxy.Base.Int64.{◌-ℤ◌, wrap64}
use grooveproxy.Cache.{
  cache_mode_off, cache_entry_valid, is_mode_aggressive, is_empty, is_off, request_url,
}
use grooveproxy.CacheKey.{
  get_cache_key, plain_key, append_queries, sort, insertion_sort, new_query_array,
}
use grooveproxy.Dialers.{
  new_dialer_context, next_dialer, use_dialer, best_dialers, candidate_dialers, matching_dialers,
  meets, max_priority,
}
use grooveproxy.Lru
use grooveproxy.Slices.{filter_slice, filter_loop, contains}
use grooveproxy.Headers.{handle_headers}
use grooveproxy.Http.{
  header_del, header_get, header_values, Request, Response, response, request_of, request_parts,
  response_parts,
}
use grooveproxy.Http.History.{timeline}
use grooveproxy.Invalidator
use grooveproxy.Invalidator.MemoryStore.{MemoryCache, memory_backend, memory_store}
use grooveproxy.Proxy.Serve.{Groove, done, serve}
use grooveproxy.Proxy.Serve.Transparent.{answer_of, IsKept, serve-transparent}
use grooveproxy.Transport.Attempts.{IsOutcome}
use grooveproxy.Proxy.Serve.Cached.{serve-fills}
use grooveproxy.Proxy.{serve_request, answered}
use grooveproxy.Recorder.{new_recorder, recorder_mode_write}
use grooveproxy.Tests.Caches.{pair-IsSound}
use grooveproxy.Tests.Routing.{session, counted}
use grooveproxy.Tests.Stored.{ask, cache, env, kept}
use grooveproxy.Transport.{
  Network, CustomRoundTripper, new_custom_round_tripper, round_trip, round_trip_loop,
  strip_resource_type, try_dialer, try_handler, solve_protocol, learn_protocol, solve_protocol_new,
  address_to_host, get_dialer_address, handshake_protocol, is_valid_response, join_host_port,
  known_handler, probed, protocol_of, received, remember_handler, shaken, solve_transport,
  with_handler, wrap_connection_with_tls,
}

-- A page that answers a request.
abbrev pub page_for : Request → Response
page_for = response (record { status_code = 200; header = []; body = some (65 ∷ []) })

abbrev pub answering : Network ℕ String
answering = record counted { exchange = λ w h q. (suc w, ok (page_for q)) }

abbrev pub sent : Request
sent = strip_resource_type (handle_headers ask).1

abbrev writing : Groove MemoryCache
writing = record {
  proxy = record {
    recorder = record new_recorder { mode = recorder_mode_write };
    cache = record cache { mode = cache_mode_off };
  };
  round_tripper = new_custom_round_tripper session;
}

abbrev pub resting : Groove MemoryCache
resting = record {
  proxy = record { recorder = new_recorder; cache = record cache { mode = cache_mode_off } };
  round_tripper = new_custom_round_tripper session;
}

serve-transparent_example :
    (w' : ℕ) × (g' : Groove MemoryCache) × (e : Result Response) × (round_trip answering 3
        (λ n. n)
        0
        resting.round_tripper
        (handle_headers ask).1
      ≡ some (w', g'.round_tripper, e))
    × IsOutcome e
    × (serve env answering 3 (λ n. n) 2 1 0 resting ask ≡ some (done w' g' (answer_of e)))
    × IsKept env answering 3 (λ n. n) 2 resting g'
unfolding new_recorder new_custom_round_tripper handle_headers strip_resource_type timeline
serve-transparent_example =
    serve-transparent env answering 3 (λ n. n) 2 1 2 0 resting ask refl refl refl (omega arith)
      (omega arith) (λ v h r e. let same : page_for sent ≡ r = cc in rw (sym same) (omega arith))

abbrev pub tripper : CustomRoundTripper
tripper = new_custom_round_tripper session

abbrev caching : Groove MemoryCache
caching = record {
  proxy = record { recorder = new_recorder; cache = cache };
  round_tripper = tripper;
}

abbrev tripper_of : Option (ℕ × CustomRoundTripper × Result Response) → CustomRoundTripper
tripper_of none = tripper
tripper_of (some (w, rt, r)) = rt

trips :
    round_trip answering 3 (λ n. n) 0 tripper (handle_headers ask).1
    ≡ some (
      1,
      tripper_of (round_trip answering 3 (λ n. n) 0 tripper (handle_headers ask).1),
      ok (page_for sent),
    )
unfolding round_trip round_trip_loop new_dialer_context next_dialer new_custom_round_tripper
    use_dialer best_dialers filter_slice filter_loop candidate_dialers matching_dialers meets
    contains max_priority try_dialer try_handler solve_protocol learn_protocol solve_protocol_new
    wrap64 ◌-ℤ◌ string_dec header_del header_get header_values request_parts response_parts
    address_to_host get_dialer_address handshake_protocol is_valid_response join_host_port
    known_handler probed protocol_of received remember_handler shaken solve_transport
    strip_resource_type with_handler wrap_connection_with_tls handle_headers
trips = refl

unknown :
    Invalidator.has env.backend env.codec caching.proxy.cache.cache_disk_cache
      (get_cache_key env.base64 sent)
    ≡ false
unfolding Invalidator.has Lru.has memory_backend string_dec get_cache_key plain_key append_queries
    sort insertion_sort new_query_array request_parts strip_resource_type handle_headers
unknown = refl

serve-fills_example :
    (g' : Groove MemoryCache) × (serve env answering 3 (λ n. n) 2 1 0 caching ask
      ≡ some (done 1 g' (some (page_for sent))))
    × (g'.proxy.cache.inflight_requests "http://a/x" ≡ some false)
    × ((serve_request env 50 g'.proxy ask).2
        ≡ answered (archived_response_to_response (handle_headers ask).1 kept))
unfolding new_recorder is_off strip_resource_type request_of response_to_archived_response
    response_parts memory_backend is_mode_aggressive is_empty handle_headers header_del request_url
    cache_entry_valid request_parts timeline
serve-fills_example =
    serve-fills env memory_store answering 3 (λ n. n) 2 1 50 5 5 0 1
      (tripper_of (round_trip answering 3 (λ n. n) 0 tripper (handle_headers ask).1)) caching ask
      ask (page_for sent) kept (100 ∷ 200 ∷ 65 ∷ []) refl refl unknown (λ e. cc) trips refl refl
      (omega arith)
      (record {
        good = record { memory = pair-IsSound; disk = pair-IsSound };
        fuel_memory = omega arith;
        fuel_disk = omega arith;
        small_memory = omega arith;
        small_disk = omega arith;
        fits = omega arith;
        encodes = refl;
        decodes = refl;
        accepts = λ w. refl;
      })
      refl refl refl
