-- ===== src/Tests/Routing.antt =====
-- groove/proxy/dialers.go, transport.go, utilities.go and cache_key.go, on a session of two dialers.
use grooveproxy.Base.{
  ℕ, suc, ◌≤◌, String, ◌≡◌, ◌↔◌, refl, [], ◌∷◌, none, some, string_dec, Result, ok, err, arith,
  true,
}
use grooveproxy.Base.Int64.{pos, negsuc}
use grooveproxy.CacheKey.{FlatQuery, text_ltb, less, sort}
use grooveproxy.CacheKey.Order.{less-clash}
use grooveproxy.Dialers.{
  DialerDefinition, DialerContext, DialerSession, next_dialer, candidate_dialers, matching_dialers,
  meets, best_dialers, max_priority, use_dialer,
}
use grooveproxy.Dialers.Choice.{◌≤ℤ◌}
use grooveproxy.Dialers.Next.{IsCandidate, Chooses, next_dialer-Chooses, next_dialer-none}
use grooveproxy.Http.{Request, first, Response, request, response, after, request_of, request_parts}
use grooveproxy.Http.History.{get_redirect_history, timeline, get_redirect_history-timeline}
use grooveproxy.Slices.{filter_slice, filter_loop, contains}
use grooveproxy.Tests.Stored.{ask, reply, page}
use grooveproxy.Transport.{
  http2_tls, Network, CustomRoundTripper, new_custom_round_tripper, solve_protocol,
  get_dialer_address, round_trip, solve_protocol_new, handshake_protocol, probed, main_dialer,
  wrap_connection_with_tls, shaken, protocol_of,
}
use grooveproxy.Transport.Attempts.{IsOutcome, round_trip-IsOutcome}
use grooveproxy.Transport.Dial.{Fits, solve_protocol_new-main_dialer}
use grooveproxy.Transport.Requests.{round_trip-le-tries}

abbrev pub direct : DialerDefinition
direct = record { identifier = "direct"; priority = pos 0; proxy = none; request_requires = none }

abbrev pub spare : DialerDefinition
spare = record { identifier = "spare"; priority = pos 1; proxy = none; request_requires = none }

abbrev pub session : DialerSession
session = record { dialer_definitions = direct ∷ spare ∷ []; total_tries = pos 0 }

abbrev context : DialerContext
context = record {
  request = some ask;
  request_type = "";
  attempted_dial_identifiers = "other" ∷ [];
  remaining_tries = pos 2;
}

-- A request that a redirect caused, and its response.
abbrev pub final : Response
final =
    response (record { status_code = 200; header = []; body = some [] })
      (request (request_parts ask) (after reply))

get_redirect_history-timeline_example :
    get_redirect_history 3 (some final)
    ≡ some (ask ∷ request (request_parts ask) (after reply) ∷ [], reply ∷ final ∷ [])
unfolding timeline request_of request_parts
get_redirect_history-timeline_example = get_redirect_history-timeline 3 final (omega arith)

abbrev low : FlatQuery
low = record { key = "a"; value = "2" }

abbrev high : FlatQuery
high = record { key = "b"; value = "1" }

less-clash_example :
    (less low high ≡ true)
    × (less high low ≡ true)
    × (sort (low ∷ high ∷ []) ≡ high ∷ low ∷ [])
    × (sort (high ∷ low ∷ []) ≡ low ∷ high ∷ [])
unfolding text_ltb
less-clash_example = less-clash low high refl refl

-- A network where every dial and handshake works and every answer is a 404, on no state.
abbrev network : Network (Unit {0}) (Unit {0})
network = record {
  split_host_port = λ s. err "missing port";
  to_lower = λ s. s;
  dial = λ w d n a. (w, ok tt);
  u_client = λ c h. c;
  handshake = λ w c. (w, none);
  connection_state = λ w c. record { handshake_complete = true; negotiated_protocol = "h2" };
  close = λ w c. w;
  exchange = λ w h q. (w, ok (response (record { status_code = 404; header = []; body = none }) q));
}

round_trip-IsOutcome_example :
    (r : Unit {0} × CustomRoundTripper × Result Response) × (round_trip network 3
        (λ n. n)
        tt
        (new_custom_round_tripper session)
        ask
      ≡ some r)
    × IsOutcome r.2
unfolding new_custom_round_tripper
round_trip-IsOutcome_example =
    round_trip-IsOutcome network 3 (λ n. n) tt (new_custom_round_tripper session) ask 2 refl
      (omega arith) (omega arith)

next_dialer-Chooses_example : Chooses session context spare ((next_dialer 5 session context).1)
unfolding next_dialer candidate_dialers matching_dialers filter_slice filter_loop meets contains
    string_dec best_dialers max_priority use_dialer
next_dialer-Chooses_example =
    next_dialer-Chooses 5 session context ((next_dialer 5 session context).1) spare refl

abbrev hidden : DialerSession
hidden = record {
  dialer_definitions = record direct { priority = negsuc 0 } ∷ [];
  total_tries = pos 0;
}

next_dialer-none_example :
    ((next_dialer 5 hidden context).0 ≡ none)
    ↔ ((e : DialerDefinition) → IsCandidate hidden context e → e.priority ≤ℤ negsuc 0)
next_dialer-none_example = next_dialer-none 5 hidden context refl

abbrev solved : CustomRoundTripper
solved = (solve_protocol network tt (new_custom_round_tripper session) ask direct).1

-- The same with a world that counts the exchanges; a connection is the name of its server.
abbrev pub counted : Network ℕ String
counted = record {
  split_host_port = λ s. err "missing port";
  to_lower = λ s. s;
  dial = λ w d n a. (w, ok "");
  u_client = λ c h. h;
  handshake = λ w c. (w, none);
  connection_state = λ w c. record { handshake_complete = true; negotiated_protocol = "h2" };
  close = λ w c. w;
  exchange =
      λ w h q. (suc w, ok (response (record { status_code = 404; header = []; body = none }) q));
}

round_trip-le-tries_example :
    (r : ℕ × CustomRoundTripper × Result Response) × (round_trip counted 3
        (λ n. n)
        5
        (new_custom_round_tripper session)
        ask
      ≡ some r)
    × (r.0 ≤ 7)
unfolding new_custom_round_tripper
round_trip-le-tries_example =
    round_trip-le-tries counted (λ w. w)
      (record {
        dial_same = λ w d n a. refl;
        handshake_same = λ w c. refl;
        close_same = λ w c. refl;
        exchange_one = λ w h q. omega arith;
      })
      3 (λ n. n) 5 (new_custom_round_tripper session) ask 2 refl (omega arith) (omega arith)

-- A request for a TLS server.
abbrev pub secret : Request
secret =
    request
      (record {
        method = "GET";
        url = record page { scheme = "https" };
        header = [];
        body = some [];
      })
      first

solve_protocol_new-main_dialer_example :
    (c : String) × (main_dialer counted 5
        (record { protocol = http2_tls; dialer = direct })
        "tcp"
        (get_dialer_address counted (record page { scheme = "https" }))
      ≡ (5, ok c))
    × Fits counted (record page { scheme = "https" }) 5 c http2_tls
unfolding solve_protocol_new probed handshake_protocol wrap_connection_with_tls shaken protocol_of
    get_dialer_address request_parts string_dec
solve_protocol_new-main_dialer_example =
    solve_protocol_new-main_dialer counted 5 5 secret direct http2_tls refl
