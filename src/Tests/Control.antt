-- ===== src/Tests/Control.antt =====
-- groove/proxy/controller.go and optimized_storage.go at concrete calls.
use grooveproxy.Base.{
  same_text, List, ℕ, suc, ◌≡◌, refl, arith, [], ◌∷◌, some, String, string_dec, Result, ok, err,
  true, false, Bool, empty_map, All, insert,
}
use grooveproxy.Base.Int64.{pos}
use grooveproxy.CertStore.{
  OptimizedCertStore, new_optimized_cert_store, host_lock, fetch, fetch_all, keep_cert, fetch-once,
}
use grooveproxy.Controller.{
  DialerDefinitionRequest, State, file, requires_of, dialer_load, tape_record, tape_stop,
  tape_retrieve, tape_load,
}
use grooveproxy.Controller.Dialing.{Loaded, dialer_load-Loaded, resource_types_ignored}
use grooveproxy.Dialers.{RequestRequiresDefinition, new_dialer_session, is_request_valid}
use grooveproxy.Http.{Request, Response, request_parts}
use grooveproxy.Http.History.{timeline}
use grooveproxy.Headers.{HeaderDefinition}
use grooveproxy.Slices.Filter.{keep}
use grooveproxy.Controller.RecordReplay.{record_all, recordings, replays, record_replay}
use grooveproxy.Recorder.Sessions.{answers, on_tape}
use grooveproxy.Tests.Routing.{final}
use grooveproxy.Invalidator.MemoryStore.{MemoryCache}
use grooveproxy.Recorder.{Recorder, RecordedRecord, new_recorder, log_pair}
use grooveproxy.Tests.Stored.{ask, reply, cache, env}
use grooveproxy.Tests.Tapes.{plain, tape}

-- Of the expressions only "[" does not compile, and the others match everything.
abbrev compile : String → Result (String → Bool)
compile s = elim (string_dec s "[") [ yes e ↦ err "missing ]" | no ne ↦ ok (λ t. true) ]

abbrev scripts : DialerDefinitionRequest
scripts = record {
  priority = pos 1;
  proxy_server = "http://proxy";
  proxy_username = "";
  proxy_password = "";
  requires_url_regex = "";
  requires_resource_types = "script" ∷ [];
}

abbrev broken : DialerDefinitionRequest
broken = record scripts { requires_url_regex = "[" }

dialer_load-Loaded_example :
    Loaded compile []
      (("u1", scripts) ∷ ("u2", broken) ∷ [])
      (dialer_load compile "u0" new_dialer_session (("u1", scripts) ∷ ("u2", broken) ∷ []))
dialer_load-Loaded_example =
    dialer_load-Loaded compile "u0" new_dialer_session ("u1", scripts) (("u2", broken) ∷ [])

resource_types_ignored_example :
    (d : RequestRequiresDefinition) × (requires_of compile scripts ≡ ok (some d))
    × ((q : Request) (resource_type : String) → is_request_valid d q resource_type ≡ true)
unfolding string_dec
resource_types_ignored_example =
    resource_types_ignored compile (λ t. true) scripts "script" [] refl (λ s. refl) refl refl

abbrev pub state : State MemoryCache
state = record { recorder = new_recorder; cache = cache; dialer_session = new_dialer_session }

-- A state in which a pair was recorded.
abbrev logged : State MemoryCache
logged = record state { recorder = log_pair new_recorder ask tape reply }

-- A generator that counts its runs and names its certificate by the count.
abbrev counting : ℕ → ℕ × Result ℕ
counting n = (suc n, ok n)

abbrev certified : OptimizedCertStore ℕ
certified = record { certs = insert empty_map "a" 7; locks = insert empty_map "a" false }

fetch-once_example :
    All
      (λ f. f.0 ≡ "a" → f.1 ≡ ok 7)
      (fetch_all certified 8 (("b", counting) ∷ ("a", counting) ∷ []))
    × (fetch certified "a" counting 9 ≡ (host_lock certified "a", 9, ok 7))
unfolding fetch keep_cert host_lock new_optimized_cert_store
fetch-once_example =
    fetch-once new_optimized_cert_store certified "a" counting counting 7 8 9 7
      (("b", counting) ∷ ("a", counting) ∷ []) refl

abbrev exchanges : List (HeaderDefinition × Response)
exchanges = (tape, reply) ∷ (tape, final) ∷ []

record_replay_example :
    (r : Recorder) × (bytes : List RecordedRecord) × (record_all 3
        (tape_record env plain state).0.recorder
        exchanges
      ≡ some r)
    × ((tape_retrieve env plain (tape_stop env plain (record state { recorder = r })).0 (ok "t")).1
        ≡ record { status = 200; payload = some bytes })
    × (answers env.new_response
          (tape_load env plain state (file bytes)).0.recorder
          tape
          (ask ∷ ask ∷ [])
        ≡ replays env.new_response
            (keep (on_tape "t" "http://a/x") (recordings exchanges))
            (ask ∷ ask ∷ []))
unfolding same_text string_dec request_parts timeline
record_replay_example =
    record_replay env plain 3 state state exchanges "t" "http://a/x" tape (ask ∷ ask ∷ [])
      (λ xs. (xs, refl, refl, refl)) (omega arith, (omega arith, tt)) (refl, (refl, tt))
