-- ===== src/Tests/Taping.antt =====
-- groove/proxy/main.go and controller.go: two exchanges that are recorded and replayed.
use grooveproxy.Base.{ℕ, ◌≡◌, refl, sym, List, [], ◌∷◌, some, string_dec, ok, arith, same_text}
use grooveproxy.Controller.{file, tape_record, tape_stop, tape_retrieve, tape_load}
use grooveproxy.Controller.Playback.{playback, Replayed}
use grooveproxy.Headers.{HeaderDefinition, handle_headers}
use grooveproxy.Http.{Response, request_parts, response_parts}
use grooveproxy.Http.History.{timeline}
use grooveproxy.Invalidator.MemoryStore.{MemoryCache}
use grooveproxy.Proxy.Serve.{Groove}
use grooveproxy.Proxy.Serve.Session.{IsAnswered, serve_all, serve-replays}
use grooveproxy.Recorder.{RecordedRecord}
use grooveproxy.Recorder.Sessions.{answers}
use grooveproxy.Tests.Control.{state}
use grooveproxy.Tests.Exchanges.{answering, page_for, sent, resting}
use grooveproxy.Tests.Stored.{ask, env}
use grooveproxy.Tests.Tapes.{plain, tape}
use grooveproxy.Transport.{new_custom_round_tripper, strip_resource_type}

abbrev taping : Groove MemoryCache
taping = record resting {
  proxy = record resting.proxy { recorder = (tape_record env plain state).0.recorder };
}

page_for-IsChain : IsAnswered env answering 3 (λ n. n) 2 ask
unfolding timeline response_parts handle_headers strip_resource_type
page_for-IsChain v h r e =
    let same : page_for sent ≡ r = cc in rw (sym same) (omega arith, (tt, tt))

serve-replays_example :
    (w' : ℕ) × (g' : Groove MemoryCache) × (exchanges : List (HeaderDefinition × Response))
    × (bytes : List RecordedRecord) × (serve_all env answering 3
          (λ n. n)
          2
          0
          taping
          ((1, ask) ∷ (4, ask) ∷ [])
        ≡ some (w', g', exchanges))
    × ((tape_retrieve env plain
          (tape_stop env plain (record state { recorder = g'.proxy.recorder })).0
          (ok "t")).1
        ≡ record { status = 200; payload = some bytes })
    × Replayed env.new_response (playback "t" "http://a/x" exchanges) (ask ∷ ask ∷ []) (
        answers env.new_response
          (tape_load env plain state (file bytes)).0.recorder
          tape
          (ask ∷ ask ∷ []))
unfolding same_text string_dec request_parts timeline new_custom_round_tripper handle_headers
    strip_resource_type
serve-replays_example =
    serve-replays env answering 3 (λ n. n) 2 plain 2 0 taping state state ((1, ask) ∷ (4, ask) ∷ [])
      "t" "http://a/x" tape (ask ∷ ask ∷ []) refl refl refl (omega arith) (omega arith)
      (page_for-IsChain, (page_for-IsChain, tt)) (λ xs. (xs, refl, refl, refl)) (refl, (refl, tt))
