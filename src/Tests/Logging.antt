-- ===== src/Tests/Logging.antt =====
-- groove/proxy/recorder.go and cache/invalidator.go: a response that is recorded, and the directories of
-- a key.
use grooveproxy.Base.{ℕ, ◌≤◌, ◌≡◌, refl, [], ◌∷◌, ◌++◌, List, String, some, map, length, All, arith}
use grooveproxy.Http.History.{timeline}
use grooveproxy.Invalidator.Blocks.{block_transform, concat, block_transform-concat}
use grooveproxy.Recorder.{Recorder, recorder_mode_write, handle_response}
use grooveproxy.Recorder.Invariant.{IsWellFormed}
use grooveproxy.Recorder.Recording.{records_of, handle_response-records}
use grooveproxy.Recorder.Sessions.{on_tape}
use grooveproxy.Recorder.Tape.{playable}
use grooveproxy.Slices.Filter.{keep}
use grooveproxy.Tests.Stored.{bare}
use grooveproxy.Tests.Tapes.{half, half-IsWellFormed, tape}

abbrev logging : Recorder
logging = record half { mode = recorder_mode_write }

handle_response-records_example :
    (r' : Recorder) × (handle_response 2 logging tape (some bare) ≡ some r')
    × IsWellFormed r'
    × ((t u : String)
        → map (λ p. p.target) (playable r' t u)
          ≡ map (λ p. p.target) (playable logging t u)
            ++ keep (on_tape t u) (records_of tape (timeline bare)))
unfolding timeline
handle_response-records_example =
    handle_response-records 2 logging tape bare refl
      (record {
        ascending = half-IsWellFormed.ascending;
        consumed_old = half-IsWellFormed.consumed_old;
        consumed_tape = half-IsWellFormed.consumed_tape;
      })
      (omega arith)

block_transform-concat_example :
    (length (block_transform (71 ∷ 69 ∷ 84 ∷ [])) ≡ 1)
    × All (λ b. length b ≡ 2) (block_transform (71 ∷ 69 ∷ 84 ∷ []))
    × ((rest : List ℕ) × (concat (block_transform (71 ∷ 69 ∷ 84 ∷ [])) ++ rest ≡ 71 ∷ 69 ∷ 84 ∷ [])
        × (length rest ≤ 1))
block_transform-concat_example = block_transform-concat (71 ∷ 69 ∷ 84 ∷ [])
