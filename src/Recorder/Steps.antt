-- ===== src/Recorder/Steps.antt =====
-- groove/proxy/recorder.go: the recorder as a state machine, and what holds in every state.
use grooveproxy.Base.{Option, none, some, String, Result, ok, err, arith}
use grooveproxy.Headers.{HeaderDefinition}
use grooveproxy.Http.{Request, Response}
use grooveproxy.Recorder.{
  Recorder, RecorderMode, TapeFormat, new_recorder, append_records, log_pair, clear, clear_tape_id,
  load_data, find_matching_response,
}
use grooveproxy.Recorder.Invariant.{
  IsWellFormed, append_records-IsWellFormed, clear-IsWellFormed, log_pair-IsWellFormed,
  clear_tape_id-IsWellFormed, find_matching_response-IsWellFormed,
}

module _ {Bytes : Type 0} (format : TapeFormat Bytes) where
  load_data-IsWellFormed :
      (r : Recorder) (file : Bytes) → IsWellFormed r → IsWellFormed ((load_data format r file).0)
  unfolding load_data
  load_data-IsWellFormed r file w =
      elim (format.gunzip file) as (λ g. IsWellFormed (loaded r g).0) [
        | err e ↦ w
        | ok output ↦
            append_records-IsWellFormed (clear r) (format.unmarshal output) (clear-IsWellFormed r)
      ]
    where
      loaded : Recorder → Result Bytes → Recorder × Option String
      loaded r g = elim g [
        | err e ↦ (r, some e)
        | ok output ↦ (append_records (clear r) (format.unmarshal output), none)
      ]

  -- What happens to a recorder: the middleware logs and plays, and the control API sets the mode,
  -- clears a tape or all, and loads a tape.
  pub data Step : Recorder → Recorder → Type 0 where
    logs :
        (r : Recorder) (q : Request) (headers : HeaderDefinition) (answer : Response)
        → Step r (log_pair r q headers answer)
    plays :
        (r : Recorder) (q : Request) (headers : HeaderDefinition)
        → Step r ((find_matching_response r q headers).0)
    sets_mode : (r : Recorder) (m : RecorderMode) → Step r (record r { mode = m })
    clears : (r : Recorder) → Step r (clear r)
    clears_tape : (r : Recorder) (t : String) → Step r (clear_tape_id r t)
    loads : (r : Recorder) (file : Bytes) → Step r ((load_data format r file).0)

  pub data Reach : Recorder → Type 0 where
    start : Reach new_recorder
    step : {r r' : Recorder} → Reach r → Step r r' → Reach r'

  Step-IsWellFormed : {r r' : Recorder} → Step r r' → IsWellFormed r → IsWellFormed r'
  Step-IsWellFormed (logs r q headers answer) w = log_pair-IsWellFormed r q headers answer w
  Step-IsWellFormed (plays r q headers) w = find_matching_response-IsWellFormed r q headers w
  Step-IsWellFormed (sets_mode r m) w = record {
    ascending = w.ascending;
    consumed_old = w.consumed_old;
    consumed_tape = w.consumed_tape;
  }
  Step-IsWellFormed (clears r) w = clear-IsWellFormed r
  Step-IsWellFormed (clears_tape r t) w = clear_tape_id-IsWellFormed r t w
  Step-IsWellFormed (loads r file) w = load_data-IsWellFormed r file w

  -- Every state that a recorder can reach from its creation is well formed: its records have
  -- distinct, ascending addresses, and a record that was consumed has the tape of the one with its
  -- address.
  pub Reach-IsWellFormed : {r : Recorder} → Reach r → IsWellFormed r
  unfolding new_recorder
  Reach-IsWellFormed start = record {
    ascending = omega arith;
    consumed_old = tt;
    consumed_tape = tt;
  }
  Reach-IsWellFormed (step reach s) = Step-IsWellFormed s (Reach-IsWellFormed reach)
