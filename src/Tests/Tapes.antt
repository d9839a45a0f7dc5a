-- ===== src/Tests/Tapes.antt =====
-- groove/proxy/recorder.go and headers.go: a recorder with two records of one address, one of them
-- played.
use grooveproxy.Archives.{archived_response_to_response}
use grooveproxy.Base.{
  same_text, ℕ, ◌≡◌, refl, List, [], ◌∷◌, none, some, String, string_dec, ok, arith, map,
  if◌then◌else◌, ℕ_discrete,
}
use grooveproxy.Headers.{HeaderDefinition}
use grooveproxy.Http.{Request, request, first, request_parts}
use grooveproxy.Recorder.{
  Recorder, Pointer, RecordedRecord, TapeFormat, recorder_mode_read, new_recorder, clear_tape_id,
  find_matching_response, export_data, records_to_export, load_data, blocked_body, is_consumed,
}
use grooveproxy.Recorder.Replay.{Plays, find_matching_response-Plays}
use grooveproxy.Recorder.Sessions.{
  answers, answers-expected, expected, export_load, on_tape, exports,
}
use grooveproxy.Recorder.Invariant.{IsWellFormed}
use grooveproxy.Recorder.Tape.{playable, fits}
use grooveproxy.Recorder.Tapes.{clear_tape_id-playable}
use grooveproxy.Slices.{contains, filter_slice, filter_loop}
use grooveproxy.Slices.Filter.{keep}
use grooveproxy.Tests.Stored.{refusal, page, ask}

abbrev pub recorded : ℕ → RecordedRecord
recorded status = record {
  request = record { url = "http://a/x"; method = "GET"; headers = []; body = [] };
  response = record { status = status; headers = []; body = status ∷ [] };
  tape_id = "t";
}

abbrev first_play : Pointer
first_play = record { address = 0; target = recorded 301 }

abbrev second_play : Pointer
second_play = record { address = 1; target = recorded 200 }

-- The first of the two was played.
abbrev pub half : Recorder
half = record {
  mode = recorder_mode_read;
  records = first_play ∷ second_play ∷ [];
  consumed_records = first_play ∷ [];
  next_address = 2;
}

abbrev pub tape : HeaderDefinition
tape = record { tape_id = "t"; resource_type = "" }

pub half-IsWellFormed : IsWellFormed half
half-IsWellFormed = record {
  ascending = (omega arith, (omega arith, omega arith));
  consumed_old = (omega arith, tt);
  consumed_tape = (((λ e. refl), ((λ e. refl), tt)), tt);
}

answers-expected_example :
    answers refusal half tape (ask ∷ ask ∷ [])
    ≡ some
        (archived_response_to_response ask (record { status = 200; headers = []; body = 200 ∷ [] }))
      ∷ some (refusal ask 500 blocked_body)
      ∷ []
unfolding expected playable fits keep same_text string_dec is_consumed contains ℕ_discrete
    request_parts
answers-expected_example =
    answers-expected refusal half tape "http://a/x" (ask ∷ ask ∷ []) refl half-IsWellFormed
      (refl, (refl, tt))

find_matching_response-Plays_example :
    let (r', answer) = find_matching_response half ask tape in
    Plays half r' ask "t" "http://a/x" answer
unfolding request_parts
find_matching_response-Plays_example =
    find_matching_response-Plays half ask tape (omega arith, (omega arith, omega arith))

clear_tape_id-playable_example :
    playable (clear_tape_id half "s") "t" "http://a/x" ≡ second_play ∷ []
unfolding playable fits keep same_text string_dec is_consumed contains ℕ_discrete
clear_tape_id-playable_example = clear_tape_id-playable half "s" "t" "http://a/x" half-IsWellFormed

-- A format that keeps the records as they are.
abbrev pub plain : TapeFormat (List RecordedRecord)
plain = record { marshal = λ xs. ok xs; gzip = λ b. b; gunzip = λ b. ok b; unmarshal = λ b. b }

export_load_example :
    let (loaded, error) = load_data plain new_recorder (recorded 301 ∷ recorded 200 ∷ []) in
    (error ≡ none)
    × ((t u : String)
        → map (λ p. p.target) (playable loaded t u)
          ≡ (if exports "t" t then keep (on_tape t u) (recorded 301 ∷ recorded 200 ∷ []) else []))
unfolding export_data records_to_export filter_slice filter_loop same_text string_dec
export_load_example =
    export_load plain half new_recorder "t" (recorded 301 ∷ recorded 200 ∷ [])
      (λ xs json e. (refl, ground (arith, e))) refl

abbrev tagged : Request
tagged =
    request
      (record {
        method = "GET";
        url = page;
        header = ("Tape-Id", "t" ∷ []) ∷ ("Resource-Type", "script" ∷ []) ∷ [];
        body = some [];
      })
      first
