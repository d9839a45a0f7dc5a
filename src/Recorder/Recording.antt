-- ===== src/Recorder/Recording.antt =====
-- groove/proxy/recorder.go: what the response handler records of a chain of redirects.
use grooveproxy.Archives.{request_to_archived_request, response_to_archived_response}
use grooveproxy.Base.{
  ℕ, ◌<◌, ◌≡◌, refl, ◌∙◌, ap, List, [], ◌∷◌, ◌++◌, map, Option, none, some, String, length, arith,
  inl, inr, Option-cases,
}
use grooveproxy.Headers.{HeaderDefinition}
use grooveproxy.Http.History.{timeline, get_redirect_history-timeline}
use grooveproxy.Http.{Response, request_of}
use grooveproxy.Recorder.Sessions.{on_tape, append_records-playable}
use grooveproxy.Recorder.Invariant.{IsWellFormed, append_records-IsWellFormed}
use grooveproxy.Recorder.Tape.{playable}
use grooveproxy.Recorder.{
  Recorder, RecordedRecord, recorder_mode_write, append_record, append_records, log_pair,
  log_history, handle_response,
}
use grooveproxy.Slices.Filter.{keep}

-- Specification: the record of a response and its request, if both bodies can be read.
abbrev pub record_of : HeaderDefinition → Response → Option RecordedRecord
record_of definition answer = elim (request_to_archived_request (request_of answer)) [
  | none ↦ none
  | some archived_request ↦ elim (response_to_archived_response answer) [
    | none ↦ none
    | some archived_response ↦ some (record {
      request = archived_request;
      response = archived_response;
      tape_id = definition.tape_id;
    })
  ]
]

abbrev cons_some : Option RecordedRecord → List RecordedRecord → List RecordedRecord
cons_some none xs = xs
cons_some (some x) xs = x ∷ xs

abbrev pub records_of : HeaderDefinition → List Response → List RecordedRecord
records_of definition [] = []
records_of definition (answer ∷ responses) =
    cons_some (record_of definition answer) (records_of definition responses)

append_some :
    (r : Recorder) (definition : HeaderDefinition) (answer : Response) (xs : List RecordedRecord)
    → append_records (log_pair r (request_of answer) definition answer) xs
      ≡ append_records r (cons_some (record_of definition answer) xs)
unfolding log_pair append_records
append_some r definition answer xs =
    elim (Option-cases (request_to_archived_request (request_of answer))) [
      | inl unread ↦ ground (arith, unread)
      | inr (aq, read) ↦ elim (Option-cases (response_to_archived_response answer)) [
        | inl unread ↦ ground (arith, read, unread)
        | inr (ar, read_too) ↦ ground (arith, read, read_too)
      ]
    ]

log_history-records_of :
    (r : Recorder) (definition : HeaderDefinition) (responses : List Response)
    → log_history r definition (map request_of responses) responses
      ≡ some (append_records r (records_of definition responses))
unfolding log_history append_records
log_history-records_of r definition [] = refl
log_history-records_of r definition (answer ∷ responses) =
    log_history-records_of (log_pair r (request_of answer) definition answer) definition responses
    ∙ ap some (append_some r definition answer (records_of definition responses))

pub mode-append_records :
    (r : Recorder) (xs : List RecordedRecord) → (append_records r xs).mode ≡ r.mode
unfolding append_records append_record
mode-append_records r [] = refl
mode-append_records r (x ∷ xs) = mode-append_records (append_record r x) xs

pub handle_response-append :
    (fuel : ℕ) (r : Recorder) (definition : HeaderDefinition) (answer : Response)
    → r.mode ≡ recorder_mode_write
    → length (timeline answer) < fuel
    → handle_response fuel r definition (some answer)
      ≡ some (append_records r (records_of definition (timeline answer)))
unfolding handle_response
handle_response-append fuel r definition answer writes enough =
    let history = get_redirect_history-timeline fuel answer enough in
    let logged = log_history-records_of r definition (timeline answer) in
    ground (arith, writes, history, logged)

-- In write mode the response handler records each response of a chain of redirects with its request,
-- in the order in which they came, on the tape of the request, given more fuel than hops; a pair of
-- which a body cannot be read is left out. What was left to play stays first, and the recorder stays
-- well formed.
pub handle_response-records :
    (fuel : ℕ) (r : Recorder) (definition : HeaderDefinition) (answer : Response)
    → r.mode ≡ recorder_mode_write
    → IsWellFormed r
    → length (timeline answer) < fuel
    → (r' : Recorder) × (handle_response fuel r definition (some answer) ≡ some r')
      × IsWellFormed r'
      × ((t u : String)
          → map (λ p. p.target) (playable r' t u)
            ≡ map (λ p. p.target) (playable r t u)
              ++ keep (on_tape t u) (records_of definition (timeline answer)))
handle_response-records fuel r definition answer writes w enough =
    let xs = records_of definition (timeline answer) in
    (
      append_records r xs,
      handle_response-append fuel r definition answer writes enough,
      append_records-IsWellFormed r xs w,
      λ t u. append_records-playable r xs t u w,
    )
