-- ===== src/Recorder.antt =====
-- groove/proxy/recorder.go: the tape recorder. A `*RecordedRecord` is an address with the record it
-- points to; records are not written after their creation. The JSON and gzip encoding of a tape is a
-- parameter.
pub mod Tape
pub mod Replay
pub mod Invariant
pub mod Steps
pub mod Tapes
pub mod Sessions
pub mod Recording
use grooveproxy.Archives.{
  ArchivedRequest, ArchivedResponse, request_to_archived_request, response_to_archived_response,
  archived_response_to_response,
}
use grooveproxy.Base.{
  same_text, ℕ, zero, suc, ◌+◌, Bool, true, false, not, ◌||◌, List, [], ◌∷◌, ◌++◌, map, Option,
  none, some, String, string_dec, Result, ok, err, ◌>>=◌, if◌then◌else◌, ite, ℕ_discrete, and_then,
}
use grooveproxy.Headers.{HeaderDefinition}
use grooveproxy.Http.History.{get_redirect_history}
use grooveproxy.Http.{Request, Response, Url, ResponseParts, response, request_parts}
use grooveproxy.Slices.{filter_slice, contains}

pub data RecorderMode : Type 0 where
  recorder_mode_off recorder_mode_read recorder_mode_write : RecorderMode

pub record RecordedRecord : Type 0 where
  pub request : ArchivedRequest
  pub response : ArchivedResponse
  pub tape_id : String

pub record Pointer : Type 0 where
  pub address : ℕ
  pub target : RecordedRecord

pub record Recorder : Type 0 where
  pub mode : RecorderMode
  pub records : List Pointer
  pub consumed_records : List Pointer
  -- no record has this address or a higher one yet
  pub next_address : ℕ

unfoldable pub new_recorder : Recorder
new_recorder = record {
  mode = recorder_mode_off;
  records = [];
  consumed_records = [];
  next_address = 0;
}

unfoldable pub append_record : Recorder → RecordedRecord → Recorder
append_record r x = record r {
  records = r.records ++ record { address = r.next_address; target = x } ∷ [];
  next_address = r.next_address + 1;
}

-- `LogPair`: a pair of which a body cannot be read is left out.
unfoldable pub log_pair : Recorder → Request → HeaderDefinition → Response → Recorder
log_pair r q request_headers answer = elim (request_to_archived_request q) [
  | none ↦ r
  | some archived_request ↦ elim (response_to_archived_response answer) [
    | none ↦ r
    | some archived_response ↦ append_record r (record {
      request = archived_request;
      response = archived_response;
      tape_id = request_headers.tape_id;
    })
  ]
]

-- The records that `ExportData` encodes.
unfoldable pub records_to_export : Recorder → String → List RecordedRecord
records_to_export r tape_id =
    map (λ p. p.target)
      (if same_text tape_id ""
        then r.records
        else filter_slice r.records
            (λ p. same_text p.target.tape_id tape_id || same_text p.target.tape_id ""))

unfoldable pub clear : Recorder → Recorder
clear r = record r { records = []; consumed_records = [] }

unfoldable pub clear_tape_id : Recorder → String → Recorder
clear_tape_id r tape_id = record r {
  records = filter_slice r.records (λ p. not (same_text p.target.tape_id tape_id));
  consumed_records =
      filter_slice r.consumed_records (λ p. not (same_text p.target.tape_id tape_id));
}

-- Fresh addresses for decoded records.
unfoldable pub append_records : Recorder → List RecordedRecord → Recorder
append_records r [] = r
append_records r (x ∷ xs) = append_records (append_record r x) xs

-- `encoding/json` behind `compress/gzip`, over bytes.
pub record TapeFormat (Bytes : Type 0) : Type 0 where
  pub marshal : List RecordedRecord → Result Bytes
  pub gzip : Bytes → Bytes
  -- `gzip.NewReader` and `ioutil.ReadAll`
  pub gunzip : Bytes → Result Bytes
  -- the records that `json.Unmarshal` leaves in an empty slice, none of them null; its error is
  -- dropped
  pub unmarshal : Bytes → List RecordedRecord

module _ {Bytes : Type 0} (format : TapeFormat Bytes) where
  unfoldable pub export_data : Recorder → String → Result Bytes
  export_data r tape_id =
      format.marshal (records_to_export r tape_id) >>= λ json. ok (format.gzip json)

  -- `LoadData`, with its error.
  unfoldable pub load_data : Recorder → Bytes → Recorder × Option String
  load_data r file = elim (format.gunzip file) [
    | err e ↦ (r, some e)
    | ok output ↦ (append_records (clear r) (format.unmarshal output), none)
  ]

-- `contains(r.consumedRecords, record)`: `==` on pointers compares addresses.
unfoldable pub is_consumed : Recorder → Pointer → Bool
is_consumed r p = contains ℕ_discrete (map (λ c. c.address) r.consumed_records) p.address

-- The loop of `FindMatchingResponse`: the first record that passes its three tests.
unfoldable pub find_record : Recorder → List Pointer → String → String → Option Pointer
find_record r [] tape_id url = none
find_record r (p ∷ records) tape_id url =
    let rest = find_record r records tape_id url in
    if not (same_text p.target.tape_id tape_id)
    then rest
    else if same_text p.target.request.url url
    then (if is_consumed r p then rest else some p)
    else rest

unfoldable pub find_matching_response :
    Recorder → Request → HeaderDefinition → Recorder × Option Response
find_matching_response r q request_headers =
    let url : Url = (request_parts q).url in
    elim (find_record r r.records request_headers.tape_id url.text) [
      | none ↦ (r, none)
      | some p ↦ (
        record r { consumed_records = r.consumed_records ++ p ∷ [] },
        some (archived_response_to_response q p.target.response),
      )
    ]

-- `goproxy.NewResponse` for a request with a status and a plain text.
abbrev pub NewResponse : Type 0
NewResponse = Request → ℕ → String → Response

abbrev pub blocked_body : String
blocked_body = "Proxy blocked request"

module _ (new_response : NewResponse) where
  unfoldable pub played_or_blocked :
      Request → Recorder × Option Response → Recorder × Option Response
  played_or_blocked q (r, some answer) = (r, some answer)
  played_or_blocked q (r, none) = (r, some (new_response q 500 blocked_body))

  -- The request handler of `setupRecorderMiddleware`: an answer stops the request.
  unfoldable pub handle_request : Recorder → Request → HeaderDefinition → Recorder × Option Response
  handle_request r q definition = elim r.mode [
    | recorder_mode_read ↦ played_or_blocked q (find_matching_response r q definition)
    | recorder_mode_off ↦ (r, none)
    | recorder_mode_write ↦ (r, none)
  ]

-- Its loop over the two histories; `none` is an index out of range.
unfoldable pub log_history :
    Recorder → HeaderDefinition → List Request → List Response → Option Recorder
log_history r definition [] responses = some r
log_history r definition (q ∷ requests) [] = none
log_history r definition (q ∷ requests) (answer ∷ responses) =
    log_history (log_pair r q definition answer) definition requests responses

-- The response handler; it passes the response on as it is.
unfoldable pub handle_response : ℕ → Recorder → HeaderDefinition → Option Response → Option Recorder
handle_response fuel r definition answer = elim r.mode [
  | recorder_mode_write ↦
      and_then (get_redirect_history fuel answer)
        λ (requests, responses). log_history r definition requests responses
  | recorder_mode_off ↦ some r
  | recorder_mode_read ↦ some r
]
