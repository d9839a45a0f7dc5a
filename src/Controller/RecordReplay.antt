-- ===== src/Controller/RecordReplay.antt =====
-- groove/proxy/controller.go and recorder.go: a session of the control API from the recording of a
-- tape to its replay.
use mathlib.Core.List.{append-nil, append_assoc, map-append}
use grooveproxy.Archives.{archived_response_to_response}
use grooveproxy.Base.{
  ℕ, ◌<◌, ◌≡◌, refl, sym, ◌∙◌, ap, subst, List, [], ◌∷◌, ◌++◌, map, Option, some, String, ok,
  length, All, and_then, if◌then◌else◌,
}
use grooveproxy.Cache.{Environment}
use grooveproxy.Controller.{
  State, file, tape_record, tape_stop, tape_retrieve, exported_reply, tape_load,
}
use grooveproxy.Headers.{HeaderDefinition}
use grooveproxy.Http.History.{timeline}
use grooveproxy.Http.{Request, Response}
use grooveproxy.Recorder.Invariant.{append_records-IsWellFormed, clear-IsWellFormed}
use grooveproxy.Recorder.Recording.{records_of, handle_response-append, mode-append_records}
use grooveproxy.Recorder.Sessions.{
  answers, expected, answers-expected, on_tape, exports, text_of, IsFaithful, export_load,
  load-read,
}
use grooveproxy.Recorder.Tape.{playable}
use grooveproxy.Recorder.{
  Recorder, Pointer, RecordedRecord, TapeFormat, NewResponse, recorder_mode_write,
  recorder_mode_read, recorder_mode_off, append_record, append_records, clear, records_to_export,
  export_data, load_data, handle_response, blocked_body,
}
use grooveproxy.Slices.Filter.{keep}

-- The response handler on responses that come one after the other, each with the headers of its
-- request.
unfoldable pub record_all : ℕ → Recorder → List (HeaderDefinition × Response) → Option Recorder
record_all fuel r [] = some r
record_all fuel r ((definition, answer) ∷ exchanges) =
    and_then (handle_response fuel r definition (some answer)) λ r'. record_all fuel r' exchanges

-- Specification: the records of all chains of redirects, in the order in which they came.
unfoldable pub recordings : List (HeaderDefinition × Response) → List RecordedRecord
recordings [] = []
recordings ((definition, answer) ∷ exchanges) =
    records_of definition (timeline answer) ++ recordings exchanges

append_records-append :
    (r : Recorder) (xs ys : List RecordedRecord)
    → append_records (append_records r xs) ys ≡ append_records r (xs ++ ys)
unfolding append_records
append_records-append r [] ys = refl
append_records-append r (x ∷ xs) ys = append_records-append (append_record r x) xs ys

pub targets-append_records :
    (r : Recorder) (xs : List RecordedRecord)
    → map (λ p. p.target) ((append_records r xs).records) ≡ map (λ p. p.target) r.records ++ xs
unfolding append_records append_record
targets-append_records r [] = sym (append-nil (map (λ p. p.target) r.records))
targets-append_records r (x ∷ xs) =
    let new : Pointer = record { address = r.next_address; target = x } in
    targets-append_records (append_record r x) xs
    ∙ ap (λ l. l ++ xs) (map-append (λ p. p.target) r.records (new ∷ []))
    ∙ append_assoc (map (λ p. p.target) r.records) (x ∷ []) xs

record_all-recordings :
    (fuel : ℕ) (r : Recorder) (exchanges : List (HeaderDefinition × Response))
    → r.mode ≡ recorder_mode_write
    → All (λ x. length (timeline x.1) < fuel) exchanges
    → record_all fuel r exchanges ≡ some (append_records r (recordings exchanges))
unfolding record_all recordings append_records
record_all-recordings fuel r [] writes enough = refl
record_all-recordings fuel r ((definition, answer) ∷ exchanges) writes (here, enough) =
    let xs = records_of definition (timeline answer) in
    let next =
      record_all-recordings fuel (append_records r xs) exchanges (mode-append_records r xs ∙ writes)
        enough in
    rw (handle_response-append fuel r definition answer writes here)
      (next ∙ ap some (append_records-append r xs (recordings exchanges)))

-- A tape format that writes every list of records and reads back what it wrote.
abbrev pub IsLossless : {Bytes : Type 0} → TapeFormat Bytes → Type 0
IsLossless {Bytes = Bytes} format =
    (xs : List RecordedRecord)
    → (json : Bytes) × (format.marshal xs ≡ ok json)
      × (format.gunzip (format.gzip json) ≡ ok json)
      × (format.unmarshal json ≡ xs)

lossless-IsFaithful :
    {Bytes : Type 0} (format : TapeFormat Bytes) → IsLossless format → IsFaithful format
lossless-IsFaithful format lossless xs json wrote =
    let (json', wrote', unzips, reads) = lossless xs in
    let both : ok json' ≡ ok json = sym wrote' ∙ wrote in
    let same : json' ≡ json = cc in
    (
      subst (λ b. format.gunzip (format.gzip b) ≡ ok b) same unzips,
      subst (λ b. format.unmarshal b ≡ xs) same reads,
    )

cleared-records : (r : Recorder) → (clear r).records ≡ []
unfolding clear
cleared-records r = refl

module _ (new_response : NewResponse) where
  -- Specification: the responses of the records in turn, then the blocked response.
  unfoldable pub replays : List RecordedRecord → List Request → List (Option Response)
  replays xs [] = []
  replays [] (q ∷ qs) = some (new_response q 500 blocked_body) ∷ replays [] qs
  replays (x ∷ xs) (q ∷ qs) = some (archived_response_to_response q x.response) ∷ replays xs qs

  expected-replays :
      (ps : List Pointer) (qs : List Request)
      → expected new_response ps qs ≡ replays (map (λ p. p.target) ps) qs
  unfolding expected replays
  expected-replays [] [] = refl
  expected-replays (p ∷ ps) [] = refl
  expected-replays [] (q ∷ qs) =
      ap (◌∷◌ (some (new_response q 500 blocked_body))) (expected-replays [] qs)
  expected-replays (p ∷ ps) (q ∷ qs) =
      ap (◌∷◌ (some (archived_response_to_response q p.target.response))) (expected-replays ps qs)

module _ {D Bytes : Type 0} (env : Environment D) (format : TapeFormat Bytes) where
  -- The state when the recorder has handled the exchanges.
  abbrev recorded : State D → List (HeaderDefinition × Response) → State D
  recorded s exchanges = record s { recorder = append_records s.recorder (recordings exchanges) }

  written :
      (r : Recorder) (t : String) (json : Bytes)
      → format.marshal (records_to_export r t) ≡ ok json
      → export_data format r t ≡ ok (format.gzip json)
  unfolding export_data
  written r t json e = rw e refl

  cleared-mode :
      (s : State D)
      → (clear (record s.recorder { mode = recorder_mode_write })).mode ≡ recorder_mode_write
  unfolding clear
  cleared-mode s = refl

  cleared-read :
      (s : State D)
      → (clear (record s.recorder { mode = recorder_mode_read })).mode ≡ recorder_mode_read
  unfolding clear
  cleared-read s = refl

  retrieved :
      (s : State D) (t : String) (bytes : Bytes)
      → export_data format s.recorder t ≡ ok bytes
      → tape_retrieve env format s (ok t) ≡ (s, record { status = 200; payload = some bytes })
  unfolding tape_retrieve exported_reply
  retrieved s t bytes e = rw e refl

  loaded-plays :
      (r : Recorder) (bytes json : Bytes) (headers : HeaderDefinition) (u : String)
      (qs : List Request)
      → r.mode ≡ recorder_mode_read
      → format.gunzip bytes ≡ ok json
      → All (λ q. text_of q ≡ u) qs
      → let loaded = (load_data format r bytes).0 in
        answers env.new_response loaded headers qs
        ≡ replays env.new_response (map (λ p. p.target) (playable loaded headers.tape_id u)) qs
  unfolding clear
  loaded-plays r bytes json headers u qs reads unzips same =
      let xs = format.unmarshal json in
      let loaded = append_records (clear r) xs in
      rw (load-read format r bytes json unzips) (
        answers-expected env.new_response loaded headers u qs
          (mode-append_records (clear r) xs ∙ reads)
          (append_records-IsWellFormed (clear r) xs (clear-IsWellFormed r)) same
        ∙ expected-replays env.new_response (playable loaded headers.tape_id u) qs)

  -- A session of the control API: a tape is recorded, the recording stops, the tape is retrieved, and
  -- its file is loaded by this proxy or another. With a format that writes every list of records and
  -- reads back what it wrote, and more fuel than hops in any chain of redirects, the recording and
  -- the retrieval succeed, and then requests for one address on one tape are answered with the
  -- responses that were recorded there, each once and in the order in which they came, redirects
  -- included, and after the last of them with the proxy's own response of status 500. This holds of
  -- the retrieved tape and of the unnamed one, and of every tape if all were retrieved; requests on
  -- other tapes all get the proxy's own response.
  pub record_replay :
      (fuel : ℕ) (s other : State D) (exchanges : List (HeaderDefinition × Response)) (t u : String)
      (headers : HeaderDefinition) (qs : List Request)
      → IsLossless format
      → All (λ x. length (timeline x.1) < fuel) exchanges
      → All (λ q. text_of q ≡ u) qs
      → (r : Recorder) × (bytes : Bytes) × (record_all fuel
            (tape_record env format s).0.recorder
            exchanges
          ≡ some r)
        × ((tape_retrieve env format (tape_stop env format (record s { recorder = r })).0 (ok t)).1
            ≡ record { status = 200; payload = some bytes })
        × (answers env.new_response (tape_load env format other (file bytes)).0.recorder headers qs
            ≡ replays env.new_response
                (if exports t headers.tape_id
                  then keep (on_tape headers.tape_id u) (recordings exchanges)
                  else [])
                qs)
  unfolding tape_record tape_stop tape_load
  record_replay fuel s other exchanges t u headers qs lossless enough same =
      let r0 = clear (record s.recorder { mode = recorder_mode_write }) in
      let r = append_records r0 (recordings exchanges) in
      let stopped = record r { mode = recorder_mode_off } in
      let (json, wrote, unzips, reads) = lossless (records_to_export stopped t) in
      let exported = written stopped t json wrote in
      let cleared = clear (record other.recorder { mode = recorder_mode_read }) in
      let played =
        (export_load format stopped cleared t (format.gzip json)
            (lossless-IsFaithful format lossless) exported).1
          headers.tape_id u in
      (
        r,
        format.gzip json,
        record_all-recordings fuel r0 exchanges (cleared-mode s) enough,
        ap (λ x. x.1) (retrieved (record s { recorder = stopped }) t (format.gzip json) exported),
        loaded-plays cleared (format.gzip json) json headers u qs (cleared-read other) unzips same
            ∙ ap (λ xs. replays env.new_response xs qs)
                (played
                  ∙ ap
                      (λ xs.
                        if exports t headers.tape_id
                        then keep (on_tape headers.tape_id u) xs
                        else [])
                      (targets-append_records r0 (recordings exchanges)
                        ∙ ap (λ ps. map (λ p. p.target) ps ++ recordings exchanges)
                            (cleared-records (record s.recorder { mode = recorder_mode_write })))),
      )
