-- ===== src/Recorder/Sessions.antt =====
-- groove/proxy/recorder.go: a tape that is played to its end, and one that is exported and loaded.
use mathlib.Core.List.{map-append, append-nil, append_assoc}
use grooveproxy.Archives.{archived_response_to_response}
use grooveproxy.Base.{
  same_text, ◌≡◌, refl, sym, ◌∙◌, ap, subst, Bool, ◌&&◌, ◌||◌, List, [], ◌∷◌, ◌++◌, map, Option,
  none, some, String, Result, ok, err, ◌>>=◌, if◌then◌else◌, arith, inl, inr, Bool-cases, All,
}
use grooveproxy.Headers.{HeaderDefinition}
use grooveproxy.Http.{Request, Response, Url, request_parts}
use grooveproxy.Recorder.Replay.{List-cases, Plays, find_matching_response-Plays}
use grooveproxy.Recorder.Invariant.{
  IsWellFormed, append_record-IsWellFormed, clear-IsWellFormed, find_matching_response-IsWellFormed,
}
use grooveproxy.Recorder.Tape.{playable, same_text-≡}
use grooveproxy.Recorder.Tapes.{append_record-playable}
use grooveproxy.Recorder.{
  Recorder, Pointer, RecordedRecord, TapeFormat, recorder_mode_read, append_record, append_records,
  clear, records_to_export, export_data, load_data, find_matching_response, NewResponse,
  blocked_body, played_or_blocked, handle_request,
}
use grooveproxy.Slices.Filter.{keep, filter_slice-keep}

abbrev pub text_of : Request → String
text_of q = let url : Url = (request_parts q).url in url.text

pub find-mode :
    (r : Recorder) (q : Request) (headers : HeaderDefinition)
    → (find_matching_response r q headers).0.mode ≡ r.mode
unfolding find_matching_response
find-mode r q headers = ground arith

module _ (new_response : NewResponse) where
  -- The answers of the request handler to requests that come one after the other.
  unfoldable pub answers : Recorder → HeaderDefinition → List Request → List (Option Response)
  answers r headers [] = []
  answers r headers (q ∷ qs) =
      let (r', answer) = handle_request new_response r q headers in answer ∷ answers r' headers qs

  -- Specification: the records in turn, then the blocked response.
  unfoldable pub expected : List Pointer → List Request → List (Option Response)
  expected ps [] = []
  expected [] (q ∷ qs) = some (new_response q 500 blocked_body) ∷ expected [] qs
  expected (p ∷ ps) (q ∷ qs) =
      some (archived_response_to_response q p.target.response) ∷ expected ps qs

  handle_read :
      (r r' : Recorder) (q : Request) (headers : HeaderDefinition) (answer : Option Response)
      → r.mode ≡ recorder_mode_read
      → find_matching_response r q headers ≡ (r', answer)
      → handle_request new_response r q headers ≡ played_or_blocked new_response q (r', answer)
  unfolding handle_request
  handle_read r r' q headers answer read f = ground (arith, read, f)

  -- In read mode, with a well-formed recorder, requests for one address on one tape get the recorded responses that were not
  -- played yet, each once and in the order of the recording, and after the last of them the proxy's
  -- own response of status 500.
  pub answers-expected :
      (r : Recorder) (headers : HeaderDefinition) (u : String) (qs : List Request)
      → r.mode ≡ recorder_mode_read
      → IsWellFormed r
      → All (λ q. text_of q ≡ u) qs
      → answers r headers qs ≡ expected (playable r headers.tape_id u) qs
  unfolding answers expected played_or_blocked
  answers-expected r headers u [] read w same = refl
  answers-expected r headers u (q ∷ qs) read w (here, same) =
      let (r', answer) = find_matching_response r q headers in
      let done : Plays r r' q headers.tape_id u answer =
        subst (λ x. Plays r r' q headers.tape_id x answer) here
          (find_matching_response-Plays r q headers w.ascending) in
      let next =
        answers-expected r' headers u qs (find-mode r q headers ∙ read)
          (find_matching_response-IsWellFormed r q headers w) same in
      elim (List-cases (playable r headers.tape_id u)) [
        | inl none_left ↦
            let (unanswered, unchanged) = done.nothing none_left in
            let handled = handle_read r r' q headers none read (ap (λ a. (r', a)) unanswered) in
            let left = ap (λ x. expected (playable x headers.tape_id u) qs) unchanged in
            rw (none_left, handled)
              (ap (◌∷◌ (some (new_response q 500 blocked_body)))
                (next ∙ left ∙ ap (λ x. expected x qs) none_left))
        | inr (p, rest, some_left) ↦
            let (answered, left) = done.plays p rest some_left in
            let played = archived_response_to_response q p.target.response in
            let handled =
              handle_read r r' q headers (some played) read (ap (λ a. (r', a)) answered) in
            rw (some_left, handled) (ap (◌∷◌ (some played)) (next ∙ ap (λ x. expected x qs) left))
      ]

-- A record of the tape for the address.
unfoldable pub on_tape : String → String → RecordedRecord → Bool
on_tape t u x = same_text x.tape_id t && same_text x.request.url u

pub append_records-playable :
    (r : Recorder) (xs : List RecordedRecord) (t u : String)
    → IsWellFormed r
    → map (λ p. p.target) (playable (append_records r xs) t u)
      ≡ map (λ p. p.target) (playable r t u) ++ keep (on_tape t u) xs
unfolding append_records keep on_tape
append_records-playable r [] t u w = sym (append-nil (map (λ p. p.target) (playable r t u)))
append_records-playable r (x ∷ xs) t u w =
    let later =
      append_records-playable (append_record r x) xs t u (append_record-IsWellFormed r x w) in
    let here = append_record-playable r x t u w in
    elim (Bool-cases (on_tape t u x)) [
      | inr other ↦ later ∙ rw (here, other) refl
      | inl wanted ↦
          let new : Pointer = record { address = r.next_address; target = x } in
          later
          ∙ rw (here, wanted)
              (ap (λ l. l ++ keep (on_tape t u) xs)
                  (map-append (λ p. p.target) (playable r t u) (new ∷ []))
                ∙ append_assoc (map (λ p. p.target) (playable r t u)) (x ∷ [])
                    (keep (on_tape t u) xs))
    ]

-- The tapes that an export of a tape holds.
abbrev pub exports : String → String → Bool
exports exported t = same_text exported "" || (same_text t exported || same_text t "")

keep-exported :
    (exported t u : String) (ps : List Pointer)
    → keep (on_tape t u) (
        map
          (λ p. p.target)
          (keep (λ p. same_text p.target.tape_id exported || same_text p.target.tape_id "") ps))
      ≡ (if same_text t exported || same_text t ""
          then keep (on_tape t u) (map (λ p. p.target) ps)
          else [])
unfolding keep on_tape
keep-exported exported t u [] = ground arith
keep-exported exported t u (p ∷ ps) =
    let later = keep-exported exported t u ps in
    elim (Bool-cases (same_text p.target.tape_id t)) [
      | inr off ↦ ground (arith, off, later)
      | inl on ↦
          let tape = same_text-≡ p.target.tape_id t on in
          let whole = ap (λ s. same_text s exported) tape in
          let blank = ap (λ s. same_text s "") tape in ground (arith, on, later, whole, blank)
    ]

-- What the tape format promises: what it wrote it reads back.
abbrev pub IsFaithful : {Bytes : Type 0} → TapeFormat Bytes → Type 0
IsFaithful {Bytes = Bytes} format =
    (xs : List RecordedRecord) (json : Bytes)
    → format.marshal xs ≡ ok json
    → (format.gunzip (format.gzip json) ≡ ok json) × (format.unmarshal json ≡ xs)

marshalled :
    {Bytes : Type 0} (format : TapeFormat Bytes) (m : Result Bytes) (file : Bytes)
    → (m >>= λ json. ok (format.gzip json)) ≡ ok file
    → (json : Bytes) × (m ≡ ok json) × (format.gzip json ≡ file)
marshalled format (err e) file h = ground (arith, h)
marshalled format (ok json) file h = (json, refl, ground (arith, h))

pub load-read :
    {Bytes : Type 0} (format : TapeFormat Bytes) (r : Recorder) (file json : Bytes)
    → format.gunzip file ≡ ok json
    → load_data format r file ≡ (append_records (clear r) (format.unmarshal json), none)
unfolding load_data
load-read format r file json h = ground (arith, h)

playable-clear : (r : Recorder) (t u : String) → playable (clear r) t u ≡ []
unfolding clear playable keep
playable-clear r t u = refl

keep-records_to_export :
    (r : Recorder) (exported t u : String)
    → keep (on_tape t u) (records_to_export r exported)
      ≡ (if exports exported t then keep (on_tape t u) (map (λ p. p.target) r.records) else [])
unfolding records_to_export
keep-records_to_export r exported t u = elim (Bool-cases (same_text exported "")) [
  | inl every ↦ rw every refl
  | inr one ↦
      rw
        (
          one,
          filter_slice-keep r.records
              (λ p. same_text p.target.tape_id exported || same_text p.target.tape_id ""),
        )
        (keep-exported exported t u r.records)
]

-- With a format that reads back what it wrote, a file that `ExportData` wrote is loaded without error, by any recorder, and then plays on each
-- tape and for each address all that was recorded there, played or not, in its order, if the tape is
-- the exported one or has no name or if all tapes were exported, and nothing on the other tapes.
pub export_load :
    {Bytes : Type 0} (format : TapeFormat Bytes) (r other : Recorder) (exported : String)
    (file : Bytes)
    → IsFaithful format
    → export_data format r exported ≡ ok file
    → let (loaded, error) = load_data format other file in
      (error ≡ none)
      × ((t u : String)
          → map (λ p. p.target) (playable loaded t u) ≡ (
              if exports exported t
              then keep (on_tape t u) (map (λ p. p.target) r.records)
              else []))
unfolding export_data
export_load format r other exported file faithful e =
    let written = records_to_export r exported in
    let (json, wrote, zipped) = marshalled format (format.marshal written) file e in
    let (unzips, reads) = faithful written json wrote in
    let opened = ap format.gunzip (sym zipped) ∙ unzips in
    rw (load-read format other file json opened, reads)
      (
        refl,
        λ t u.
            append_records-playable (clear other) written t u (clear-IsWellFormed other)
            ∙ ap (λ l. map (λ p. p.target) l ++ keep (on_tape t u) written)
                (playable-clear other t u)
            ∙ keep-records_to_export r exported t u,
      )
