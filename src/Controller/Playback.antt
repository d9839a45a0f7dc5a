-- ===== src/Controller/Playback.antt =====
-- groove/proxy/recorder.go and archives.go: the responses of which a tape plays copies, and what the
-- copies have of them.
use grooveproxy.Archives.Replay.{IsMap, archived_response-replays}
use grooveproxy.Archives.{
  request_to_archived_request, response_to_archived_response, archived_response_to_response,
}
use grooveproxy.Base.{
  same_text, ℕ, ◌≡◌, refl, sym, subst, Bool, true, false, ◌&&◌, List, [], ◌∷◌, ◌++◌, Option, none,
  some, String, is_some, if◌then◌else◌, arith, inl, inr, Bool-cases, Option-cases, All,
}
use grooveproxy.Controller.RecordReplay.{recordings, replays}
use grooveproxy.Headers.{HeaderDefinition}
use grooveproxy.Http.History.{timeline}
use grooveproxy.Http.{
  Request, Response, RequestParts, ResponseParts, request_of, request_parts, response_parts,
  header_values,
}
use grooveproxy.Recorder.Recording.{records_of}
use grooveproxy.Recorder.Sessions.{on_tape}
use grooveproxy.Recorder.{RecordedRecord, NewResponse}
use grooveproxy.Slices.Filter.{keep, keep-append}

-- Specification: a response belongs to a tape and an address by the headers and the address of its
-- request, if the bodies of both can be read.
unfoldable pub heard : String → String → HeaderDefinition → Response → Bool
heard t u definition answer =
    let asked : RequestParts = request_parts (request_of answer) in
    let parts : ResponseParts = response_parts answer in
    is_some asked.body
    && (is_some parts.body && (same_text definition.tape_id t && same_text asked.url.text u))

-- Specification: the responses of a tape for an address, redirects included, in the order in which
-- they came.
unfoldable pub playback : String → String → List (HeaderDefinition × Response) → List Response
playback t u [] = []
playback t u ((definition, answer) ∷ exchanges) =
    keep (heard t u definition) (timeline answer) ++ playback t u exchanges

-- An answer to a request that has the status, the body and every header of a response.
pub record IsReplay (original : Response) (q : Request) (answer : Response) : Type 0 where
  pub status_code : (response_parts answer).status_code ≡ (response_parts original).status_code
  pub body : (response_parts answer).body ≡ (response_parts original).body
  pub header :
      (k : String)
      → header_values (response_parts answer).header k
        ≡ header_values (response_parts original).header k
  pub asked : request_of answer ≡ q

-- Answers to requests: replays of the responses in turn, then the blocked response.
abbrev pub Replayed : NewResponse → List Response → List Request → List (Option Response) → Type 0
Replayed new_response originals [] answers = answers ≡ []
Replayed new_response [] (q ∷ qs) [] = ⊥
Replayed new_response [] (q ∷ qs) (answer ∷ answers) =
    (answer ≡ some (new_response q 500 "Proxy blocked request"))
    × Replayed new_response [] qs answers
Replayed new_response (original ∷ originals) (q ∷ qs) [] = ⊥
Replayed new_response (original ∷ originals) (q ∷ qs) (none ∷ answers) = ⊥
Replayed new_response (original ∷ originals) (q ∷ qs) (some answer ∷ answers) =
    IsReplay original q answer × Replayed new_response originals qs answers

-- Records that are the archived forms of responses with distinct header keys.
abbrev Matches : List RecordedRecord → List Response → Type 0
Matches [] [] = Unit
Matches [] (r ∷ rs) = ⊥
Matches (x ∷ xs) [] = ⊥
Matches (x ∷ xs) (r ∷ rs) =
    (response_to_archived_response r ≡ some x.response)
    × IsMap (response_parts r).header
    × Matches xs rs

Matches-append :
    (xs ys : List RecordedRecord) (rs ss : List Response)
    → Matches xs rs
    → Matches ys ss
    → Matches (xs ++ ys) (rs ++ ss)
Matches-append [] ys [] ss m n = n
Matches-append [] ys (r ∷ rs) ss m n = absurd m
Matches-append (x ∷ xs) ys [] ss m n = absurd m
Matches-append (x ∷ xs) ys (r ∷ rs) ss (archived, distinct, m) n =
    (archived, distinct, Matches-append xs ys rs ss m n)

-- A response that is left out, on both sides.
skipped :
    (t u : String) (definition : HeaderDefinition) (r : Response) (rs : List Response)
    → Matches (keep (on_tape t u) (records_of definition rs)) (keep (heard t u definition) rs)
    → keep (on_tape t u) (records_of definition (r ∷ rs))
      ≡ keep (on_tape t u) (records_of definition rs)
    → heard t u definition r ≡ false
    → Matches
        (keep (on_tape t u) (records_of definition (r ∷ rs)))
        (keep (heard t u definition) (r ∷ rs))
unfolding keep
skipped t u definition r rs later same unheard =
    rw unheard (subst (λ xs. Matches xs (keep (heard t u definition) rs)) (sym same) later)

-- A response that is recorded, on both sides.
taken :
    (t u : String) (definition : HeaderDefinition) (r : Response) (rs : List Response)
    (b c : List ℕ)
    → Matches (keep (on_tape t u) (records_of definition rs)) (keep (heard t u definition) rs)
    → (request_parts (request_of r)).body ≡ some b
    → (response_parts r).body ≡ some c
    → (same_text definition.tape_id t && same_text (request_parts (request_of r)).url.text u) ≡ true
    → IsMap (response_parts r).header
    → Matches
        (keep (on_tape t u) (records_of definition (r ∷ rs)))
        (keep (heard t u definition) (r ∷ rs))
unfolding keep on_tape heard request_to_archived_request response_to_archived_response
taken t u definition r rs b c later read read_too on here =
    let kept = keep (on_tape t u) (records_of definition rs) in
    let x : RecordedRecord = record {
      request = record {
        url = (request_parts (request_of r)).url.text;
        method = (request_parts (request_of r)).method;
        headers = (request_parts (request_of r)).header;
        body = b;
      };
      response = record {
        status = (response_parts r).status_code;
        headers = (response_parts r).header;
        body = c;
      };
      tape_id = definition.tape_id;
    } in
    let first : keep (on_tape t u) (records_of definition (r ∷ rs)) ≡ x ∷ kept =
      ground (arith, read, read_too, on) in
    let also : heard t u definition r ≡ true = ground (arith, read, read_too, on) in
    let archived : response_to_archived_response r ≡ some x.response = ground (arith, read_too) in
    let both : Matches (x ∷ kept) (keep (heard t u definition) (r ∷ rs)) =
      rw also (archived, here, later) in
    subst (λ xs. Matches xs (keep (heard t u definition) (r ∷ rs))) (sym first) both

records_of-Matches :
    (t u : String) (definition : HeaderDefinition) (rs : List Response)
    → All (λ r. IsMap (response_parts r).header) rs
    → Matches (keep (on_tape t u) (records_of definition rs)) (keep (heard t u definition) rs)
unfolding keep on_tape heard request_to_archived_request response_to_archived_response
records_of-Matches t u definition [] m = tt
records_of-Matches t u definition (r ∷ rs) (here, m) =
    let later = records_of-Matches t u definition rs m in
    elim (Option-cases (request_parts (request_of r)).body) [
      | inl unread ↦
          skipped t u definition r rs later (ground (arith, unread)) (ground (arith, unread))
      | inr (b, read) ↦ elim (Option-cases (response_parts r).body) [
        | inl unread ↦
            skipped t u definition r rs later (ground (arith, read, unread))
              (ground (arith, read, unread))
        | inr (c, read_too) ↦
            elim (Bool-cases (
              same_text definition.tape_id t
              && same_text (request_parts (request_of r)).url.text u)) [
                | inl on ↦ taken t u definition r rs b c later read read_too on here
                | inr off ↦
                    skipped t u definition r rs later (ground (arith, read, read_too, off))
                      (ground (arith, read, read_too, off))
              ]
      ]
    ]

recordings-Matches :
    (t u : String) (exchanges : List (HeaderDefinition × Response))
    → All (λ x. All (λ r. IsMap (response_parts r).header) (timeline x.1)) exchanges
    → Matches (keep (on_tape t u) (recordings exchanges)) (playback t u exchanges)
unfolding recordings playback keep
recordings-Matches t u [] m = tt
recordings-Matches t u ((definition, answer) ∷ exchanges) (here, m) =
    rw (keep-append (on_tape t u) (records_of definition (timeline answer)) (recordings exchanges))
      (Matches-append (keep (on_tape t u) (records_of definition (timeline answer)))
        (keep (on_tape t u) (recordings exchanges)) (keep (heard t u definition) (timeline answer))
        (playback t u exchanges) (records_of-Matches t u definition (timeline answer) here)
        (recordings-Matches t u exchanges m))

archived-IsReplay :
    (x : RecordedRecord) (r : Response) (q : Request)
    → response_to_archived_response r ≡ some x.response
    → IsMap (response_parts r).header
    → IsReplay r q (archived_response_to_response q x.response)
archived-IsReplay x r q archived distinct =
    let (status_code, body, header, asked) =
      archived_response-replays r q x.response archived distinct in
    record { status_code = status_code; body = body; header = header; asked = asked }

module _ (new_response : NewResponse) where
  replays-Replayed :
      (xs : List RecordedRecord) (rs : List Response) (qs : List Request)
      → Matches xs rs
      → Replayed new_response rs qs (replays new_response xs qs)
  unfolding replays
  replays-Replayed [] [] [] m = refl
  replays-Replayed [] [] (q ∷ qs) m = (refl, replays-Replayed [] [] qs m)
  replays-Replayed [] (r ∷ rs) qs m = absurd m
  replays-Replayed (x ∷ xs) [] qs m = absurd m
  replays-Replayed (x ∷ xs) (r ∷ rs) [] m = refl
  replays-Replayed (x ∷ xs) (r ∷ rs) (q ∷ qs) (archived, distinct, m) =
      (archived-IsReplay x r q archived distinct, replays-Replayed xs rs qs m)

  -- The records of a tape, or none of them, play replays of the responses that they were made of.
  pub recordings-Replayed :
      (part : Bool) (t u : String) (exchanges : List (HeaderDefinition × Response))
      (qs : List Request)
      → All (λ x. All (λ r. IsMap (response_parts r).header) (timeline x.1)) exchanges
      → Replayed new_response
          (if part then playback t u exchanges else [])
          qs
          (replays new_response (if part then keep (on_tape t u) (recordings exchanges) else []) qs)
  recordings-Replayed true t u exchanges qs m =
      replays-Replayed (keep (on_tape t u) (recordings exchanges)) (playback t u exchanges) qs
        (recordings-Matches t u exchanges m)
  recordings-Replayed false t u exchanges qs m = replays-Replayed [] [] qs tt
