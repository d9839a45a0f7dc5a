-- ===== src/Recorder/Invariant.antt =====
-- groove/proxy/recorder.go: what every operation keeps of a recorder's records.
use grooveproxy.Base.{
  same_text, ℕ, ◌+◌, ◌≤◌, ◌<◌, ◌≡◌, refl, sym, ◌∙◌, ap, subst, Bool, not, List, [], ◌∷◌, ◌++◌, some,
  String, arith, ◌⊎◌, inl, inr, Bool-cases, Option-cases, All, All-imp, All-append,
}
use grooveproxy.Archives.{request_to_archived_request, response_to_archived_response}
use grooveproxy.Headers.{HeaderDefinition}
use grooveproxy.Http.{Request, Response, Url, request_parts}
use grooveproxy.Recorder.Tape.{IsAscending, fits, first_of, find_record-first_of}
use grooveproxy.Recorder.Replay.{low-address, List-cases, found, not_found}
use grooveproxy.Recorder.{
  Recorder, Pointer, RecordedRecord, append_record, append_records, log_pair, clear, clear_tape_id,
  find_matching_response,
}
use grooveproxy.Slices.Filter.{keep, filter_slice-keep, All-keep}

weaken :
    (low low' high : ℕ) (ps : List Pointer)
    → low' ≤ low
    → IsAscending low ps high
    → IsAscending low' ps high
weaken low low' high [] le a = omega arith
weaken low low' high (p ∷ ps) le (here, a) = (omega arith, a)

IsAscending-keep :
    (f : Pointer → Bool) (low high : ℕ) (ps : List Pointer)
    → IsAscending low ps high
    → IsAscending low (keep f ps) high
unfolding keep
IsAscending-keep f low high [] a = a
IsAscending-keep f low high (p ∷ ps) (here, a) =
    let later = IsAscending-keep f (p.address + 1) high ps a in
    elim (Bool-cases (f p)) [
      | inl passes ↦ rw passes (here, later)
      | inr fails ↦ rw fails (weaken (p.address + 1) low high (keep f ps) (omega arith) later)
    ]

IsAscending-last :
    (x : RecordedRecord) (low high : ℕ) (ps : List Pointer)
    → IsAscending low ps high
    → IsAscending low (ps ++ record { address = high; target = x } ∷ []) (high + 1)
IsAscending-last x low high [] a = (a, omega arith)
IsAscending-last x low high (p ∷ ps) (here, a) =
    (here, IsAscending-last x (p.address + 1) high ps a)

-- A pointer that was consumed and a record of the same address have one tape.
abbrev pub SameTape : Pointer → Pointer → Type 0
SameTape c p = c.address ≡ p.address → c.target.tape_id ≡ p.target.tape_id

pub record IsWellFormed (r : Recorder) : Type 0 where
  pub ascending : IsAscending 0 r.records r.next_address
  pub consumed_old : All (λ c. c.address < r.next_address) r.consumed_records
  pub consumed_tape : All (λ c. All (SameTape c) r.records) r.consumed_records

pub append_record-IsWellFormed :
    (r : Recorder) (x : RecordedRecord) → IsWellFormed r → IsWellFormed (append_record r x)
unfolding append_record
append_record-IsWellFormed r x w = record {
  ascending = IsAscending-last x 0 r.next_address r.records w.ascending;
  consumed_old =
      All-imp (λ c. c.address < r.next_address) (λ c. c.address < r.next_address + 1)
        r.consumed_records (λ c h. omega arith) w.consumed_old;
  consumed_tape = extend r.consumed_records w.consumed_old w.consumed_tape;
}
  where
    new : Pointer
    new = record { address = r.next_address; target = x }

    extend :
        (cs : List Pointer)
        → All (λ c. c.address < r.next_address) cs
        → All (λ c. All (SameTape c) r.records) cs
        → All (λ c. All (SameTape c) (r.records ++ new ∷ [])) cs
    extend [] o t = t
    extend (c ∷ cs) (old, o) (tape, t) = (
      All-append (SameTape c) r.records (new ∷ []) tape ((λ e. absurd (omega (arith, e))), tt),
      extend cs o t,
    )

pub append_records-IsWellFormed :
    (r : Recorder) (xs : List RecordedRecord) → IsWellFormed r → IsWellFormed (append_records r xs)
unfolding append_records
append_records-IsWellFormed r [] w = w
append_records-IsWellFormed r (x ∷ xs) w =
    append_records-IsWellFormed (append_record r x) xs (append_record-IsWellFormed r x w)

pub clear-IsWellFormed : (r : Recorder) → IsWellFormed (clear r)
unfolding clear
clear-IsWellFormed r = record { ascending = omega arith; consumed_old = tt; consumed_tape = tt }

-- `LogPair` leaves the recorder as it is or appends one record: the two archived sides, on the tape
-- of the request.
pub log_pair-appends :
    (r : Recorder) (q : Request) (headers : HeaderDefinition) (answer : Response)
    → (log_pair r q headers answer ≡ r)
      ⊎ ((x : RecordedRecord) × (log_pair r q headers answer ≡ append_record r x)
          × (request_to_archived_request q ≡ some x.request)
          × (response_to_archived_response answer ≡ some x.response)
          × (x.tape_id ≡ headers.tape_id))
unfolding log_pair
log_pair-appends r q headers answer = elim (Option-cases (request_to_archived_request q)) [
  | inl unread ↦ inl (ground (arith, unread))
  | inr (aq, read) ↦ elim (Option-cases (response_to_archived_response answer)) [
    | inl unread ↦ inl (ground (arith, read, unread))
    | inr (ar, read_too) ↦
        let x : RecordedRecord = record {
          request = aq;
          response = ar;
          tape_id = headers.tape_id;
        } in
        inr (x, ground (arith, read, read_too), read, read_too, refl)
  ]
]

pub log_pair-IsWellFormed :
    (r : Recorder) (q : Request) (headers : HeaderDefinition) (answer : Response)
    → IsWellFormed r
    → IsWellFormed (log_pair r q headers answer)
log_pair-IsWellFormed r q headers answer w = elim (log_pair-appends r q headers answer) [
  | inl same ↦ subst IsWellFormed (sym same) w
  | inr (x, more, rec, ans, tape) ↦ subst IsWellFormed (sym more) (append_record-IsWellFormed r x w)
]

pub clear_tape_id-IsWellFormed :
    (r : Recorder) (t : String) → IsWellFormed r → IsWellFormed (clear_tape_id r t)
unfolding clear_tape_id
clear_tape_id-IsWellFormed r t w =
    let f : Pointer → Bool = λ p. not (same_text p.target.tape_id t) in
    rw (filter_slice-keep r.records f, filter_slice-keep r.consumed_records f)
      (record {
        ascending = IsAscending-keep f 0 r.next_address r.records w.ascending;
        consumed_old =
            All-keep (λ c. c.address < r.next_address) f r.consumed_records w.consumed_old;
        consumed_tape =
            All-keep (λ c. All (SameTape c) (keep f r.records)) f r.consumed_records
              (All-imp (λ c. All (SameTape c) r.records) (λ c. All (SameTape c) (keep f r.records))
                r.consumed_records (λ c h. All-keep (SameTape c) f r.records h) w.consumed_tape);
      })

ascending-bounds : (low high : ℕ) (ps : List Pointer) → IsAscending low ps high → low ≤ high
ascending-bounds low high [] a = a
ascending-bounds low high (p ∷ ps) (here, a) =
    let later = ascending-bounds (p.address + 1) high ps a in omega arith

behind-SameTape :
    (q : Pointer) (low high : ℕ) (ps : List Pointer)
    → q.address < low
    → IsAscending low ps high
    → All (SameTape q) ps
behind-SameTape q low high [] lt a = tt
behind-SameTape q low high (p ∷ ps) lt (here, a) =
    ((λ e. absurd (omega (arith, e))), behind-SameTape q (p.address + 1) high ps (omega arith) a)

-- A record that is found stands among the records.
kept-place :
    (f : Pointer → Bool) (q : Pointer) (rest ps : List Pointer) (low high : ℕ)
    → keep f ps ≡ q ∷ rest
    → IsAscending low ps high
    → (q.address < high) × All (SameTape q) ps
unfolding keep
kept-place f q rest [] low high e a = ground (arith, e)
kept-place f q rest (p ∷ ps) low high e (here, a) = elim (Bool-cases (f p)) [
  | inl passes ↦
      let same : p ≡ q = ground (arith, e, passes) in
      let bound = ascending-bounds (p.address + 1) high ps a in
      subst (λ x. (x.address < high) × All (SameTape x) (p ∷ ps)) same
        (omega arith, ((λ e. refl), behind-SameTape p (p.address + 1) high ps (omega arith) a))
  | inr fails ↦
      let later : keep f ps ≡ q ∷ rest = ground (arith, e, fails) in
      let (bound, tapes) = kept-place f q rest ps (p.address + 1) high later a in
      let above = low-address f q rest ps (p.address + 1) high later a in
      (bound, ((λ e. absurd (omega (arith, e))), tapes))
]

pub find_matching_response-IsWellFormed :
    (r : Recorder) (q : Request) (headers : HeaderDefinition)
    → IsWellFormed r
    → IsWellFormed ((find_matching_response r q headers).0)
find_matching_response-IsWellFormed r q headers w =
    let url : Url = (request_parts q).url in
    let t = headers.tape_id in
    let first = find_record-first_of r r.records t url.text in
    elim (List-cases (keep (fits r t url.text) r.records)) [
      | inl none_left ↦
          subst (λ x. IsWellFormed x.0)
            (sym (not_found r q headers url.text refl (first ∙ ap first_of none_left))) w
      | inr (p, rest, some_left) ↦
          let (bound, tapes) =
            kept-place (fits r t url.text) p rest r.records 0 r.next_address some_left
              w.ascending in
          subst (λ x. IsWellFormed x.0) (sym (found r q headers p (first ∙ ap first_of some_left)))
            (record {
              ascending = w.ascending;
              consumed_old =
                  All-append (λ c. c.address < r.next_address) r.consumed_records (p ∷ [])
                    w.consumed_old (bound, tt);
              consumed_tape =
                  All-append (λ c. All (SameTape c) r.records) r.consumed_records (p ∷ [])
                    w.consumed_tape (tapes, tt);
            })
    ]
