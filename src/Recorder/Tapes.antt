-- ===== src/Recorder/Tapes.antt =====
-- groove/proxy/recorder.go: what recording a pair and clearing a tape do to what is left to play.
use mathlib.Core.List.{append-nil}
use grooveproxy.Base.{
  same_text, ℕ, ◌<◌, ◌≡◌, refl, sym, ◌∙◌, ap, Bool, true, false, not, ◌&&◌, List, [], ◌∷◌, ◌++◌,
  String, ℕ_discrete, ite, map, arith, inl, inr, Bool-cases, All, All-imp, if◌then◌else◌,
}
use grooveproxy.Recorder.Invariant.{IsWellFormed, SameTape}
use grooveproxy.Recorder.Tape.{fits, playable, same_text-≡}
use grooveproxy.Recorder.{
  Recorder, Pointer, RecordedRecord, append_record, clear_tape_id, is_consumed,
}
use grooveproxy.Slices.Filter.{keep, keep-append, filter_slice-keep}
use grooveproxy.Slices.{contains}

not_contained :
    (cs : List Pointer) (n : ℕ)
    → All (λ c. c.address < n) cs
    → contains ℕ_discrete (map (λ c. c.address) cs) n ≡ false
unfolding contains
not_contained [] n o = refl
not_contained (c ∷ cs) n (old, o) =
    elim (ℕ_discrete c.address n)
      as (λ d. ite d true (contains ℕ_discrete (map (λ c. c.address) cs) n) ≡ false) [
        | yes same ↦ absurd (omega (arith, same))
        | no other ↦ not_contained cs n o
      ]

-- A record that `LogPair` appends to a well-formed recorder becomes the last to play of its tape and address, and what is left
-- of the others stays.
pub append_record-playable :
    (r : Recorder) (x : RecordedRecord) (t u : String)
    → IsWellFormed r
    → playable (append_record r x) t u ≡ (
        if same_text x.tape_id t && same_text x.request.url u
        then playable r t u ++ record { address = r.next_address; target = x } ∷ []
        else playable r t u)
unfolding append_record playable fits keep is_consumed
append_record-playable r x t u w =
    let new : Pointer = record { address = r.next_address; target = x } in
    let fresh = not_contained r.consumed_records r.next_address w.consumed_old in
    keep-append (fits r t u) r.records (new ∷ []) ∙ elim (Bool-cases (same_text x.tape_id t)) [
      | inr other_tape ↦ rw other_tape (append-nil (keep (fits r t u) r.records))
      | inl tape ↦ elim (Bool-cases (same_text x.request.url u)) [
        | inr other_url ↦ rw (tape, other_url) (append-nil (keep (fits r t u) r.records))
        | inl url ↦ rw (tape, url, fresh) refl
      ]
    ]

-- The consumed records of another tape stay consumed.
cleared-contains :
    (t : String) (p : Pointer) (cs : List Pointer)
    → All (λ c. c.address ≡ p.address → c.target.tape_id ≡ p.target.tape_id) cs
    → same_text p.target.tape_id t ≡ false
    → contains ℕ_discrete
        (map (λ c. c.address) (keep (λ c. not (same_text c.target.tape_id t)) cs))
        p.address
      ≡ contains ℕ_discrete (map (λ c. c.address) cs) p.address
unfolding contains keep
cleared-contains t p [] h other = refl
cleared-contains t p (c ∷ cs) (here, h) other =
    let later = cleared-contains t p cs h other in
    elim (Bool-cases (same_text c.target.tape_id t)) [
      | inr stays ↦ rw (stays, later) refl
      | inl goes ↦ elim (ℕ_discrete c.address p.address) [
        | yes same ↦ absurd (tests_differ (sym goes ∙ ap (λ s. same_text s t) (here same) ∙ other))
        | no ne ↦ ground (arith, goes, later, ne)
      ]
    ]
  where
    tests_differ : true ≡ false → ⊥
    tests_differ e = cc

abbrev keeps_tape : String → Pointer → Bool
keeps_tape t p = not (same_text p.target.tape_id t)

keep-cleared :
    (r : Recorder) (t u : String) (ps : List Pointer)
    → keep (fits r t u) (keep (keeps_tape t) ps) ≡ []
unfolding keep fits
keep-cleared r t u [] = refl
keep-cleared r t u (p ∷ ps) = elim (Bool-cases (same_text p.target.tape_id t)) [
  | inl goes ↦ rw goes (keep-cleared r t u ps)
  | inr stays ↦ rw (stays, stays) (keep-cleared r t u ps)
]

abbrev without_tape : Recorder → String → Recorder
without_tape r t = record r {
  records = keep (keeps_tape t) r.records;
  consumed_records = keep (keeps_tape t) r.consumed_records;
}

other-false :
    (s t t' : String) → same_text s t ≡ true → same_text t' t ≡ false → same_text s t' ≡ false
unfolding same_text
other-false s t t' h k = ground (arith, h, k)

keep-uncleared :
    (r : Recorder) (t t' u : String) (ps : List Pointer)
    → same_text t' t ≡ false
    → All
        (λ c. All (λ p. c.address ≡ p.address → c.target.tape_id ≡ p.target.tape_id) ps)
        r.consumed_records
    → keep (fits (without_tape r t) t' u) (keep (keeps_tape t) ps) ≡ keep (fits r t' u) ps
unfolding keep fits is_consumed
keep-uncleared r t t' u [] other h = refl
keep-uncleared r t t' u (p ∷ ps) other h =
    let later = keep-uncleared r t t' u ps other (
      All-imp (λ c. All (SameTape c) (p ∷ ps)) (λ c. All (SameTape c) ps) r.consumed_records
        (λ c k. k.1) h) in
    elim (Bool-cases (same_text p.target.tape_id t)) [
      | inl goes ↦ rw (goes, other-false p.target.tape_id t t' goes other) later
      | inr stays ↦
          let same =
            cleared-contains t p r.consumed_records
              (All-imp (λ c. All (SameTape c) (p ∷ ps)) (λ c. SameTape c p) r.consumed_records
                (λ c k. k.0) h)
              stays in
          rw (stays, same, later) refl
    ]

-- On a well-formed recorder `ClearTapeID` leaves nothing to play on that tape, and every other tape as it was.
pub clear_tape_id-playable :
    (r : Recorder) (t t' u : String)
    → IsWellFormed r
    → playable (clear_tape_id r t) t' u ≡ (if same_text t' t then [] else playable r t' u)
unfolding clear_tape_id playable
clear_tape_id-playable r t t' u w =
    rw
      (
        filter_slice-keep r.records (keeps_tape t),
        filter_slice-keep r.consumed_records (keeps_tape t),
      )
      (elim (Bool-cases (same_text t' t)) [
        | inr other ↦ rw other (keep-uncleared r t t' u r.records other w.consumed_tape)
        | inl cleared ↦
            rw (cleared, same_text-≡ t' t cleared) (keep-cleared (without_tape r t) t u r.records)
      ])
