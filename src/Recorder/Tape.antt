-- ===== src/Recorder/Tape.antt =====
-- groove/proxy/recorder.go: which records are still to be played.
use mathlib.Core.List.{map-append}
use grooveproxy.Base.{
  same_text, ℕ, ◌+◌, ◌≤◌, ◌≡◌, ◌≢◌, refl, ◌∙◌, ap, Bool, true, false, not, ◌&&◌, ◌||◌, List, [],
  ◌∷◌, ◌++◌, map, Option, none, some, String, ite, ℕ_discrete, arith,
}
use grooveproxy.Recorder.{Recorder, Pointer, is_consumed, find_record}
use grooveproxy.Slices.Filter.{keep}
use grooveproxy.Slices.{contains}

pub same_text-≡ : (s t : String) → same_text s t ≡ true → s ≡ t
unfolding same_text
same_text-≡ s t h = ground (arith, h)

-- A record of the tape for the address that was not played yet.
unfoldable pub fits : Recorder → String → String → Pointer → Bool
fits r tape_id url p =
    same_text p.target.tape_id tape_id
    && (same_text p.target.request.url url && not (is_consumed r p))

-- Specification: what is left to play for a tape and an address, in the order of the recording.
unfoldable pub playable : Recorder → String → String → List Pointer
playable r tape_id url = keep (fits r tape_id url) r.records

-- The addresses of the records ascend.
abbrev pub IsAscending : ℕ → List Pointer → ℕ → Type 0
IsAscending low [] high = low ≤ high
IsAscending low (p ∷ ps) high = (low ≤ p.address) × IsAscending (p.address + 1) ps high

abbrev pub consume : Recorder → Pointer → Recorder
consume r q = record r { consumed_records = r.consumed_records ++ q ∷ [] }

abbrev pub first_of : List Pointer → Option Pointer
first_of [] = none
first_of (p ∷ ps) = some p

pub find_record-first_of :
    (r : Recorder) (ps : List Pointer) (t u : String)
    → find_record r ps t u ≡ first_of (keep (fits r t u) ps)
unfolding find_record keep fits
find_record-first_of r [] t u = refl
find_record-first_of r (p ∷ ps) t u = ground (arith, find_record-first_of r ps t u)

contains-last :
    (xs : List ℕ) (x e : ℕ)
    → contains ℕ_discrete (xs ++ x ∷ []) e
      ≡ (contains ℕ_discrete xs e || ite (ℕ_discrete x e) true false)
unfolding contains
contains-last [] x e = ground arith
contains-last (y ∷ xs) x e = ground (arith, contains-last xs x e)

is_consumed-consume :
    (r : Recorder) (q p : Pointer)
    → is_consumed (consume r q) p
      ≡ (is_consumed r p || ite (ℕ_discrete q.address p.address) true false)
unfolding is_consumed
is_consumed-consume r q p =
    ap (λ xs. contains ℕ_discrete xs p.address)
      (map-append (λ c. c.address) r.consumed_records (q ∷ []))
    ∙ contains-last (map (λ c. c.address) r.consumed_records) q.address p.address

-- Other records stay as playable as they were.
pub fits-other :
    (r : Recorder) (q p : Pointer) (t u : String)
    → q.address ≢ p.address
    → fits (consume r q) t u p ≡ fits r t u p
unfolding fits
fits-other r q p t u other = ground (arith, is_consumed-consume r q p, other)

pub fits-played : (r : Recorder) (q : Pointer) (t u : String) → fits (consume r q) t u q ≡ false
unfolding fits
fits-played r q t u = ground (arith, is_consumed-consume r q q, refl {a = q.address})

pub fits-wanted :
    (r : Recorder) (p : Pointer) (t u : String)
    → fits r t u p ≡ true
    → (p.target.tape_id ≡ t) × (p.target.request.url ≡ u)
unfolding fits
fits-wanted r p t u h =
    ground (arith, h, same_text-≡ p.target.tape_id t, same_text-≡ p.target.request.url u)
