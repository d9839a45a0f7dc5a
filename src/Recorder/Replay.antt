-- ===== src/Recorder/Replay.antt =====
-- groove/proxy/recorder.go: `FindMatchingResponse` plays each record once, in order.
use grooveproxy.Archives.{archived_response_to_response}
use grooveproxy.Base.{
  ℕ, ◌+◌, ◌≤◌, ◌<◌, ◌≡◌, refl, sym, ◌∙◌, ap, subst, Bool, true, false, List, [], ◌∷◌, Option, none,
  some, String, arith, ◌⊎◌, inl, inr, Bool-cases,
}
use grooveproxy.Headers.{HeaderDefinition}
use grooveproxy.Http.{Request, Response, Url, request_parts}
use grooveproxy.Recorder.Tape.{
  fits, playable, IsAscending, consume, first_of, find_record-first_of, fits-other, fits-played,
  fits-wanted,
}
use grooveproxy.Recorder.{Recorder, Pointer, find_record, find_matching_response}
use grooveproxy.Slices.Filter.{keep}

pub low-address :
    (f : Pointer → Bool) (q : Pointer) (rest ps : List Pointer) (low high : ℕ)
    → keep f ps ≡ q ∷ rest
    → IsAscending low ps high
    → low ≤ q.address
unfolding keep
low-address f q rest [] low high e a = ground (arith, e)
low-address f q rest (p ∷ ps) low high e (le, a) = elim (Bool-cases (f p)) [
  | inl passes ↦
      let same : p ≡ q = ground (arith, e, passes) in subst (λ x. low ≤ x.address) same le
  | inr fails ↦
      let later = low-address f q rest ps (p.address + 1) high (ground (arith, e, fails)) a in
      omega arith
]

-- Behind its address a record is not met again.
keep-behind :
    (r : Recorder) (q : Pointer) (t u : String) (ps : List Pointer) (low high : ℕ)
    → q.address < low
    → IsAscending low ps high
    → keep (fits (consume r q) t u) ps ≡ keep (fits r t u) ps
unfolding keep
keep-behind r q t u [] low high lt a = refl
keep-behind r q t u (p ∷ ps) low high lt (le, a) = ground (
  arith,
  fits-other r q p t u (λ e. absurd (omega (arith, e))),
  keep-behind r q t u ps (p.address + 1) high (omega arith) a,
)

keep-consume :
    (r : Recorder) (q : Pointer) (t u : String) (rest ps : List Pointer) (low high : ℕ)
    → keep (fits r t u) ps ≡ q ∷ rest
    → IsAscending low ps high
    → keep (fits (consume r q) t u) ps ≡ rest
unfolding keep
keep-consume r q t u rest [] low high e a = ground (arith, e)
keep-consume r q t u rest (p ∷ ps) low high e (le, a) = elim (Bool-cases (fits r t u p)) [
  | inl passes ↦
      let same : p ≡ q = ground (arith, e, passes) in
      let behind : keep (fits r t u) ps ≡ rest = ground (arith, e, passes) in
      let played : fits (consume r q) t u p ≡ false =
        subst (λ x. fits (consume r q) t u x ≡ false) (sym same) (fits-played r q t u) in
      rw played (
        keep-behind r q t u ps (p.address + 1) high (omega (arith, ap (λ x. x.address) same)) a
        ∙ behind)
  | inr fails ↦
      let later : keep (fits r t u) ps ≡ q ∷ rest = ground (arith, e, fails) in
      let above = low-address (fits r t u) q rest ps (p.address + 1) high later a in
      let still = fits-other r q p t u (λ k. absurd (omega (arith, k))) ∙ fails in
      rw still (keep-consume r q t u rest ps (p.address + 1) high later a)
]

found-fits :
    (f : Pointer → Bool) (q : Pointer) (rest ps : List Pointer) → keep f ps ≡ q ∷ rest → f q ≡ true
unfolding keep
found-fits f q rest [] e = ground (arith, e)
found-fits f q rest (p ∷ ps) e = elim (Bool-cases (f p)) [
  | inl passes ↦ let same : p ≡ q = ground (arith, e, passes) in subst (λ x. f x ≡ true) same passes
  | inr fails ↦ found-fits f q rest ps (ground (arith, e, fails))
]

-- Another tape or another address has the same to play as before.
keep-others :
    (r : Recorder) (q : Pointer) (t u t' u' : String) (rest ps : List Pointer) (low high : ℕ)
    → keep (fits r t u) ps ≡ q ∷ rest
    → IsAscending low ps high
    → ¬ ((t' ≡ t) × (u' ≡ u))
    → keep (fits (consume r q) t' u') ps ≡ keep (fits r t' u') ps
unfolding keep
keep-others r q t u t' u' rest [] low high e a ne = refl
keep-others r q t u t' u' rest (p ∷ ps) low high e (le, a) ne = elim (Bool-cases (fits r t u p)) [
  | inl passes ↦
      let same : p ≡ q = ground (arith, e, passes) in
      let behind =
        keep-behind r q t' u' ps (p.address + 1) high (omega (arith, ap (λ x. x.address) same)) a in
      let unwanted : fits r t' u' p ≡ false = elim (Bool-cases (fits r t' u' p)) [
        | inr no_fit ↦ no_fit
        | inl wanted ↦
            let this = fits-wanted r p t u passes in
            let that = fits-wanted r p t' u' wanted in
            absurd (ne (sym that.0 ∙ this.0, sym that.1 ∙ this.1))
      ] in
      let played : fits (consume r q) t' u' p ≡ false =
        subst (λ x. fits (consume r q) t' u' x ≡ false) (sym same) (fits-played r q t' u') in
      rw (played, unwanted) behind
  | inr fails ↦
      let later : keep (fits r t u) ps ≡ q ∷ rest = ground (arith, e, fails) in
      let above = low-address (fits r t u) q rest ps (p.address + 1) high later a in
      let still = fits-other r q p t' u' (λ k. absurd (omega (arith, k))) in
      let rest_same = keep-others r q t u t' u' rest ps (p.address + 1) high later a ne in
      ground (arith, still, rest_same)
]

-- What `FindMatchingResponse` promises of a request, on the recorder before and after.
pub record Plays (r r' : Recorder) (q : Request) (t u : String) (answer : Option Response)
    : Type 0 where
  -- nothing is left: no answer, and no change
  pub nothing : playable r t u ≡ [] → (answer ≡ none) × (r' ≡ r)
  -- else the first record left is the answer, and only it is taken off
  pub plays :
      (p : Pointer) (rest : List Pointer)
      → playable r t u ≡ p ∷ rest
      → (answer ≡ some (archived_response_to_response q p.target.response))
        × (playable r' t u ≡ rest)
  -- every other tape and address has the same to play
  pub others : (t' u' : String) → ¬ ((t' ≡ t) × (u' ≡ u)) → playable r' t' u' ≡ playable r t' u'

pub not_found :
    (r : Recorder) (q : Request) (headers : HeaderDefinition) (url : String)
    → (request_parts q).url.text ≡ url
    → find_record r r.records headers.tape_id url ≡ none
    → find_matching_response r q headers ≡ (r, none)
unfolding find_matching_response
not_found r q headers url e f = ground (arith, e, f)

pub found :
    (r : Recorder) (q : Request) (headers : HeaderDefinition) (p : Pointer)
    → find_record r r.records headers.tape_id ((request_parts q).url.text) ≡ some p
    → find_matching_response r q headers
      ≡ (consume r p, some (archived_response_to_response q p.target.response))
unfolding find_matching_response
found r q headers p f = ground (arith, f)

pub List-cases :
    (ps : List Pointer) → (ps ≡ []) ⊎ ((p : Pointer) × (rest : List Pointer) × (ps ≡ p ∷ rest))
List-cases [] = inl refl
List-cases (p ∷ ps) = inr (p, ps, refl)

-- On records with ascending addresses, `FindMatchingResponse` answers with the first record of the
-- request's tape and address that was not played yet, and takes exactly this one off what is left to
-- play; where nothing is left it answers nothing and changes nothing.
pub find_matching_response-Plays :
    (r : Recorder) (q : Request) (headers : HeaderDefinition)
    → IsAscending 0 r.records r.next_address
    → let (r', answer) = find_matching_response r q headers in
      let url : Url = (request_parts q).url in Plays r r' q headers.tape_id url.text answer
unfolding playable
find_matching_response-Plays r q headers a =
    let url : Url = (request_parts q).url in
    let t = headers.tape_id in
    let u = url.text in
    let left = playable r t u in
    elim (List-cases left) [
      | inl none_left ↦
          let missing = find_record-first_of r r.records t u ∙ ap first_of none_left in
          rw (not_found r q headers u refl missing) (record {
            nothing = λ e. (refl, refl);
            plays = λ p rest e. ground (arith, e, none_left);
            others = λ t' u' ne. refl;
          })
      | inr (p, rest, some_left) ↦
          let chosen = find_record-first_of r r.records t u ∙ ap first_of some_left in
          rw (found r q headers p chosen) (record {
            nothing = λ e. ground (arith, e, some_left);
            plays = λ p' rest' e.
                let both : p ∷ rest ≡ p' ∷ rest' = sym some_left ∙ e in
                let same_first : p ≡ p' = cc in
                let same_rest : rest ≡ rest' = cc in
                (
                  ap (λ x. some (archived_response_to_response q x.target.response)) same_first,
                  keep-consume r p t u rest r.records 0 r.next_address some_left a ∙ same_rest,
                );
            others = λ t' u' ne.
                keep-others r p t u t' u' rest r.records 0 r.next_address some_left a ne;
          })
    ]
