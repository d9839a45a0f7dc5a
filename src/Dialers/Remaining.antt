-- ===== src/Dialers/Remaining.antt =====
-- groove/proxy/dialers.go: the candidates that are left after a dialer was chosen.
use grooveproxy.Base.{
  ◌≤◌, ◌<◌, ◌≡◌, ◌≢◌, refl, sym, ◌∙◌, ap, subst, Bool, true, false, not, List, [], ◌∷◌, ◌++◌,
  Option, none, some, String, arith, inl, inr, length, string_dec,
}
use grooveproxy.Dialers.Choice.{Elem}
use grooveproxy.Dialers.Next.{IsCandidate, Chooses, matching_complete}
use grooveproxy.Dialers.{
  DialerDefinition, DialerContext, DialerSession, matching_dialers, candidate_dialers,
}
use grooveproxy.Slices.Filter.{keep, filter_slice-keep}
use grooveproxy.Http.{Request}
use grooveproxy.Slices.{contains, filter_slice}

contains-before :
    (xs : List String) (y z : String)
    → contains string_dec (xs ++ y ∷ []) z ≡ false
    → contains string_dec xs z ≡ false
unfolding contains
contains-before [] y z h = refl
contains-before (x ∷ xs) y z h = ground (arith, h, contains-before xs y z)

contains-last : (xs : List String) (y : String) → contains string_dec (xs ++ y ∷ []) y ≡ true
unfolding contains
contains-last [] y = ground arith
contains-last (x ∷ xs) y = ground (arith, contains-last xs y)

contains-other :
    (xs : List String) (y z : String)
    → contains string_dec xs z ≡ false
    → y ≢ z
    → contains string_dec (xs ++ y ∷ []) z ≡ false
unfolding contains
contains-other [] y z h ne = ground (arith, ne)
contains-other (x ∷ xs) y z h ne = ground (arith, h, contains-other xs y z, ne)

module _ {A : Type 0} (f g : A → Bool) (fewer : (x : A) → g x ≡ true → f x ≡ true) where
  length-keep : (l : List A) → length (keep g l) ≤ length (keep f l)
  unfolding keep
  length-keep [] = omega arith
  length-keep (x ∷ l) = ground (arith, length-keep l, fewer x)

  length-keep-less :
      (l : List A) (x : A)
      → Elem x l
      → f x ≡ true
      → g x ≡ false
      → length (keep g l) < length (keep f l)
  unfolding keep
  length-keep-less [] x e yes_f no_g = elim e [ ]
  length-keep-less (y ∷ l) x (inl same) yes_f no_g = ground (
    arith,
    same,
    length-keep l,
    subst (λ z. f z ≡ true) (sym same) yes_f,
    subst (λ z. g z ≡ false) (sym same) no_g,
  )
  length-keep-less (y ∷ l) x (inr later) yes_f no_g =
      ground (arith, length-keep-less l x later yes_f no_g, fewer y)

module _ (s : DialerSession) (c c' : DialerContext) (d : DialerDefinition)
    (chosen : Chooses s c d c') where
  -- A dialer that was not chosen stays a candidate.
  pub stays :
      (e : DialerDefinition) → IsCandidate s c e → d.identifier ≢ e.identifier → IsCandidate s c' e
  stays e i ne = record {
    known = i.known;
    fresh =
        rw chosen.noted
          (contains-other c.attempted_dial_identifiers d.identifier e.identifier i.fresh ne);
    fits = λ q same. rw chosen.kept.1 (i.fits q (sym chosen.kept.0 ∙ same));
  }

  -- The one that was chosen does not.
  pub candidates-shrink : length (candidate_dialers s c') < length (candidate_dialers s c)
  unfolding candidate_dialers
  candidates-shrink =
      let matching = matching_dialers c.request c.request_type s.dialer_definitions in
      let untried =
        λ (ids : List String) (e : DialerDefinition). not (contains string_dec ids e.identifier) in
      let ids = c.attempted_dial_identifiers in
      rw
        (
          chosen.noted,
          chosen.kept.0,
          chosen.kept.1,
          filter_slice-keep matching (untried ids),
          filter_slice-keep matching (untried (ids ++ d.identifier ∷ [])),
        )
        (length-keep-less (untried ids) (untried (ids ++ d.identifier ∷ []))
          (λ e h. ground (arith, h, contains-before ids d.identifier e.identifier)) matching d
          (matching_complete c.request c.request_type s.dialer_definitions d chosen.candidate.known
            chosen.candidate.fits)
          (ap not chosen.candidate.fresh) (ap not (contains-last ids d.identifier)))

length-keep-le : {A : Type 0} (f : A → Bool) (l : List A) → length (keep f l) ≤ length l
unfolding keep
length-keep-le f [] = omega arith
length-keep-le f (x ∷ l) = ground (arith, length-keep-le f l)

length-filter : {A : Type 0} (l : List A) (f : A → Bool) → length (filter_slice l f) ≤ length l
length-filter l f = rw (filter_slice-keep l f) (length-keep-le f l)

length-matching :
    (o : Option Request) (t : String) (l : List DialerDefinition)
    → length (matching_dialers o t l) ≤ length l
unfolding matching_dialers
length-matching none t l = omega arith
length-matching (some q) t l = length-filter l _

-- The candidates are dialers of the session.
pub candidates-le :
    (s : DialerSession) (c : DialerContext)
    → length (candidate_dialers s c) ≤ length s.dialer_definitions
unfolding candidate_dialers
candidates-le s c =
    let all = length-matching c.request c.request_type s.dialer_definitions in
    let left =
      length-filter (matching_dialers c.request c.request_type s.dialer_definitions)
        (λ d. not (contains string_dec c.attempted_dial_identifiers d.identifier)) in
    omega (arith, all, left)
