-- ===== src/Dialers/Next.antt =====
-- groove/proxy/dialers.go: what `NextDialer` promises.
use mathlib.Core.Option.{some-injective}
use grooveproxy.Base.{
  ℕ, zero, suc, ◌%◌, ◌<◌, ◌≡◌, ◌≢◌, refl, sym, ◌∙◌, subst, Bool, true, false, List, [], ◌∷◌, ◌++◌,
  Option, none, some, String, arith, inl, inr, get_elem?, length, Bool-cases, Option-cases,
  string_dec, ◌↔◌,
}
use grooveproxy.Base.Int64.{ℤ, pos, negsuc, ◌-ℤ◌, leb_ℤ}
use grooveproxy.Dialers.Choice.{
  Elem, get_elem?-Elem, keep-Elem, Elem-keep, ◌≤ℤ◌, max_priority-start, max_priority-Elem,
  max_priority-occurs,
}
use grooveproxy.Dialers.{
  DialerDefinition, DialerContext, DialerSession, meets, matching_dialers, candidate_dialers,
  max_priority, best_dialers, eq_ℤ, use_dialer, next_dialer,
}
use grooveproxy.Http.{Request}
use grooveproxy.Slices.Filter.{filter_slice-keep}
use grooveproxy.Slices.{filter_slice, contains}

-- A dialer that may serve the request of a context: one of the session, not tried before, whose
-- requirements the request meets.
pub record IsCandidate (s : DialerSession) (c : DialerContext) (d : DialerDefinition) : Type 0 where
  pub known : Elem d s.dialer_definitions
  pub fresh : contains string_dec c.attempted_dial_identifiers d.identifier ≡ false
  pub fits : (q : Request) → c.request ≡ some q → meets d.request_requires q c.request_type ≡ true

Elem-filter :
    (l : List DialerDefinition) (f : DialerDefinition → Bool) (d : DialerDefinition)
    → Elem d (filter_slice l f)
    → Elem d l × (f d ≡ true)
Elem-filter l f d e = keep-Elem f l d (subst (Elem d) (filter_slice-keep l f) e)

Elem-filter' :
    (l : List DialerDefinition) (f : DialerDefinition → Bool) (d : DialerDefinition)
    → Elem d l
    → f d ≡ true
    → Elem d (filter_slice l f)
Elem-filter' l f d e h = subst (Elem d) (sym (filter_slice-keep l f)) (Elem-keep f l d e h)

matching_sound :
    (o : Option Request) (t : String) (l : List DialerDefinition) (d : DialerDefinition)
    → Elem d (matching_dialers o t l)
    → Elem d l × ((q : Request) → o ≡ some q → meets d.request_requires q t ≡ true)
unfolding matching_dialers
matching_sound none t l d e = (e, λ q same. cc)
matching_sound (some q') t l d e =
    let (there, test) = Elem-filter l (λ d. meets d.request_requires q' t) d e in
    (
      there,
      λ q same. subst (λ x. meets d.request_requires x t ≡ true) (some-injective q' q same) test,
    )

pub matching_complete :
    (o : Option Request) (t : String) (l : List DialerDefinition) (d : DialerDefinition)
    → Elem d l
    → ((q : Request) → o ≡ some q → meets d.request_requires q t ≡ true)
    → Elem d (matching_dialers o t l)
unfolding matching_dialers
matching_complete none t l d e h = e
matching_complete (some q) t l d e h =
    Elem-filter' l (λ d. meets d.request_requires q t) d e (h q refl)

pub candidate_dialers-IsCandidate :
    (s : DialerSession) (c : DialerContext) (d : DialerDefinition)
    → Elem d (candidate_dialers s c)
    → IsCandidate s c d
unfolding candidate_dialers
candidate_dialers-IsCandidate s c d e =
    let (there, untried) = Elem-filter _ _ d e in
    let (known, fits) = matching_sound c.request c.request_type s.dialer_definitions d there in
    record { known = known; fresh = ground (arith, untried); fits = fits }

pub IsCandidate-candidate_dialers :
    (s : DialerSession) (c : DialerContext) (d : DialerDefinition)
    → IsCandidate s c d
    → Elem d (candidate_dialers s c)
unfolding candidate_dialers
IsCandidate-candidate_dialers s c d h =
    Elem-filter' _ _ d
      (matching_complete c.request c.request_type s.dialer_definitions d h.known h.fits)
      (rw h.fresh)

eq_ℤ→eq : (a b : ℤ) → eq_ℤ a b ≡ true → a ≡ b
eq_ℤ→eq a b h = ground arith

antisym : (a b : ℤ) → a ≤ℤ b → b ≤ℤ a → a ≡ b
antisym a b h k = ground arith

eq_ℤ-refl : (a : ℤ) → eq_ℤ a a ≡ true
eq_ℤ-refl a = ground arith

-- The dialers that share the highest priority, if it is not negative.
best_sound :
    (l : List DialerDefinition) (d : DialerDefinition)
    → Elem d (best_dialers l)
    → Elem d l
      × (pos 0 ≤ℤ d.priority)
      × ((e : DialerDefinition) → Elem e l → e.priority ≤ℤ d.priority)
unfolding best_dialers
best_sound l d e =
    let (there, test) = Elem-filter l _ d e in
    let same : d.priority ≡ max_priority (pos 0) l = eq_ℤ→eq _ _ test in
    (
      there,
      rw same (max_priority-start (pos 0) l),
      λ x known. rw same (max_priority-Elem (pos 0) l x known),
    )

-- There is one unless all priorities are negative.
best_complete :
    (l : List DialerDefinition) (e : DialerDefinition)
    → Elem e l
    → pos 0 ≤ℤ e.priority
    → (d : DialerDefinition) × Elem d (best_dialers l)
unfolding best_dialers
best_complete l e there nonneg = elim (max_priority-occurs (pos 0) l) [
  | inl zero_best ↦
      let same : e.priority ≡ max_priority (pos 0) l =
        antisym _ _ (max_priority-Elem (pos 0) l e there)
          (subst (λ m. m ≤ℤ e.priority) (sym zero_best) nonneg) in
      (e, Elem-filter' l _ e there (rw same (eq_ℤ-refl (max_priority (pos 0) l))))
  | inr (d, known, same) ↦
      (d, Elem-filter' l _ d known (rw same (eq_ℤ-refl (max_priority (pos 0) l))))
]

-- The draw among the best, as `NextDialer` makes it.
abbrev drawn : ℕ → DialerSession → DialerContext → Option DialerDefinition
drawn draw s c =
    let best = best_dialers (candidate_dialers s c) in get_elem? best (draw % length best)

use_dialer-first : (c : DialerContext) (o : Option DialerDefinition) → (use_dialer c o).0 ≡ o
unfolding use_dialer
use_dialer-first c none = refl
use_dialer-first c (some d) = refl

next_dialer-some :
    (draw : ℕ) (s : DialerSession) (c c' : DialerContext) (d : DialerDefinition)
    → next_dialer draw s c ≡ (some d, c')
    → (drawn draw s c ≡ some d)
      × ((use_dialer c (some d)).1 ≡ c')
      × (leb_ℤ c.remaining_tries (pos 0) ≡ false)
unfolding next_dialer use_dialer
next_dialer-some draw s c c' d e = elim (Option-cases (drawn draw s c)) [
  | inl nothing ↦ absurd (ground arith)
  | inr (x, found) ↦ ground arith
]

next_dialer-drawn :
    (draw : ℕ) (s : DialerSession) (c : DialerContext)
    → leb_ℤ c.remaining_tries (pos 0) ≡ false
    → (next_dialer draw s c).0 ≡ drawn draw s c
unfolding next_dialer
next_dialer-drawn draw s c tries = rw tries (use_dialer-first c (drawn draw s c))

in_range : (l : List DialerDefinition) (i : ℕ) → i < length l → get_elem? l i ≢ none
in_range [] i h e = elim h [ ]
in_range (x ∷ l) zero h e = cc
in_range (x ∷ l) (suc i) h e = in_range l i (omega arith) e

-- A draw fails from an empty list only.
drawn_none : (draw : ℕ) (l : List DialerDefinition) → get_elem? l (draw % length l) ≡ none → l ≡ []
drawn_none draw [] e = refl
drawn_none draw (x ∷ l) e = absurd (in_range (x ∷ l) (draw % length (x ∷ l)) (omega arith) e)

-- What `NextDialer` does when it returns a dialer.
pub record Chooses (s : DialerSession) (c : DialerContext) (d : DialerDefinition)
    (c' : DialerContext) : Type 0 where
  pub left : leb_ℤ c.remaining_tries (pos 0) ≡ false
  pub candidate : IsCandidate s c d
  pub nonneg : pos 0 ≤ℤ d.priority
  pub highest : (e : DialerDefinition) → IsCandidate s c e → e.priority ≤ℤ d.priority
  pub spent : c'.remaining_tries ≡ c.remaining_tries -ℤ pos 1
  pub noted : c'.attempted_dial_identifiers ≡ c.attempted_dial_identifiers ++ d.identifier ∷ []
  pub kept : (c'.request ≡ c.request) × (c'.request_type ≡ c.request_type)

-- `NextDialer` returns a dialer only while a try is left, and then it is a candidate, of a priority
-- that is not negative and that no candidate exceeds; the context then has one try less and knows
-- the dialer as tried.
pub next_dialer-Chooses :
    (draw : ℕ) (s : DialerSession) (c c' : DialerContext) (d : DialerDefinition)
    → next_dialer draw s c ≡ (some d, c')
    → Chooses s c d c'
unfolding use_dialer
next_dialer-Chooses draw s c c' d e =
    let (found, after, left) = next_dialer-some draw s c c' d e in
    let (there, nonneg, highest) =
      best_sound (candidate_dialers s c) d (get_elem?-Elem _ _ d found) in
    record {
      left = left;
      candidate = candidate_dialers-IsCandidate s c d there;
      nonneg = nonneg;
      highest = λ x known. highest x (IsCandidate-candidate_dialers s c x known);
      spent = rw (← after);
      noted = rw (← after);
      kept = rw (← after) (refl, refl);
    }

-- With a try left, `NextDialer` returns no dialer exactly if every candidate has a negative priority.
pub next_dialer-none :
    (draw : ℕ) (s : DialerSession) (c : DialerContext)
    → leb_ℤ c.remaining_tries (pos 0) ≡ false
    → ((next_dialer draw s c).0 ≡ none)
      ↔ ((e : DialerDefinition) → IsCandidate s c e → e.priority ≤ℤ negsuc 0)
next_dialer-none draw s c tries = (
  λ nothing e known. elim (Bool-cases (leb_ℤ (pos 0) e.priority)) [
    | inr negative ↦ ground arith
    | inl nonneg ↦
        let empty : best_dialers (candidate_dialers s c) ≡ [] =
          drawn_none draw _ (sym (next_dialer-drawn draw s c tries) ∙ nothing) in
        let (d, there) =
          best_complete (candidate_dialers s c) e (IsCandidate-candidate_dialers s c e known)
            (ground arith) in
        absurd (subst (Elem d) empty there)
  ],
  λ negative. next_dialer-drawn draw s c tries ∙ elim (Option-cases (drawn draw s c)) [
    | inl nothing ↦ nothing
    | inr (d, found) ↦
        let (there, nonneg, _) =
          best_sound (candidate_dialers s c) d (get_elem?-Elem _ _ d found) in
        let low = negative d (candidate_dialers-IsCandidate s c d there) in absurd (omega arith)
  ],
)
