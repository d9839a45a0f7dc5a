-- ===== src/Dialers/Choice.antt =====
-- Lists of candidates of groove/proxy/dialers.go: what filtering keeps, and the highest priority.
use mathlib.Core.Option.{some-injective}
use grooveproxy.Base.{
  ℕ, zero, suc, ◌+◌, ◌≤◌, ◌≡◌, refl, sym, Bool, true, List, [], ◌∷◌, some, arith, ◌⊎◌, inl, inr,
  get_elem?, All, if◌then◌else◌, Bool-cases, subst,
}
use grooveproxy.Base.Int64.{ℤ, pos_part, neg_part, ltb_ℤ}
use grooveproxy.Dialers.{DialerDefinition, max_priority}
use grooveproxy.Slices.Filter.{keep}

module _ {A : Type 0} where
  abbrev pub Elem : A → List A → Type 0
  Elem x [] = ⊥
  Elem x (y ∷ l) = (y ≡ x) ⊎ Elem x l

  pub get_elem?-Elem : (l : List A) (i : ℕ) (x : A) → get_elem? l i ≡ some x → Elem x l
  get_elem?-Elem [] i x e = cc
  get_elem?-Elem (y ∷ l) zero x e = inl (some-injective y x e)
  get_elem?-Elem (y ∷ l) (suc i) x e = inr (get_elem?-Elem l i x e)

  -- What is kept was there, and passed the test.
  pub keep-Elem : (f : A → Bool) (l : List A) (x : A) → Elem x (keep f l) → Elem x l × (f x ≡ true)
  unfolding keep
  keep-Elem f [] x e = elim e [ ]
  keep-Elem f (y ∷ l) x e = elim (Bool-cases (f y)) [
    | inl passes ↦
        kept (subst (λ b. Elem x (if b then y ∷ keep f l else keep f l)) passes e) passes
          (keep-Elem f l x)
    | inr fails ↦
        let (there, test) =
          keep-Elem f l x (subst (λ b. Elem x (if b then y ∷ keep f l else keep f l)) fails e) in
        (inr there, test)
  ]
    where
      kept :
          Elem x (y ∷ keep f l)
          → f y ≡ true
          → (Elem x (keep f l) → Elem x l × (f x ≡ true))
          → Elem x (y ∷ l) × (f x ≡ true)
      kept (inl same) passes ih = (inl same, subst (λ z. f z ≡ true) same passes)
      kept (inr later) passes ih = (inr (ih later).0, (ih later).1)

  -- And what passed the test is kept.
  pub Elem-keep : (f : A → Bool) (l : List A) (x : A) → Elem x l → f x ≡ true → Elem x (keep f l)
  unfolding keep
  Elem-keep f [] x e h = e
  Elem-keep f (y ∷ l) x (inl same) h = rw (same, h) (inl refl)
  Elem-keep f (y ∷ l) x (inr later) h = elim (Bool-cases (f y)) [
    | inl passes ↦ rw passes (inr (Elem-keep f l x later h))
    | inr fails ↦ rw fails (Elem-keep f l x later h)
  ]

pub All-Elem {κ} : {A : Type 0} (P : A → Type κ) (l : List A) (x : A) → All P l → Elem x l → P x
All-Elem P [] x h e = elim e [ ]
All-Elem P (y ∷ l) x h (inl same) = subst P same h.0
All-Elem P (y ∷ l) x h (inr later) = All-Elem P l x h.1 later

infix 50 ◌≤ℤ◌
abbrev pub ◌≤ℤ◌ : ℤ → ℤ → Type 0
a ≤ℤ b = pos_part a + neg_part b ≤ pos_part b + neg_part a

-- The loop returns nothing below its start value.
pub max_priority-start : (best : ℤ) (l : List DialerDefinition) → best ≤ℤ max_priority best l
unfolding max_priority
max_priority-start best [] = omega arith
max_priority-start best (d ∷ l) =
    ground (arith, max_priority-start best l, max_priority-start d.priority l)

-- Nor below a priority that occurs.
pub max_priority-Elem :
    (best : ℤ) (l : List DialerDefinition) (x : DialerDefinition)
    → Elem x l
    → x.priority ≤ℤ max_priority best l
unfolding max_priority
max_priority-Elem best [] x e = elim e [ ]
max_priority-Elem best (d ∷ l) x (inl same) =
    subst (λ y. y.priority ≤ℤ max_priority best (d ∷ l)) same
      (ground (arith, max_priority-start best l, max_priority-start d.priority l))
max_priority-Elem best (d ∷ l) x (inr later) = elim (Bool-cases (ltb_ℤ best d.priority)) [
  | inl up ↦ rw up (max_priority-Elem d.priority l x later)
  | inr down ↦ rw down (max_priority-Elem best l x later)
]

-- It is the start value, or occurs.
pub max_priority-occurs :
    (best : ℤ) (l : List DialerDefinition)
    → (max_priority best l ≡ best)
      ⊎ ((d : DialerDefinition) × Elem d l × (d.priority ≡ max_priority best l))
unfolding max_priority
max_priority-occurs best [] = inl refl
max_priority-occurs best (d ∷ l) = elim (Bool-cases (ltb_ℤ best d.priority)) [
  | inl up ↦ rw up (started (max_priority-occurs d.priority l))
  | inr down ↦ rw down (went_on (max_priority-occurs best l))
]
  where
    started :
        (max_priority d.priority l ≡ d.priority)
          ⊎ ((e : DialerDefinition) × Elem e l × (e.priority ≡ max_priority d.priority l))
        → (max_priority d.priority l ≡ best)
          ⊎ ((e : DialerDefinition) × Elem e (d ∷ l) × (e.priority ≡ max_priority d.priority l))
    started (inl here) = inr (d, inl refl, sym here)
    started (inr (e, there, same)) = inr (e, inr there, same)

    went_on :
        (max_priority best l ≡ best)
          ⊎ ((e : DialerDefinition) × Elem e l × (e.priority ≡ max_priority best l))
        → (max_priority best l ≡ best)
          ⊎ ((e : DialerDefinition) × Elem e (d ∷ l) × (e.priority ≡ max_priority best l))
    went_on (inl here) = inl here
    went_on (inr (e, there, same)) = inr (e, inr there, same)
