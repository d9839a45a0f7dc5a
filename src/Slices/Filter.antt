-- ===== src/Slices/Filter.antt =====
-- groove/proxy/utilities.go: `filterSlice` and `contains` against their plain recursive meaning.
use mathlib.Core.List.{append-nil, append_assoc}
use grooveproxy.Base.{
  ◌≡◌, refl, ◌∙◌, sym, ap, Bool, List, [], ◌∷◌, ◌++◌, if◌then◌else◌, inl, inr, Bool-cases, All,
}
use grooveproxy.Slices.{filter_loop, filter_slice}

module _ {ℓ} {A : Type ℓ} where
  -- The elements that pass a test, in order.
  unfoldable pub keep : (A → Bool) → List A → List A
  keep f [] = []
  keep f (x ∷ xs) = if f x then x ∷ keep f xs else keep f xs

  filter_loop-keep :
      (f : A → Bool) (filtered s : List A) → filter_loop f filtered s ≡ filtered ++ keep f s
  unfolding filter_loop keep
  filter_loop-keep f filtered [] = sym (append-nil filtered)
  filter_loop-keep f filtered (x ∷ s) = elim (Bool-cases (f x)) [
    | inl passes ↦
        rw passes
          (filter_loop-keep f (filtered ++ x ∷ []) s ∙ append_assoc filtered (x ∷ []) (keep f s))
    | inr fails ↦ rw fails (filter_loop-keep f filtered s)
  ]

  pub filter_slice-keep : (s : List A) (f : A → Bool) → filter_slice s f ≡ keep f s
  unfolding filter_slice
  filter_slice-keep s f = filter_loop-keep f [] s

  pub keep-append : (f : A → Bool) (xs ys : List A) → keep f (xs ++ ys) ≡ keep f xs ++ keep f ys
  unfolding keep
  keep-append f [] ys = refl
  keep-append f (x ∷ xs) ys = elim (Bool-cases (f x)) [
    | inl passes ↦ rw passes (ap (◌∷◌ x) (keep-append f xs ys))
    | inr fails ↦ rw fails (keep-append f xs ys)
  ]

  pub All-keep {κ} : (P : A → Type κ) (f : A → Bool) (xs : List A) → All P xs → All P (keep f xs)
  unfolding keep
  All-keep P f [] h = h
  All-keep P f (x ∷ xs) (here, later) = elim (Bool-cases (f x)) [
    | inl passes ↦ rw passes (here, All-keep P f xs later)
    | inr fails ↦ rw fails (All-keep P f xs later)
  ]
