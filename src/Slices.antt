-- ===== src/Slices.antt =====
-- groove/proxy/utilities.go: the generic slice helpers.
pub mod Reverse
pub mod Filter
use grooveproxy.Base.{
  ℕ, zero, suc, ◌+◌, ◌-◌, Bool, true, false, List, [], ◌∷◌, ◌++◌, Option, none, some, if◌then◌else◌,
  ltb, length, get_elem?, set, ite,
}

module _ {ℓ} {A : Type ℓ} where
  -- `s[left], s[right] = s[right], s[left]`; out of range nothing is written.
  unfoldable pub swap_at : ℕ → ℕ → List A → List A
  swap_at left right s = elim (get_elem? s left) [
    | none ↦ s
    | some x ↦ elim (get_elem? s right) [ none ↦ s | some y ↦ set (set s left y) right x ]
  ]

  -- The loop of `reverseSlice`, with fuel; `none` means that the fuel ran out.
  unfoldable pub reverse_loop : ℕ → ℕ → ℕ → List A → Option (List A)
  reverse_loop zero left right s = none
  reverse_loop (suc fuel) left right s =
      let rest = reverse_loop fuel (left + 1) (right - 1) (swap_at left right s) in
      if ltb left right then rest else some s

  -- `reverseSlice` starts at `right = len(s) - 1`, which is -1 for an empty slice: the loop does not
  -- run then, nor does it from 0.
  unfoldable pub reverse_slice : ℕ → List A → Option (List A)
  reverse_slice fuel s = reverse_loop fuel 0 (length s - 1) s

  -- `filterSlice`: a loop that appends to `filtered`.
  unfoldable pub filter_loop : (A → Bool) → List A → List A → List A
  filter_loop f filtered [] = filtered
  filter_loop f filtered (value ∷ s) =
      filter_loop f (if f value then filtered ++ value ∷ [] else filtered) s

  unfoldable pub filter_slice : List A → (A → Bool) → List A
  filter_slice s f = filter_loop f [] s

  -- `contains`, over any type with Go's `==`.
  unfoldable pub contains : Discrete A → List A → A → Bool
  contains eq [] e = false
  contains eq (v ∷ s) e = ite (eq v e) true (contains eq s e)
