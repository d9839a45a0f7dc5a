-- ===== src/Slices/Reverse.antt =====
-- groove/proxy/utilities.go: `reverseSlice`, which swaps in place from both ends, reverses.
use mathlib.Core.List.{reverse, reverse-append, reverse-cons, append_assoc, append-nil}
use mathlib.Core.Path.{ap₂}
use grooveproxy.Base.{
  ℕ, zero, suc, ◌+◌, ◌-◌, ◌≤◌, ◌<◌, ◌≡◌, refl, sym, ◌∙◌, ap, List, [], ◌∷◌, ◌++◌, some, lt→ltb,
  le→ltb, length, length-append, get_elem?, set, arith, ◌⊎◌, inl, inr,
}
use grooveproxy.Slices.{swap_at, reverse_loop, reverse_slice}

module _ {ℓ} {A : Type ℓ} where
  get_at :
      (pre : List A) (x : A) (rest : List A) → get_elem? (pre ++ x ∷ rest) (length pre) ≡ some x
  get_at [] x rest = refl
  get_at (y ∷ pre) x rest = get_at pre x rest

  set_at :
      (pre : List A) (x y : A) (rest : List A)
      → set (pre ++ x ∷ rest) (length pre) y ≡ pre ++ y ∷ rest
  set_at [] x y rest = refl
  set_at (z ∷ pre) x y rest = ap (◌∷◌ z) (set_at pre x y rest)

  swap_lem :
      (left right : ℕ) (s : List A) (x y : A)
      → get_elem? s left ≡ some x
      → get_elem? s right ≡ some y
      → swap_at left right s ≡ set (set s left y) right x
  unfolding swap_at
  swap_lem left right s x y p q = rw (p, q, swap_at) (ground (arith, p, q))

  -- The index right behind `pre` and `mid`.
  behind :
      (pre mid post : List A) (x y : A)
      → get_elem? (pre ++ x ∷ (mid ++ y ∷ post)) (length pre + suc (length mid)) ≡ some y
  behind pre mid post x y =
      ap₂ get_elem? (sym (append_assoc pre (x ∷ mid) (y ∷ post)))
        (sym (length-append pre (x ∷ mid)))
      ∙ get_at (pre ++ x ∷ mid) y post

  set_behind :
      (pre mid post : List A) (x y z : A)
      → set (pre ++ x ∷ (mid ++ y ∷ post)) (length pre + suc (length mid)) z
        ≡ pre ++ x ∷ (mid ++ z ∷ post)
  set_behind pre mid post x y z =
      ap₂ (λ l i. set l i z) (sym (append_assoc pre (x ∷ mid) (y ∷ post)))
        (sym (length-append pre (x ∷ mid)))
      ∙ set_at (pre ++ x ∷ mid) y z post
      ∙ append_assoc pre (x ∷ mid) (z ∷ post)

  -- Swapping the two ends of the middle part.
  swap_ends :
      (pre mid post : List A) (x y : A)
      → swap_at (length pre) (length pre + suc (length mid)) (pre ++ x ∷ (mid ++ y ∷ post))
        ≡ pre ++ y ∷ (mid ++ x ∷ post)
  swap_ends pre mid post x y =
      swap_lem (length pre) (length pre + suc (length mid)) (pre ++ x ∷ (mid ++ y ∷ post)) x y
        (get_at pre x (mid ++ y ∷ post)) (behind pre mid post x y)
      ∙ ap (λ l. set l (length pre + suc (length mid)) x) (set_at pre x y (mid ++ y ∷ post))
      ∙ set_behind pre mid post y y x

  swapped :
      (left right : ℕ) (pre inner post s : List A) (x y : A)
      → left ≡ length pre
      → right ≡ length pre + suc (length inner)
      → s ≡ pre ++ x ∷ (inner ++ y ∷ post)
      → swap_at left right s ≡ (pre ++ y ∷ []) ++ (inner ++ x ∷ post)
  swapped left right pre inner post s x y l r e =
      rw (l, r, e)
        (swap_ends pre inner post x y ∙ sym (append_assoc pre (y ∷ []) (inner ++ x ∷ post)))

  snoc_cases : (l : List A) → (l ≡ []) ⊎ ((i : List A) × (y : A) × (l ≡ i ++ y ∷ []))
  snoc_cases [] = inl refl
  snoc_cases (x ∷ l) = elim (snoc_cases l) [
    | inl e ↦ inr ([], x, ap (◌∷◌ x) e)
    | inr (i, y, e) ↦ inr (x ∷ i, y, ap (◌∷◌ x) e)
  ]

  stop :
      (fuel left right : ℕ) (s : List A)
      → right ≤ left
      → reverse_loop (suc fuel) left right s ≡ some s
  unfolding reverse_loop
  stop fuel left right s h = rw (le→ltb left right h)

  go_on :
      (fuel left right : ℕ) (s : List A)
      → left < right
      → reverse_loop (suc fuel) left right s
        ≡ reverse_loop fuel (left + 1) (right - 1) (swap_at left right s)
  unfolding reverse_loop
  go_on fuel left right s h = rw (lt→ltb left right h)

  -- Reversing what stands between two ends, and swapping the ends.
  reverse_ends :
      (pre inner post : List A) (x y : A)
      → (pre ++ y ∷ []) ++ (reverse inner ++ x ∷ post)
        ≡ pre ++ (reverse (x ∷ (inner ++ y ∷ [])) ++ post)
  reverse_ends pre inner post x y =
      rw (reverse-cons x (inner ++ y ∷ []), reverse-append inner (y ∷ [])) (simp append_assoc)

  -- The loop between `left` and `right` reverses what stands there, and leaves the rest.
  reverse_between :
      (fuel left right : ℕ) (pre mid post s : List A)
      → length mid < fuel
      → s ≡ pre ++ (mid ++ post)
      → left ≡ length pre
      → right ≡ length pre + length mid - 1
      → reverse_loop fuel left right s ≡ some (pre ++ (reverse mid ++ post))
  reverse_between zero left right pre mid post s f e l r = absurd (omega arith)
  reverse_between (suc fuel) left right pre [] post s f e l r =
      stop fuel left right s (omega arith) ∙ ap some e
  reverse_between (suc fuel) left right pre (x ∷ mid) post s f e l r = elim (snoc_cases mid) [
    | inl one ↦
        stop fuel left right s (omega (arith, ap length one))
        ∙ ap some (e ∙ ap (λ m. pre ++ ((x ∷ m) ++ post)) one)
        ∙ ap (λ m. some (pre ++ (reverse (x ∷ m) ++ post))) (sym one)
    | inr (inner, y, split) ↦
        let many : length mid ≡ length inner + 1 = ap length split ∙ length-append inner (y ∷ []) in
        let ends : s ≡ pre ++ x ∷ (inner ++ y ∷ post) =
          e
          ∙ ap (λ m. pre ++ ((x ∷ m) ++ post)) split
          ∙ ap (λ m. pre ++ x ∷ m) (append_assoc inner (y ∷ []) post) in
        go_on fuel left right s (omega arith)
        ∙ reverse_between fuel (left + 1) (right - 1) (pre ++ y ∷ []) inner (x ∷ post)
            (swap_at left right s) (omega arith)
            (swapped left right pre inner post s x y l (omega arith) ends)
            (omega (arith, length-append pre (y ∷ []))) (omega (arith, length-append pre (y ∷ [])))
        ∙ ap some (reverse_ends pre inner post x y)
        ∙ ap (λ m. some (pre ++ (reverse (x ∷ m) ++ post))) (sym split)
  ]

  -- With more fuel than elements `reverseSlice` returns the reversed slice.
  pub reverse_slice-reverse :
      (fuel : ℕ) (s : List A) → length s < fuel → reverse_slice fuel s ≡ some (reverse s)
  unfolding reverse_slice
  reverse_slice-reverse fuel s h =
      reverse_between fuel 0 (length s - 1) [] s [] s h (sym (append-nil s)) refl (omega arith)
      ∙ ap some (append-nil (reverse s))
