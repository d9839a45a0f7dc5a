-- ===== src/Lru/Purge.antt =====
-- groove/proxy/cache/lru.go, the loop of `Set` that purges the oldest entries: it ends, and what it
-- keeps is the longest run of fresh entries that leaves room for the new value.
use grooveproxy.Base.{
  ℕ, zero, suc, ◌+◌, ◌-◌, ◌^◌, ◌≤◌, ◌<◌, ◌≡◌, refl, sym, ◌∙◌, List, [], ◌∷◌, ◌++◌, some, if_pos,
  if_neg, string_dec, All, arith, ap, inl, inr, ◌⊎◌, length, ltb, if◌then◌else◌, Bool-cases,
  Option-cases, subst, true, false, length-append, lt→ltb, le→ltb,
}
use grooveproxy.Base.Int64.{ℤ, pos, pos_part, pos-+ℤ}
use grooveproxy.Lru.Callbacks.{Backend}
use grooveproxy.Lru.Entries.{Apart}
use grooveproxy.Lru.Linked.{IsLinked, delete-IsLinked, delete-ordered, delete-max_size}
use grooveproxy.Lru.Recency.{Element, back, remove_key, weight, keep_fitting, IsProper}
use grooveproxy.Lru.{LruCache, delete_with_protection, purge, over_limit}

-- A list is empty, or ends in an element.
pub snoc_cases :
    (l : List Element) → (l ≡ []) ⊎ ((i : List Element) × (x : Element) × (l ≡ i ++ x ∷ []))
snoc_cases [] = inl refl
snoc_cases (x ∷ []) = inr ([], x, refl)
snoc_cases (x ∷ y ∷ l) = elim (snoc_cases (y ∷ l)) [
  | inl e ↦ inr ([], x, ap (◌∷◌ x) e)
  | inr (i, z, e) ↦ inr (x ∷ i, z, ap (◌∷◌ x) e)
]

back-snoc : (i : List Element) (x : Element) → back (i ++ x ∷ []) ≡ some x
unfolding back
back-snoc [] x = refl
back-snoc (y ∷ []) x = refl
back-snoc (y ∷ z ∷ i) x = back-snoc (z ∷ i) x

All-snoc : (P : Element → Type 0) (i : List Element) (x : Element) → All P (i ++ x ∷ []) → P x
All-snoc P [] x h = h.0
All-snoc P (y ∷ i) x h = All-snoc P i x h.1

remove_key-snoc :
    (n : ℕ) (i : List Element) (x : Element)
    → IsProper n (i ++ x ∷ [])
    → remove_key x.key (i ++ x ∷ []) ≡ i
unfolding remove_key
remove_key-snoc n [] x h = if_pos (string_dec x.key x.key) refl [] (x ∷ [])
remove_key-snoc n (y ∷ i) x h =
    rw (if_neg _ (All-snoc (Apart y) i x h.0).1) (ap (◌∷◌ y) (remove_key-snoc n i x h.3))

pub weight-snoc :
    (i : List Element) (x : Element) → weight (i ++ x ∷ []) ≡ weight i + pos_part x.size
unfolding weight
weight-snoc [] x = omega arith
weight-snoc (y ∷ i) x = omega (arith, weight-snoc i x)

keep_all : (room : ℕ) (l : List Element) → weight l ≤ room → keep_fitting room l ≡ l
unfolding weight keep_fitting
keep_all room [] h = refl
keep_all room (x ∷ l) h =
    rw (le→ltb room (pos_part x.size) (omega arith))
      (ap (◌∷◌ x) (keep_all (room - pos_part x.size) l (omega arith)))

keep-snoc :
    (room : ℕ) (i : List Element) (x : Element)
    → room < weight (i ++ x ∷ [])
    → keep_fitting room (i ++ x ∷ []) ≡ keep_fitting room i
unfolding weight keep_fitting
keep-snoc room [] x h = rw (lt→ltb room (pos_part x.size) (omega arith))
keep-snoc room (y ∷ i) x h = elim (Bool-cases (ltb room (pos_part y.size))) [
  | inl big ↦ rw big
  | inr fits ↦ rw fits (ap (◌∷◌ y) (keep-snoc (room - pos_part y.size) i x (ground arith)))
]

-- Specification of the purge for a new value of `n` bytes under the limit `m`.
unfoldable pub kept : ℕ → ℕ → List Element → List Element
kept m n l = if ltb m n then [] else keep_fitting (m - n) l

kept_all : (m n : ℕ) (l : List Element) → weight l + n ≤ m → kept m n l ≡ l
unfolding kept
kept_all m n l h = rw (le→ltb m n (omega arith)) (keep_all (m - n) l (omega arith))

kept_nil : (m n : ℕ) → kept m n [] ≡ []
unfolding kept keep_fitting
kept_nil m n = ground arith

kept-snoc :
    (m n : ℕ) (i : List Element) (x : Element)
    → m < weight (i ++ x ∷ []) + n
    → kept m n (i ++ x ∷ []) ≡ kept m n i
unfolding kept
kept-snoc m n i x h = elim (Bool-cases (ltb m n)) [
  | inl big ↦ rw big
  | inr fits ↦ rw fits (keep-snoc (m - n) i x (ground arith))
]

over_limit_lem :
    {S : Type 0} (c : LruCache S) (m n : ℕ)
    → IsLinked c
    → c.max_size ≡ pos m
    → weight c.ordered_cache_keys + n < 2 ^ 63
    → over_limit c (pos n) ≡ ltb m (weight c.ordered_cache_keys + n)
unfolding over_limit
over_limit_lem c m n v lim small =
    rw (lim, v.counted, pos-+ℤ (weight c.ordered_cache_keys) n small) (ground arith)

module _ {S : Type 0} (b : Backend S) where
  -- What holds before the loop and is kept by each purge of the oldest entry holds after it.
  pub purge_inv {κ} :
      (P : LruCache S → Type κ) (size : ℤ)
      → ((c : LruCache S) (e : Element)
          → back c.ordered_cache_keys ≡ some e
          → P c
          → P (delete_with_protection b c e.key))
      → (fuel : ℕ) (c : LruCache S) {c' : LruCache S} → P c
      → purge b fuel c size ≡ some c'
      → P c'
  unfolding purge
  purge_inv P size keep zero c h e = cc
  purge_inv P size keep (suc fuel) c {c'} h e = elim (Bool-cases (over_limit c size)) [
    | inr fits ↦ let same : c ≡ c' = ground arith in subst P same h
    | inl over ↦ elim (Option-cases (back c.ordered_cache_keys)) [
      | inl empty ↦ let same : c ≡ c' = ground arith in subst P same h
      | inr (oldest, last) ↦
          purge_inv P size keep fuel (delete_with_protection b c oldest.key) (keep c oldest last h)
            (ground arith)
    ]
  ]

  purge_stop :
      (fuel : ℕ) (c : LruCache S) (size : ℤ)
      → over_limit c size ≡ false
      → purge b (suc fuel) c size ≡ some c
  unfolding purge
  purge_stop fuel c size h = ground arith

  purge_empty :
      (fuel : ℕ) (c : LruCache S) (size : ℤ)
      → over_limit c size ≡ true
      → c.ordered_cache_keys ≡ []
      → purge b (suc fuel) c size ≡ some c
  unfolding purge back
  purge_empty fuel c size h e = ground (arith, ap back e)

  pub purge_step :
      (fuel : ℕ) (c : LruCache S) (size : ℤ) (oldest : Element)
      → over_limit c size ≡ true
      → back c.ordered_cache_keys ≡ some oldest
      → purge b (suc fuel) c size ≡ purge b fuel (delete_with_protection b c oldest.key) size
  unfolding purge
  purge_step fuel c size oldest h e = ground arith

  -- What the loop returns for a value of `n` bytes under the limit `m`.
  abbrev pub Purges : ℕ → LruCache S → ℕ → ℕ → List Element → Type 0
  Purges fuel c m n l =
      (c' : LruCache S) × (purge b fuel c (pos n) ≡ some c')
      × IsLinked c'
      × (c'.max_size ≡ pos m)
      × (c'.ordered_cache_keys ≡ kept m n l)

  -- On a linked cache with a limit, with more fuel than entries and sizes below 2 ^ 63, the purge loop
  -- ends: it keeps the entries that the specification keeps for a value of that size, and the cache
  -- stays linked under its limit.
  pub purge_lem :
      (fuel : ℕ) (c : LruCache S) (m n : ℕ) (l : List Element)
      → c.ordered_cache_keys ≡ l
      → IsLinked c
      → c.max_size ≡ pos m
      → weight l + n < 2 ^ 63
      → length l < fuel
      → Purges fuel c m n l
  purge_lem zero c m n l here v lim small f = absurd (omega arith)
  purge_lem (suc fuel) c m n l here v lim small f = elim (Bool-cases (ltb m (weight l + n))) [
    | inr fits ↦ (
      c,
      purge_stop fuel c (pos n) (tested ∙ fits),
      v,
      lim,
      here ∙ sym (kept_all m n l (ground arith)),
    )
    | inl over ↦ elim (snoc_cases l) [
      | inl empty ↦ (
        c,
        purge_empty fuel c (pos n) (tested ∙ over) (here ∙ empty),
        v,
        lim,
        here ∙ empty ∙ sym (ap (kept m n) empty ∙ kept_nil m n),
      )
      | inr (i, x, e) ↦ purged i x e (tested ∙ over) (ground arith) (
          purge_lem fuel (delete_with_protection b c x.key) m n i (shorter i x e)
            (delete-IsLinked b c x.key v) (delete-max_size b c x.key ∙ lim)
            (omega (arith, ap weight e, weight-snoc i x))
            (omega (arith, ap length e, length-append i (x ∷ []))))
    ]
  ]
    where
      tested : over_limit c (pos n) ≡ ltb m (weight l + n)
      tested = over_limit_lem c m n v lim (omega (arith, ap weight here)) ∙ rw here

      shorter :
          (i : List Element) (x : Element)
          → l ≡ i ++ x ∷ []
          → (delete_with_protection b c x.key).ordered_cache_keys ≡ i
      shorter i x e =
          delete-ordered b c x.key v
          ∙ ap (remove_key x.key) (here ∙ e)
          ∙ remove_key-snoc c.next_element i x (subst (IsProper c.next_element) (here ∙ e) v.proper)

      purged :
          (i : List Element) (x : Element)
          → l ≡ i ++ x ∷ []
          → over_limit c (pos n) ≡ true
          → m < weight l + n
          → Purges fuel (delete_with_protection b c x.key) m n i
          → Purges (suc fuel) c m n l
      purged i x e over big (c', ran, linked, limit, keys) = (
        c',
        purge_step fuel c (pos n) x over (ap back (here ∙ e) ∙ back-snoc i x) ∙ ran,
        linked,
        limit,
        keys ∙ sym (ap (kept m n) e ∙ kept-snoc m n i x (omega (arith, ap weight e))),
      )
