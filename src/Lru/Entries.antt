-- ===== src/Lru/Entries.antt =====
-- The recency list of groove/proxy/cache/lru.go as a map from keys to entries: removing the element
-- that a key points to is removing the key.
use grooveproxy.Base.{
  ℕ, suc, ◌+◌, ◌≤◌, ◌≡◌, ◌≢◌, refl, sym, List, [], ◌∷◌, none, some, String, ite, if_pos, if_neg,
  string_dec, All, arith, true,
}
use grooveproxy.Base.Int64.{pos_part}
use grooveproxy.Lru.Recency.{
  Element, remove_element, is_element, find_key, remove_key, weight, IsProper,
}

-- Apart from an entry in both identity and key.
abbrev pub Apart : Element → Element → Type 0
Apart x y = (x.id ≢ y.id) × (x.key ≢ y.key)

All-remove_key {κ} :
    (P : Element → Type κ) (k : String) (l : List Element) → All P l → All P (remove_key k l)
unfolding remove_key
All-remove_key P k [] h = h
All-remove_key P k (x ∷ xs) h = elim (string_dec x.key k) [
  | yes p ↦ rw (if_pos _ p) h.1
  | no p ↦ rw (if_neg _ p) (h.0, All-remove_key P k xs h.1)
]

pub All-find_key {κ} :
    (P : Element → Type κ) (k : String) (l : List Element) {e : Element}
    → find_key k l ≡ some e
    → All P l
    → P e
unfolding find_key
All-find_key P k [] f h = cc
All-find_key P k (x ∷ xs) {e} f h = elim (string_dec x.key k) [
  | yes p ↦ let here : x ≡ e = ground arith in rw here at h.0
  | no p ↦ All-find_key P k xs (ground arith) h.1
]

pub find_key_key : (k : String) (l : List Element) {e : Element} → find_key k l ≡ some e → e.key ≡ k
unfolding find_key
find_key_key k [] f = cc
find_key_key k (x ∷ xs) {e} f = ground (arith, find_key_key k xs {e = e})

-- No other entry has the key of `x`.
find_key-Apart : (x : Element) (l : List Element) → All (Apart x) l → find_key x.key l ≡ none
unfolding find_key
find_key-Apart x [] h = refl
find_key-Apart x (y ∷ l) h = rw (if_neg _ (λ e. h.0.1 (sym e))) (find_key-Apart x l h.1)

pub remove_key_missing : (k : String) (l : List Element) → find_key k l ≡ none → remove_key k l ≡ l
unfolding find_key remove_key
remove_key_missing k [] h = refl
remove_key_missing k (x ∷ xs) h = ground (arith, remove_key_missing k xs)

-- The entry that a key finds is one element of the list, and the only one of its identity.
pub remove_element-find_key :
    (n : ℕ) (k : String) (l : List Element) {e : Element}
    → find_key k l ≡ some e
    → IsProper n l
    → remove_element e l ≡ remove_key k l
unfolding find_key remove_key remove_element
remove_element-find_key n k [] f h = cc
remove_element-find_key n k (x ∷ xs) {e} f h = elim (string_dec x.key k) [
  | yes p ↦ ground arith
  | no p ↦
      let later : find_key k xs ≡ some e = ground arith in
      let apart : Apart x e = All-find_key (Apart x) k xs later h.0 in
      rw (if_neg _ apart.0, if_neg _ p, remove_element-find_key n k xs later h.3)
]

pub is_element-find_key :
    (k : String) (l : List Element) {e : Element} → find_key k l ≡ some e → is_element e l ≡ true
unfolding find_key is_element
is_element-find_key k [] f = cc
is_element-find_key k (x ∷ xs) {e} f = ground (arith, is_element-find_key k xs {e = e})

pub remove_key-IsProper :
    (n : ℕ) (k : String) (l : List Element) → IsProper n l → IsProper n (remove_key k l)
unfolding remove_key
remove_key-IsProper n k [] h = h
remove_key-IsProper n k (x ∷ xs) h = elim (string_dec x.key k) [
  | yes p ↦ rw (if_pos _ p) h.3
  | no p ↦
      rw (if_neg _ p) (All-remove_key (Apart x) k xs h.0, h.1, h.2, remove_key-IsProper n k xs h.3)
]

-- After the removal of `k` every other key finds what it found.
pub find_key-remove_key :
    (n : ℕ) (k j : String) (l : List Element)
    → IsProper n l
    → find_key j (remove_key k l) ≡ ite (string_dec k j) none (find_key j l)
unfolding find_key remove_key
find_key-remove_key n k j [] h = ground arith
find_key-remove_key n k j (x ∷ xs) h =
    ground (arith, find_key-Apart x xs h.0, find_key-remove_key n k j xs h.3)

pub weight-remove_key :
    (k : String) (l : List Element) {e : Element}
    → find_key k l ≡ some e
    → weight (remove_key k l) + pos_part e.size ≡ weight l
unfolding find_key remove_key weight
weight-remove_key k [] f = cc
weight-remove_key k (x ∷ xs) {e} f = ground (arith, weight-remove_key k xs {e = e})

-- A found entry may be put in front of the others.
pub cons-remove_key-IsProper :
    (n : ℕ) (k : String) (l : List Element) {e : Element}
    → find_key k l ≡ some e
    → IsProper n l
    → IsProper n (e ∷ remove_key k l)
unfolding find_key remove_key
cons-remove_key-IsProper n k [] f h = cc
cons-remove_key-IsProper n k (x ∷ xs) {e} f h = elim (string_dec x.key k) [
  | yes p ↦ let here : x ≡ e = ground arith in rw (if_pos _ p, ← here) h
  | no p ↦
      let later : find_key k xs ≡ some e = ground arith in
      let rest : IsProper n (e ∷ remove_key k xs) = cons-remove_key-IsProper n k xs later h.3 in
      let apart : Apart x e = All-find_key (Apart x) k xs later h.0 in
      rw (if_neg _ p) (
        ((λ q. apart.0 (sym q), λ q. apart.1 (sym q)), rest.0),
        rest.1,
        rest.2,
        (All-remove_key (Apart x) k xs h.0, h.1, h.2, rest.3),
      )
]

pub weight-remove_key-le : (k : String) (l : List Element) → weight (remove_key k l) ≤ weight l
unfolding remove_key weight
weight-remove_key-le k [] = omega arith
weight-remove_key-le k (x ∷ xs) = ground (arith, weight-remove_key-le k xs)

pub IsProper-suc : (n : ℕ) (l : List Element) → IsProper n l → IsProper (suc n) l
IsProper-suc n [] h = tt
IsProper-suc n (x ∷ xs) h = (h.0, omega arith, h.2, IsProper-suc n xs h.3)

-- A new element under a key that is not there is apart from all others.
pub fresh-Apart :
    (n : ℕ) (x : Element) (l : List Element)
    → x.id ≡ n
    → find_key x.key l ≡ none
    → IsProper n l
    → All (Apart x) l
unfolding find_key
fresh-Apart n x [] i f h = tt
fresh-Apart n x (y ∷ l) i f h = elim (string_dec y.key x.key) [
  | yes p ↦ absurd (ground arith)
  | no p ↦ ((omega arith, λ e. p (sym e)), fresh-Apart n x l i (ground arith) h.3)
]
