-- ===== src/Lru/Recency.antt =====
-- The recency list of `LRUCache` (groove/proxy/cache/lru.go): `CacheMetadata`, and the operations
-- of Go's container/list that the cache calls.
use grooveproxy.Base.{
  ℕ, ◌+◌, ◌≡◌, ◌≢◌, List, [], ◌∷◌, Option, none, some, String, ite, ℕ_discrete, string_dec, length,
  All, if◌then◌else◌, Bool, true, false, ltb, ◌-◌, ◌<◌,
}
use grooveproxy.Base.Int64.{ℤ, pos, pos_part}

pub record CacheMetadata : Type 0 where
  pub key : String
  pub size : ℤ

-- `*list.Element`: its identity and its `Value`.
pub record Element : Type 0 where
  pub id : ℕ
  pub value : CacheMetadata
  pub open value use *

-- `int64(len(*value))`
unfoldable pub length_int64 : List ℕ → ℤ
length_int64 value = pos (length value)

-- `Remove(e)`: nothing happens if the element is in no list.
unfoldable pub remove_element : Element → List Element → List Element
remove_element e [] = []
remove_element e (x ∷ xs) = ite (ℕ_discrete x.id e.id) xs (x ∷ remove_element e xs)

unfoldable pub is_element : Element → List Element → Bool
is_element e [] = false
is_element e (x ∷ xs) = ite (ℕ_discrete x.id e.id) true (is_element e xs)

-- `MoveToFront(e)`
unfoldable pub move_to_front : Element → List Element → List Element
move_to_front e l = if is_element e l then e ∷ remove_element e l else l

-- `Back()`
unfoldable pub back : List Element → Option Element
back [] = none
back (x ∷ []) = some x
back (x ∷ y ∷ xs) = back (y ∷ xs)

-- Specification: the first entry of a key, and the list without it.
unfoldable pub find_key : String → List Element → Option Element
find_key k [] = none
find_key k (x ∷ xs) = ite (string_dec x.key k) (some x) (find_key k xs)

unfoldable pub remove_key : String → List Element → List Element
remove_key k [] = []
remove_key k (x ∷ xs) = ite (string_dec x.key k) xs (x ∷ remove_key k xs)

-- Specification: the sum of the sizes, and the longest prefix whose sizes add up to at most `room`.
unfoldable pub weight : List Element → ℕ
weight [] = 0
weight (x ∷ xs) = pos_part x.size + weight xs

unfoldable pub keep_fitting : ℕ → List Element → List Element
keep_fitting room [] = []
keep_fitting room (x ∷ xs) =
    if ltb room (pos_part x.size) then [] else x ∷ keep_fitting (room - pos_part x.size) xs

-- No identity twice, no key twice, every identity below the bound, no negative size.
abbrev pub IsProper : ℕ → List Element → Type 0
IsProper n [] = Unit {0}
IsProper n (x ∷ xs) =
    All (λ y. (x.id ≢ y.id) × (x.key ≢ y.key)) xs
    × (x.id < n)
    × (x.size ≡ pos (pos_part x.size))
    × IsProper n xs
