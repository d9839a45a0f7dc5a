-- ===== src/Tests/Keys.antt =====
-- groove/proxy/cache_key.go: a query of two pairs, met in both orders.
use mathlib.Core.List.Perm
use grooveproxy.Base.{◌≡◌, refl, sym, Bool, true, false, [], ◌∷◌, some}
use grooveproxy.CacheKey.{FlatQuery, text_ltb, less, get_cache_key}
use grooveproxy.CacheKey.Sorted.{Orders, get_cache_key-same}
use grooveproxy.Http.{Request, Url, request, request_parts, first}
use grooveproxy.Tests.Stored.{page}

abbrev pair_of : Bool → FlatQuery
pair_of true = record { key = "a"; value = "1" }
pair_of false = record { key = "b"; value = "2" }

-- One of the two pairs.
abbrev IsPair : FlatQuery → Type 0
IsPair p = (b : Bool) × (pair_of b ≡ p)

asym_of : (a b : Bool) → less (pair_of a) (pair_of b) ≡ true → less (pair_of b) (pair_of a) ≡ false
unfolding less text_ltb
asym_of true true h = cc
asym_of true false h = refl
asym_of false true h = cc
asym_of false false h = cc

connected_of :
    (a b : Bool)
    → less (pair_of a) (pair_of b) ≡ false
    → less (pair_of b) (pair_of a) ≡ false
    → pair_of a ≡ pair_of b
unfolding less text_ltb
connected_of true true h k = refl
connected_of true false h k = cc
connected_of false true h k = cc
connected_of false false h k = refl

between_of :
    (a b c : Bool)
    → less (pair_of a) (pair_of b) ≡ true
    → less (pair_of c) (pair_of b) ≡ false
    → less (pair_of a) (pair_of c) ≡ true
unfolding less text_ltb
between_of true true c h k = cc
between_of true false true h k = cc
between_of true false false h k = refl
between_of false true c h k = cc
between_of false false c h k = cc

pairs-Orders : Orders IsPair
pairs-Orders = record {
  asym = λ a b (i, ea) (j, eb). rw (sym ea, sym eb) (asym_of i j);
  connected = λ a b (i, ea) (j, eb). rw (sym ea, sym eb) (connected_of i j);
  between = λ a b c (i, ea) (j, eb) (k, ec). rw (sym ea, sym eb, sym ec) (between_of i j k);
}

abbrev one_way : Url
one_way = record page { query = ("a", "1" ∷ []) ∷ ("b", "2" ∷ []) ∷ [] }

abbrev other_way : Url
other_way = record page { query = ("b", "2" ∷ []) ∷ ("a", "1" ∷ []) ∷ [] }

abbrev get : Url → Request
get url = request (record { method = "GET"; url = url; header = []; body = some [] }) first

get_cache_key-same_example :
    get_cache_key (λ s. s) (get one_way) ≡ get_cache_key (λ s. s) (get other_way)
unfolding request_parts
get_cache_key-same_example =
    get_cache_key-same IsPair pairs-Orders (λ s. s) (get one_way) (get other_way) refl refl refl
      ((true, refl), ((false, refl), tt))
      (Perm.swap (record { key = "b"; value = "2" }) (record { key = "a"; value = "1" }) [])
