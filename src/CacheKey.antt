-- ===== src/CacheKey.antt =====
-- groove/proxy/cache_key.go: the key of a request in the cache. `base64` is Go's standard encoding.
pub mod Order
pub mod Sorted
use Prim.Native.String.{◌++◌ as text_append, compare}
use Prim.Native.Nat.{Ordering}
use mathlib.Core.List.{reverse}
use grooveproxy.Base.{ℕ, Bool, true, false, List, [], ◌∷◌, ◌++◌, String, if◌then◌else◌}
use grooveproxy.Http.{Request, Url, RequestParts, request_parts}

-- Go's `<` on strings.
unfoldable pub text_ltb : String → String → Bool
text_ltb s t = elim (compare s t) [ Ordering.lt ↦ true | _ ↦ false ]

pub record FlatQuery : Type 0 where
  pub key : String
  pub value : String

-- `Less`, whose second test repeats the first.
unfoldable pub less : FlatQuery → FlatQuery → Bool
less i j =
    if text_ltb i.key j.key
    then true
    else if text_ltb i.key j.key
    then false
    else text_ltb i.value j.value

unfoldable pub add_key_values : List FlatQuery → String → List String → List FlatQuery
add_key_values query_array key [] = query_array
add_key_values query_array key (value ∷ key_values) =
    add_key_values (query_array ++ record { key = key; value = value } ∷ []) key key_values

-- `newQueryArray`, on the query in the order in which the loop meets its keys.
unfoldable pub new_query_array : List FlatQuery → List (String × List String) → List FlatQuery
new_query_array query_array [] = query_array
new_query_array query_array ((key, key_values) ∷ values) =
    new_query_array (add_key_values query_array key key_values) values

-- `sort.Sort` on up to 12 elements is an insertion sort: an element is swapped with the one before it
-- while it is less. The sorted part is kept with its last element first.
unfoldable pub sink : FlatQuery → List FlatQuery → List FlatQuery
sink x [] = x ∷ []
sink x (y ∷ sorted) = let rest = sink x sorted in if less x y then y ∷ rest else x ∷ y ∷ sorted

unfoldable pub insertion_sort : List FlatQuery → List FlatQuery → List FlatQuery
insertion_sort sorted [] = sorted
insertion_sort sorted (x ∷ data_left) = insertion_sort (sink x sorted) data_left

unfoldable pub sort : List FlatQuery → List FlatQuery
sort query_array = reverse (insertion_sort [] query_array)

unfoldable pub append_queries : String → List FlatQuery → String
append_queries str [] = str
append_queries str (query_pair ∷ query_array) =
    append_queries
      (text_append str
        (text_append query_pair.key (text_append "=" (text_append query_pair.value "&"))))
      query_array

unfoldable pub plain_key : Request → String
plain_key q =
    let parts : RequestParts = request_parts q in
    let url_base = text_append parts.url.hostname parts.url.path in
    append_queries (text_append parts.method (text_append "-" (text_append url_base "-")))
      (sort (new_query_array [] parts.url.query))

unfoldable pub get_cache_key : (base64 : String → String) → Request → String
get_cache_key base64 q = base64 (plain_key q)
