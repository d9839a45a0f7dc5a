-- ===== src/CacheKey/Order.antt =====
-- groove/proxy/cache_key.go: what sorting the query does to it.
use mathlib.Core.List.{Perm, reverse_perm, append_assoc, append-nil, perm_middle}
use mathlib.Core.List.Perm
use grooveproxy.Base.{
  ◌≡◌, refl, sym, ◌∙◌, ap, subst, true, List, [], ◌∷◌, ◌++◌, String, arith, inl, inr, Bool-cases,
}
use grooveproxy.CacheKey.{
  FlatQuery, text_ltb, less, add_key_values, new_query_array, sink, insertion_sort, sort,
}

-- Specification: the pairs of a query.
abbrev pub pairs : String → List String → List FlatQuery
pairs key [] = []
pairs key (value ∷ values) = record { key = key; value = value } ∷ pairs key values

abbrev pub flatten : List (String × List String) → List FlatQuery
flatten [] = []
flatten ((key, values) ∷ rest) = pairs key values ++ flatten rest

add_key_values-pairs :
    (acc : List FlatQuery) (key : String) (values : List String)
    → add_key_values acc key values ≡ acc ++ pairs key values
unfolding add_key_values
add_key_values-pairs acc key [] = sym (append-nil acc)
add_key_values-pairs acc key (value ∷ values) =
    let x : FlatQuery = record { key = key; value = value } in
    add_key_values-pairs (acc ++ x ∷ []) key values ∙ append_assoc acc (x ∷ []) (pairs key values)

pub new_query_array-flatten :
    (acc : List FlatQuery) (q : List (String × List String))
    → new_query_array acc q ≡ acc ++ flatten q
unfolding new_query_array
new_query_array-flatten acc [] = sym (append-nil acc)
new_query_array-flatten acc ((key, values) ∷ rest) =
    ap (λ x. new_query_array x rest) (add_key_values-pairs acc key values)
    ∙ new_query_array-flatten (acc ++ pairs key values) rest
    ∙ append_assoc acc (pairs key values) (flatten rest)

sink-Perm : (x : FlatQuery) (l : List FlatQuery) → Perm (sink x l) (x ∷ l)
unfolding sink
sink-Perm x [] = Perm.refl (x ∷ [])
sink-Perm x (y ∷ l) = elim (Bool-cases (less x y)) [
  | inr stays ↦ rw stays (Perm.refl (x ∷ y ∷ l))
  | inl sinks ↦ rw sinks (Perm.trans (Perm.cons y (sink-Perm x l)) (Perm.swap x y l))
]

insertion_sort-Perm : (acc l : List FlatQuery) → Perm (insertion_sort acc l) (acc ++ l)
unfolding insertion_sort
insertion_sort-Perm acc [] = subst (Perm acc) (sym (append-nil acc)) (Perm.refl acc)
insertion_sort-Perm acc (x ∷ l) =
    Perm.trans (insertion_sort-Perm (sink x acc) l)
      (Perm.trans (Perm.append_right l (sink-Perm x acc)) (Perm.symm (perm_middle acc l)))

-- The sorted array behind a cache key holds each pair of the query as often as the query does.
sort-Perm : (q : List (String × List String)) → Perm (sort (new_query_array [] q)) (flatten q)
unfolding sort
sort-Perm q = Perm.trans (reverse_perm (insertion_sort [] (new_query_array [] q))) (
    Perm.trans (insertion_sort-Perm [] (new_query_array [] q)) (
      subst (λ l. Perm l (flatten q)) (sym (new_query_array-flatten [] q)) (Perm.refl (flatten q))))

-- `Less` is no order: of two pairs whose keys and values are ordered in opposite ways each is less
-- than the other. So sorting two of them reverses them, in whichever order the query map was met,
-- and does not bring one query to one key.
pub less-clash :
    (a b : FlatQuery)
    → text_ltb a.key b.key ≡ true
    → text_ltb b.value a.value ≡ true
    → (less a b ≡ true)
      × (less b a ≡ true)
      × (sort (a ∷ b ∷ []) ≡ b ∷ a ∷ [])
      × (sort (b ∷ a ∷ []) ≡ a ∷ b ∷ [])
unfolding less sort insertion_sort sink
less-clash a b keys values =
    let up : less a b ≡ true = rw keys refl in
    let down : less b a ≡ true = ground (arith, values, Bool-cases (text_ltb b.key a.key)) in
    (up, down, rw down refl, rw up refl)
