-- ===== src/CacheKey/Sorted.antt =====
-- groove/proxy/cache_key.go: queries that `Less` orders, met in any order of their keys.
use Prim.Native.String.{◌++◌ as text_append}
use mathlib.Core.Logic.{∥∥₁_elim}
use mathlib.Core.List.{Perm, Permᴰ, reverse}
use mathlib.Core.HLevel.{hedberg}
use grooveproxy.Base.{
  ◌≡◌, refl, sym, ◌∙◌, ap, subst, true, false, List, [], ◌∷◌, String, arith, inl, inr, Bool-cases,
  All, string_dec,
}
use grooveproxy.CacheKey.Order.{flatten, new_query_array-flatten}
use grooveproxy.CacheKey.{
  FlatQuery, less, sink, insertion_sort, sort, append_queries, plain_key, get_cache_key,
}
use grooveproxy.Http.{Request, Url, RequestParts, request_parts}

-- `Less` is a strict order on the pairs that `P` holds of.
pub record Orders (P : FlatQuery → Type 0) : Type 0 where
  pub asym : (a b : FlatQuery) → P a → P b → less a b ≡ true → less b a ≡ false
  pub connected : (a b : FlatQuery) → P a → P b → less a b ≡ false → less b a ≡ false → a ≡ b
  pub between :
      (a b c : FlatQuery) → P a → P b → P c → less a b ≡ true → less c b ≡ false → less a c ≡ true

module _ (P : FlatQuery → Type 0) (o : Orders P) where
  -- Two pairs may be inserted in either order.
  sink_comm :
      (x y : FlatQuery) (l : List FlatQuery)
      → P x
      → P y
      → All P l
      → sink x (sink y l) ≡ sink y (sink x l)
  unfolding sink
  sink_comm x y [] px py pl = elim (Bool-cases (less x y)) [
    | inl lt ↦ ground (arith, lt, o.asym x y px py lt)
    | inr ge ↦ elim (Bool-cases (less y x)) [
      | inl lt ↦ ground (arith, lt, ge)
      | inr le ↦ let same = o.connected x y px py ge le in ground (arith, ge, le, same)
    ]
  ]
  sink_comm x y (z ∷ l) px py (pz, pl) = elim (Bool-cases (less y z)) [
    | inl yz ↦ elim (Bool-cases (less x z)) [
      | inl xz ↦ ground (arith, yz, xz, sink_comm x y l px py pl)
      | inr xz ↦ ground (arith, yz, xz, o.between y z x py pz px yz xz)
    ]
    | inr yz ↦ elim (Bool-cases (less x z)) [
      | inl xz ↦ ground (arith, yz, xz, o.between x z y px pz py xz yz)
      | inr xz ↦ elim (Bool-cases (less x y)) [
        | inl lt ↦ ground (arith, yz, xz, lt, o.asym x y px py lt)
        | inr ge ↦ elim (Bool-cases (less y x)) [
          | inl lt ↦ ground (arith, yz, xz, lt, ge)
          | inr le ↦ let same = o.connected x y px py ge le in ground (arith, yz, xz, ge, le, same)
        ]
      ]
    ]
  ]

  All-sink : (x : FlatQuery) (l : List FlatQuery) → P x → All P l → All P (sink x l)
  unfolding sink
  All-sink x [] px pl = (px, pl)
  All-sink x (y ∷ l) px (py, pl) = elim (Bool-cases (less x y)) [
    | inl lt ↦ rw lt (py, All-sink x l px pl)
    | inr ge ↦ rw ge (px, (py, pl))
  ]

  All-Permᴰ : {l l' : List FlatQuery} → Permᴰ l l' → All P l → All P l'
  All-Permᴰ Permᴰ.nil pl = pl
  All-Permᴰ (Permᴰ.cons e d) (px, pl) = (subst P e px, All-Permᴰ d pl)
  All-Permᴰ (Permᴰ.swap e e') (px, (py, pl)) = (subst P e' py, (subst P e px, pl))
  All-Permᴰ (Permᴰ.trans d d') pl = All-Permᴰ d' (All-Permᴰ d pl)

  insertion_sort-Permᴰ :
      {l l' : List FlatQuery} (acc : List FlatQuery)
      → Permᴰ l l'
      → All P acc
      → All P l
      → insertion_sort acc l ≡ insertion_sort acc l'
  unfolding insertion_sort
  insertion_sort-Permᴰ acc Permᴰ.nil pa pl = refl
  insertion_sort-Permᴰ acc (Permᴰ.cons {a} {b} {l₁} {l₂} e d) pa (px, pl) =
      insertion_sort-Permᴰ (sink a acc) d (All-sink a acc px pa) pl
      ∙ ap (λ x. insertion_sort (sink x acc) l₂) e
  insertion_sort-Permᴰ acc (Permᴰ.swap {a} {b} {a'} {b'} {l} e e') pa (px, (py, pl)) =
      ap (λ s. insertion_sort s l) (sink_comm b a acc py px pa)
      ∙ ap (λ x. insertion_sort (sink x (sink b acc)) l) e
      ∙ ap (λ x. insertion_sort (sink b' (sink x acc)) l) e'
  insertion_sort-Permᴰ acc (Permᴰ.trans d d') pa pl =
      insertion_sort-Permᴰ acc d pa pl ∙ insertion_sort-Permᴰ acc d' pa (All-Permᴰ d pl)

String-set : IsSet String
String-set = hedberg string_dec

module _ (P : FlatQuery → Type 0) (o : Orders P) (base64 : String → String) where
  abbrev pub query_of : Request → List (String × List String)
  query_of q = let url : Url = (request_parts q).url in url.query

  abbrev base_of : Request → String
  base_of q =
      let parts : RequestParts = request_parts q in
      text_append parts.method
        (text_append "-" (text_append (text_append parts.url.hostname parts.url.path) "-"))

  key_of :
      (q : Request)
      → get_cache_key base64 q
        ≡ base64 (append_queries (base_of q) (reverse (insertion_sort [] (flatten (query_of q)))))
  unfolding get_cache_key plain_key sort
  key_of q =
      ap (λ l. base64 (append_queries (base_of q) (reverse (insertion_sort [] l))))
        (new_query_array-flatten [] (query_of q))

  -- Two requests with one method, host and path, whose queries have the same pairs, each as often, have
  -- one cache key, in whichever order the maps of their queries are met, if `Less` is a strict order
  -- on these pairs.
  pub get_cache_key-same :
      (q r : Request)
      → (request_parts q).method ≡ (request_parts r).method
      → (let url : Url = (request_parts q).url in url.hostname)
        ≡ (let url : Url = (request_parts r).url in url.hostname)
      → (let url : Url = (request_parts q).url in url.path)
        ≡ (let url : Url = (request_parts r).url in url.path)
      → All P (flatten (query_of q))
      → Perm (flatten (query_of q)) (flatten (query_of r))
      → get_cache_key base64 q ≡ get_cache_key base64 r
  get_cache_key-same q r method host path ordered perm =
      let base : base_of q ≡ base_of r = rw (method, host, path) refl in
      ∥∥₁_elim perm (String-set (get_cache_key base64 q) (get_cache_key base64 r)) λ d.
        key_of q
        ∙ ap (λ b. base64 (append_queries b (reverse (insertion_sort [] (flatten (query_of q))))))
            base
        ∙ ap (λ l. base64 (append_queries (base_of r) (reverse l)))
            (insertion_sort-Permᴰ P o [] d tt ordered)
        ∙ sym (key_of r)
