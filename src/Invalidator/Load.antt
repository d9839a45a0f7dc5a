-- ===== src/Invalidator/Load.antt =====
-- groove/proxy/cache/invalidator.go, `buildDiskCache`: a cache built from an index with distinct keys
-- and no negative sizes starts with its list, its key index and its size counter in agreement.
use grooveproxy.Base.{
  ℕ, suc, ◌+◌, ◌^◌, ◌<◌, ◌≡◌, ◌≢◌, refl, ◌∙◌, List, [], ◌∷◌, ◌++◌, none, some, String, ite,
  string_dec, All, All-append, arith, ap,
}
use grooveproxy.Base.Int64.{ℤ, pos, pos_part, pos-+ℤ}
use grooveproxy.Invalidator.{total_size, read_index, push_back, load_index, build_disk_cache}
use grooveproxy.Lru.Entries.{Apart}
use grooveproxy.Lru.Linked.{IsLinked}
use grooveproxy.Lru.Purge.{weight-snoc}
use grooveproxy.Lru.Recency.{CacheMetadata, Element, find_key, weight, IsProper}
use grooveproxy.Lru.{LruCache, new_lru_cache}

-- The sizes of an index, added up without wrapping.
unfoldable pub sizes : List CacheMetadata → ℕ
sizes [] = 0
sizes (x ∷ xs) = pos_part x.size + sizes xs

-- No key twice, no negative size.
abbrev pub IsIndex : List CacheMetadata → Type 0
IsIndex [] = Unit {0}
IsIndex (x ∷ xs) = All (λ y. x.key ≢ y.key) xs × (x.size ≡ pos (pos_part x.size)) × IsIndex xs

total_size_lem :
    (a : ℕ) (l : List CacheMetadata)
    → IsIndex l
    → a + sizes l < 2 ^ 63
    → total_size (pos a) l ≡ pos (a + sizes l)
unfolding total_size sizes
total_size_lem a [] h small = ap pos (omega arith)
total_size_lem a (x ∷ l) h small =
    rw (h.1, pos-+ℤ a (pos_part x.size) (omega arith))
      (total_size_lem (a + pos_part x.size) l h.2 (omega arith) ∙ ap pos (omega arith))

find_key-snoc :
    (j : String) (l : List Element) (x : Element)
    → find_key x.key l ≡ none
    → find_key j (l ++ x ∷ []) ≡ ite (string_dec x.key j) (some x) (find_key j l)
unfolding find_key
find_key-snoc j [] x h = refl
find_key-snoc j (y ∷ l) x h = ground (arith, find_key-snoc j l x)

IsProper-snoc :
    (n : ℕ) (l : List Element) (x : Element)
    → IsProper n l
    → x.id ≡ n
    → x.size ≡ pos (pos_part x.size)
    → find_key x.key l ≡ none
    → IsProper (suc n) (l ++ x ∷ [])
unfolding find_key
IsProper-snoc n [] x h i s f = (tt, omega arith, s, tt)
IsProper-snoc n (y ∷ l) x h i s f = elim (string_dec y.key x.key) [
  | yes p ↦ absurd (ground arith)
  | no p ↦ (
    All-append (Apart y) l (x ∷ []) h.0 ((omega arith, p), tt),
    omega arith,
    h.2,
    IsProper-snoc n l x h.3 i s (ground arith),
  )
]

still_apart :
    (l : List Element) (x : Element) (rest : List CacheMetadata)
    → find_key x.key l ≡ none
    → All (λ y. x.key ≢ y.key) rest
    → All (λ y. find_key y.key l ≡ none) rest
    → All (λ y. find_key y.key (l ++ x ∷ []) ≡ none) rest
still_apart l x [] f h a = tt
still_apart l x (y ∷ rest) f h a =
    (ground (arith, find_key-snoc y.key l x f), still_apart l x rest f h.1 a.1)

All-new : (l : List CacheMetadata) → All (λ x. find_key x.key [] ≡ none) l
unfolding find_key
All-new [] = tt
All-new (x ∷ l) = (refl, All-new l)

abbrev element : {D : Type 0} → LruCache D → CacheMetadata → Element
element c x = record { id = c.next_element; value = x }

module _ {D : Type 0} where
  -- The state of the loop of `buildDiskCache`: the size counter already has what is still to come.
  record Loading (c : LruCache D) (rest : List CacheMetadata) : Type 0 where
    proper : IsProper c.next_element c.ordered_cache_keys
    indexed : (k : String) → c.key_to_element k ≡ find_key k c.ordered_cache_keys
    counted : c.current_size ≡ pos (weight c.ordered_cache_keys + sizes rest)
    small : weight c.ordered_cache_keys + sizes rest < 2 ^ 63
    apart : All (λ x. find_key x.key c.ordered_cache_keys ≡ none) rest
    index : IsIndex rest

  push_back-Loading :
      (c : LruCache D) (x : CacheMetadata) (rest : List CacheMetadata)
      → Loading c (x ∷ rest)
      → Loading (push_back x c) rest
  unfolding push_back sizes
  push_back-Loading c x rest h = record {
    proper =
        IsProper-snoc c.next_element c.ordered_cache_keys (element c x) h.proper refl h.index.1
          h.apart.0;
    indexed = λ k.
        ground (arith, h.indexed k, find_key-snoc k c.ordered_cache_keys (element c x) h.apart.0);
    counted = h.counted ∙ ap pos (omega (arith, weight-snoc c.ordered_cache_keys (element c x)));
    small = omega (arith, h.small, weight-snoc c.ordered_cache_keys (element c x));
    apart = still_apart c.ordered_cache_keys (element c x) rest h.apart.0 h.index.0 h.apart.1;
    index = h.index.2;
  }

  load_index-IsLinked :
      (rest : List CacheMetadata) (c : LruCache D) → Loading c rest → IsLinked (load_index rest c)
  unfolding load_index sizes
  load_index-IsLinked [] c h = record {
    proper = h.proper;
    indexed = h.indexed;
    counted = h.counted ∙ ap pos (omega arith);
    small = omega (arith, h.small);
  }
  load_index-IsLinked (x ∷ rest) c h =
      load_index-IsLinked rest (push_back x c) (push_back-Loading c x rest h)

  -- A disk cache that is built from an index with distinct keys, no negative size and a total below
  -- 2 ^ 63 starts linked, whatever is on the disk.
  build_disk_cache-IsLinked :
      (l : List CacheMetadata) (max_disk_size : ℤ) (disk : D)
      → IsIndex l
      → sizes l < 2 ^ 63
      → IsLinked (build_disk_cache (some l) max_disk_size disk)
  unfolding build_disk_cache read_index new_lru_cache find_key weight
  build_disk_cache-IsLinked l max_disk_size disk h small = load_index-IsLinked l _ (record {
    proper = tt;
    indexed = λ k. refl;
    counted = total_size_lem 0 l h (omega arith);
    small = omega arith;
    apart = All-new l;
    index = h;
  })
