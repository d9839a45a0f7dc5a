-- ===== src/Lru/Set.antt =====
-- groove/proxy/cache/lru.go: what `Set` promises on a sound cache: it ends, it keeps to the limit,
-- the new value reads back, and only the least recently used entries make room for it.
use grooveproxy.Base.{
  ℕ, ◌+◌, ◌-◌, ◌^◌, ◌≤◌, ◌<◌, ◌≡◌, ◌≢◌, refl, ◌∙◌, List, [], ◌∷◌, none, some, String, if_pos,
  string_dec, arith, ◌⊎◌, length, leb, le→leb, lt→leb, le→ltb,
}
use grooveproxy.Base.Int64.{pos, pos-+ℤ, ◌+ℤ◌, pos_part, leb_ℤ}
use grooveproxy.Lru.Callbacks.{Backend, IsStore}
use grooveproxy.Lru.Contents.{IsStored, Keeps, Drops, drop_old-Drops, purge-Purged}
use grooveproxy.Lru.Linked.{IsLinked}
use grooveproxy.Lru.Purge.{kept, purge_lem, Purges}
use grooveproxy.Lru.Entries.{find_key-remove_key, weight-remove_key-le}
use grooveproxy.Lru.Recency.{
  CacheMetadata, Element, find_key, remove_key, weight, keep_fitting, length_int64, IsProper,
}
use grooveproxy.Lru.{
  LruCache, purge, drop_old, make_room, allocate_space, allocate_and_store, store, set,
}

-- The longest fitting prefix fits, and drops no key that it names.
weight-keep_fitting : (room : ℕ) (l : List Element) → weight (keep_fitting room l) ≤ room
unfolding weight keep_fitting
weight-keep_fitting room [] = omega arith
weight-keep_fitting room (x ∷ l) = ground (arith, weight-keep_fitting (room - pos_part x.size) l)

pub weight-kept : (m n : ℕ) (l : List Element) → n ≤ m → weight (kept m n l) + n ≤ m
unfolding kept
weight-kept m n l h = rw (le→ltb m n h) (omega (arith, weight-keep_fitting (m - n) l))

find_key-keep_fitting :
    (room : ℕ) (j : String) (l : List Element)
    → find_key j l ≡ none
    → find_key j (keep_fitting room l) ≡ none
unfolding find_key keep_fitting
find_key-keep_fitting room j [] h = refl
find_key-keep_fitting room j (x ∷ l) h =
    ground (arith, find_key-keep_fitting (room - pos_part x.size) j l)

pub find_key-kept :
    (m n : ℕ) (j : String) (l : List Element) → find_key j l ≡ none → find_key j (kept m n l) ≡ none
unfolding kept find_key
find_key-kept m n j l h = ground (arith, find_key-keep_fitting (m - n) j l h)

length-remove_key-le : (k : String) (l : List Element) → length (remove_key k l) ≤ length l
unfolding remove_key
length-remove_key-le k [] = omega arith
length-remove_key-le k (x ∷ l) = ground (arith, length-remove_key-le k l)

pub find_key-remove_key_self :
    (n : ℕ) (k : String) (l : List Element) → IsProper n l → find_key k (remove_key k l) ≡ none
find_key-remove_key_self n k l h = find_key-remove_key n k k l h ∙ if_pos (string_dec k k) refl _ _

module _ {S : Type 0} (b : Backend S) (sto : IsStore b) where
  open sto use {view}

  -- A cache with its limit: the invariant that every operation keeps.
  pub record IsSound (m : ℕ) (c : LruCache S) : Type 0 where
    pub linked : IsLinked c
    pub stored : IsStored b sto c
    pub limit : c.max_size ≡ pos m
    pub within : weight c.ordered_cache_keys ≤ m

  -- What stands before the space is allocated for `n` bytes under `k`.
  pub record Readies (m n : ℕ) (c : LruCache S) (k : String) (p : LruCache S) : Type 0 where
    pub linked : IsLinked p
    pub stored : IsStored b sto p
    pub limit : p.max_size ≡ pos m
    pub keys : p.ordered_cache_keys ≡ kept m n (remove_key k c.ordered_cache_keys)
    pub values :
        (j : String)
        → k ≢ j
        → (view p.backing_cache j ≡ view c.backing_cache j)
          ⊎ (find_key j p.ordered_cache_keys ≡ none)

  set_run :
      (fuel m : ℕ) (c : LruCache S) (k : String) (v : List ℕ) (p : LruCache S)
      → (drop_old b c k).max_size ≡ pos m
      → purge b fuel (drop_old b c k) (pos (length v)) ≡ some p
      → set b fuel c k v
        ≡ some (allocate_and_store b p (record { key = k; size = pos (length v) }) v)
  unfolding set make_room length_int64
  set_run fuel m c k v p lim ran = ground arith

  pub set-Readies :
      (fuel m : ℕ) (c : LruCache S) (k : String) (v : List ℕ)
      → IsSound m c
      → length c.ordered_cache_keys < fuel
      → m + length v < 2 ^ 63
      → (p : LruCache S) × Readies m (length v) c k p
        × (set b fuel c k v
            ≡ some (allocate_and_store b p (record { key = k; size = pos (length v) }) v))
  set-Readies fuel m c k v s f small = (
    p.0,
    record {
      linked = p.2;
      stored = content.1;
      limit = p.3;
      keys = p.4;
      values = λ j other. ground (arith, content.2 j, d.values j);
    },
    set_run fuel m c k v p.0 (d.limit ∙ s.limit) p.1,
  )
    where
      d : Drops b sto c k (drop_old b c k)
      d = drop_old-Drops b sto c k s.linked s.stored

      p : Purges b fuel (drop_old b c k) m (length v) (remove_key k c.ordered_cache_keys)
      p =
          purge_lem b fuel (drop_old b c k) m (length v) (remove_key k c.ordered_cache_keys) d.keys
            d.linked (d.limit ∙ s.limit)
            (omega (arith, s.within, weight-remove_key-le k c.ordered_cache_keys))
            (omega (arith, length-remove_key-le k c.ordered_cache_keys))

      content : IsLinked p.0 × IsStored b sto p.0 × Keeps b sto (drop_old b c k) p.0
      content = purge-Purged b sto fuel (drop_old b c k) (pos (length v)) d.linked d.stored p.1

  -- The test of `allocateSpace`.
  has_space :
      (p : LruCache S) (m w n : ℕ)
      → p.max_size ≡ pos m
      → p.current_size ≡ pos w
      → w + n < 2 ^ 63
      → leb_ℤ (p.current_size +ℤ pos n) p.max_size ≡ leb (w + n) m
  has_space p m w n lim cur small = rw (lim, cur, pos-+ℤ w n small) (ground arith)

  -- A value over the limit is not stored, and no error is reported.
  pub allocate_oversized :
      (p : LruCache S) (m w : ℕ) (k : String) (v : List ℕ)
      → p.max_size ≡ pos m
      → p.current_size ≡ pos w
      → w + length v < 2 ^ 63
      → m < w + length v
      → allocate_and_store b p (record { key = k; size = pos (length v) }) v ≡ (p, none)
  unfolding allocate_and_store allocate_space
  allocate_oversized p m w k v lim cur small big =
      rw (has_space p m w (length v) lim cur small ∙ lt→leb (w + length v) m big)

  -- A value that fits takes its size first.
  pub allocate_fitting :
      (p : LruCache S) (m w : ℕ) (k : String) (v : List ℕ)
      → p.max_size ≡ pos m
      → p.current_size ≡ pos w
      → m < 2 ^ 63
      → w + length v ≤ m
      → let metadata : CacheMetadata = record { key = k; size = pos (length v) } in
        allocate_and_store b p metadata v
        ≡ store b (record p { current_size = p.current_size +ℤ metadata.size }) metadata v
  unfolding allocate_and_store allocate_space
  allocate_fitting p m w k v lim cur small fits =
      rw (has_space p m w (length v) lim cur (omega arith) ∙ le→leb (w + length v) m fits)
