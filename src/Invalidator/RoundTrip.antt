-- ===== src/Invalidator/RoundTrip.antt =====
-- groove/proxy/cache/invalidator.go: `Get` after `Set`, through memory and disk.
use grooveproxy.Base.{
  ℕ, ◌+◌, ◌^◌, ◌≤◌, ◌<◌, ◌≡◌, refl, List, Option, none, some, String, ok, arith, Option-cases, inl,
  inr, length, dec_le,
}
use grooveproxy.Invalidator.MemoryStore.{MemoryCache, memory_backend, memory_store}
use grooveproxy.Invalidator.{
  Codec, CacheInvalidator, write_index, get_memory, get_disk, decode_found, get, set,
}
use grooveproxy.Lru
use grooveproxy.Lru.Callbacks.{Backend, IsStore}
use grooveproxy.Lru.Outcome.{set-Stores}
use grooveproxy.Lru.Oversized.{set_oversized}
use grooveproxy.Lru.Set.{IsSound}
use grooveproxy.Lru.{LruCache}

-- The memory cache takes every value: it stores it, or it is over the limit and is dropped.
memory_set :
    (fuel m : ℕ) (c : LruCache MemoryCache) (k : String) (v : List ℕ)
    → IsSound memory_backend memory_store m c
    → length c.ordered_cache_keys < fuel
    → m + length v < 2 ^ 63
    → (r : LruCache MemoryCache × Option String) × (Lru.set memory_backend fuel c k v ≡ some r)
      × IsSound memory_backend memory_store m r.0
unfolding memory_backend
memory_set fuel m c k v s f small = elim (dec_le (length v) m) [
  | yes fits ↦
      let (d, ran, done) =
        set-Stores memory_backend memory_store fuel m c k v s f small fits (λ w. refl) in
      ((d, none), ran, done.sound)
  | no over ↦
      let (d, ran, sound, _, _) =
        set_oversized memory_backend memory_store fuel m c k v s f small (omega arith) in
      ((d, none), ran, sound)
]

module _ {D A : Type 0} (b : Backend D) (sto : IsStore b) (codec : Codec A) where
  -- Both caches are sound within their limits.
  pub record IsGood (mm md : ℕ) (c : CacheInvalidator D) : Type 0 where
    pub memory : IsSound memory_backend memory_store mm c.memory_cache
    pub disk : IsSound b sto md c.disk_cache

  -- The memory lookup never fails, and leaves the disk alone.
  get_memory_lem :
      (c : CacheInvalidator D) (k : String)
      → (d : CacheInvalidator D) × (o : Option (List ℕ)) × (get_memory b codec c k ≡ (d, ok o))
        × (d.disk_cache ≡ c.disk_cache)
  unfolding get_memory Lru.get Lru.has memory_backend
  get_memory_lem c k = elim (Option-cases (c.memory_cache.backing_cache k)) [
    | inl missing ↦ (c, none, rw missing, refl)
    | inr (v, found) ↦ (
      record c { memory_cache = (Lru.get memory_backend c.memory_cache k).0 },
      some v,
      ground (arith, found),
      refl,
    )
  ]

  get_disk_lem :
      (c : CacheInvalidator D) (k : String) (o : Option (List ℕ)) (v : List ℕ)
      → sto.view c.disk_cache.backing_cache k ≡ some v
      → (get_disk b codec c k o).1 ≡ ok (some v)
  unfolding get_disk Lru.get Lru.has
  get_disk_lem c k o v h = ground (
    arith,
    sto.has_view c.disk_cache.backing_cache k,
    sto.get_view c.disk_cache.backing_cache k h,
    h,
  )

  write_index-caches :
      (c : CacheInvalidator D)
      → ((write_index c).disk_cache ≡ c.disk_cache)
        × ((write_index c).memory_cache ≡ c.memory_cache)
  unfolding write_index
  write_index-caches c = ground arith

  get_lem :
      (c : CacheInvalidator D) (k : String) (v : List ℕ) (a : A)
      → sto.view c.disk_cache.backing_cache k ≡ some v
      → codec.object_from_bytes v ≡ ok a
      → (get b codec c k).1 ≡ ok a
  unfolding get decode_found
  get_lem c k v a stored decodes =
      let (d, o, ran, same) = get_memory_lem c k in
      let found = get_disk_lem d k o v (rw same stored) in ground (arith, ran, found, decodes)

  -- A value whose bytes the disk takes, within its limit, reads back after `Set`: with sound caches,
  -- more fuel than entries in either list, limits that with the value stay below 2 ^ 63, and a codec
  -- that decodes what it encoded. `Set` ends without an error, and both caches are sound again.
  pub get-set :
      (fuel mm md : ℕ) (c : CacheInvalidator D) (k : String) (a : A) (v : List ℕ)
      → IsGood mm md c
      → length c.memory_cache.ordered_cache_keys < fuel
      → length c.disk_cache.ordered_cache_keys < fuel
      → mm + length v < 2 ^ 63
      → md + length v < 2 ^ 63
      → length v ≤ md
      → codec.object_to_bytes a ≡ ok v
      → codec.object_from_bytes v ≡ ok a
      → ((w : D) → (b.set_value w k v).1 ≡ none)
      → (d : CacheInvalidator D) × (set b codec fuel c k a ≡ some (d, ok tt))
        × ((get b codec d k).1 ≡ ok a)
        × IsGood mm md d
  unfolding set
  get-set fuel mm md c k a v good fm fd sm sd fits encodes decodes accepts =
      let (m, ran_m, sound_m) = memory_set fuel mm c.memory_cache k v good.memory fm sm in
      let (d, ran_d, done) =
        set-Stores b sto fuel md c.disk_cache k v good.disk fd sd fits accepts in
      let c' : CacheInvalidator D = record c { memory_cache = m.0; disk_cache = d } in
      (
        write_index c',
        ground (arith, encodes, ran_m, ran_d),
        get_lem (write_index c') k v a (rw (write_index-caches c').0 done.reads) decodes,
        record {
          memory = rw (write_index-caches c').1 sound_m;
          disk = rw (write_index-caches c').0 done.sound;
        },
      )
