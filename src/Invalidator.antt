-- ===== src/Invalidator.antt =====
-- groove/proxy/cache/invalidator.go: `CacheInvalidator`, an in-memory `LRUCache` over a disk one, and
-- the index file that keeps the recency list of the disk. The disk store (diskv) and the gob codec of
-- groove/proxy/cache/utilities.go are parameters. The index file is its decoded list; the goroutine
-- that saves it is an operation of its own, run at any later time.
pub mod MemoryStore
pub mod Index
pub mod Blocks
pub mod Load
pub mod RoundTrip
use Prim.Native.String.{◌++◌ as text_append}
use MemoryStore.{MemoryCache, memory_backend}
use grooveproxy.Base.{
  ℕ, zero, suc, ◌+◌, ◌-◌, ◌*◌, Bool, true, false, ◌||◌, List, [], ◌∷◌, ◌++◌, Option, none, some,
  String, Result, ok, err, ◌>>=◌, and_then, if◌then◌else◌, ltb, StringMap, empty_map, insert,
}
use grooveproxy.Base.Int64.{ℤ, pos, ◌+ℤ◌}
use grooveproxy.Lru.Callbacks.{Backend}
use grooveproxy.Lru.Recency.{CacheMetadata, Element}
use grooveproxy.Lru
use grooveproxy.Lru.{LruCache, new_lru_cache}

-- `encoding/gob` behind `objectToBytes` and `objectFromBytes`.
pub record Codec (A : Type 0) : Type 0 where
  pub object_to_bytes : A → Result (List ℕ)
  pub object_from_bytes : List ℕ → Result A

pub record CacheInvalidator (D : Type 0) : Type 0 where
  -- the file at `indexPath`, if there is one
  pub index_file : Option (List CacheMetadata)
  pub disk_cache : LruCache D
  pub memory_cache : LruCache MemoryCache
  pub save_interval : ℕ
  pub operation_counter : ℕ
  -- `saveWaiter`: the saves that were started and have not run
  pub save_waiter : ℕ

-- The sum in `readIndex`.
unfoldable pub total_size : ℤ → List CacheMetadata → ℤ
total_size acc [] = acc
total_size acc (metadata ∷ rest) = total_size (acc +ℤ metadata.size) rest

-- `readIndex`: a missing file is an error, with no metadata and size 0, and the caller drops it.
unfoldable pub read_index : Option (List CacheMetadata) → List CacheMetadata × ℤ
read_index none = ([], pos 0)
read_index (some metadatas) = (metadatas, total_size (pos 0) metadatas)

-- One round of the loop of `buildDiskCache`: `PushBack`, and the write of the element's pointer.
unfoldable pub push_back : {D : Type 0} → CacheMetadata → LruCache D → LruCache D
push_back metadata c = record c {
  ordered_cache_keys = c.ordered_cache_keys ++ element ∷ [];
  key_to_element = insert c.key_to_element metadata.key element;
  next_element = suc c.next_element;
}
  where
    element : Element
    element = record { id = c.next_element; value = metadata }

unfoldable pub load_index : {D : Type 0} → List CacheMetadata → LruCache D → LruCache D
load_index [] c = c
load_index (metadata ∷ rest) c = load_index rest (push_back metadata c)

unfoldable pub build_disk_cache : {D : Type 0} → Option (List CacheMetadata) → ℤ → D → LruCache D
build_disk_cache index_file max_disk_size disk =
    let (metadatas, total) = read_index index_file in
    load_index metadatas (new_lru_cache disk total max_disk_size)

unfoldable pub build_memory_cache : ℤ → LruCache MemoryCache
build_memory_cache max_memory_size = new_lru_cache empty_map (pos 0) max_memory_size

-- `NewCacheInvalidator`. Its sizes in MB are naturals; the only caller passes 20 and 500, whose bytes
-- are far below 2 ^ 63.
unfoldable pub new_cache_invalidator :
    {D : Type 0} → D → Option (List CacheMetadata) → ℕ → ℕ → ℕ → CacheInvalidator D
new_cache_invalidator disk index_file max_memory_size_mb max_disk_size_mb save_interval = record {
  index_file = index_file;
  disk_cache = build_disk_cache index_file (pos (1024 * 1024 * max_disk_size_mb)) disk;
  memory_cache = build_memory_cache (pos (1024 * 1024 * max_memory_size_mb));
  save_interval = save_interval;
  operation_counter = 0;
  save_waiter = 0;
}

-- `writeIndex`: every `saveInterval`-th operation starts a save.
unfoldable pub write_index : {D : Type 0} → CacheInvalidator D → CacheInvalidator D
write_index c =
    if ltb (c.operation_counter + 1) c.save_interval
    then record c { operation_counter = c.operation_counter + 1 }
    else record c { operation_counter = 0; save_waiter = c.save_waiter + 1 }

unfoldable pub metadata_of : List Element → List CacheMetadata
metadata_of [] = []
metadata_of (x ∷ xs) = x.value ∷ metadata_of xs

-- The goroutine of `writeIndex`. An existing file is opened by `os.Open`, which opens for reading
-- only: the write fails, and its error is dropped. A missing file is created; `none` is the panic if
-- that fails.
unfoldable pub save_index :
    {D : Type 0} → (can_create : Bool) → CacheInvalidator D → Option (CacheInvalidator D)
save_index can_create c = elim c.index_file [
  | some metadatas ↦ some (record c { save_waiter = c.save_waiter - 1 })
  | none ↦
      if can_create
      then some (record c {
        index_file = some (metadata_of c.disk_cache.ordered_cache_keys);
        save_waiter = c.save_waiter - 1;
      })
      else none
]

abbrev not_found : String → String
not_found key = text_append "Key " (text_append key " not found in cache")

module _ {D A : Type 0} (b : Backend D) (codec : Codec A) where
  unfoldable pub has : CacheInvalidator D → String → Bool
  has c key = Lru.has memory_backend c.memory_cache key || Lru.has b c.disk_cache key

  -- The two lookups of `Get`: a value on disk replaces the one from memory, and an error ends it.
  unfoldable pub get_memory :
      CacheInvalidator D → String → CacheInvalidator D × Result (Option (List ℕ))
  get_memory c key =
      let (memory, found) = Lru.get memory_backend c.memory_cache key in
      if Lru.has memory_backend c.memory_cache key
      then (record c { memory_cache = memory }, found >>= λ v. ok (some v))
      else (c, ok none)

  unfoldable pub get_disk :
      CacheInvalidator D → String → Option (List ℕ) → CacheInvalidator D × Result (Option (List ℕ))
  get_disk c key encoded_value =
      let (disk, found) = Lru.get b c.disk_cache key in
      if Lru.has b c.disk_cache key
      then (record c { disk_cache = disk }, found >>= λ v. ok (some v))
      else (c, ok encoded_value)

  unfoldable pub decode_found : String → Option (List ℕ) → Result A
  decode_found key none = err (not_found key)
  decode_found key (some v) = codec.object_from_bytes v

  unfoldable pub get : CacheInvalidator D → String → CacheInvalidator D × Result A
  get c key =
      let (c₁, from_memory) = get_memory c key in
      elim from_memory [
        | err e ↦ (c₁, err e)
        | ok encoded_value ↦
            let (c₂, from_disk) = get_disk c₁ key encoded_value in
            (c₂, from_disk >>= decode_found key)
      ]

  -- `Set`: the errors of the two stores are dropped; `none` is a purge that does not end.
  unfoldable pub set :
      ℕ → CacheInvalidator D → String → A → Option (CacheInvalidator D × Result (Unit {0}))
  set fuel c key value = elim (codec.object_to_bytes value) [
    | err e ↦ some (c, err e)
    | ok encoded_value ↦
        and_then (Lru.set memory_backend fuel c.memory_cache key encoded_value) λ memory.
          and_then (Lru.set b fuel c.disk_cache key encoded_value) λ disk.
            some (write_index (record c { memory_cache = memory.0; disk_cache = disk.0 }), ok tt)
  ]

  unfoldable pub delete : CacheInvalidator D → String → CacheInvalidator D
  delete c key = write_index (record c {
    memory_cache = Lru.delete_with_protection memory_backend c.memory_cache key;
    disk_cache = Lru.delete_with_protection b c.disk_cache key;
  })

  -- `EraseAll` removes the whole cache directory, the index file in it included.
  unfoldable pub clear : CacheInvalidator D → CacheInvalidator D
  clear c = record c {
    index_file = none;
    memory_cache = Lru.delete_all memory_backend c.memory_cache;
    disk_cache = Lru.delete_all b c.disk_cache;
  }
