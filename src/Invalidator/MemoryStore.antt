-- ===== src/Invalidator/MemoryStore.antt =====
-- groove/proxy/cache/invalidator.go: `MemoryCache` and the callbacks that `buildMemoryCache` gives
-- its `LRUCache`; they keep every promise of a backing store, and writes never fail.
use Prim.Native.String.{◌++◌}
use grooveproxy.Base.{
  ℕ, ◌≡◌, refl, List, none, some, String, Result, ok, err, is_some, StringMap, empty_map, insert,
  delete, arith, ◌≢◌,
}
use grooveproxy.Lru.Callbacks.{Backend, IsStore}

-- `map[string]*[]byte`: the values are never changed through their pointers.
abbrev pub MemoryCache : Type 0
MemoryCache = StringMap (List ℕ)

unfoldable pub memory_get : MemoryCache → String → Result (List ℕ)
memory_get s key = elim (s key) [
  | none ↦ err ("Key " ++ key ++ " not found in memory cache")
  | some value ↦ ok value
]

unfoldable pub memory_backend : Backend MemoryCache
unfolding memory_get
memory_backend = record {
  set_value = λ s key value. (insert s key value, none);
  get_value = memory_get;
  has_value = λ s key. is_some (s key);
  delete_key = λ s key. delete s key;
  delete_all = λ s. empty_map;
}

pub get_view :
    (s : MemoryCache) (k : String) {v : List ℕ} → s k ≡ some v → memory_backend.get_value s k ≡ ok v
unfolding memory_backend
get_view s k h = ground arith

pub get_missing :
    (s : MemoryCache) (k : String)
    → s k ≡ none
    → (e : String) × (memory_backend.get_value s k ≡ err e)
unfolding memory_backend
get_missing s k h = ("Key " ++ k ++ " not found in memory cache", ground arith)

pub set_failed :
    (s : MemoryCache) (k : String) (v : List ℕ) (j : String)
    → k ≢ j
    → (memory_backend.set_value s k v).0 j ≡ s j
unfolding memory_backend
set_failed s k v j h = ground arith

unfoldable pub memory_store : IsStore memory_backend
unfolding memory_backend
memory_store = record {
  view = λ s. s;
  has_view = λ s k. refl;
  get_view = λ s k h. get_view s k h;
  get_missing = get_missing;
  set_view = λ s k v h j. refl;
  set_failed = set_failed;
  delete_view = λ s k j. refl;
  delete_all_view = λ s j. refl;
}
