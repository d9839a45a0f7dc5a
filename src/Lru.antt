-- ===== src/Lru.antt =====
-- groove/proxy/cache/lru.go: `LRUCache`, over any backing store given by the five callbacks.
-- A list from container/list is the sequence of its elements, front first; an element is a pointer,
-- known by `id`. The mutexes are left out here: each method is one call by one caller.
pub mod Callbacks
pub mod Recency
pub mod Entries
pub mod Linked
pub mod Purge
pub mod Contents
pub mod Set
pub mod Outcome
pub mod Oversized
pub mod Stuck
use Callbacks.{Backend}
use Recency.{CacheMetadata, Element, remove_element, move_to_front, back, length_int64}
use mathlib.Core.Option
use grooveproxy.Base.{
  ℕ, zero, suc, Bool, true, false, List, [], ◌∷◌, Option, none, some, String, Result, if◌then◌else◌,
  StringMap, empty_map, insert, delete,
}
use grooveproxy.Base.Int64.{ℤ, pos, negsuc, ◌+ℤ◌, ◌-ℤ◌, ltb_ℤ, leb_ℤ}

pub record LruCache (S : Type 0) : Type 0 where
  pub backing_cache : S
  -- freshest first
  pub ordered_cache_keys : List Element
  pub key_to_element : StringMap Element
  pub current_size : ℤ
  pub max_size : ℤ
  -- the identity of the next list element to be allocated
  pub next_element : ℕ

unfoldable pub new_lru_cache : {S : Type 0} → S → ℤ → ℤ → LruCache S
new_lru_cache backing_cache current_size max_size = record {
  backing_cache = backing_cache;
  ordered_cache_keys = [];
  key_to_element = empty_map;
  current_size = current_size;
  max_size = max_size;
  next_element = 0;
}

-- `PushFront` and `PushBack` of a fresh element, and the write of its pointer to `keyToElement`.
unfoldable pub push_front : {S : Type 0} → CacheMetadata → LruCache S → LruCache S
push_front metadata c = record c {
  ordered_cache_keys = element ∷ c.ordered_cache_keys;
  key_to_element = insert c.key_to_element metadata.key element;
  next_element = suc c.next_element;
}
  where
    element : Element
    element = record { id = c.next_element; value = metadata }

-- The metadata half of `deleteWithProtection`.
unfoldable pub forget : {S : Type 0} → LruCache S → String → LruCache S
forget c key = elim (c.key_to_element key) [
  | none ↦ c
  | some metadata ↦ record c {
    ordered_cache_keys = remove_element metadata c.ordered_cache_keys;
    current_size = c.current_size -ℤ metadata.size;
    key_to_element = delete c.key_to_element key;
  }
]

-- The test of the purge loop.
unfoldable pub over_limit : {S : Type 0} → LruCache S → ℤ → Bool
over_limit c size = ltb_ℤ c.max_size (c.current_size +ℤ size)

unfoldable pub allocate_space : {S : Type 0} → LruCache S → CacheMetadata → LruCache S × Bool
allocate_space c metadata =
    if leb_ℤ (c.current_size +ℤ metadata.size) c.max_size
    then (record c { current_size = c.current_size +ℤ metadata.size }, true)
    else (c, false)

module _ {S : Type 0} (b : Backend S) where
  -- `Get`: a known key moves to the front, and the backing store answers.
  unfoldable pub get : LruCache S → String → LruCache S × Result (List ℕ)
  get c key = (
    elim (c.key_to_element key) [
      | none ↦ c
      | some metadata ↦ record c {
        ordered_cache_keys = move_to_front metadata c.ordered_cache_keys;
      }
    ],
    b.get_value c.backing_cache key,
  )

  unfoldable pub has : LruCache S → String → Bool
  has c key = b.has_value c.backing_cache key

  -- `deleteWithProtection`; `Delete` is the same call with the lock taken.
  unfoldable pub delete_with_protection : LruCache S → String → LruCache S
  delete_with_protection c key =
      let c' = forget c key in record c' { backing_cache = b.delete_key c'.backing_cache key }

  unfoldable pub delete_all : LruCache S → LruCache S
  delete_all c = record c {
    ordered_cache_keys = [];
    current_size = pos 0;
    key_to_element = empty_map;
    backing_cache = b.delete_all c.backing_cache;
  }

  -- The loop of `Set` that purges the oldest entries; `none` means that the fuel ran out.
  unfoldable pub purge : ℕ → LruCache S → ℤ → Option (LruCache S)
  purge zero c size = none
  purge (suc fuel) c size = elim (over_limit c size) [
    | false ↦ some c
    | true ↦ elim (back c.ordered_cache_keys) [
      | none ↦ some c
      | some oldest ↦ purge fuel (delete_with_protection c oldest.key) size
    ]
  ]

  -- The purge is skipped for a negative limit.
  unfoldable pub make_room : ℕ → LruCache S → ℤ → Option (LruCache S)
  make_room fuel c size = if ltb_ℤ (negsuc 0) c.max_size then purge fuel c size else some c

  -- The end of `Set`, once the space is allocated.
  unfoldable pub store : LruCache S → CacheMetadata → List ℕ → LruCache S × Option String
  store c metadata value =
      let (backing, failure) = b.set_value c.backing_cache metadata.key value in
      elim failure [
        | none ↦ (push_front metadata (record c { backing_cache = backing }), none)
        | some e ↦ (
          record c { backing_cache = backing; current_size = c.current_size -ℤ metadata.size },
          some e,
        )
      ]

  -- `Set` after the purge: no error is reported for a value that does not fit.
  unfoldable pub allocate_and_store :
      LruCache S → CacheMetadata → List ℕ → LruCache S × Option String
  allocate_and_store c metadata value =
      let (c', has_space) = allocate_space c metadata in
      if has_space then store c' metadata value else (c', none)

  unfoldable pub drop_old : LruCache S → String → LruCache S
  drop_old c key = if has c key then delete_with_protection c key else c

  unfoldable pub set : ℕ → LruCache S → String → List ℕ → Option (LruCache S × Option String)
  set fuel c key value =
      let metadata : CacheMetadata = record { key = key; size = length_int64 value } in
      Option.map (λ c'. allocate_and_store c' metadata value)
        (make_room fuel (drop_old c key) metadata.size)
