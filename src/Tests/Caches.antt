-- ===== src/Tests/Caches.antt =====
-- groove/proxy/cache: an `LRUCache` in memory with two entries, at concrete calls.
use grooveproxy.Base.{
  ◌≡◌, ◌≢◌, refl, [], ◌∷◌, Option, none, some, String, string_dec, empty_map, insert, arith, Bool,
  true, false,
}
use grooveproxy.Base.Int64.{pos, negsuc, ◌+ℤ◌}
use grooveproxy.Invalidator.MemoryStore.{MemoryCache, memory_backend, memory_store}
use grooveproxy.Lru.Contents.{IsStored}
use grooveproxy.Lru.Linked.{IsLinked}
use grooveproxy.Lru.Outcome.{Returns, set-Returns}
use grooveproxy.Lru.Purge.{Purges, purge_lem}
use grooveproxy.Lru.Recency.{Element, find_key, weight, back}
use grooveproxy.Lru.Set.{IsSound}
use grooveproxy.Lru.Stuck.{purge_stuck}
use grooveproxy.Lru.{LruCache, purge, set, over_limit}

abbrev pub is_no : {P : Type 0} → Dec P → Bool
is_no (yes p) = false
is_no (no p) = true

pub differs : {s t : String} (d : Dec (s ≡ t)) → is_no d ≡ true → s ≢ t
differs (yes e) h = cc
differs (no ne) h = ne

abbrev pub program : Unit {0}
program = tt

abbrev pub old : Element
old = record { id = 0; value = record { key = "a"; size = pos 1 } }

abbrev pub fresh : Element
fresh = record { id = 1; value = record { key = "b"; size = pos 2 } }

-- Two entries, and room for two bytes more.
abbrev pub pair : LruCache MemoryCache
pair = record {
  backing_cache = insert (insert empty_map "a" (7 ∷ [])) "b" (8 ∷ 9 ∷ []);
  ordered_cache_keys = fresh ∷ old ∷ [];
  key_to_element = insert (insert empty_map "a" old) "b" fresh;
  current_size = pos 3;
  max_size = pos 5;
  next_element = 2;
}

pub pair-IsLinked : IsLinked pair
unfolding find_key weight string_dec
pair-IsLinked = record {
  proper = (
    ((λ e. absurd (omega (arith, e)), differs (string_dec "b" "a") refl), tt),
    omega arith,
    refl,
    (tt, omega arith, refl, tt),
  );
  indexed = λ k. refl;
  counted = refl;
  small = omega arith;
}

pub pair-IsStored : IsStored memory_backend memory_store pair
unfolding find_key memory_store memory_backend
pair-IsStored = record { listed = λ j. ground arith; sized = λ j e v found stored. ground arith }

pub pair-IsSound : IsSound memory_backend memory_store 5 pair
unfolding weight
pair-IsSound = record {
  linked = pair-IsLinked;
  stored = pair-IsStored;
  limit = refl;
  within = omega arith;
}

-- A third entry of three bytes purges the oldest.
set-Returns_example :
    (r : LruCache MemoryCache × Option String) × (set memory_backend 3 pair "c" (1 ∷ 2 ∷ 3 ∷ [])
      ≡ some r)
    × Returns memory_backend memory_store 5 pair "c" (1 ∷ 2 ∷ 3 ∷ []) r
set-Returns_example =
    set-Returns memory_backend memory_store 3 5 pair "c" (1 ∷ 2 ∷ 3 ∷ []) pair-IsSound (omega arith)
      (omega arith) (omega arith)

purge_lem_example : Purges memory_backend 3 pair 5 4 (fresh ∷ old ∷ [])
unfolding weight
purge_lem_example =
    purge_lem memory_backend 3 pair 5 4 (fresh ∷ old ∷ []) refl pair-IsLinked refl (omega arith)
      (omega arith)

-- An index that lost its entries, as after a restart with a stale index file.
abbrev stale : LruCache MemoryCache
stale = record pair { key_to_element = empty_map }

purge_stuck_example : purge memory_backend 100 stale (pos 3) ≡ none
unfolding over_limit back ◌+ℤ◌
purge_stuck_example = purge_stuck memory_backend 100 stale (pos 3) old refl refl refl

abbrev unlimited : LruCache MemoryCache
unlimited = record pair { max_size = negsuc 0 }
