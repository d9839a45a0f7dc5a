-- ===== src/Lru/Stuck.antt =====
-- groove/proxy/cache/lru.go: when the purge loop of `Set` does not end, and what a limit of -1 does.
use grooveproxy.Base.{
  ℕ, zero, suc, ◌+◌, ◌^◌, ◌<◌, ◌≡◌, refl, List, none, some, String, arith, true, false, length,
  lt→leb,
}
use grooveproxy.Base.Int64.{ℤ, pos, negsuc, pos-+ℤ}
use grooveproxy.Lru.Callbacks.{Backend}
use grooveproxy.Lru.Purge.{purge_step}
use grooveproxy.Lru.Recency.{Element, back, length_int64}
use grooveproxy.Lru.{
  LruCache, over_limit, purge, forget, delete_with_protection, make_room, drop_old, has,
  allocate_space, allocate_and_store, set,
}

module _ {S : Type 0} (b : Backend S) where
  -- Deleting a key that the index does not know changes nothing but the backing store.
  delete_unindexed :
      (c : LruCache S) (k : String)
      → c.key_to_element k ≡ none
      → delete_with_protection b c k ≡ record c { backing_cache = b.delete_key c.backing_cache k }
  unfolding delete_with_protection forget
  delete_unindexed c k h = rw (h, forget)

  -- If the value does not fit and the oldest entry is not in the index, then the loop of `Set` never
  -- ends: no amount of fuel gives a result.
  pub purge_stuck :
      (fuel : ℕ) (c : LruCache S) (size : ℤ) (oldest : Element)
      → over_limit c size ≡ true
      → back c.ordered_cache_keys ≡ some oldest
      → c.key_to_element oldest.key ≡ none
      → purge b fuel c size ≡ none
  unfolding purge over_limit
  purge_stuck zero c size oldest over last unknown = refl
  purge_stuck (suc fuel) c size oldest over last unknown =
      rw (purge_step b fuel c size oldest over last, delete_unindexed c oldest.key unknown)
        (purge_stuck fuel (record c { backing_cache = b.delete_key c.backing_cache oldest.key })
          size oldest over last unknown)

  -- Under the limit -1, while the sizes stay below 2 ^ 63, no value is stored: a value that is not there
  -- yet leaves the cache as it was, with no error.
  set_minus_one :
      (fuel : ℕ) (c : LruCache S) (k : String) (v : List ℕ) (w : ℕ)
      → c.max_size ≡ negsuc 0
      → c.current_size ≡ pos w
      → w + length v < 2 ^ 63
      → has b c k ≡ false
      → set b fuel c k v ≡ some (c, none)
  unfolding set drop_old make_room allocate_and_store allocate_space length_int64
  set_minus_one fuel c k v w lim cur small missing =
      rw (missing, lim, cur, pos-+ℤ w (length v) small, lt→leb (w + length v + 1) 0 (omega arith))
        refl
