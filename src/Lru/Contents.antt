-- ===== src/Lru/Contents.antt =====
-- groove/proxy/cache/lru.go: what the backing store of an `LRUCache` holds after deletions and
-- purges, against the recency list.
use grooveproxy.Base.{
  ℕ, ◌≡◌, refl, sym, List, none, some, String, ite, string_dec, arith, inl, inr, ◌⊎◌, length,
  is_some, Option-cases,
}
use grooveproxy.Base.Int64.{ℤ, pos}
use grooveproxy.Lru.Callbacks.{Backend, IsStore}
use grooveproxy.Lru.Entries.{find_key-remove_key, remove_key_missing}
use grooveproxy.Lru.Linked.{IsLinked, delete-IsLinked, delete-ordered, delete-max_size}
use grooveproxy.Lru.Purge.{purge_inv}
use grooveproxy.Lru.Recency.{Element, find_key, remove_key}
use grooveproxy.Lru.{LruCache, forget, delete_with_protection, purge, drop_old, has}

forget-backing :
    {S : Type 0} (c : LruCache S) (k : String) → (forget c k).backing_cache ≡ c.backing_cache
unfolding forget
forget-backing c k = ground arith

module _ {S : Type 0} (b : Backend S) (store : IsStore b) where
  open store use {view}

  -- The list names exactly the stored keys, with the sizes of their values.
  pub record IsStored (c : LruCache S) : Type 0 where
    pub listed :
        (j : String) → is_some (view c.backing_cache j) ≡ is_some (find_key j c.ordered_cache_keys)
    pub sized :
        (j : String) (e : Element) (v : List ℕ)
        → find_key j c.ordered_cache_keys ≡ some e
        → view c.backing_cache j ≡ some v
        → e.size ≡ pos (length v)

  pub delete-view :
      (c : LruCache S) (k j : String)
      → view (delete_with_protection b c k).backing_cache j
        ≡ ite (string_dec k j) none (view c.backing_cache j)
  unfolding delete_with_protection
  delete-view c k j = rw (forget-backing c k) (store.delete_view c.backing_cache k j)

  find_key-delete :
      (c : LruCache S) (k j : String)
      → IsLinked c
      → find_key j (delete_with_protection b c k).ordered_cache_keys
        ≡ ite (string_dec k j) none (find_key j c.ordered_cache_keys)
  find_key-delete c k j v =
      rw (delete-ordered b c k v)
        (find_key-remove_key c.next_element k j c.ordered_cache_keys v.proper)

  -- A deletion from a linked cache keeps the list and the backing store in agreement: the list names
  -- exactly the stored keys, with the sizes of their values.
  pub delete-IsStored :
      (c : LruCache S) (k : String)
      → IsLinked c
      → IsStored c
      → IsStored (delete_with_protection b c k)
  delete-IsStored c k v s = record {
    listed = λ j. rw (delete-view c k j, find_key-delete c k j v) (ground (arith, s.listed j));
    sized = λ j e x found stored.
        ground (arith, delete-view c k j, find_key-delete c k j v, s.sized j e x);
  }

  -- Every key reads as before, or is no longer listed.
  abbrev pub Keeps : LruCache S → LruCache S → Type 0
  Keeps c d =
      (j : String)
      → (view d.backing_cache j ≡ view c.backing_cache j) ⊎ (find_key j d.ordered_cache_keys ≡ none)

  abbrev Purged : LruCache S → LruCache S → Type 0
  Purged c d = IsLinked d × IsStored d × Keeps c d

  delete-Purged :
      (c d : LruCache S) (k : String) → Purged c d → Purged c (delete_with_protection b d k)
  delete-Purged c d k (v, s, same) = (
    delete-IsLinked b d k v,
    delete-IsStored d k v s,
    λ j. ground (arith, same j, delete-view d k j, find_key-delete d k j v),
  )

  pub purge-Purged :
      (fuel : ℕ) (c : LruCache S) (size : ℤ) {d : LruCache S}
      → IsLinked c
      → IsStored c
      → purge b fuel c size ≡ some d
      → Purged c d
  purge-Purged fuel c size v s ran =
      purge_inv b (Purged c) size (λ d e last h. delete-Purged c d e.key h) fuel c
        (v, s, λ j. inl refl) ran

  -- The first step of `Set`.
  pub record Drops (c : LruCache S) (k : String) (d : LruCache S) : Type 0 where
    pub linked : IsLinked d
    pub stored : IsStored d
    pub keys : d.ordered_cache_keys ≡ remove_key k c.ordered_cache_keys
    pub limit : d.max_size ≡ c.max_size
    pub values :
        (j : String) → view d.backing_cache j ≡ ite (string_dec k j) none (view c.backing_cache j)

  pub drop_old-Drops :
      (c : LruCache S) (k : String) → IsLinked c → IsStored c → Drops c k (drop_old b c k)
  unfolding drop_old has
  drop_old-Drops c k v s = elim (Option-cases (view c.backing_cache k)) [
    | inr (x, stored) ↦
        rw (store.has_view c.backing_cache k, stored)
          (record {
            linked = delete-IsLinked b c k v;
            stored = delete-IsStored c k v s;
            keys = delete-ordered b c k v;
            limit = delete-max_size b c k;
            values = delete-view c k;
          })
    | inl missing ↦
        rw (store.has_view c.backing_cache k, missing)
          (record {
            linked = v;
            stored = s;
            keys = sym (remove_key_missing k c.ordered_cache_keys (ground (arith, s.listed k)));
            limit = refl;
            values = λ j. ground (arith, missing);
          })
  ]
