-- ===== src/Lru/Outcome.antt =====
-- groove/proxy/cache/lru.go: every way that `Set` ends on a sound cache.
use grooveproxy.Base.{
  ℕ, ◌+◌, ◌^◌, ◌≤◌, ◌<◌, ◌≡◌, ◌≢◌, refl, ◌∙◌, List, ◌∷◌, Option, none, some, String, if_pos,
  string_dec, arith, ap, inl, inr, ◌⊎◌, length, Option-cases,
}
use grooveproxy.Base.Int64.{pos, pos-+ℤ, pos--ℤ, ◌+ℤ◌, ◌-ℤ◌}
use grooveproxy.Lru.Callbacks.{Backend, IsStore}
use grooveproxy.Lru.Contents.{IsStored}
use grooveproxy.Lru.Linked.{IsLinked, push_front-IsLinked, with_backing}
use grooveproxy.Lru.Purge.{kept}
use grooveproxy.Lru.Recency.{CacheMetadata, Element, find_key, remove_key, weight}
use grooveproxy.Lru.Set.{
  IsSound, Readies, set-Readies, allocate_fitting, weight-kept, find_key-kept,
  find_key-remove_key_self,
}
use grooveproxy.Lru.{LruCache, store, push_front, set, allocate_and_store}

module _ {S : Type 0} (b : Backend S) (sto : IsStore b) where
  open sto use {view}

  -- A key other than `k` reads as before, or has been purged.
  abbrev pub Others : LruCache S → String → LruCache S → Type 0
  Others c k d =
      (j : String)
      → k ≢ j
      → (view d.backing_cache j ≡ view c.backing_cache j) ⊎ (find_key j d.ordered_cache_keys ≡ none)

  -- The value is stored: it reads back, its entry is the freshest, and behind it stand the freshest
  -- entries of the others that leave room for it.
  pub record Stores (m : ℕ) (c : LruCache S) (k : String) (v : List ℕ) (d : LruCache S)
      : Type 0 where
    pub sound : IsSound b sto m d
    pub reads : view d.backing_cache k ≡ some v
    pub front :
        (x : Element) × (x.key ≡ k)
        × (d.ordered_cache_keys ≡ x ∷ kept m (length v) (remove_key k c.ordered_cache_keys))
    pub others : Others c k d

  -- The write failed: the size is given back, and the entry of `k` and those purged are gone.
  pub record Fails (m : ℕ) (c : LruCache S) (k : String) (v : List ℕ) (d : LruCache S)
      : Type 0 where
    pub linked : IsLinked d
    pub limit : d.max_size ≡ pos m
    pub within : weight d.ordered_cache_keys ≤ m
    pub keys : d.ordered_cache_keys ≡ kept m (length v) (remove_key k c.ordered_cache_keys)
    pub others : Others c k d

  module _ (m : ℕ) (c p : LruCache S) (k : String) (v : List ℕ) (s : IsSound b sto m c)
      (r : Readies b sto m (length v) c k p) (fits : length v ≤ m) (small : m < 2 ^ 63) where
    abbrev metadata : CacheMetadata
    metadata = record { key = k; size = pos (length v) }

    abbrev entry : Element
    entry = record { id = p.next_element; value = metadata }

    abbrev allocated : LruCache S
    allocated = record p { current_size = p.current_size +ℤ pos (length v) }

    abbrev written : S
    written = (b.set_value p.backing_cache k v).0

    missing : find_key k p.ordered_cache_keys ≡ none
    missing = rw r.keys (
        find_key-kept m (length v) k (remove_key k c.ordered_cache_keys)
          (find_key-remove_key_self c.next_element k c.ordered_cache_keys s.linked.proper))

    room : weight p.ordered_cache_keys + length v ≤ m
    room = rw r.keys (weight-kept m (length v) (remove_key k c.ordered_cache_keys) fits)

    pushed-IsStored :
        (b.set_value p.backing_cache k v).1 ≡ none
        → IsStored b sto (push_front metadata (record allocated { backing_cache = written }))
    unfolding push_front find_key
    pushed-IsStored wrote = record {
      listed = λ j. ground (arith, sto.set_view p.backing_cache k v wrote j, r.stored.listed j);
      sized = λ j e x found stored.
          ground (arith, sto.set_view p.backing_cache k v wrote j, r.stored.sized j e x);
    }

    store-Stores :
        (b.set_value p.backing_cache k v).1 ≡ none
        → (d : LruCache S) × (store b allocated metadata v ≡ (d, none)) × Stores m c k v d
    unfolding store push_front weight find_key
    store-Stores wrote = (
      push_front metadata (record allocated { backing_cache = written }),
      rw (wrote, store),
      record {
        sound = record {
          linked = with_backing (push_front metadata allocated) written (
              push_front-IsLinked p metadata (length v) r.linked refl missing
                (omega (arith, room)));
          stored = pushed-IsStored wrote;
          limit = r.limit;
          within = omega (arith, room);
        };
        reads = sto.set_view p.backing_cache k v wrote k ∙ if_pos (string_dec k k) refl _ _;
        front = (entry, refl, ap (◌∷◌ entry) r.keys);
        others = λ j other.
            ground (arith, other, sto.set_view p.backing_cache k v wrote j, r.values j other);
      },
    )

    store-Fails :
        (e : String)
        → (b.set_value p.backing_cache k v).1 ≡ some e
        → (d : LruCache S) × (store b allocated metadata v ≡ (d, some e)) × Fails m c k v d
    unfolding store
    store-Fails e failed = (
      record allocated {
        backing_cache = written;
        current_size = allocated.current_size -ℤ pos (length v);
      },
      rw (failed, store),
      record {
        linked = record {
          proper = r.linked.proper;
          indexed = r.linked.indexed;
          counted = given_back;
          small = r.linked.small;
        };
        limit = r.limit;
        within = omega (arith, room);
        keys = r.keys;
        others = λ j other.
            ground (arith, other, sto.set_failed p.backing_cache k v j other, r.values j other);
      },
    )
      where
        given_back : allocated.current_size -ℤ pos (length v) ≡ pos (weight p.ordered_cache_keys)
        given_back =
            rw
              (
                r.linked.counted,
                pos-+ℤ (weight p.ordered_cache_keys) (length v) (omega (arith, room)),
              )
              (pos--ℤ _ (length v) (omega arith) (omega (arith, room)) ∙ ap pos (omega arith))

  -- How `Set` ends when the value alone is within the limit.
  abbrev pub Returns : ℕ → LruCache S → String → List ℕ → LruCache S × Option String → Type 0
  Returns m c k v r =
      ((r.1 ≡ none) × Stores m c k v r.0)
      ⊎ ((e : String) × (r.1 ≡ some e)
          × (w : S) × ((b.set_value w k v).1 ≡ some e)
          × Fails m c k v r.0)

  -- On a sound cache `Set` of a value within the limit always returns, given more fuel than entries
  -- and sizes below 2 ^ 63. Either it reports no error and the value is stored as the freshest
  -- entry, every other key reading as before unless it was purged, and the cache sound again; or the
  -- write failed, the error is reported, and the list, the index and the size counter still agree.
  pub set-Returns :
      (fuel m : ℕ) (c : LruCache S) (k : String) (v : List ℕ)
      → IsSound b sto m c
      → length c.ordered_cache_keys < fuel
      → m + length v < 2 ^ 63
      → length v ≤ m
      → (r : LruCache S × Option String) × (set b fuel c k v ≡ some r) × Returns m c k v r
  set-Returns fuel m c k v s f small fits = finish (set-Readies b sto fuel m c k v s f small)
    where
      allocated :
          (p : LruCache S)
          → Readies b sto m (length v) c k p
          → let metadata : CacheMetadata = record { key = k; size = pos (length v) } in
            allocate_and_store b p metadata v
            ≡ store b (record p { current_size = p.current_size +ℤ metadata.size }) metadata v
      allocated p ready =
          allocate_fitting b sto p m (weight p.ordered_cache_keys) k v ready.limit
            ready.linked.counted (omega arith)
            (rw ready.keys (weight-kept m (length v) (remove_key k c.ordered_cache_keys) fits))

      finish :
          (p : LruCache S) × Readies b sto m (length v) c k p
            × (set b fuel c k v
                ≡ some (allocate_and_store b p (record { key = k; size = pos (length v) }) v))
          → (r : LruCache S × Option String) × (set b fuel c k v ≡ some r) × Returns m c k v r
      finish (p, ready, ran) = elim (Option-cases (b.set_value p.backing_cache k v).1) [
        | inl wrote ↦
            let (d, stored, done) = store-Stores m c p k v s ready fits (omega arith) wrote in
            ((d, none), ran ∙ ap some (allocated p ready ∙ stored), inl (refl, done))
        | inr (e, failed) ↦
            let (d, stored, done) = store-Fails m c p k v s ready fits (omega arith) e failed in
            (
              (d, some e),
              ran ∙ ap some (allocated p ready ∙ stored),
              inr (e, refl, p.backing_cache, failed, done),
            )
      ]

  -- Where the backing store never refuses the value, it is stored.
  pub set-Stores :
      (fuel m : ℕ) (c : LruCache S) (k : String) (v : List ℕ)
      → IsSound b sto m c
      → length c.ordered_cache_keys < fuel
      → m + length v < 2 ^ 63
      → length v ≤ m
      → ((w : S) → (b.set_value w k v).1 ≡ none)
      → (d : LruCache S) × (set b fuel c k v ≡ some (d, none)) × Stores m c k v d
  set-Stores fuel m c k v s f small fits accepts = stored (set-Returns fuel m c k v s f small fits)
    where
      stored :
          (r : LruCache S × Option String) × (set b fuel c k v ≡ some r) × Returns m c k v r
          → (d : LruCache S) × (set b fuel c k v ≡ some (d, none)) × Stores m c k v d
      stored ((d, failure), ran, inl (fine, done)) = (d, ran ∙ ap (λ x. some (d, x)) fine, done)
      stored (r, ran, inr (e, _, w, failed, _)) = cc (accepts w)
