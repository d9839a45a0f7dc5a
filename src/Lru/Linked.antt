-- ===== src/Lru/Linked.antt =====
-- groove/proxy/cache/lru.go: the recency list, the key index and the size counter of `LRUCache`
-- agree, and `Get`, `Delete` and `DeleteAll` keep it so.
use grooveproxy.Base.{
  ℕ, ◌+◌, ◌^◌, ◌<◌, ◌≡◌, refl, sym, ◌∙◌, List, [], ◌∷◌, none, some, String, ite, string_dec, All,
  arith, ap, inl, inr, Option-cases,
}
use grooveproxy.Base.Int64.{pos, pos_part, ◌+ℤ◌, pos--ℤ, pos-+ℤ}
use grooveproxy.Lru.Callbacks.{Backend}
use grooveproxy.Lru.Entries.{
  All-find_key, find_key_key, remove_key_missing, remove_element-find_key, is_element-find_key,
  remove_key-IsProper, find_key-remove_key, weight-remove_key, cons-remove_key-IsProper,
  weight-remove_key-le, IsProper-suc, fresh-Apart,
}
use grooveproxy.Lru.Recency.{
  CacheMetadata, Element, move_to_front, find_key, remove_key, weight, IsProper,
}
use grooveproxy.Lru.{
  LruCache, new_lru_cache, push_front, get, forget, delete_with_protection, delete_all,
}

-- The index finds exactly the entries of the list, each once, and the counter is their total size.
pub record IsLinked {S : Type 0} (c : LruCache S) : Type 0 where
  pub proper : IsProper c.next_element c.ordered_cache_keys
  pub indexed : (k : String) → c.key_to_element k ≡ find_key k c.ordered_cache_keys
  pub counted : c.current_size ≡ pos (weight c.ordered_cache_keys)
  pub small : weight c.ordered_cache_keys < 2 ^ 63

pub new_lru_cache-IsLinked :
    {S : Type 0} (s : S) (max_size : ℕ) → IsLinked (new_lru_cache s (pos 0) (pos max_size))
unfolding new_lru_cache find_key weight
new_lru_cache-IsLinked s max_size = record {
  proper = tt;
  indexed = λ k. refl;
  counted = refl;
  small = omega arith;
}

pub size_of :
    (n : ℕ) (l : List Element) → IsProper n l → All (λ e. e.size ≡ pos (pos_part e.size)) l
size_of n [] h = tt
size_of n (x ∷ xs) h = (h.2, size_of n xs h.3)

module _ {S : Type 0} where
  -- Forgetting a key removes its entry from the list, and frees its size.
  pub forget-ordered :
      (c : LruCache S) (k : String)
      → IsLinked c
      → (forget c k).ordered_cache_keys ≡ remove_key k c.ordered_cache_keys
  unfolding forget
  forget-ordered c k v = elim (Option-cases (find_key k c.ordered_cache_keys)) [
    | inl missing ↦
        rw (v.indexed k ∙ missing, forget) (sym (remove_key_missing k c.ordered_cache_keys missing))
    | inr (e, found) ↦
        rw (v.indexed k ∙ found, forget)
          (remove_element-find_key c.next_element k c.ordered_cache_keys found v.proper)
  ]

  forget-counted :
      (c : LruCache S) (k : String)
      → IsLinked c
      → (forget c k).current_size ≡ pos (weight (remove_key k c.ordered_cache_keys))
  unfolding forget
  forget-counted c k v = elim (Option-cases (find_key k c.ordered_cache_keys)) [
    | inl missing ↦
        rw (v.indexed k ∙ missing, forget, remove_key_missing k c.ordered_cache_keys missing)
          v.counted
    | inr (e, found) ↦
        let total = weight-remove_key k c.ordered_cache_keys found in
        let sized : e.size ≡ pos (pos_part e.size) =
          All-find_key _ k c.ordered_cache_keys found (size_of _ c.ordered_cache_keys v.proper) in
        rw (v.indexed k ∙ found, forget, v.counted, sized)
          (pos--ℤ _ _ (omega arith) v.small ∙ ap pos (omega arith))
  ]

  forget-indexed :
      (c : LruCache S) (k : String)
      → IsLinked c
      → (j : String)
      → (forget c k).key_to_element j ≡ ite (string_dec k j) none (find_key j c.ordered_cache_keys)
  unfolding forget
  forget-indexed c k v j = elim (Option-cases (find_key k c.ordered_cache_keys)) [
    | inl missing ↦ rw (v.indexed k ∙ missing, forget) (ground (arith, v.indexed j))
    | inr (e, found) ↦ rw (v.indexed k ∙ found, forget) (ground (arith, v.indexed j))
  ]

  forget-next_element : (c : LruCache S) (k : String) → (forget c k).next_element ≡ c.next_element
  unfolding forget
  forget-next_element c k = ground arith

  pub forget-max_size : (c : LruCache S) (k : String) → (forget c k).max_size ≡ c.max_size
  unfolding forget
  forget-max_size c k = ground arith

  pub forget-IsLinked : (c : LruCache S) (k : String) → IsLinked c → IsLinked (forget c k)
  forget-IsLinked c k v = record {
    proper =
        rw (forget-ordered c k v, forget-next_element c k)
          (remove_key-IsProper c.next_element k c.ordered_cache_keys v.proper);
    indexed = λ j. rw (forget-ordered c k v) (
        forget-indexed c k v j
        ∙ sym (find_key-remove_key c.next_element k j c.ordered_cache_keys v.proper));
    counted = rw (forget-ordered c k v) (forget-counted c k v);
    small =
        rw (forget-ordered c k v)
          (omega (arith, weight-remove_key-le k c.ordered_cache_keys, v.small));
  }

  -- The backing store is no part of it.
  pub with_backing :
      (c : LruCache S) (s : S) → IsLinked c → IsLinked (record c { backing_cache = s })
  with_backing c s v = record {
    proper = v.proper;
    indexed = v.indexed;
    counted = v.counted;
    small = v.small;
  }

  -- A new entry under a key that is not in the list.
  pub push_front-IsLinked :
      (c : LruCache S) (metadata : CacheMetadata) (n : ℕ)
      → IsLinked c
      → metadata.size ≡ pos n
      → find_key metadata.key c.ordered_cache_keys ≡ none
      → weight c.ordered_cache_keys + n < 2 ^ 63
      → IsLinked (push_front metadata (record c { current_size = c.current_size +ℤ metadata.size }))
  unfolding push_front find_key weight
  push_front-IsLinked c metadata n v sized missing fits = record {
    proper = (
      fresh-Apart c.next_element (record { id = c.next_element; value = metadata })
          c.ordered_cache_keys refl missing v.proper,
      omega arith,
      rw sized,
      IsProper-suc c.next_element c.ordered_cache_keys v.proper,
    );
    indexed = λ j. ground (arith, v.indexed j);
    counted =
        rw (v.counted, sized) (pos-+ℤ (weight c.ordered_cache_keys) n fits ∙ ap pos (omega arith));
    small = rw sized (omega arith);
  }

module _ {S : Type 0} (b : Backend S) where
  pub delete-IsLinked :
      (c : LruCache S) (k : String) → IsLinked c → IsLinked (delete_with_protection b c k)
  unfolding delete_with_protection
  delete-IsLinked c k v = with_backing (forget c k) _ (forget-IsLinked c k v)

  pub delete-ordered :
      (c : LruCache S) (k : String)
      → IsLinked c
      → (delete_with_protection b c k).ordered_cache_keys ≡ remove_key k c.ordered_cache_keys
  unfolding delete_with_protection
  delete-ordered c k v = forget-ordered c k v

  pub delete-max_size :
      (c : LruCache S) (k : String) → (delete_with_protection b c k).max_size ≡ c.max_size
  unfolding delete_with_protection
  delete-max_size c k = forget-max_size c k

  pub delete_all-IsLinked : (c : LruCache S) → IsLinked (delete_all b c)
  unfolding delete_all find_key weight
  delete_all-IsLinked c = record {
    proper = tt;
    indexed = λ k. refl;
    counted = refl;
    small = omega arith;
  }

  -- In a linked cache a hit moves its entry to the front of the list and keeps the order of the others.
  get-ordered :
      (c : LruCache S) (k : String) {e : Element}
      → IsLinked c
      → find_key k c.ordered_cache_keys ≡ some e
      → (get b c k).0.ordered_cache_keys ≡ e ∷ remove_key k c.ordered_cache_keys
  unfolding get move_to_front
  get-ordered c k {e} v found =
      rw (v.indexed k ∙ found, get, is_element-find_key k c.ordered_cache_keys found)
        (ap (◌∷◌ e) (remove_element-find_key c.next_element k c.ordered_cache_keys found v.proper))

  get_moved-IsLinked :
      (c : LruCache S) (k : String) (e : Element)
      → IsLinked c
      → find_key k c.ordered_cache_keys ≡ some e
      → IsLinked (record c { ordered_cache_keys = e ∷ remove_key k c.ordered_cache_keys })
  unfolding weight find_key
  get_moved-IsLinked c k e v found = record {
    proper = cons-remove_key-IsProper c.next_element k c.ordered_cache_keys found v.proper;
    indexed = λ j. ground (
      arith,
      found,
      v.indexed j,
      find_key_key k c.ordered_cache_keys found,
      find_key-remove_key c.next_element k j c.ordered_cache_keys v.proper,
    );
    counted = rw v.counted (ap pos (omega (arith, total)));
    small = omega (arith, total, v.small);
  }
    where
      total :
          weight (remove_key k c.ordered_cache_keys) + pos_part e.size ≡ weight c.ordered_cache_keys
      total = weight-remove_key k c.ordered_cache_keys found

  pub get-IsLinked : (c : LruCache S) (k : String) → IsLinked c → IsLinked (get b c k).0
  unfolding get move_to_front
  get-IsLinked c k v = elim (Option-cases (find_key k c.ordered_cache_keys)) [
    | inl missing ↦ rw (v.indexed k ∙ missing, get) v
    | inr (e, found) ↦
        rw
          (
            v.indexed k ∙ found,
            get,
            is_element-find_key k c.ordered_cache_keys found,
            remove_element-find_key c.next_element k c.ordered_cache_keys found v.proper,
          )
          (get_moved-IsLinked c k e v found)
  ]
