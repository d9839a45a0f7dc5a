-- ===== src/Lru/Oversized.antt =====
-- groove/proxy/cache/lru.go: `Set` of a value over the limit.
use grooveproxy.Base.{
  ℕ, ◌+◌, ◌^◌, ◌<◌, ◌≡◌, refl, ◌∙◌, List, [], none, some, String, arith, ap, length, lt→ltb,
}
use grooveproxy.Base.Int64.{pos}
use grooveproxy.Lru.Callbacks.{Backend, IsStore}
use grooveproxy.Lru.Contents.{IsStored}
use grooveproxy.Lru.Purge.{kept}
use grooveproxy.Lru.Recency.{Element, find_key, weight}
use grooveproxy.Lru.Set.{IsSound, set-Readies, allocate_oversized}
use grooveproxy.Lru.{LruCache, set}

weight-nil : weight [] ≡ 0
unfolding weight
weight-nil = refl

kept_oversized : (m n : ℕ) (l : List Element) → m < n → kept m n l ≡ []
unfolding kept
kept_oversized m n l h = rw (lt→ltb m n h)

module _ {S : Type 0} (b : Backend S) (sto : IsStore b) where
  open sto use {view}

  unlisted :
      (p : LruCache S) (j : String)
      → IsStored b sto p
      → p.ordered_cache_keys ≡ []
      → view p.backing_cache j ≡ none
  unfolding find_key
  unlisted p j stored empty = ground (arith, stored.listed j, ap (find_key j) empty)

  -- On a sound cache, given more fuel than entries and sizes below 2 ^ 63, a value over the limit is
  -- not stored, without an error, and every entry is purged for it; the cache stays sound.
  pub set_oversized :
      (fuel m : ℕ) (c : LruCache S) (k : String) (v : List ℕ)
      → IsSound b sto m c
      → length c.ordered_cache_keys < fuel
      → m + length v < 2 ^ 63
      → m < length v
      → (d : LruCache S) × (set b fuel c k v ≡ some (d, none))
        × IsSound b sto m d
        × (d.ordered_cache_keys ≡ [])
        × ((j : String) → view d.backing_cache j ≡ none)
  set_oversized fuel m c k v s f small big =
      let (p, ready, ran) = set-Readies b sto fuel m c k v s f small in
      let empty : p.ordered_cache_keys ≡ [] = ready.keys ∙ kept_oversized m _ _ big in
      let light : weight p.ordered_cache_keys ≡ 0 = ap weight empty ∙ weight-nil in
      (
        p,
        ran
            ∙ ap some (
                allocate_oversized b sto p m 0 k v ready.limit (ready.linked.counted ∙ ap pos light)
                  (omega arith) (omega arith)),
        record {
          linked = ready.linked;
          stored = ready.stored;
          limit = ready.limit;
          within = omega arith;
        },
        empty,
        λ j. unlisted p j ready.stored empty,
      )
