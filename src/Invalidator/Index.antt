-- ===== src/Invalidator/Index.antt =====
-- groove/proxy/cache/invalidator.go, `writeIndex`: what becomes of the index file while the proxy
-- runs.
use grooveproxy.Base.{ℕ, ◌<◌, ◌≡◌, ◌∙◌, Bool, List, some, String, Result, arith}
use grooveproxy.Invalidator.{
  Codec, CacheInvalidator, write_index, save_index, get_memory, get_disk, get, set, delete,
}
use grooveproxy.Lru.Callbacks.{Backend}
use grooveproxy.Lru.Recency.{CacheMetadata}

module _ {D A : Type 0} (b : Backend D) (codec : Codec A) where
  -- One operation, or one save that was started earlier. `Clear` is left out.
  pub data Step (c : CacheInvalidator D) : CacheInvalidator D → Type 0 where
    gets : (key : String) → Step c (get b codec c key).0
    sets :
        (fuel : ℕ) (key : String) (value : A) {d : CacheInvalidator D} {r : Result (Unit {0})}
        → set b codec fuel c key value ≡ some (d, r)
        → Step c d
    deletes : (key : String) → Step c (delete b codec c key)
    saves :
        (can_create : Bool) {d : CacheInvalidator D}
        → 0 < c.save_waiter
        → save_index can_create c ≡ some d
        → Step c d

  pub data Reach (c : CacheInvalidator D) : CacheInvalidator D → Type 0 where
    here : Reach c c
    next : {d e : CacheInvalidator D} → Reach c d → Step d e → Reach c e

  write_index-index_file : (c : CacheInvalidator D) → (write_index c).index_file ≡ c.index_file
  unfolding write_index
  write_index-index_file c = ground arith

  get-index_file :
      (c : CacheInvalidator D) (key : String) → (get b codec c key).0.index_file ≡ c.index_file
  unfolding get get_memory get_disk
  get-index_file c key = ground arith

  set-index_file :
      (fuel : ℕ) (c : CacheInvalidator D) (key : String) (value : A) {d : CacheInvalidator D}
      {r : Result (Unit {0})}
      → set b codec fuel c key value ≡ some (d, r)
      → d.index_file ≡ c.index_file
  unfolding set write_index
  set-index_file fuel c key value {d} {r} ran = ground arith

  Step-index_file :
      {c d : CacheInvalidator D} {f : List CacheMetadata}
      → Step c d
      → c.index_file ≡ some f
      → d.index_file ≡ some f
  unfolding delete save_index
  Step-index_file {c} (gets key) h = get-index_file c key ∙ h
  Step-index_file {c} (sets fuel key value ran) h = set-index_file fuel c key value ran ∙ h
  Step-index_file (deletes key) h = write_index-index_file _ ∙ h
  Step-index_file (saves can_create started ran) h = ground arith

  -- Once the index file exists, no operation and no save ever changes it, short of `Clear`: the
  -- recency list that a restart reads is the one of the first save.
  pub Reach-index_file :
      {c d : CacheInvalidator D} {f : List CacheMetadata}
      → Reach c d
      → c.index_file ≡ some f
      → d.index_file ≡ some f
  Reach-index_file here h = h
  Reach-index_file (next r s) h = Step-index_file s (Reach-index_file r h)
