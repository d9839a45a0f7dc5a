-- ===== src/Cache/Locks.antt =====
-- groove/proxy/cache.go: the locks of the addresses, with the calls that wait for them.
use grooveproxy.Base.{
  ℕ, suc, ◌+◌, ◌-◌, ◌^◌, ◌<◌, ◌≡◌, ◌≢◌, refl, sym, ◌∙◌, ap, subst, true, false, List, [], ◌∷◌,
  Option, none, some, String, string_dec, ite, if_pos, if_neg, arith, inl, inr, length,
}
use grooveproxy.Base.Int64.{pos, ◌+ℤ◌, ◌-ℤ◌}
use grooveproxy.Cache.{
  Cache, CacheMode, is_off, new_cache, blocking_count, begin_acquire, finish_acquire,
  release_request_lock,
}
use grooveproxy.Invalidator.{CacheInvalidator}
use grooveproxy.Lru.Recency.{CacheMetadata}
use grooveproxy.Cache.Acquire.{
  ensure-lock, insert-none, finish_lem, release_lem, finish-free, finish-locked,
}
use grooveproxy.Cache.Waiting.{
  waiting_for, one_less, waiting_for-length, waiting_for-one_less, length-one_less, Counts,
  insert-P, count-one_up, count-one_down,
}

module _ {D : Type 0} where
  -- The cache with the addresses of the calls that stand before `lock.Lock()`.
  pub data Step : Cache D × List String → Cache D × List String → Type 0 where
    begins :
        (c : Cache D) (ws : List String) (url : String)
        → is_off c.mode ≡ false
        → length ws + 1 < 2 ^ 63
        → Step (c, ws) (begin_acquire c url, url ∷ ws)
    finishes :
        (c c' : Cache D) (ws : List String) (url : String)
        → 0 < waiting_for url ws
        → finish_acquire c url ≡ some c'
        → Step (c, ws) (c', one_less url ws)
    releases :
        (c : Cache D) (ws : List String) (url : String)
        → Step (c, ws) (release_request_lock c url, ws)
    sets_mode :
        (c : Cache D) (ws : List String) (m : CacheMode) → Step (c, ws) (record c { mode = m }, ws)
    stores :
        (c : Cache D) (ws : List String) (d : CacheInvalidator D)
        → Step (c, ws) (record c { cache_disk_cache = d }, ws)

  pub data Reach (disk : D) (index_file : Option (List CacheMetadata))
      : Cache D × List String → Type 0 where
    start : (size : ℕ) → Reach disk index_file (new_cache disk index_file size, [])
    step :
        {s s' : Cache D × List String}
        → Reach disk index_file s
        → Step s s'
        → Reach disk index_file s'

  -- Each count is the number of the calls that wait, and these wait for a lock that exists.
  pub record IsCounted (s : Cache D × List String) : Type 0 where
    pub counted : (url : String) → Counts (s.0.blocking_locks url) (waiting_for url s.1)
    pub has_lock : (url : String) → 0 < waiting_for url s.1 → s.0.inflight_requests url ≢ none
    pub few : length s.1 < 2 ^ 63

  begin-IsCounted :
      (c : Cache D) (ws : List String) (url : String)
      → is_off c.mode ≡ false
      → length ws + 1 < 2 ^ 63
      → IsCounted (c, ws)
      → IsCounted (begin_acquire c url, url ∷ ws)
  unfolding waiting_for begin_acquire
  begin-IsCounted c ws url on small i = rw on (record {
    counted = λ v.
        let n = waiting_for v ws in
        insert-P Counts c.blocking_locks url v (blocking_count c.blocking_locks url +ℤ pos 1) n
          (ite (string_dec url v) (suc n) n) (i.counted v)
          (λ e.
            ap (λ x. blocking_count c.blocking_locks url +ℤ pos 1) e
            ∙ count-one_up c.blocking_locks url n
                (subst (λ x. Counts (c.blocking_locks x) n) (sym e) (i.counted v))
                (let bound = waiting_for-length v ws in omega arith)
            ∙ ap pos
                (let s : n + 1 ≡ suc n = omega arith in s ∙ sym (if_pos (string_dec url v) e _ _)))
          (λ ne. if_neg (string_dec url v) ne _ _);
    has_lock = λ v some_wait gone.
        let (ne, missing) = ensure-lock c.inflight_requests url v gone in
        i.has_lock v (subst (λ x. 0 < x) (if_neg (string_dec url v) ne _ _) some_wait) missing;
    few = omega arith;
  })

  finish-IsCounted :
      (c c' : Cache D) (ws : List String) (url : String)
      → 0 < waiting_for url ws
      → finish_acquire c url ≡ some c'
      → IsCounted (c, ws)
      → IsCounted (c', one_less url ws)
  finish-IsCounted c c' ws url some_wait ran i =
      let (free, locks, blocking) = finish_lem c c' url ran in
      record {
        counted = λ v.
            let n = waiting_for v ws in
            let less = waiting_for-one_less url v ws in
            rw (blocking, less)
              (insert-P Counts c.blocking_locks url v (blocking_count c.blocking_locks url -ℤ pos 1)
                n (ite (string_dec url v) (n - 1) n) (i.counted v)
                (λ e.
                  count-one_down c.blocking_locks url n
                    (subst (λ x. Counts (c.blocking_locks x) n) (sym e) (i.counted v))
                    (subst (λ x. 0 < waiting_for x ws) e some_wait)
                    (let bound = waiting_for-length v ws in omega (arith, i.few))
                  ∙ ap pos (sym (if_pos (string_dec url v) e _ _)))
                (λ ne. if_neg (string_dec url v) ne _ _));
        has_lock = λ v still gone.
            let (ne, missing) =
              insert-none c.inflight_requests url v true (ap (λ m. m v) (sym locks) ∙ gone) in
            i.has_lock v
              (subst (λ x. 0 < x) (waiting_for-one_less url v ws ∙ if_neg (string_dec url v) ne _ _)
                still)
              missing;
        few = let bound = length-one_less url ws in omega (arith, i.few);
      }

  release-IsCounted :
      (c : Cache D) (ws : List String) (url : String)
      → IsCounted (c, ws)
      → IsCounted (release_request_lock c url, ws)
  release-IsCounted c ws url i = elim (release_lem c url) [
    | inl (missing, same) ↦ subst (λ x. IsCounted (x, ws)) (sym same) i
    | inr freed ↦
        subst (λ x. IsCounted (x, ws)) (sym freed)
          (record {
            counted = i.counted;
            has_lock = λ v some_wait gone.
                i.has_lock v some_wait (insert-none c.inflight_requests url v false gone).1;
            few = i.few;
          })
  ]

  Step-IsCounted : {s s' : Cache D × List String} → Step s s' → IsCounted s → IsCounted s'
  Step-IsCounted (begins c ws url on small) i = begin-IsCounted c ws url on small i
  Step-IsCounted (finishes c c' ws url some_wait ran) i =
      finish-IsCounted c c' ws url some_wait ran i
  Step-IsCounted (releases c ws url) i = release-IsCounted c ws url i
  Step-IsCounted (sets_mode c ws m) i = record {
    counted = i.counted;
    has_lock = i.has_lock;
    few = i.few;
  }
  Step-IsCounted (stores c ws d) i = record {
    counted = i.counted;
    has_lock = i.has_lock;
    few = i.few;
  }

  -- In every state that the cache can reach, with fewer than 2 ^ 63 calls waiting at a time, the
  -- count of an address is the number of the calls that wait for its lock, and such a lock exists.
  pub Reach-IsCounted :
      {disk : D} {index_file : Option (List CacheMetadata)} {s : Cache D × List String}
      → Reach disk index_file s
      → IsCounted s
  unfolding new_cache waiting_for
  Reach-IsCounted (start size) = record {
    counted = λ url. refl;
    has_lock = λ url some_wait gone. absurd (omega (arith, some_wait));
    few = omega arith;
  }
  Reach-IsCounted (step reach s) = Step-IsCounted s (Reach-IsCounted reach)

  -- In every state that the cache can reach, a release of an address lets a call that waits for it
  -- go on, whoever held the lock; then every other call that waits for it is held up until the next
  -- release.
  pub release_wakes :
      {disk : D} {index_file : Option (List CacheMetadata)} (c : Cache D) (ws : List String)
      (url : String)
      → Reach disk index_file (c, ws)
      → 0 < waiting_for url ws
      → (c' : Cache D) × (finish_acquire (release_request_lock c url) url ≡ some c')
        × (finish_acquire c' url ≡ none)
  release_wakes c ws url reach some_wait =
      let i = Reach-IsCounted reach in
      elim (release_lem c url) [
        | inl (missing, same) ↦ absurd (i.has_lock url some_wait missing)
        | inr freed ↦
            let free : (release_request_lock c url).inflight_requests url ≡ some false =
              ap (λ x. x.inflight_requests url) freed ∙ if_pos (string_dec url url) refl _ _ in
            let (c', ran) = finish-free (release_request_lock c url) url free in
            let (was_free, locks, blocking) = finish_lem (release_request_lock c url) c' url ran in
            (
              c',
              ran,
              finish-locked c' url (ap (λ m. m url) locks ∙ if_pos (string_dec url url) refl _ _),
            )
      ]
