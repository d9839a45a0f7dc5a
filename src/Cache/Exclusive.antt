-- ===== src/Cache/Exclusive.antt =====
-- groove/proxy/cache.go: the calls that hold the lock of an address, between `AcquireRequestLock` and
-- `ReleaseRequestLock`.
use grooveproxy.Base.{
  ℕ, suc, ◌+◌, ◌-◌, ◌^◌, ◌≤◌, ◌<◌, ◌≡◌, ◌↔◌, refl, sym, ◌∙◌, ap, subst, Bool, true, false, List, [],
  ◌∷◌, Option, none, some, String, string_dec, ite, if_pos, if_neg, StringMap, arith, inl, inr,
  length, Option-cases, Bool-cases,
}
use grooveproxy.Cache.{
  Cache, CacheMode, is_off, new_cache, ensure_lock, begin_acquire, finish_acquire,
  release_request_lock,
}
use grooveproxy.Cache.Acquire.{finish_lem, release_lem, finish-free}
use grooveproxy.Cache.Locks
use grooveproxy.Cache.Locks.{IsCounted, Reach-IsCounted}
use grooveproxy.Cache.Waiting.{waiting_for, one_less, waiting_for-one_less, insert-P}
use grooveproxy.Invalidator.{CacheInvalidator}
use grooveproxy.Lru.Recency.{CacheMetadata}

-- How many calls hold an address, by its lock: one while it is locked, and none else.
abbrev Holds : Option Bool → ℕ → Type 0
Holds none n = n ≡ 0
Holds (some false) n = n ≡ 0
Holds (some true) n = n ≡ 1

-- A lock that is made is free.
Holds-ensure :
    (m : StringMap Bool) (url v : String) (n : ℕ) → Holds (m v) n → Holds (ensure_lock m url v) n
unfolding ensure_lock
Holds-ensure m url v n before = elim (Option-cases (m url)) [
  | inr (locked, there) ↦ rw (there, ensure_lock) before
  | inl missing ↦
      rw (missing, ensure_lock)
        (insert-P Holds m url v false n n before
          (λ e. subst (λ o. Holds o n) missing (subst (λ x. Holds (m x) n) (sym e) before))
          (λ ne. refl))
]

Holds-iff : (o : Option Bool) (n : ℕ) → Holds o n → (n ≤ 1) × ((o ≡ some true) ↔ (n ≡ 1))
Holds-iff none n h =
    (omega (arith, h), ((λ e. ground (arith, e)), λ e. absurd (omega (arith, h, e))))
Holds-iff (some false) n h =
    (omega (arith, h), ((λ e. ground (arith, e)), λ e. absurd (omega (arith, h, e))))
Holds-iff (some true) n h = (omega (arith, h), ((λ e. h), λ e. refl))

module _ {D : Type 0} where
  -- The cache with the addresses of the calls that wait for a lock, and of those that hold one. Each
  -- call releases the lock that it holds.
  pub data Step
      : Cache D × List String × List String → Cache D × List String × List String → Type 0 where
    begins :
        (c : Cache D) (ws hs : List String) (url : String)
        → is_off c.mode ≡ false
        → length ws + 1 < 2 ^ 63
        → Step (c, ws, hs) (begin_acquire c url, url ∷ ws, hs)
    finishes :
        (c c' : Cache D) (ws hs : List String) (url : String)
        → 0 < waiting_for url ws
        → finish_acquire c url ≡ some c'
        → Step (c, ws, hs) (c', one_less url ws, url ∷ hs)
    releases :
        (c : Cache D) (ws hs : List String) (url : String)
        → 0 < waiting_for url hs
        → Step (c, ws, hs) (release_request_lock c url, ws, one_less url hs)
    sets_mode :
        (c : Cache D) (ws hs : List String) (m : CacheMode)
        → Step (c, ws, hs) (record c { mode = m }, ws, hs)
    stores :
        (c : Cache D) (ws hs : List String) (d : CacheInvalidator D)
        → Step (c, ws, hs) (record c { cache_disk_cache = d }, ws, hs)

  pub data Reach (disk : D) (index_file : Option (List CacheMetadata))
      : Cache D × List String × List String → Type 0 where
    start : (size : ℕ) → Reach disk index_file (new_cache disk index_file size, [], [])
    step :
        {s s' : Cache D × List String × List String}
        → Reach disk index_file s
        → Step s s'
        → Reach disk index_file s'

  -- Who holds the locks forgotten, these are the steps of `Locks`.
  Step-Step :
      {s s' : Cache D × List String × List String} → Step s s' → Locks.Step (s.0, s.1) (s'.0, s'.1)
  Step-Step (begins c ws hs url on small) = Locks.begins c ws url on small
  Step-Step (finishes c c' ws hs url some_wait ran) = Locks.finishes c c' ws url some_wait ran
  Step-Step (releases c ws hs url held) = Locks.releases c ws url
  Step-Step (sets_mode c ws hs m) = Locks.sets_mode c ws m
  Step-Step (stores c ws hs d) = Locks.stores c ws d

  Reach-Reach :
      {disk : D} {index_file : Option (List CacheMetadata)}
      {s : Cache D × List String × List String}
      → Reach disk index_file s
      → Locks.Reach disk index_file (s.0, s.1)
  Reach-Reach (start size) = Locks.start size
  Reach-Reach (step reach s) = Locks.step (Reach-Reach reach) (Step-Step s)

  abbrev AreHeld : Cache D × List String × List String → Type 0
  AreHeld s = (v : String) → Holds (s.0.inflight_requests v) (waiting_for v s.2)

  Step-AreHeld : {s s' : Cache D × List String × List String} → Step s s' → AreHeld s → AreHeld s'
  unfolding begin_acquire waiting_for
  Step-AreHeld (begins c ws hs url on small) i v =
      rw (on, begin_acquire) (Holds-ensure c.inflight_requests url v (waiting_for v hs) (i v))
  Step-AreHeld (finishes c c' ws hs url some_wait ran) i v =
      let (free, locks, blocking) = finish_lem c c' url ran in
      let n = waiting_for v hs in
      rw locks (
        insert-P Holds c.inflight_requests url v true n (ite (string_dec url v) (suc n) n) (i v)
          (λ e.
            if_pos (string_dec url v) e _ _
            ∙ ap suc (
                subst (λ o. Holds o n) free
                  (subst (λ x. Holds (c.inflight_requests x) n) (sym e) (i v))))
          (λ ne. if_neg (string_dec url v) ne _ _))
  Step-AreHeld (releases c ws hs url held) i v = elim (release_lem c url) [
    | inl (missing, same) ↦ absurd (
        let none_hold = subst (λ o. Holds o (waiting_for url hs)) missing (i url) in
        omega (arith, held, none_hold))
    | inr freed ↦
        let n = waiting_for v hs in
        rw (freed, waiting_for-one_less url v hs)
          (insert-P Holds c.inflight_requests url v false n (ite (string_dec url v) (n - 1) n) (i v)
            (λ e.
              if_pos (string_dec url v) e _ _
              ∙ (let (one, locked) = Holds-iff (c.inflight_requests v) n (i v) in
                  omega (arith, one)))
            (λ ne. if_neg (string_dec url v) ne _ _))
  ]
  Step-AreHeld (sets_mode c ws hs m) i v = i v
  Step-AreHeld (stores c ws hs d) i v = i v

  Reach-AreHeld :
      {disk : D} {index_file : Option (List CacheMetadata)}
      {s : Cache D × List String × List String}
      → Reach disk index_file s
      → AreHeld s
  unfolding new_cache waiting_for
  Reach-AreHeld (start size) v = refl
  Reach-AreHeld (step reach s) v = Step-AreHeld s (Reach-AreHeld reach) v

  -- If every call releases just the lock that it holds, and fewer than 2 ^ 63 calls wait at a time,
  -- then in every state that can be reached at most one call holds an address, and one does exactly
  -- if its lock is locked. While none holds it, a call that waits for it can go on, whatever the mode
  -- is set to in between.
  pub Reach-exclusive :
      {disk : D} {index_file : Option (List CacheMetadata)} (c : Cache D) (ws hs : List String)
      (url : String)
      → Reach disk index_file (c, ws, hs)
      → (waiting_for url hs ≤ 1)
        × ((c.inflight_requests url ≡ some true) ↔ (waiting_for url hs ≡ 1))
        × (0 < waiting_for url ws
            → waiting_for url hs ≡ 0
            → (c' : Cache D) × (finish_acquire c url ≡ some c'))
  Reach-exclusive c ws hs url reach =
      let (one, locked) =
        Holds-iff (c.inflight_requests url) (waiting_for url hs) (Reach-AreHeld reach url) in
      let i = Reach-IsCounted (Reach-Reach reach) in
      (
        one,
        locked,
        λ some_wait free. elim (Option-cases (c.inflight_requests url)) [
          | inl missing ↦ absurd (i.has_lock url some_wait missing)
          | inr (b, there) ↦ elim (Bool-cases b) [
            | inl taken ↦
                absurd (let held = locked.0 (there ∙ ap some taken) in omega (arith, held, free))
            | inr unlocked ↦ finish-free c url (there ∙ ap some unlocked)
          ]
        ],
      )
