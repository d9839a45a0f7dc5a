-- ===== src/Cache/Release.antt =====
-- groove/proxy/cache.go: `ReleaseRequestLock`, its `TryLock` and its `Unlock` as two steps, with other
-- calls between them.
use grooveproxy.Base.{
  ◌≡◌, refl, sym, ◌∙◌, ap, Bool, true, false, Option, none, some, String, if◌then◌else◌, string_dec,
  if_pos, insert, StringMap, arith,
}
use grooveproxy.Cache.{Cache, finish_acquire, release_request_lock}
use grooveproxy.Cache.Acquire.{finish-locked}

insert-again :
    (m : StringMap Bool) (url : String) (a b : Bool)
    → insert (insert m url a) url b ≡ insert m url b
insert-again m url a b = λ i v. at v i
  where
    at : (v : String) → insert (insert m url a) url b v ≡ insert m url b v
    at v = elim (string_dec url v) [
      | yes same ↦ ground (arith, same)
      | no other ↦ ground (arith, other)
    ]

module _ {D : Type 0} where
  -- `lock.TryLock()`: the lock is held afterwards, by this call or by another.
  unfoldable pub try_lock : Cache D → String → Cache D
  try_lock c url = elim (c.inflight_requests url) [
    | none ↦ c
    | some locked ↦ record c { inflight_requests = insert c.inflight_requests url true }
  ]

  -- `lock.Unlock()`; `none` is the fatal error of an unlock of a lock that is free.
  unfoldable pub unlock : Cache D → String → Option (Cache D)
  unlock c url = elim (c.inflight_requests url) [
    | none ↦ some c
    | some locked ↦
        if locked
        then some (record c { inflight_requests = insert c.inflight_requests url false })
        else none
  ]

  pub try_lock-locked :
      (c : Cache D) (url : String) (locked : Bool)
      → c.inflight_requests url ≡ some locked
      → (try_lock c url ≡ record c { inflight_requests = insert c.inflight_requests url true })
        × ((try_lock c url).inflight_requests url ≡ some true)
  unfolding try_lock
  try_lock-locked c url locked there = rw (there, try_lock) (refl, ground arith)

  pub unlock-locked :
      (c : Cache D) (url : String)
      → c.inflight_requests url ≡ some true
      → unlock c url ≡ some (record c { inflight_requests = insert c.inflight_requests url false })
  unfolding unlock
  unlock-locked c url there = ground (arith, there)

  unlock-free :
      (c : Cache D) (url : String) → c.inflight_requests url ≡ some false → unlock c url ≡ none
  unfolding unlock
  unlock-free c url there = ground (arith, there)

  release-of :
      (c : Cache D) (url : String) (locked : Bool)
      → c.inflight_requests url ≡ some locked
      → release_request_lock c url
        ≡ record c { inflight_requests = insert c.inflight_requests url false }
  unfolding release_request_lock
  release-of c url locked there = ground (arith, there)

  try-unlock :
      (c : Cache D) (url : String) (locked : Bool)
      → c.inflight_requests url ≡ some locked
      → unlock (try_lock c url) url ≡ some (release_request_lock c url)
  try-unlock c url locked there =
      let (tried, held) = try_lock-locked c url locked there in
      unlock-locked (try_lock c url) url held
      ∙ ap {A = Cache D}
          (λ x. some (record x { inflight_requests = insert x.inflight_requests url false })) tried
      ∙ ap (λ m. some (record c { inflight_requests = m }))
          (insert-again c.inflight_requests url true false)
      ∙ ap some (sym (release-of c url locked there))

  -- For an address that has a lock, held or free: the two steps of a release with nothing between
  -- them do not fail and free the lock, and between them no call acquires it. But where two calls
  -- release the address at the same time, both after their first step, the one that unlocks second
  -- ends the program, by the unlock of a lock that is free.
  pub release-overlap :
      (c : Cache D) (url : String) (locked : Bool)
      → c.inflight_requests url ≡ some locked
      → (unlock (try_lock c url) url ≡ some (release_request_lock c url))
        × ((release_request_lock c url).inflight_requests url ≡ some false)
        × (finish_acquire (try_lock c url) url ≡ none)
        × ((d : Cache D) × (unlock (try_lock (try_lock c url) url) url ≡ some d)
            × (unlock d url ≡ none))
  release-overlap c url locked there =
      let (tried, held) = try_lock-locked c url locked there in
      let freed = λ (x : Cache D) (b : Bool) (h : x.inflight_requests url ≡ some b).
        ap (λ y. y.inflight_requests url) (release-of x url b h)
        ∙ if_pos (string_dec url url) refl _ _ in
      (
        try-unlock c url locked there,
        freed c locked there,
        finish-locked (try_lock c url) url held,
        (
          release_request_lock (try_lock c url) url,
          try-unlock (try_lock c url) url true held,
          unlock-free (release_request_lock (try_lock c url) url) url
              (freed (try_lock c url) true held),
        ),
      )
