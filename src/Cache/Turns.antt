-- ===== src/Cache/Turns.antt =====
-- groove/proxy/cache.go: the two steps of `ReleaseRequestLock` among the steps of other calls.
use grooveproxy.Base.{
  ℕ, suc, ◌-◌, ◌≤◌, ◌<◌, ◌≡◌, refl, sym, ◌∙◌, ap, subst, Bool, true, false, List, [], ◌∷◌, Option,
  none, some, String, string_dec, ite, if_pos, if_neg, insert, StringMap, arith, Bool-cases,
  Option-cases, inl, inr,
}
use grooveproxy.Cache.{Cache, is_off, ensure_lock, begin_acquire, finish_acquire}
use grooveproxy.Cache.Acquire.{finish_lem, finish-locked}
use grooveproxy.Cache.Release.{try_lock, unlock, try_lock-locked, unlock-locked}
use grooveproxy.Cache.Waiting.{waiting_for, one_less, waiting_for-one_less, insert-P}
use mathlib.Core.Option.{some-injective}

-- A lock that is made is free.
ensure-same :
    (m : StringMap Bool) (url v : String) (b : Bool) → m v ≡ some b → ensure_lock m url v ≡ some b
unfolding ensure_lock
ensure-same m url v b there = elim (Option-cases (m url)) [
  | inl missing ↦ elim (string_dec url v) [
    | yes same ↦ ground (arith, missing, same, there)
    | no other ↦ ground (arith, missing, other, there)
  ]
  | inr (locked, known) ↦ ground (arith, known, there)
]

-- At most one release of an address is between its two steps, and its lock is held then.
abbrev Inside : Option Bool → ℕ → Type 0
Inside o n = (n ≤ 1) × (0 < n → o ≡ some true)

module _ {D : Type 0} where
  -- The cache with the addresses of the releases between their two steps, of which an address has one
  -- at most, while other calls acquire locks.
  pub data Turn : Cache D × List String → Cache D × List String → Type 0 where
    tries :
        (c : Cache D) (us : List String) (url : String) (locked : Bool)
        → waiting_for url us ≡ 0
        → c.inflight_requests url ≡ some locked
        → Turn (c, us) (try_lock c url, url ∷ us)
    unlocks :
        (c c' : Cache D) (us : List String) (url : String)
        → 0 < waiting_for url us
        → unlock c url ≡ some c'
        → Turn (c, us) (c', one_less url us)
    begins :
        (c : Cache D) (us : List String) (url : String) → Turn (c, us) (begin_acquire c url, us)
    finishes :
        (c c' : Cache D) (us : List String) (url : String)
        → finish_acquire c url ≡ some c'
        → Turn (c, us) (c', us)

  pub data Turns (start_cache : Cache D) : Cache D × List String → Type 0 where
    start : Turns start_cache (start_cache, [])
    turn : {s s' : Cache D × List String} → Turns start_cache s → Turn s s' → Turns start_cache s'

  unlock_lem :
      (c c' : Cache D) (url : String)
      → c.inflight_requests url ≡ some true
      → unlock c url ≡ some c'
      → c'.inflight_requests ≡ insert c.inflight_requests url false
  unlock_lem c c' url locked ran =
      let same : some (record c { inflight_requests = insert c.inflight_requests url false })
          ≡ some c' =
        sym (unlock-locked c url locked) ∙ ran in
      ap (λ x. x.inflight_requests) (sym (some-injective _ _ same))

  begin-same :
      (c : Cache D) (url v : String) (b : Bool)
      → c.inflight_requests v ≡ some b
      → (begin_acquire c url).inflight_requests v ≡ some b
  unfolding begin_acquire
  begin-same c url v b there = elim (Bool-cases (is_off c.mode)) [
    | inl off ↦ rw (off, begin_acquire) there
    | inr on ↦ rw (on, begin_acquire) (ensure-same c.inflight_requests url v b there)
  ]

  Turn-Inside :
      {s s' : Cache D × List String}
      → Turn s s'
      → ((v : String) → Inside (s.0.inflight_requests v) (waiting_for v s.1))
      → (v : String) → Inside (s'.0.inflight_requests v) (waiting_for v s'.1)
  unfolding waiting_for
  Turn-Inside (tries c us url locked outside there) i v =
      let (tried, held) = try_lock-locked c url locked there in
      let n = waiting_for v us in
      rw tried (
        insert-P Inside c.inflight_requests url v true n (ite (string_dec url v) (suc n) n) (i v)
          (λ e. (
            subst (λ x. x ≤ 1)
                (sym (
                  if_pos (string_dec url v) e _ _
                  ∙ ap suc (subst (λ x. waiting_for x us ≡ 0) e outside)))
                (omega arith),
            λ some_in. refl,
          ))
          (λ ne. if_neg (string_dec url v) ne _ _))
  Turn-Inside (unlocks c c' us url some_in ran) i v =
      let n = waiting_for v us in
      rw (unlock_lem c c' url ((i url).1 some_in) ran, waiting_for-one_less url v us)
        (insert-P Inside c.inflight_requests url v false n (ite (string_dec url v) (n - 1) n) (i v)
          (λ e.
            let gone : ite (string_dec url v) (n - 1) n ≡ 0 =
              if_pos (string_dec url v) e _ _ ∙ (let one = (i v).0 in omega (arith, one)) in
            (omega (arith, gone), λ more. absurd (omega (arith, gone, more))))
          (λ ne. if_neg (string_dec url v) ne _ _))
  Turn-Inside (begins c us url) i v =
      ((i v).0, λ some_in. begin-same c url v true ((i v).1 some_in))
  Turn-Inside (finishes c c' us url ran) i v =
      let (free, locks, blocking) = finish_lem c c' url ran in
      ((i v).0, λ some_in. rw locks (ground (arith, (i v).1 some_in)))

  Turns-Inside :
      {c : Cache D} {s : Cache D × List String}
      → Turns c s
      → (v : String) → Inside (s.0.inflight_requests v) (waiting_for v s.1)
  unfolding waiting_for
  Turns-Inside start v = (omega arith, λ some_in. absurd (omega (arith, some_in)))
  Turns-Inside (turn turns t) v = Turn-Inside t (Turns-Inside turns) v

  -- As long as at most one call at a time is between the two steps of a release of an address, and
  -- whatever calls acquire locks in between, from any state of the cache, the lock that a release is
  -- about to unlock is still held, no call can acquire it, and the unlock does not fail.
  pub Turns-unlocks :
      (c d : Cache D) (us : List String) (url : String)
      → Turns c (d, us)
      → 0 < waiting_for url us
      → (finish_acquire d url ≡ none)
        × ((d' : Cache D) × (unlock d url ≡ some d') × (d'.inflight_requests url ≡ some false))
  Turns-unlocks c d us url turns some_in =
      let held = (Turns-Inside turns url).1 some_in in
      (
        finish-locked d url held,
        (
          record d { inflight_requests = insert d.inflight_requests url false },
          unlock-locked d url held,
          if_pos (string_dec url url) refl _ _,
        ),
      )
