-- ===== src/Tests/Locking.antt =====
-- groove/proxy/cache.go: calls that wait for, hold and release the lock of an address.
use grooveproxy.Base.{
  ◌≤◌, ◌<◌, ◌≡◌, ◌↔◌, refl, true, false, List, [], ◌∷◌, none, some, String, string_dec, empty_map,
  arith,
}
use grooveproxy.Cache.{
  Cache, is_off, ensure_lock, new_cache, begin_acquire, finish_acquire, release_request_lock,
}
use grooveproxy.Cache.Acquire.{finish-free}
use grooveproxy.Cache.Exclusive
use grooveproxy.Cache.Exclusive.{Reach-exclusive}
use grooveproxy.Cache.Locks
use grooveproxy.Cache.Locks.{IsCounted, Reach-IsCounted}
use grooveproxy.Cache.Release.{try_lock, unlock, release-overlap}
use grooveproxy.Cache.Turns
use grooveproxy.Cache.Turns.{Turns-unlocks}
use grooveproxy.Cache.Waiting.{waiting_for, one_less}
use grooveproxy.Invalidator.MemoryStore.{MemoryCache}

-- Two calls wait for an address.
abbrev queued : Cache MemoryCache × List String
queued = (begin_acquire (begin_acquire (new_cache empty_map none 25) "u") "u", "u" ∷ "u" ∷ [])

queued-Reach : Locks.Reach {D = MemoryCache} empty_map none queued
unfolding is_off new_cache begin_acquire
queued-Reach =
    Locks.Reach.step
      (Locks.Reach.step (Locks.Reach.start 25)
        (Locks.Step.begins (new_cache empty_map none 25) [] "u" refl (omega arith)))
      (Locks.Step.begins (begin_acquire (new_cache empty_map none 25) "u") ("u" ∷ []) "u" refl
        (omega arith))

Reach-IsCounted_example : IsCounted queued
Reach-IsCounted_example = Reach-IsCounted queued-Reach

-- The lock of the address is free, and one of the two calls acquires it.
queued-free : queued.0.inflight_requests "u" ≡ some false
unfolding new_cache begin_acquire is_off ensure_lock string_dec
queued-free = refl

abbrev acquired : (c : Cache MemoryCache) × (finish_acquire queued.0 "u" ≡ some c)
acquired = finish-free queued.0 "u" queued-free

acquired-Reach :
    Exclusive.Reach {D = MemoryCache} empty_map none
      (acquired.0, one_less "u" ("u" ∷ "u" ∷ []), "u" ∷ [])
unfolding is_off new_cache begin_acquire waiting_for string_dec
acquired-Reach =
    Exclusive.Reach.step
      (Exclusive.Reach.step
        (Exclusive.Reach.step (Exclusive.Reach.start 25)
          (Exclusive.Step.begins (new_cache empty_map none 25) [] [] "u" refl (omega arith)))
        (Exclusive.Step.begins (begin_acquire (new_cache empty_map none 25) "u") ("u" ∷ []) [] "u"
          refl (omega arith)))
      (Exclusive.Step.finishes queued.0 acquired.0 ("u" ∷ "u" ∷ []) [] "u" (omega arith) acquired.1)

Reach-exclusive_example :
    (waiting_for "u" ("u" ∷ []) ≤ 1)
    × ((acquired.0.inflight_requests "u" ≡ some true) ↔ (waiting_for "u" ("u" ∷ []) ≡ 1))
    × (0 < waiting_for "u" (one_less "u" ("u" ∷ "u" ∷ []))
        → waiting_for "u" ("u" ∷ []) ≡ 0
        → (c' : Cache MemoryCache) × (finish_acquire acquired.0 "u" ≡ some c'))
Reach-exclusive_example =
    Reach-exclusive acquired.0 (one_less "u" ("u" ∷ "u" ∷ [])) ("u" ∷ []) "u" acquired-Reach

release-overlap_example :
    (unlock (try_lock queued.0 "u") "u" ≡ some (release_request_lock queued.0 "u"))
    × ((release_request_lock queued.0 "u").inflight_requests "u" ≡ some false)
    × (finish_acquire (try_lock queued.0 "u") "u" ≡ none)
    × ((d : Cache MemoryCache) × (unlock (try_lock (try_lock queued.0 "u") "u") "u" ≡ some d)
        × (unlock d "u" ≡ none))
release-overlap_example = release-overlap queued.0 "u" false queued-free

Turns-unlocks_example :
    (finish_acquire (try_lock queued.0 "u") "u" ≡ none)
    × ((d' : Cache MemoryCache) × (unlock (try_lock queued.0 "u") "u" ≡ some d')
        × (d'.inflight_requests "u" ≡ some false))
unfolding waiting_for string_dec
Turns-unlocks_example =
    Turns-unlocks queued.0 (try_lock queued.0 "u") ("u" ∷ []) "u"
      (Turns.Turns.turn Turns.Turns.start (Turns.Turn.tries queued.0 [] "u" false refl queued-free))
      (omega arith)
