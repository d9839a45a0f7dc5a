-- ===== src/Cache/Acquire.antt =====
-- groove/proxy/cache.go: what acquiring and releasing a lock does to the maps.
use grooveproxy.Base.{
  ◌≡◌, ◌≢◌, sym, ◌∙◌, ap, Bool, true, false, none, some, String, string_dec, StringMap, insert,
  arith, ◌⊎◌, inl, inr, Bool-cases, Option-cases,
}
use grooveproxy.Base.Int64.{pos, ◌-ℤ◌}
use grooveproxy.Cache.{Cache, ensure_lock, blocking_count, finish_acquire, release_request_lock}

pub ensure-lock :
    (m : StringMap Bool) (url v : String) → ensure_lock m url v ≡ none → (url ≢ v) × (m v ≡ none)
unfolding ensure_lock
ensure-lock m url v gone = elim (string_dec url v) [
  | yes same ↦ elim (Option-cases (m url)) [
    | inl missing ↦ ground (arith, gone, same, missing)
    | inr (locked, there) ↦ ground (arith, gone, same, there)
  ]
  | no other ↦ (
    other,
    (elim (Option-cases (m url)) [
      | inl missing ↦ ground (arith, gone, other, missing)
      | inr (locked, there) ↦ ground (arith, gone, there)
    ]),
  )
]

pub insert-none :
    (m : StringMap Bool) (url v : String) (b : Bool)
    → insert m url b v ≡ none
    → (url ≢ v) × (m v ≡ none)
insert-none m url v b gone = elim (string_dec url v) [
  | yes same ↦ ground (arith, gone, same)
  | no other ↦ (other, ground (arith, gone, other))
]

-- What `finish_acquire` needs and does.
pub finish_lem :
    {D : Type 0} (c c' : Cache D) (url : String)
    → finish_acquire c url ≡ some c'
    → (c.inflight_requests url ≡ some false)
      × (c'.inflight_requests ≡ insert c.inflight_requests url true)
      × (c'.blocking_locks
          ≡ insert c.blocking_locks url (blocking_count c.blocking_locks url -ℤ pos 1))
unfolding finish_acquire
finish_lem c c' url ran = elim (Option-cases (c.inflight_requests url)) [
  | inl missing ↦ ground (arith, ran, missing)
  | inr (locked, there) ↦ elim (Bool-cases locked) [
    | inl taken ↦ ground (arith, ran, there, taken)
    | inr free ↦
        let ends : record c {
          inflight_requests = insert c.inflight_requests url true;
          blocking_locks =
              insert c.blocking_locks url (blocking_count c.blocking_locks url -ℤ pos 1);
        }
            ≡ c' =
          ground (arith, ran, there, free) in
        (
          there ∙ ap some free,
          ap (λ x. x.inflight_requests) (sym ends),
          ap (λ x. x.blocking_locks) (sym ends),
        )
  ]
]

pub release_lem :
    {D : Type 0} (c : Cache D) (url : String)
    → ((c.inflight_requests url ≡ none) × (release_request_lock c url ≡ c))
      ⊎ (release_request_lock c url
          ≡ record c { inflight_requests = insert c.inflight_requests url false })
unfolding release_request_lock
release_lem c url = elim (Option-cases (c.inflight_requests url)) [
  | inl missing ↦ inl (missing, ground (arith, missing))
  | inr (locked, there) ↦ inr (ground (arith, there))
]

pub finish-free :
    {D : Type 0} (c : Cache D) (url : String)
    → c.inflight_requests url ≡ some false
    → (c' : Cache D) × (finish_acquire c url ≡ some c')
unfolding finish_acquire
finish-free c url free = (
  record c {
    inflight_requests = insert c.inflight_requests url true;
    blocking_locks = insert c.blocking_locks url (blocking_count c.blocking_locks url -ℤ pos 1);
  },
  ground (arith, free),
)

pub finish-locked :
    {D : Type 0} (c : Cache D) (url : String)
    → c.inflight_requests url ≡ some true
    → finish_acquire c url ≡ none
unfolding finish_acquire
finish-locked c url locked = ground (arith, locked)
