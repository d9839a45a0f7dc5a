-- ===== src/Cache/Waiting.antt =====
-- groove/proxy/cache.go: the counts of `blockingLocks` against the calls that wait.
use grooveproxy.Base.{
  ℕ, suc, ◌+◌, ◌-◌, ◌^◌, ◌≤◌, ◌<◌, ◌≡◌, ◌≢◌, sym, ◌∙◌, ap, subst, List, [], ◌∷◌, Option, none, some,
  String, string_dec, ite, StringMap, insert, arith, length,
}
use grooveproxy.Base.Int64.{ℤ, pos, ◌+ℤ◌, ◌-ℤ◌, pos-+ℤ, pos--ℤ}
use grooveproxy.Cache.{blocking_count}

unfoldable pub waiting_for : String → List String → ℕ
waiting_for url [] = 0
waiting_for url (w ∷ ws) = ite (string_dec w url) (suc (waiting_for url ws)) (waiting_for url ws)

-- A call goes on: one that waited for its address is gone.
unfoldable pub one_less : String → List String → List String
one_less url [] = []
one_less url (w ∷ ws) = ite (string_dec w url) ws (w ∷ one_less url ws)

pub waiting_for-length : (url : String) (ws : List String) → waiting_for url ws ≤ length ws
unfolding waiting_for
waiting_for-length url [] = omega arith
waiting_for-length url (w ∷ ws) = ground (arith, waiting_for-length url ws)

pub waiting_for-one_less :
    (url v : String) (ws : List String)
    → waiting_for v (one_less url ws)
      ≡ ite (string_dec url v) (waiting_for v ws - 1) (waiting_for v ws)
unfolding waiting_for one_less
waiting_for-one_less url v [] = ground arith
waiting_for-one_less url v (w ∷ ws) = elim (string_dec w url) [
  | yes same ↦ ground (arith, same)
  | no other ↦ ground (arith, other, waiting_for-one_less url v ws)
]

pub length-one_less : (url : String) (ws : List String) → length (one_less url ws) ≤ length ws
unfolding one_less
length-one_less url [] = omega arith
length-one_less url (w ∷ ws) = ground (arith, length-one_less url ws)

abbrev pub Counts : Option ℤ → ℕ → Type 0
Counts none n = n ≡ 0
Counts (some z) n = z ≡ pos n

-- A relation of the entries of a map to numbers is kept where an entry is set, if its number is kept
-- for each other key.
pub insert-P :
    {V : Type 0} (P : Option V → ℕ → Type 0) (m : StringMap V) (url v : String) (z : V) (n n' : ℕ)
    → P (m v) n
    → (url ≡ v → P (some z) n')
    → (url ≢ v → n' ≡ n)
    → P (insert m url z v) n'
insert-P P m url v z n n' before same other =
    elim (string_dec url v) as (λ d. P (ite d (some z) (m v)) n') [
      | yes e ↦ same e
      | no ne ↦ subst (P (m v)) (sym (other ne)) before
    ]

pub counted-value :
    (m : StringMap ℤ) (url : String) (n : ℕ) → Counts (m url) n → blocking_count m url ≡ pos n
unfolding blocking_count
counted-value m url n h = go (m url) h
  where
    go : (o : Option ℤ) → Counts o n → elim o [ none ↦ pos 0 | some count ↦ count ] ≡ pos n
    go none e = ap pos (sym e)
    go (some z) e = e

pub count-one_up :
    (m : StringMap ℤ) (url : String) (n : ℕ)
    → Counts (m url) n
    → n + 1 < 2 ^ 63
    → blocking_count m url +ℤ pos 1 ≡ pos (n + 1)
count-one_up m url n h small = ap (λ z. z +ℤ pos 1) (counted-value m url n h) ∙ pos-+ℤ n 1 small

pub count-one_down :
    (m : StringMap ℤ) (url : String) (n : ℕ)
    → Counts (m url) n
    → 0 < n
    → n < 2 ^ 63
    → blocking_count m url -ℤ pos 1 ≡ pos (n - 1)
count-one_down m url n h some_wait small =
    ap (λ z. z -ℤ pos 1) (counted-value m url n h) ∙ pos--ℤ n 1 some_wait small
