-- ===== src/Base/Text.antt =====
-- Texts as keys: a decision of equality that computes, Go's `error` result, and maps.
use Prim.Native.String.{String}
use mathlib.Core.Bool.{Bool, true, false}
use mathlib.Core.Logic.{◌↔◌, ◌⊎◌, inl, inr, ite}
use mathlib.Core.Option.{Option, none, some}
use mathlib.Core.Path.{◌≡◌, refl}
use text.Mathlib.Text.{◌==◌}
use text.Mathlib.TextEquality.{eq_iff}

decide_by {ℓ} : {P : Type ℓ} (b : Bool) → ((b ≡ true) ↔ P) → Dec P
decide_by true h = yes (h.0 refl)
decide_by false h = no (λ p. elim (Path-absurd (h.1 p)) [ ])
  where
    Path-absurd : false ≡ true → ⊥
    Path-absurd e = cc

-- Go's `==` on strings.
unfoldable pub string_dec : Discrete String
unfolding decide_by
string_dec s t = decide_by (s == t) (eq_iff s t)

-- The same as a Boolean.
unfoldable pub same_text : String → String → Bool
same_text s t = ite (string_dec s t) true false

-- Go's `(value, error)`: an `error` is known by its message.
pub data Result {ℓ} (A : Type ℓ) : Type ℓ where
  ok : A → Result A
  err : String → Result A

pub Result-cases {ℓ} :
    {A : Type ℓ} (r : Result A) → ((e : String) × (r ≡ err e)) ⊎ ((a : A) × (r ≡ ok a))
Result-cases (err e) = inl (e, refl)
Result-cases (ok a) = inr (a, refl)

infixl 5 ◌>>=◌
abbrev pub ◌>>=◌ {ℓ κ} : {A : Type ℓ} {B : Type κ} → Result A → (A → Result B) → Result B
ok a >>= f = f a
err e >>= f = err e

-- Go's `map[string]V`: a missing key is `none`.
abbrev pub StringMap {ℓ} : Type ℓ → Type ℓ
StringMap V = String → Option V

module _ {ℓ} {V : Type ℓ} where
  abbrev pub empty_map : StringMap V
  empty_map k = none

  -- `m[k] = v`
  abbrev pub insert : StringMap V → String → V → StringMap V
  insert m k v j = ite (string_dec k j) (some v) (m j)

  -- `delete(m, k)`
  abbrev pub delete : StringMap V → String → StringMap V
  delete m k j = ite (string_dec k j) none (m j)
