-- ===== src/Lru/Callbacks.antt =====
-- The user-override callbacks of `LRUCache` in groove/proxy/cache/lru.go, as an interface, and what
-- a backing store promises about them.
use grooveproxy.Base.{
  ℕ, ◌≡◌, ◌≢◌, List, Bool, Option, none, some, String, Result, ok, err, is_some, ite, string_dec,
}

pub record Backend (S : Type 0) : Type 0 where
  pub set_value : S → String → List ℕ → S × Option String
  pub get_value : S → String → Result (List ℕ)
  pub has_value : S → String → Bool
  pub delete_key : S → String → S
  pub delete_all : S → S

-- A store seen as the map of its values. A failed write may leave anything under its own key.
pub record IsStore {S : Type 0} (b : Backend S) : Type 0 where
  pub view : S → String → Option (List ℕ)
  pub has_view : (s : S) (k : String) → b.has_value s k ≡ is_some (view s k)
  pub get_view : (s : S) (k : String) {v : List ℕ} → view s k ≡ some v → b.get_value s k ≡ ok v
  pub get_missing :
      (s : S) (k : String) → view s k ≡ none → (e : String) × (b.get_value s k ≡ err e)
  pub set_view :
      (s : S) (k : String) (v : List ℕ)
      → (b.set_value s k v).1 ≡ none
      → (j : String) → view (b.set_value s k v).0 j ≡ ite (string_dec k j) (some v) (view s j)
  pub set_failed :
      (s : S) (k : String) (v : List ℕ) (j : String)
      → k ≢ j
      → view (b.set_value s k v).0 j ≡ view s j
  pub delete_view :
      (s : S) (k j : String) → view (b.delete_key s k) j ≡ ite (string_dec k j) none (view s j)
  pub delete_all_view : (s : S) (j : String) → view (b.delete_all s) j ≡ none
