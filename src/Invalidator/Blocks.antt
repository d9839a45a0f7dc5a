-- ===== src/Invalidator/Blocks.antt =====
-- groove/proxy/cache/invalidator.go: `blockTransform`, which names the directories of a key on disk.
-- A text is the list of its bytes.
use mathlib.Core.List.{append_assoc}
use grooveproxy.Base.{
  ℕ, zero, suc, ◌+◌, ◌-◌, ◌*◌, ◌/◌, ◌≤◌, ◌≡◌, refl, sym, ◌∙◌, ap, List, [], ◌∷◌, ◌++◌, length, take,
  drop, take-append-drop, drop-drop, length-drop, length-take, All, arith,
}

abbrev pub transform_block_size : ℕ
transform_block_size = 2

-- `s[from:to]`
abbrev pub slice : ℕ → ℕ → List ℕ → List ℕ
slice from to s = take (to - from) (drop from s)

-- The loop of `blockTransform` for the next `left` values of `i`.
unfoldable pub block_loop : (left i : ℕ) → List ℕ → List (List ℕ)
block_loop zero i s = []
block_loop (suc left) i s =
    slice (i * transform_block_size) (i * transform_block_size + transform_block_size) s
    ∷ block_loop left (i + 1) s

unfoldable pub block_transform : List ℕ → List (List ℕ)
block_transform s = block_loop (length s / transform_block_size) 0 s

abbrev pub concat : List (List ℕ) → List ℕ
concat [] = []
concat (b ∷ bs) = b ++ concat bs

slice-next :
    (i : ℕ) (s : List ℕ) → slice (i * 2) (i * 2 + 2) s ++ drop ((i + 1) * 2) s ≡ drop (i * 2) s
slice-next i s =
    let width : i * 2 + 2 - i * 2 ≡ 2 = omega arith in
    let next : (i + 1) * 2 ≡ i * 2 + 2 = omega arith in
    ap (λ n. take n (drop (i * 2) s) ++ drop ((i + 1) * 2) s) width
    ∙ ap (λ n. take 2 (drop (i * 2) s) ++ drop n s) next
    ∙ ap (λ l. take 2 (drop (i * 2) s) ++ l) (sym (drop-drop (i * 2) 2 s))
    ∙ take-append-drop 2 (drop (i * 2) s)

block_loop-concat :
    (left i : ℕ) (s : List ℕ)
    → concat (block_loop left i s) ++ drop ((i + left) * 2) s ≡ drop (i * 2) s
unfolding block_loop
block_loop-concat zero i s = ap (λ n. drop n s) (omega arith)
block_loop-concat (suc left) i s =
    let same : (i + suc left) * 2 ≡ (i + 1 + left) * 2 = omega arith in
    let b = slice (i * 2) (i * 2 + 2) s in
    append_assoc b (concat (block_loop left (i + 1) s)) (drop ((i + suc left) * 2) s)
    ∙ ap (λ n. b ++ (concat (block_loop left (i + 1) s) ++ drop n s)) same
    ∙ ap (λ l. b ++ l) (block_loop-concat left (i + 1) s)
    ∙ slice-next i s

block_loop-length :
    (left i : ℕ) (s : List ℕ)
    → (i + left) * 2 ≤ length s
    → All (λ b. length b ≡ 2) (block_loop left i s) × (length (block_loop left i s) ≡ left)
unfolding block_loop
block_loop-length zero i s room = (tt, refl)
block_loop-length (suc left) i s room =
    let width : i * 2 + 2 - i * 2 ≡ 2 = omega arith in
    let long : 2 ≤ length (drop (i * 2) s) =
      let left_over = length-drop (i * 2) s in omega (arith, left_over, room) in
    let (all, count) = block_loop-length left (i + 1) s (omega (arith, room)) in
    (
      (ap (λ n. length (take n (drop (i * 2) s))) width ∙ length-take 2 (drop (i * 2) s) long, all),
      omega (arith, count),
    )

-- The directories of a key are as many as half its bytes, rounded down, each of two bytes, and joined
-- they are the key but for the last byte of a key of odd length.
pub block_transform-concat :
    (s : List ℕ)
    → (length (block_transform s) ≡ length s / 2)
      × All (λ b. length b ≡ 2) (block_transform s)
      × ((rest : List ℕ) × (concat (block_transform s) ++ rest ≡ s) × (length rest ≤ 1))
unfolding block_transform
block_transform-concat s =
    let n = length s / 2 in
    let (all, count) = block_loop-length n 0 s (omega arith) in
    let left_over = length-drop ((0 + n) * 2) s in
    (count, all, (drop ((0 + n) * 2) s, block_loop-concat n 0 s, omega (arith, left_over)))
