-- ===== src/Http/History.antt =====
-- groove/proxy/utilities.go: `getRedirectHistory`.
use mathlib.Core.List.{
  reverse, reverse-append, reverse-cons, reverse-reverse, map-append, append_assoc, append-nil,
}
use mathlib.Core.Path.{ap₂}
use grooveproxy.Base.{
  ℕ, suc, ◌<◌, ◌≡◌, refl, sym, ◌∙◌, ap, List, [], ◌∷◌, ◌++◌, Option, none, some, length,
  length-append, arith, and_then, map,
}
use grooveproxy.Http.{Request, Previous, Response, request, response, first, after, request_of}
use grooveproxy.Slices.Reverse.{reverse_slice-reverse}
use grooveproxy.Slices.{reverse_slice}

-- The loop, from the last response back along the requests that were redirected, with the two
-- histories that it appends to.
unfoldable mutual
  pub history_loop : Response → List Request → List Response → List Request × List Response
  history_loop (response parts q) requests responses =
      history_next q (requests ++ q ∷ []) (responses ++ response parts q ∷ [])

  history_next : Request → List Request → List Response → List Request × List Response
  history_next (request parts p) requests responses = history_upto p requests responses

  history_upto : Previous → List Request → List Response → List Request × List Response
  history_upto first requests responses = (requests, responses)
  history_upto (after r) requests responses = history_loop r requests responses

unfoldable pub history_start : Option Response → List Request × List Response
history_start none = ([], [])
history_start (some r) = history_loop r [] []

-- `getRedirectHistory`; `none` means that a reversal ran out of fuel.
unfoldable pub get_redirect_history : ℕ → Option Response → Option (List Request × List Response)
get_redirect_history fuel r =
    let (requests, responses) = history_start r in
    and_then (reverse_slice fuel requests) λ request_history.
      and_then (reverse_slice fuel responses)
        λ response_history. some (request_history, response_history)

-- Specification: the responses in the order in which they came, the given one last.
unfoldable mutual
  pub timeline : Response → List Response
  timeline (response parts q) = timeline_before q ++ response parts q ∷ []

  timeline_before : Request → List Response
  timeline_before (request parts p) = timeline_upto p

  timeline_upto : Previous → List Response
  timeline_upto first = []
  timeline_upto (after r) = timeline r

mutual
  unfolding history_loop timeline request_of

  loop_lem :
      (r : Response) (requests : List Request) (responses : List Response)
      → history_loop r requests responses
        ≡ (requests ++ reverse (map request_of (timeline r)), responses ++ reverse (timeline r))
  loop_lem (response parts q) requests responses =
      next_lem q (requests ++ q ∷ []) (responses ++ response parts q ∷ [])
      ∙ ap₂ (λ a b. (a, b)) (simp (map-append, reverse-append, append_assoc))
          (simp (reverse-append, append_assoc))

  next_lem :
      (q : Request) (requests : List Request) (responses : List Response)
      → history_next q requests responses ≡ (
        requests ++ reverse (map request_of (timeline_before q)),
        responses ++ reverse (timeline_before q),
      )
  next_lem (request parts p) requests responses = upto_lem p requests responses

  upto_lem :
      (p : Previous) (requests : List Request) (responses : List Response)
      → history_upto p requests responses ≡ (
        requests ++ reverse (map request_of (timeline_upto p)),
        responses ++ reverse (timeline_upto p),
      )
  upto_lem first requests responses =
      ap₂ (λ a b. (a, b)) (sym (append-nil requests)) (sym (append-nil responses))
  upto_lem (after r) requests responses = loop_lem r requests responses

length-map : (l : List Response) → length (map request_of l) ≡ length l
length-map [] = refl
length-map (r ∷ l) = ap suc (length-map l)

length-reverse {ℓ} : {A : Type ℓ} (l : List A) → length (reverse l) ≡ length l
length-reverse [] = refl
length-reverse (x ∷ l) =
    omega
      (arith, ap length (reverse-cons x l), length-append (reverse l) (x ∷ []), length-reverse l)

-- The responses come in order, each with its request: given more fuel than hops,
-- `getRedirectHistory` returns the requests and the responses of the timeline.
pub get_redirect_history-timeline :
    (fuel : ℕ) (r : Response)
    → length (timeline r) < fuel
    → get_redirect_history fuel (some r) ≡ some (map request_of (timeline r), timeline r)
unfolding get_redirect_history history_start
get_redirect_history-timeline fuel r h = rw (loop_lem r [] []) (
    rw (
      reverse_slice-reverse fuel (reverse (map request_of (timeline r)))
          (omega (arith, length-reverse (map request_of (timeline r)), length-map (timeline r))),
      reverse_slice-reverse fuel (reverse (timeline r))
          (omega (arith, length-reverse (timeline r))),
      reverse-reverse (map request_of (timeline r)),
      reverse-reverse (timeline r),
    ))
