-- ===== src/Proxy.antt =====
-- groove/proxy/main.go: the middleware in the order of its setup, headers, recorder, cache. goproxy
-- calls the request handlers in that order until one answers, and all response handlers in that
-- order, for an answer of a middleware too.
pub mod Serve
use grooveproxy.Base.{ℕ, ◌≡◌, refl, ◌∙◌, ap, Option, none, some, String, and_then, arith}
use grooveproxy.Cache
use grooveproxy.Cache.{Cache, Environment, Progress, answers, passes, waits, cache_mode_off}
use grooveproxy.Headers.{HeaderDefinition, handle_headers}
use grooveproxy.Http.{Request, Response}
use grooveproxy.Recorder
use grooveproxy.Recorder.Sessions.{find-mode}
use grooveproxy.Recorder.{
  Recorder, recorder_mode_off, recorder_mode_read, recorder_mode_write, find_matching_response,
  played_or_blocked, blocked_body,
}

pub record Proxy (D : Type 0) : Type 0 where
  pub recorder : Recorder
  pub cache : Cache D

-- What the request handlers make of a request.
pub data Outcome : Type 0 where
  answered : Response → Outcome
  forwarded : Request → Outcome
  waiting : String → Request → Outcome

module _ {D : Type 0} (env : Environment D) where
  unfoldable pub outcome_of : Request → Progress → Outcome
  outcome_of q (answers r) = answered r
  outcome_of q passes = forwarded q
  outcome_of q (waits url) = waiting url q

  unfoldable pub after_recorder :
      ℕ → Cache D → Request → Recorder × Option Response → Proxy D × Outcome
  after_recorder now c q (r, some answer) = (record { recorder = r; cache = c }, answered answer)
  after_recorder now c q (r, none) =
      let (c', progress) = Cache.handle_request env now r.mode c q in
      (record { recorder = r; cache = c' }, outcome_of q progress)

  -- The request handlers; the header definition is the context's `UserData`.
  unfoldable pub serve_request : ℕ → Proxy D → Request → HeaderDefinition × Proxy D × Outcome
  serve_request now p q =
      let (definition, q', answer) = handle_headers q in
      let (p', outcome) =
        after_recorder now p.cache q'
          (Recorder.handle_request env.new_response p.recorder q' definition) in
      (definition, p', outcome)

  -- The response handlers, for the request of the context and its error; `none` as in the two of
  -- them.
  unfoldable pub serve_response :
      ℕ
      → ℕ
      → Proxy D
      → HeaderDefinition
      → Request
      → Option String
      → Option Response
      → Option (Proxy D × Option Response)
  serve_response fuel now p definition q error answer =
      and_then (Recorder.handle_response fuel p.recorder definition answer) λ r.
        and_then (Cache.handle_response env fuel now r.mode p.cache q error answer)
          λ (c, answer'). some (record { recorder = r; cache = c }, answer')

  after_recorder-replays :
      (q : Request) (found : Recorder × Option Response) (now : ℕ) (c : Cache D)
      → (r : Response) × (after_recorder now c q (played_or_blocked env.new_response q found)
          ≡ (record { recorder = found.0; cache = c }, answered r))
  unfolding after_recorder played_or_blocked
  after_recorder-replays q (r, some answer) now c = (answer, refl)
  after_recorder-replays q (r, none) now c = (env.new_response q 500 blocked_body, refl)

  handle_read :
      (r : Recorder) (q : Request) (definition : HeaderDefinition)
      → r.mode ≡ recorder_mode_read
      → Recorder.handle_request env.new_response r q definition
        ≡ played_or_blocked env.new_response q (find_matching_response r q definition)
  unfolding Recorder.handle_request
  handle_read r q definition read = rw read refl

  respond_read :
      (fuel now : ℕ) (p : Proxy D) (definition : HeaderDefinition) (q : Request)
      (answer : Option Response)
      → p.recorder.mode ≡ recorder_mode_read
      → serve_response fuel now p definition q none answer ≡ some (p, answer)
  unfolding serve_response Recorder.handle_response Cache.handle_response Cache.store_history
  respond_read fuel now p definition q answer read = ground (arith, read)

  -- In the read mode of the recorder no request goes to the network or waits: each is answered, from
  -- the tape or with the blocked response, and the cache is not touched, neither by the request nor
  -- by its answer, nor does the answer change the recorder.
  pub replay_isolated :
      (fuel now later : ℕ) (p : Proxy D) (q : Request)
      → p.recorder.mode ≡ recorder_mode_read
      → let (definition, p', outcome) = serve_request now p q in
        (r : Response) × (outcome ≡ answered r)
        × (p'.cache ≡ p.cache)
        × (serve_response fuel later p' definition q none (some r) ≡ some (p', some r))
  unfolding serve_request
  replay_isolated fuel now later p q read =
      let (definition, q', none_yet) = handle_headers q in
      let found = find_matching_response p.recorder q' definition in
      let (r, ends) = after_recorder-replays q' found now p.cache in
      let played =
        ap (after_recorder now p.cache q') (handle_read p.recorder q' definition read) ∙ ends in
      rw played (
        r,
        refl,
        refl,
        respond_read fuel later (record { recorder = found.0; cache = p.cache }) definition q
            (some r) (find-mode p.recorder q' definition ∙ read),
      )

  pub write_forwards :
      (now : ℕ) (p : Proxy D) (q : Request)
      → p.recorder.mode ≡ recorder_mode_write
      → p.cache.mode ≡ cache_mode_off
      → serve_request now p q ≡ ((handle_headers q).0, p, forwarded (handle_headers q).1)
  unfolding serve_request after_recorder outcome_of Recorder.handle_request Cache.handle_request
      Cache.answer_or_acquire Cache.get_cache_contents Cache.begin_acquire Cache.is_off
  write_forwards now p q writes off_cache = ground (arith, writes, off_cache)

  pub off_forwards :
      (now : ℕ) (p : Proxy D) (q : Request)
      → p.recorder.mode ≡ recorder_mode_off
      → p.cache.mode ≡ cache_mode_off
      → serve_request now p q ≡ ((handle_headers q).0, p, forwarded (handle_headers q).1)
  unfolding serve_request after_recorder outcome_of Recorder.handle_request Cache.handle_request
      Cache.answer_or_acquire Cache.get_cache_contents Cache.begin_acquire Cache.is_off
  off_forwards now p q off_recorder off_cache = ground (arith, off_recorder, off_cache)
