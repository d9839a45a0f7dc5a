-- ===== src/Proxy/Serve/Session.antt =====
-- groove/proxy/main.go and controller.go: exchanges that are recorded one after the other, and their
-- replay from the tape.
use mathlib.Core.Option.{some-injective}
use grooveproxy.Base.{
  ℕ, ◌^◌, ◌<◌, ◌≡◌, refl, sym, ◌∙◌, ap, subst, List, [], ◌∷◌, Option, none, some, String, ok,
  length, inl, inr, All, All-imp, and_then, if◌then◌else◌,
}
use grooveproxy.Base.Int64.{pos}
use grooveproxy.Cache.{Environment, cache_mode_off}
use grooveproxy.Controller.{State, file, tape_record, tape_stop, tape_retrieve, tape_load}
use grooveproxy.Archives.Replay.{IsMap}
use grooveproxy.Controller.Playback.{playback, Replayed, recordings-Replayed}
use grooveproxy.Controller.RecordReplay.{record_all, IsLossless, record_replay}
use grooveproxy.Headers.{HeaderDefinition, handle_headers}
use grooveproxy.Http.History.{timeline}
use grooveproxy.Http.{Request, Response, response_parts}
use grooveproxy.Proxy.Serve.Recorded.{Records, exchange-Records}
use grooveproxy.Proxy.Serve.{Groove, done, held_up, serve}
use grooveproxy.Recorder.Recording.{records_of, handle_response-append, mode-append_records}
use grooveproxy.Recorder.Sessions.{answers, exports, text_of}
use grooveproxy.Recorder.{Recorder, TapeFormat, recorder_mode_write, clear}
use grooveproxy.Transport.Attempts.{allowed_tries}
use grooveproxy.Transport.{Network, Handler, strip_resource_type}

-- An answer with the headers of its request, before the later ones.
abbrev pub with_answer :
    HeaderDefinition
    → Option Response
    → List (HeaderDefinition × Response)
    → List (HeaderDefinition × Response)
with_answer definition none exchanges = exchanges
with_answer definition (some r) exchanges = (definition, r) ∷ exchanges

module _ {D W Conn : Type 0} (env : Environment D) (net : Network W Conn) (fuel : ℕ) (draws : ℕ → ℕ)
    (later : ℕ) where
  -- Exchanges one after the other, each with the time of its start, and the answers that the clients
  -- got; `none` if one does not end.
  unfoldable pub serve_all :
      W → Groove D → List (ℕ × Request) → Option (W × Groove D × List (HeaderDefinition × Response))
  serve_all w g [] = some (w, g, [])
  serve_all w g ((now, q) ∷ qs) = elim (serve env net fuel draws later now w g q) [
    | none ↦ none
    | some exchange ↦ elim exchange [
      | held_up g' url q' ↦ none
      | done w' g' answer ↦ and_then (serve_all w' g' qs) λ (w'', g'', exchanges).
          some (w'', g'', with_answer (handle_headers q).0 answer exchanges)
    ]
  ]

  serve_all-cons :
      (now : ℕ) (w w1 w' : W) (g g1 g' : Groove D) (q : Request) (qs : List (ℕ × Request))
      (answer : Option Response) (exchanges : List (HeaderDefinition × Response))
      → serve env net fuel draws later now w g q ≡ some (done w1 g1 answer)
      → serve_all w1 g1 qs ≡ some (w', g', exchanges)
      → serve_all w g ((now, q) ∷ qs)
        ≡ some (w', g', with_answer (handle_headers q).0 answer exchanges)
  unfolding serve_all
  serve_all-cons now w w1 w' g g1 g' q qs answer exchanges ran rest = rw (serve_all, ran, rest) refl

  -- A response whose chain of redirects has less hops than there is fuel, and whose headers are Go
  -- maps, as are those of the responses before it.
  abbrev pub IsChain : Response → Type 0
  IsChain r = (length (timeline r) < fuel) × All (λ y. IsMap (response_parts y).header) (timeline r)

  -- A transport answers the request with such responses.
  abbrev pub IsAnswered : Request → Type 0
  IsAnswered q =
      (v : W) (h : Handler) (r : Response)
      → (net.exchange v h (strip_resource_type (handle_headers q).1)).1 ≡ ok r
      → IsChain r

  recorded-on :
      (r r' : Recorder) (definition : HeaderDefinition) (answer : Option Response)
      (exchanges : List (HeaderDefinition × Response))
      → r.mode ≡ recorder_mode_write
      → ((x : Response) → answer ≡ some x → IsChain x)
      → Records env r definition r' answer
      → record_all fuel r (with_answer definition answer exchanges) ≡ record_all fuel r' exchanges
  unfolding record_all
  recorded-on r r' definition answer exchanges writes short (inl (silent, same)) =
      rw (silent, same) refl
  recorded-on r r' definition answer exchanges writes short (inr (x, answered, outcome, app)) =
      rw (answered, app, handle_response-append fuel r definition x writes (short x answered).0)
        refl

  mode-Records :
      (r r' : Recorder) (definition : HeaderDefinition) (answer : Option Response)
      → Records env r definition r' answer
      → r'.mode ≡ r.mode
  mode-Records r r' definition answer (inl (silent, same)) = ap (λ x. x.mode) same
  mode-Records r r' definition answer (inr (x, answered, outcome, app)) =
      ap (λ x. x.mode) app ∙ mode-append_records r (records_of definition (timeline x))

  All-with_answer :
      (definition : HeaderDefinition) (answer : Option Response)
      (exchanges : List (HeaderDefinition × Response))
      → ((x : Response) → answer ≡ some x → IsChain x)
      → All (λ x. IsChain x.1) exchanges
      → All (λ x. IsChain x.1) (with_answer definition answer exchanges)
  All-with_answer definition none exchanges short all = all
  All-with_answer definition (some x) exchanges short all = (short x refl, all)

  serve_all-record_all :
      (n : ℕ) (w : W) (g : Groove D) (qs : List (ℕ × Request))
      → g.proxy.recorder.mode ≡ recorder_mode_write
      → g.proxy.cache.mode ≡ cache_mode_off
      → allowed_tries g.round_tripper.dialer_session ≡ pos n
      → n < fuel
      → n < 2 ^ 63
      → All (λ x. IsAnswered x.1) qs
      → (w' : W) × (g' : Groove D) × (exchanges : List (HeaderDefinition × Response)) × (serve_all w
            g qs
          ≡ some (w', g', exchanges))
        × (record_all fuel g.proxy.recorder exchanges ≡ some g'.proxy.recorder)
        × All (λ x. IsChain x.1) exchanges
  unfolding serve_all record_all
  serve_all-record_all n w g [] writes off tries enough small short = (w, g, [], refl, refl, tt)
  serve_all-record_all n w g ((now, q) ∷ qs) writes off tries enough small (here, short) =
      let definition = (handle_headers q).0 in
      let (w1, g1, answer, ran, records, next) =
        exchange-Records env net fuel draws later IsChain (λ r h. h.0) now n w g q writes off tries
          enough small here in
      let (w', g', exchanges, rest, recorded, all) =
        serve_all-record_all n w1 g1 qs
          (mode-Records g.proxy.recorder g1.proxy.recorder definition answer records ∙ writes)
          (next.mode ∙ off) (ap allowed_tries next.session ∙ tries) enough small short in
      (
        w',
        g',
        with_answer definition answer exchanges,
        serve_all-cons now w w1 w' g g1 g' q qs answer exchanges ran rest,
        recorded-on g.proxy.recorder g1.proxy.recorder definition answer exchanges writes
              next.answers records
            ∙ recorded,
        All-with_answer definition answer exchanges next.answers all,
      )

  -- What happens between a recording and a replay of the whole program: after a call of
  -- /api/tape/record, with the cache off, requests are served one after the other, given more fuel
  -- than tries and than hops in any chain of redirects that a transport returns for them, fewer than
  -- 2 ^ 63 tries, and headers that are maps in every response of these chains. All of them end. Then,
  -- with a format that writes every list of records and reads back what it wrote, the tape is
  -- retrieved with status 200. Once its file is loaded, by this proxy or another, requests for one
  -- address on one tape are answered by replays of the responses that came for this address on this
  -- tape, redirects included, each once and in their order, and then by the proxy's own response of
  -- status 500, if the tape is the retrieved one or has no name or if all tapes were retrieved; on
  -- other tapes they all get the proxy's own response. A replay has the status, the body and the
  -- values of every header of the response, and belongs to the request that it answers. A response is
  -- left out, and not replayed, if its body or the body of its request could not be read.
  pub serve-replays :
      {Bytes : Type 0} (format : TapeFormat Bytes) (n : ℕ) (w : W) (g : Groove D)
      (s other : State D) (qs : List (ℕ × Request)) (t u : String) (headers : HeaderDefinition)
      (later_qs : List Request)
      → g.proxy.recorder ≡ (tape_record env format s).0.recorder
      → g.proxy.cache.mode ≡ cache_mode_off
      → allowed_tries g.round_tripper.dialer_session ≡ pos n
      → n < fuel
      → n < 2 ^ 63
      → All (λ x. IsAnswered x.1) qs
      → IsLossless format
      → All (λ q. text_of q ≡ u) later_qs
      → (w' : W) × (g' : Groove D) × (exchanges : List (HeaderDefinition × Response))
        × (bytes : Bytes) × (serve_all w g qs ≡ some (w', g', exchanges))
        × ((tape_retrieve env format
              (tape_stop env format (record s { recorder = g'.proxy.recorder })).0
              (ok t)).1
            ≡ record { status = 200; payload = some bytes })
        × Replayed env.new_response
            (if exports t headers.tape_id then playback headers.tape_id u exchanges else [])
            later_qs
            (answers env.new_response
              (tape_load env format other (file bytes)).0.recorder
              headers
              later_qs)
  unfolding tape_record clear
  serve-replays format n w g s other qs t u headers later_qs begun off tries enough small short
        lossless same =
      let (w', g', exchanges, ran, recorded, all) =
        serve_all-record_all n w g qs (ap (λ r. r.mode) begun) off tries enough small short in
      let (r, bytes, kept, retrieved, replayed) =
        record_replay env format fuel s other exchanges t u headers later_qs lossless
          (All-imp (λ x. IsChain x.1) (λ x. length (timeline x.1) < fuel) exchanges (λ x h. h.0)
            all)
          same in
      let is_r : r ≡ g'.proxy.recorder =
        some-injective _ _
          (sym kept ∙ ap (λ x. record_all fuel x exchanges) (sym begun) ∙ recorded) in
      (
        w',
        g',
        exchanges,
        bytes,
        ran,
        subst
            (λ x.
              (tape_retrieve env format (tape_stop env format (record s { recorder = x })).0
                (ok t)).1
              ≡ record { status = 200; payload = some bytes })
            is_r retrieved,
        subst
            (Replayed env.new_response
              (if exports t headers.tape_id then playback headers.tape_id u exchanges else [])
              later_qs)
            (sym replayed)
            (recordings-Replayed env.new_response (exports t headers.tape_id) headers.tape_id u
              exchanges later_qs
              (All-imp (λ x. IsChain x.1)
                (λ x. All (λ y. IsMap (response_parts y).header) (timeline x.1)) exchanges
                (λ x h. h.1) all)),
      )
