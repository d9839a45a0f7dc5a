-- ===== src/Controller/Dialing.antt =====
-- groove/proxy/controller.go: what `/api/dialer/load` leaves in the dialer session.
use mathlib.Core.List.{append-nil, append_assoc}
use grooveproxy.Base.{
  same_text, ℕ, ◌≡◌, refl, sym, ◌∙◌, ap, Bool, true, List, [], ◌∷◌, ◌++◌, Option, some, String,
  Result, ok, err, arith, ◌⊎◌, inl, inr,
}
use grooveproxy.Controller.{
  DialerDefinitionRequest, requires_something, proxy_of, requires_of, append_definition,
  load_definitions, dialer_load,
}
use grooveproxy.Dialers.{
  DialerSession, DialerDefinition, RequestRequiresDefinition, new_dialer_definition,
  new_request_requires_definition, is_request_valid, url_matches,
}
use grooveproxy.Http.{Request, request_parts}

-- A definition made of a request.
abbrev pub Made :
    (String → Result (String → Bool)) → String × DialerDefinitionRequest → DialerDefinition → Type 0
Made compile (uuid, request) d =
    (d.identifier ≡ uuid)
    × (d.priority ≡ request.priority)
    × (d.proxy ≡ proxy_of request)
    × (requires_of compile request ≡ ok d.request_requires)

abbrev pub Each :
    (String → Result (String → Bool))
    → List (String × DialerDefinitionRequest)
    → List DialerDefinition
    → Type 0
Each compile [] [] = Unit
Each compile [] (d ∷ ds) = ⊥
Each compile (r ∷ rs) [] = ⊥
Each compile (r ∷ rs) (d ∷ ds) = Made compile r d × Each compile rs ds

-- What a load appended to a session: all requests became definitions, in their order, or the first
-- one that cannot ended it, after those before it.
abbrev pub Loaded :
    (String → Result (String → Bool))
    → List DialerDefinition
    → List (String × DialerDefinitionRequest)
    → DialerSession × ℕ
    → Type 0
Loaded compile before rs (session, status) =
    (ds : List DialerDefinition) × (session.dialer_definitions ≡ before ++ ds)
    × (((status ≡ 200) × Each compile rs ds)
        ⊎ ((status ≡ 400)
            × (done : List (String × DialerDefinitionRequest)) × (bad : String
                × DialerDefinitionRequest)
            × (rest : List (String × DialerDefinitionRequest)) × (e : String) × (rs
                ≡ done ++ bad ∷ rest)
            × (requires_of compile bad.1 ≡ err e)
            × Each compile done ds))

load_definitions-Loaded :
    (compile : String → Result (String → Bool)) (session : DialerSession)
    (rs : List (String × DialerDefinitionRequest))
    → Loaded compile session.dialer_definitions rs (load_definitions compile session rs)
unfolding load_definitions append_definition new_dialer_definition
load_definitions-Loaded compile session [] =
    ([], sym (append-nil session.dialer_definitions), inl (refl, tt))
load_definitions-Loaded compile session ((uuid, request) ∷ rs) =
    go (requires_of compile request) refl (λ rr.
      load_definitions-Loaded compile
        (append_definition session
          (new_dialer_definition uuid request.priority (proxy_of request) rr))
        rs)
  where
    go :
        (o : Result (Option RequestRequiresDefinition))
        → requires_of compile request ≡ o
        → ((rr : Option RequestRequiresDefinition)
            → let session' =
                append_definition session
                  (new_dialer_definition uuid request.priority (proxy_of request) rr) in
              Loaded compile session'.dialer_definitions rs (load_definitions compile session' rs))
        → Loaded compile session.dialer_definitions ((uuid, request) ∷ rs) (elim o [
          | err e ↦ (session, 400)
          | ok request_requires ↦
              load_definitions compile
                (append_definition session
                  (new_dialer_definition uuid request.priority (proxy_of request) request_requires))
                rs
        ])
    go (err e) h later = (
      [],
      sym (append-nil session.dialer_definitions),
      inr (refl, [], (uuid, request), rs, e, refl, h, tt),
    )
    go (ok rr) h later =
        let d = new_dialer_definition uuid request.priority (proxy_of request) rr in
        let (ds, loaded, outcome) = later rr in
        (
          d ∷ ds,
          loaded ∙ append_assoc session.dialer_definitions (d ∷ []) ds,
          (elim outcome [
            | inl (ended, each) ↦ inl (ended, ((refl, refl, refl, h), each))
            | inr (ended, done, bad, rest, e, split, failed, each) ↦ inr (
              ended,
              (uuid, request) ∷ done,
              bad,
              rest,
              e,
              ap (◌∷◌ (uuid, request)) split,
              failed,
              ((refl, refl, refl, h), each),
            )
          ]),
        )

-- A load of at least one request wipes the old definitions. With status 200 the session has one
-- definition for each request, in their order, with its UUID, priority, proxy and requirements; with
-- status 400 it has those of the requests before the first whose requirements cannot be made, since
-- its regular expression does not compile. There is no other status.
pub dialer_load-Loaded :
    (compile : String → Result (String → Bool)) (uuid : String) (session : DialerSession)
    (r : String × DialerDefinitionRequest) (rs : List (String × DialerDefinitionRequest))
    → Loaded compile [] (r ∷ rs) (dialer_load compile uuid session (r ∷ rs))
unfolding dialer_load
dialer_load-Loaded compile uuid session r rs =
    load_definitions-Loaded compile (record session { dialer_definitions = [] }) (r ∷ rs)

-- A definition that names resource types and no regular expression accepts every request, whatever
-- its resource type is, since the empty expression compiles and matches every text.
pub resource_types_ignored :
    (compile : String → Result (String → Bool)) (every : String → Bool)
    (request : DialerDefinitionRequest) (t : String) (types : List String)
    → compile "" ≡ ok every
    → ((s : String) → every s ≡ true)
    → request.requires_url_regex ≡ ""
    → request.requires_resource_types ≡ t ∷ types
    → (d : RequestRequiresDefinition) × (requires_of compile request ≡ ok (some d))
      × ((q : Request) (resource_type : String) → is_request_valid d q resource_type ≡ true)
unfolding requires_of requires_something new_request_requires_definition is_request_valid
    url_matches same_text
resource_types_ignored compile every request t types compiles matches blank named =
    let d : RequestRequiresDefinition = record {
      url_regex = some every;
      resource_types = request.requires_resource_types;
    } in
    (
      d,
      ground (arith, compiles, blank, named),
      λ q resource_type. ground (arith, matches ((request_parts q).url.text)),
    )
