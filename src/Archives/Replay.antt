-- ===== src/Archives/Replay.antt =====
-- groove/proxy/archives.go: a replayed response is the archived one.
use mathlib.Core.List.{append_assoc, append-nil}
use grooveproxy.Base.{
  List, [], ◌∷◌, ◌++◌, some, String, ◌≡◌, refl, sym, ◌∙◌, ap, subst, Option-cases, ite, string_dec,
  arith, if_pos, if_neg, inl, inr,
}
use grooveproxy.Http.{
  Header, Request, Response, request_of, response_parts, header_values, header_add,
}
use grooveproxy.Archives.{
  ArchivedResponse, response_to_archived_response, archived_response_to_response, add_values,
  add_headers,
}

-- The keys of a Go map are distinct.
abbrev pub IsMap : Header → Type 0
IsMap [] = Unit
IsMap ((k, vs) ∷ h) = (header_values h k ≡ []) × IsMap h

values-add :
    (h : Header) (k v j : String)
    → header_values (header_add h k v) j
      ≡ ite (string_dec k j) (header_values h j ++ v ∷ []) (header_values h j)
unfolding header_add header_values
values-add [] k v j = ground arith
values-add ((i, vs) ∷ h) k v j = ground (arith, values-add h k v j)

values-add_values :
    (h : Header) (k j : String) (vs : List String)
    → header_values (add_values h k vs) j
      ≡ ite (string_dec k j) (header_values h j ++ vs) (header_values h j)
unfolding add_values
values-add_values h k j [] = elim (string_dec k j) [
  | yes same ↦ sym (if_pos (string_dec k j) same _ _ ∙ append-nil (header_values h j))
  | no other ↦ sym (if_neg (string_dec k j) other _ _)
]
values-add_values h k j (v ∷ vs) =
    values-add_values (header_add h k v) k j vs ∙ elim (string_dec k j) [
      | yes same ↦
          if_pos (string_dec k j) same _ _
          ∙ ap (λ x. x ++ vs) (values-add h k v j ∙ if_pos (string_dec k j) same _ _)
          ∙ append_assoc (header_values h j) (v ∷ []) vs
          ∙ sym (if_pos (string_dec k j) same _ _)
      | no other ↦
          if_neg (string_dec k j) other _ _
          ∙ values-add h k v j
          ∙ if_neg (string_dec k j) other _ _
          ∙ sym (if_neg (string_dec k j) other _ _)
    ]

values-add_headers :
    (h archived : Header) (j : String)
    → IsMap archived
    → header_values (add_headers h archived) j ≡ header_values h j ++ header_values archived j
unfolding add_headers header_values
values-add_headers h [] j m = sym (append-nil (header_values h j))
values-add_headers h ((k, vs) ∷ archived) j (fresh, m) =
    values-add_headers (add_values h k vs) archived j m
    ∙ ap (λ x. x ++ header_values archived j) (values-add_values h k j vs)
    ∙ elim (string_dec k j) [
      | yes same ↦
          ap (λ x. x ++ header_values archived j) (if_pos (string_dec k j) same _ _)
          ∙ ap (λ x. (header_values h j ++ vs) ++ x)
              (subst (λ i. header_values archived i ≡ []) same fresh)
          ∙ append-nil (header_values h j ++ vs)
          ∙ ap (λ x. header_values h j ++ x) (sym (if_pos (string_dec k j) same _ _))
      | no other ↦
          ap (λ x. x ++ header_values archived j) (if_neg (string_dec k j) other _ _)
          ∙ ap (λ x. header_values h j ++ x) (sym (if_neg (string_dec k j) other _ _))
    ]

-- A response that could be archived, with distinct header keys, is replayed with its status and its body, with every header's
-- values in their order, and as the response of the request that asked for it now.
pub archived_response-replays :
    (r : Response) (q : Request) (archived : ArchivedResponse)
    → response_to_archived_response r ≡ some archived
    → IsMap (response_parts r).header
    → let replayed = archived_response_to_response q archived in
      ((response_parts replayed).status_code ≡ (response_parts r).status_code)
      × ((response_parts replayed).body ≡ (response_parts r).body)
      × ((k : String)
          → header_values (response_parts replayed).header k
            ≡ header_values (response_parts r).header k)
      × (request_of replayed ≡ q)
unfolding response_to_archived_response archived_response_to_response response_parts request_of
    header_values
archived_response-replays r q archived e m =
    let parts = response_parts r in
    elim (Option-cases parts.body) [
      | inl unread ↦ ground (arith, e, unread)
      | inr (body, read) ↦
          let whole : record { status = parts.status_code; headers = parts.header; body = body }
              ≡ archived =
            ground (arith, e, read) in
          rw (sym whole) (refl, sym read, (λ k. values-add_headers [] parts.header k m), refl)
    ]
