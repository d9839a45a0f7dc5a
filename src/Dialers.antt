-- ===== src/Dialers.antt =====
-- groove/proxy/dialers.go: which dialer a request goes through. A compiled regular expression is the
-- test that it makes; `Dial` is in Transport; the random choice is an argument of each call.
pub mod Choice
pub mod Next
pub mod Remaining
use grooveproxy.Base.{
  ℕ, ◌%◌, Bool, true, false, not, ◌&&◌, ◌||◌, List, [], ◌∷◌, ◌++◌, Option, none, some, String,
  Result, ok, err, ◌>>=◌, if◌then◌else◌, ltb, ◌==◌, length, get_elem?, ite, string_dec,
}
use grooveproxy.Base.Int64.{ℤ, pos, ◌-ℤ◌, ltb_ℤ, leb_ℤ}
use grooveproxy.Http.{Request, Url, request_parts, header_get}
use grooveproxy.Slices.{filter_slice, contains}

pub record RequestRequiresDefinition : Type 0 where
  pub url_regex : Option (String → Bool)
  pub resource_types : List String

pub record ProxyDefinition : Type 0 where
  pub url : String
  pub username : String
  pub password : String

pub record DialerDefinition : Type 0 where
  pub identifier : String
  pub priority : ℤ
  pub proxy : Option ProxyDefinition
  pub request_requires : Option RequestRequiresDefinition

pub record DialerContext : Type 0 where
  pub request : Option Request
  pub request_type : String
  pub attempted_dial_identifiers : List String
  pub remaining_tries : ℤ

pub record DialerSession : Type 0 where
  pub dialer_definitions : List DialerDefinition
  pub total_tries : ℤ

abbrev pub proxy_resource_type : String
proxy_resource_type = "Resource-Type"

abbrev pub eq_ℤ : ℤ → ℤ → Bool
eq_ℤ a b = leb_ℤ a b && leb_ℤ b a

-- `NewRequestRequiresDefinition`; `compile` is `regexp.Compile`.
unfoldable pub new_request_requires_definition :
    (compile : String → Result (String → Bool))
    → String
    → List String
    → Result RequestRequiresDefinition
new_request_requires_definition compile url_regex resource_types =
    compile url_regex >>= λ expression.
    ok (record { url_regex = some expression; resource_types = resource_types })

unfoldable pub url_matches : Option (String → Bool) → Request → Bool
url_matches none q = false
url_matches (some regex) q = regex ((request_parts q).url.text)

-- `IsRequestValid`: the URL matches, or the resource type is one of those listed.
unfoldable pub is_request_valid : RequestRequiresDefinition → Request → String → Bool
is_request_valid definition q request_type =
    if url_matches definition.url_regex q
    then true
    else contains string_dec definition.resource_types request_type

-- `NewDialerDefinition`, but for the dial function; the identifier is a fresh UUID.
unfoldable pub new_dialer_definition :
    String → ℤ → Option ProxyDefinition → Option RequestRequiresDefinition → DialerDefinition
new_dialer_definition uuid priority proxy request_requires = record {
  identifier = uuid;
  priority = priority;
  proxy = proxy;
  request_requires = request_requires;
}

unfoldable pub new_dialer_session : DialerSession
new_dialer_session = record { dialer_definitions = []; total_tries = pos 0 }

-- `NewDialerContext`. The resource type is read from the request's header without a nil check: for a
-- nil request the result is a panic, `none`.
unfoldable pub new_dialer_context : DialerSession → Option Request → Option DialerContext
new_dialer_context session none = none
new_dialer_context session (some q) = some (record {
  request = some q;
  request_type = header_get (request_parts q).header proxy_resource_type;
  attempted_dial_identifiers = [];
  remaining_tries =
      if eq_ℤ session.total_tries (pos 0)
      then pos (length session.dialer_definitions)
      else session.total_tries;
})

unfoldable pub meets : Option RequestRequiresDefinition → Request → String → Bool
meets none q request_type = true
meets (some definition) q request_type = is_request_valid definition q request_type

-- Without a request every dialer is a candidate.
unfoldable pub matching_dialers :
    Option Request → String → List DialerDefinition → List DialerDefinition
matching_dialers none request_type definitions = definitions
matching_dialers (some q) request_type definitions =
    filter_slice definitions (λ d. meets d.request_requires q request_type)

unfoldable pub candidate_dialers : DialerSession → DialerContext → List DialerDefinition
candidate_dialers session context =
    filter_slice (matching_dialers context.request context.request_type session.dialer_definitions)
      λ d. not (contains string_dec context.attempted_dial_identifiers d.identifier)

-- The loop over `maxPriority`.
unfoldable pub max_priority : ℤ → List DialerDefinition → ℤ
max_priority best [] = best
max_priority best (d ∷ ds) = max_priority (if ltb_ℤ best d.priority then d.priority else best) ds

unfoldable pub best_dialers : List DialerDefinition → List DialerDefinition
best_dialers candidates =
    filter_slice candidates (λ d. eq_ℤ d.priority (max_priority (pos 0) candidates))

unfoldable pub use_dialer :
    DialerContext → Option DialerDefinition → Option DialerDefinition × DialerContext
use_dialer context none = (none, context)
use_dialer context (some dialer) = (
  some dialer,
  record context {
    remaining_tries = context.remaining_tries -ℤ pos 1;
    attempted_dial_identifiers = context.attempted_dial_identifiers ++ dialer.identifier ∷ [];
  },
)

-- `NextDialer`; `draw % n` is what `rand.Intn(n)` returns.
unfoldable pub next_dialer :
    ℕ → DialerSession → DialerContext → Option DialerDefinition × DialerContext
next_dialer draw session context =
    let best = best_dialers (candidate_dialers session context) in
    if leb_ℤ context.remaining_tries (pos 0)
    then (none, context)
    else use_dialer context (get_elem? best (draw % length best))
