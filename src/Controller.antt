-- ===== src/Controller.antt =====
-- groove/proxy/controller.go: the control API. A request body is what its JSON decoder makes of it,
-- and an answer is its status with, for a retrieved tape, the data. A panic is what gin's recovery
-- makes of it, status 500.
pub mod Dialing
pub mod Becomes
pub mod Taping
pub mod RecordReplay
pub mod Playback
use grooveproxy.Base.{
  same_text, ℕ, Bool, true, false, not, ◌&&◌, ◌||◌, List, [], ◌∷◌, ◌++◌, Option, none, some, String,
  string_dec, Result, ok, err, if◌then◌else◌, ite, map,
}
use grooveproxy.Base.Int64.{ℤ, pos, negsuc}
use grooveproxy.Cache
use grooveproxy.Cache.{
  Cache, CacheMode, Environment, cache_mode_off, cache_mode_standard, cache_mode_get_aggressive,
  cache_mode_aggressive,
}
use grooveproxy.Dialers.{
  DialerSession, eq_ℤ, DialerDefinition, ProxyDefinition, RequestRequiresDefinition,
  new_dialer_definition, new_request_requires_definition,
}
use grooveproxy.Recorder.{
  Recorder, TapeFormat, recorder_mode_off, recorder_mode_read, recorder_mode_write, clear_tape_id,
  export_data, load_data,
}
use grooveproxy.Recorder

pub record DialerDefinitionRequest : Type 0 where
  pub priority : ℤ
  pub proxy_server : String
  pub proxy_username : String
  pub proxy_password : String
  pub requires_url_regex : String
  pub requires_resource_types : List String

pub record State (D : Type 0) : Type 0 where
  pub recorder : Recorder
  pub cache : Cache D
  pub dialer_session : DialerSession

-- The file of a load: the form has none, it does not open, or these are its bytes.
pub data Upload (Bytes : Type 0) : Type 0 where
  missing unopened : Upload Bytes
  file : Bytes → Upload Bytes

-- A call of a route, with its decoded body; a load of dialers comes with the UUIDs that it draws.
pub data Call (Bytes : Type 0) : Type 0 where
  post_tape_record post_tape_stop post_cache_clear : Call Bytes
  post_tape_retrieve post_tape_clear : Result String → Call Bytes
  post_tape_load : Upload Bytes → Call Bytes
  post_cache_mode : Result ℤ → Call Bytes
  post_dialer_load : String → Result (List (String × DialerDefinitionRequest)) → Call Bytes

pub record Reply (Bytes : Type 0) : Type 0 where
  pub status : ℕ
  pub payload : Option Bytes

-- The mode of a number; each other number is neither off nor aggressive, as the standard mode.
unfoldable pub cache_mode_of : ℤ → CacheMode
cache_mode_of mode =
    if eq_ℤ mode (pos 0)
    then cache_mode_off
    else if eq_ℤ mode (pos 2)
    then cache_mode_get_aggressive
    else if eq_ℤ mode (pos 3)
    then cache_mode_aggressive
    else cache_mode_standard

unfoldable pub requires_something : DialerDefinitionRequest → Bool
requires_something request =
    not (same_text request.requires_url_regex "") || some_types request.requires_resource_types
  where
    some_types : List String → Bool
    some_types [] = false
    some_types (t ∷ types) = true

unfoldable pub proxy_of : DialerDefinitionRequest → Option ProxyDefinition
proxy_of request =
    if same_text request.proxy_server ""
    then none
    else some (record {
      url = request.proxy_server;
      username = request.proxy_username;
      password = request.proxy_password;
    })

unfoldable pub requires_of :
    (compile : String → Result (String → Bool))
    → DialerDefinitionRequest
    → Result (Option RequestRequiresDefinition)
requires_of compile request =
    if requires_something request
    then elim (new_request_requires_definition compile request.requires_url_regex
        request.requires_resource_types) [ ok definition ↦ ok (some definition) | err e ↦ err e ]
    else ok none

unfoldable pub append_definition : DialerSession → DialerDefinition → DialerSession
append_definition session definition = record session {
  dialer_definitions = session.dialer_definitions ++ definition ∷ [];
}

-- The loop of the handler, each request with the UUID that its definition gets; the status, and the
-- session as it is when the handler returns.
unfoldable pub load_definitions :
    (compile : String → Result (String → Bool))
    → DialerSession
    → List (String × DialerDefinitionRequest)
    → DialerSession × ℕ
load_definitions compile session [] = (session, 200)
load_definitions compile session ((uuid, request) ∷ requests) = elim (requires_of compile request) [
  | err e ↦ (session, 400)
  | ok request_requires ↦
      load_definitions compile
        (append_definition session
          (new_dialer_definition uuid request.priority (proxy_of request) request_requires))
        requests
]

-- `POST /api/dialer/load` with decoded requests; `uuid` is for the definition of an empty list.
unfoldable pub dialer_load :
    (compile : String → Result (String → Bool))
    → String
    → DialerSession
    → List (String × DialerDefinitionRequest)
    → DialerSession × ℕ
dialer_load compile uuid session [] = (
  append_definition (record session { dialer_definitions = [] })
      (new_dialer_definition uuid (pos 0) none none),
  200,
)
dialer_load compile uuid session (request ∷ requests) =
    load_definitions compile (record session { dialer_definitions = [] }) (request ∷ requests)

module _ {D Bytes : Type 0} (env : Environment D) (format : TapeFormat Bytes) where
  abbrev replies : State D → ℕ → State D × Reply Bytes
  replies s status = (s, record { status = status; payload = none })

  unfoldable pub tape_record : State D → State D × Reply Bytes
  tape_record s =
      replies
        (record s { recorder = Recorder.clear (record s.recorder { mode = recorder_mode_write }) })
        200

  unfoldable pub tape_stop : State D → State D × Reply Bytes
  tape_stop s = replies (record s { recorder = record s.recorder { mode = recorder_mode_off } }) 200

  unfoldable pub exported_reply : State D → Result Bytes → State D × Reply Bytes
  exported_reply s (err e) = replies s 503
  exported_reply s (ok bytes) = (s, record { status = 200; payload = some bytes })

  unfoldable pub tape_retrieve : State D → Result String → State D × Reply Bytes
  tape_retrieve s (err e) = replies s 400
  tape_retrieve s (ok tape_id) = exported_reply s (export_data format s.recorder tape_id)

  -- Without an open file the handler panics, after it set the mode and cleared the recorder.
  unfoldable pub tape_load : State D → Upload Bytes → State D × Reply Bytes
  tape_load s upload =
      let cleared = Recorder.clear (record s.recorder { mode = recorder_mode_read }) in
      elim upload [
        | missing ↦ replies (record s { recorder = cleared }) 500
        | unopened ↦ replies (record s { recorder = cleared }) 500
        | file bytes ↦ replies (record s { recorder = (load_data format cleared bytes).0 }) 200
      ]

  unfoldable pub tape_clear : State D → Result String → State D × Reply Bytes
  tape_clear s (err e) = replies s 400
  tape_clear s (ok tape_id) =
      if same_text tape_id ""
      then replies (record s { recorder = Recorder.clear s.recorder }) 200
      else replies (record s { recorder = clear_tape_id s.recorder tape_id }) 200

  unfoldable pub set_cache_mode : State D → Result ℤ → State D × Reply Bytes
  set_cache_mode s (err e) = replies s 400
  set_cache_mode s (ok mode) =
      replies (record s { cache = record s.cache { mode = cache_mode_of mode } }) 200

  unfoldable pub cache_clear : State D → State D × Reply Bytes
  cache_clear s = replies (record s { cache = Cache.clear env s.cache }) 200

  unfoldable pub load_dialers :
      (compile : String → Result (String → Bool))
      → String
      → State D
      → Result (List (String × DialerDefinitionRequest))
      → State D × Reply Bytes
  load_dialers compile uuid s (err e) = replies s 400
  load_dialers compile uuid s (ok requests) =
      let (session, status) = dialer_load compile uuid s.dialer_session requests in
      replies (record s { dialer_session = session }) status

  -- The routes of `createController`.
  unfoldable pub route :
      (compile : String → Result (String → Bool)) → State D → Call Bytes → State D × Reply Bytes
  route compile s post_tape_record = tape_record s
  route compile s post_tape_stop = tape_stop s
  route compile s (post_tape_retrieve request) = tape_retrieve s request
  route compile s (post_tape_load upload) = tape_load s upload
  route compile s (post_tape_clear request) = tape_clear s request
  route compile s (post_cache_mode request) = set_cache_mode s request
  route compile s post_cache_clear = cache_clear s
  route compile s (post_dialer_load uuid request) = load_dialers compile uuid s request
