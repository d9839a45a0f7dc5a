-- ===== src/Startup.antt =====
-- groove/proxy/main.go: what `main` sets up before its servers start. The flags are a record; the disk
-- and the index file of the cache are those of the disk store at its start.
pub mod First
pub mod Initial
pub mod Started
use Prim.Native.String.{◌++◌ as text_append}
use grooveproxy.Base.{
  ℕ, suc, ◌+◌, ◌-◌, ◌%◌, ◌≡◌, ◌≢◌, refl, sym, ◌∙◌, ap, Bool, true, false, ◌||◌, List, [], ◌∷◌, ◌++◌,
  Option, none, some, String, Result, ok, err, ◌>>=◌, and_then, if◌then◌else◌, same_text, is_some,
  get_elem?, arith, empty_map,
}
use grooveproxy.Base.Int64.{ℤ, pos}
use grooveproxy.Cache
use grooveproxy.Cache.{Cache, Environment, new_cache, request_url, finish_acquire, is_off}
use grooveproxy.CacheKey.{get_cache_key}
use grooveproxy.CertInstall.{
  Authority, KeyPair, Goproxy, System, CaPaths, get_local_ca_paths, set_ca, install_ca,
}
use grooveproxy.Dialers.{
  DialerDefinition, DialerContext, DialerSession, new_dialer_definition, new_dialer_session,
  new_dialer_context, next_dialer,
}
use grooveproxy.Headers.{handle_headers}
use grooveproxy.Http.{Request, RequestParts, Url, request, request_parts, previous_of}
use grooveproxy.Invalidator
use grooveproxy.Lru.Recency.{CacheMetadata}
use grooveproxy.Proxy.Serve.{Groove, Exchange, send, serve, proceed}
use grooveproxy.Proxy.{Proxy}
use grooveproxy.Recorder.{new_recorder}
use grooveproxy.Transport.{Network, new_custom_round_tripper}

pub record Flags : Type 0 where
  pub ca_certificate : String
  pub ca_key : String
  pub cache_memory_size : ℕ

-- The command line `groove install-ca`; each other one starts the proxy.
unfoldable pub is_install : List String → Bool
is_install [] = false
is_install (program ∷ []) = false
is_install (program ∷ command ∷ args) = same_text command "install-ca"

abbrev pub setting_ca : String → String
setting_ca e = text_append "Error setting CA: " e

-- The files of the CA: those of the flags, or the local ones if either is not given.
unfoldable pub ca_files : {W : Type 0} → System W → Flags → Result (String × String)
ca_files system flags =
    if same_text flags.ca_certificate "" || same_text flags.ca_key ""
    then (get_local_ca_paths system >>= λ paths. ok (paths.ca_path, paths.ca_key))
    else ok (flags.ca_certificate, flags.ca_key)

-- The session with the dialer straight to the Internet, whose identifier is a fresh UUID.
unfoldable pub passthrough_session : String → DialerSession
passthrough_session uuid = record new_dialer_session {
  dialer_definitions =
      new_dialer_session.dialer_definitions ++ new_dialer_definition uuid (pos 0) none none ∷ [];
}

unfoldable pub initial_groove :
    {D : Type 0} → D → Option (List CacheMetadata) → String → Flags → Groove D
initial_groove disk index_file uuid flags = record {
  proxy = record {
    recorder = new_recorder;
    cache = new_cache disk index_file flags.cache_memory_size;
  };
  round_tripper = new_custom_round_tripper (passthrough_session uuid);
}

module _ {Raw Leaf : Type 0} (authority : Authority Raw Leaf) where
  unfoldable pub started :
      {D : Type 0}
      → Groove D
      → Goproxy Raw Leaf × Option String
      → Result (Goproxy Raw Leaf × Groove D)
  started groove (goproxy, some e) = err (setting_ca e)
  started groove (goproxy, none) = ok (goproxy, groove)

  -- `main` up to its servers; an `err` is a `log.Fatal`.
  unfoldable pub start :
      {D W : Type 0}
      → System W
      → Goproxy Raw Leaf
      → D
      → Option (List CacheMetadata)
      → String
      → Flags
      → Result (Goproxy Raw Leaf × Groove D)
  start system goproxy disk index_file uuid flags = ca_files system flags >>= λ (ca_cert, ca_key).
      started (initial_groove disk index_file uuid flags) (set_ca authority goproxy ca_cert ca_key)

module _ {W Conn : Type 0} (net : Network W Conn) where
  unfoldable pub dial_through :
      W → String → String → Option DialerDefinition → Option (W × Result Conn)
  dial_through w network addr none = none
  dial_through w network addr (some dialer) = some (net.dial w dialer network addr)

  -- `ConnectDial`; `none` is a panic, of the context of a nil request or of a nil dialer.
  unfoldable pub connect_dial : ℕ → W → DialerSession → String → String → Option (W × Result Conn)
  connect_dial draw w session network addr =
      and_then (new_dialer_context session none)
        λ context. dial_through w network addr (next_dialer draw session context).0

-- `NonproxyHandler`, for a request to the proxy itself with the given `Host`: a refusal, or the request
-- that is served. `text_of` is `URL.String`, and `hostname_of` the host without its port.
unfoldable pub nonproxy_handler :
    (text_of : Url → String) → (hostname_of : String → String) → String → Request → Result Request
nonproxy_handler text_of hostname_of host q =
    let parts : RequestParts = request_parts q in
    let url : Url = record parts.url {
      scheme = "http";
      host = host;
      hostname = hostname_of host;
    } in
    if same_text host ""
    then err "Cannot handle requests without Host header, e.g., HTTP 1.0"
    else ok (request (record parts { url = record url { text = text_of url } }) (previous_of q))
