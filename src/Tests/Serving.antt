-- ===== src/Tests/Serving.antt =====
-- groove/proxy/main.go, end_proxy.go and recorder.go: the middleware and a tunnel at concrete calls.
use grooveproxy.Base.{
  same_text, ℕ, suc, ◌≡◌, refl, [], ◌∷◌, none, some, String, string_dec, Result, ok,
}
use grooveproxy.Cache.{cache_mode_off}
use grooveproxy.Dialers.{ProxyDefinition}
use grooveproxy.EndProxy.{
  ProxyUrl, ConnectRequest, Wire, connect_request, set_basic_auth, with_port, new_connect_dial,
  dialer_of, dialed, connect, accept_reply,
}
use grooveproxy.EndProxy.Tunnel.{SchemeTunnels, dialer_of-Tunnels}
use grooveproxy.Http.{Response}
use grooveproxy.Invalidator.MemoryStore.{MemoryCache}
use grooveproxy.Proxy.{Proxy, answered, serve_request, serve_response, replay_isolated}
use grooveproxy.Recorder.{new_recorder}
use grooveproxy.Tests.Stored.{ask, cache, env}
use grooveproxy.Tests.Tapes.{half}

abbrev replaying : Proxy MemoryCache
replaying = record { recorder = half; cache = cache }

replay_isolated_example :
    let (definition, p', outcome) = serve_request env 1 replaying ask in
    (r : Response) × (outcome ≡ answered r)
    × (p'.cache ≡ cache)
    × (serve_response env 3 2 p' definition ask none (some r) ≡ some (p', some r))
replay_isolated_example = replay_isolated env 3 1 2 replaying ask refl

abbrev resting : Proxy MemoryCache
resting = record { recorder = new_recorder; cache = record cache { mode = cache_mode_off } }

-- A wire that counts its dials and accepts every tunnel; a connection is known by its number.
abbrev wire : Wire ℕ ℕ
wire = record {
  parse = λ s. ok (record { scheme = "http"; host = s });
  base64 = λ s. s;
  net_dial = λ w host. (suc w, ok w);
  tls_client = λ c. c;
  write = λ w c q. w;
  read_response = λ w c. (w, ok (record { status_code = 200; body = ok "" }));
  limit = λ n s. s;
  close = λ w c. w;
}

abbrev upstream : ProxyDefinition
upstream = record { url = "proxy:8080"; username = "u"; password = "p" }

-- The request of a tunnel to "site:443".
abbrev to_site : ConnectRequest
to_site = record {
  method = "CONNECT";
  host = "site:443";
  header = ("Proxy-Authorization", "Basic u:p" ∷ []) ∷ [];
}

abbrev tunnel_dial : ℕ → String → ℕ × Result ℕ
tunnel_dial w addr =
    dialed wire (λ text. text) (λ c. c) (set_basic_auth wire "u" "p" (connect_request addr))
      (wire.net_dial w (with_port "proxy:8080" ":80"))

dialer_of-Tunnels_example :
    (u : ProxyUrl) × (wire.parse "proxy:8080" ≡ ok u) × SchemeTunnels wire to_site u 4 5 4
unfolding dialer_of new_connect_dial same_text string_dec dialed connect accept_reply
dialer_of-Tunnels_example = dialer_of-Tunnels wire upstream tunnel_dial 4 5 "site:443" 4 refl refl
