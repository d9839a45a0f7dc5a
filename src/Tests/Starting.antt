-- ===== src/Tests/Starting.antt =====
-- groove/proxy/cert.go and main.go: an installation and a start on a machine that logs its commands.
use Prim.Native.String.{◌++◌ as text_append}
use grooveproxy.Base.{ℕ, ◌≡◌, ◌↔◌, true, false, List, [], ◌∷◌, none, some, String, ok, empty_map}
use grooveproxy.CertInstall.{
  Authority, KeyPair, Goproxy, ConnectAction, connect_accept, System, goproxy_with, install_ca,
}
use grooveproxy.CertInstall.Installed.{Installed, install_ca-Installed}
use grooveproxy.Invalidator.MemoryStore.{MemoryCache}
use grooveproxy.Proxy.Serve.{Groove}
use grooveproxy.Startup.{Flags, initial_groove}
use grooveproxy.Startup.Started.{Started}

-- Every command works, and is logged by its name.
abbrev machine : System (List String)
machine = record {
  current_home = ok "/home/me";
  join = λ a b. text_append a (text_append "/" b);
  goos = "linux";
  mkdir_all = λ w p. (w, none);
  stat = λ w p. false;
  output = λ w c. (c.path ∷ w, none);
}

abbrev log : List String
log = "sudo" ∷ "sudo" ∷ "sudo" ∷ "openssl" ∷ "openssl" ∷ []

install_ca-Installed_example : (install_ca machine [] ≡ (log, ok tt)) ↔ Installed machine [] log
install_ca-Installed_example = install_ca-Installed machine [] log

-- The same machine with a certificate.
abbrev certified : System (List String)
certified = record machine { stat = λ w p. true }

-- Certificates are numbers, and the one of "ca.crt" is 7.
abbrev authority : Authority ℕ ℕ
authority = record {
  load_key_pair = λ c k. ok (record { certificate = 7; leaf = none });
  parse_certificate = λ raw. ok raw;
}

abbrev bare_pair : KeyPair ℕ ℕ
bare_pair = record { certificate = 0; leaf = none }

abbrev accepting : ConnectAction ℕ ℕ
accepting = record { action = connect_accept; tls_config = bare_pair }

abbrev default_goproxy : Goproxy ℕ ℕ
default_goproxy = record {
  goproxy_ca = bare_pair;
  ok_connect = accepting;
  mitm_connect = accepting;
  http_mitm_connect = accepting;
  reject_connect = accepting;
}

abbrev flags : Flags
flags = record { ca_certificate = "ca.crt"; ca_key = "ca.key"; cache_memory_size = 25 }

abbrev empty_store : MemoryCache
empty_store = empty_map

abbrev ready : Groove MemoryCache
ready = initial_groove empty_store none "uuid" flags

abbrev signed : Goproxy ℕ ℕ
signed = goproxy_with authority (record { certificate = 7; leaf = some 7 })
