-- ===== src/Startup/Started.antt =====
-- groove/proxy/main.go: whether the proxy starts.
use grooveproxy.Base.{◌≡◌, List, Option, some, String, ok}
use grooveproxy.CertInstall.{
  Authority, KeyPair, ConnectAction, ConnectActionLiteral, connect_accept, connect_mitm,
  connect_http_mitm, connect_reject, Goproxy, System,
}
use grooveproxy.Invalidator.{}
use grooveproxy.Lru.Recency.{CacheMetadata}
use grooveproxy.Proxy.Serve.{Groove}
use grooveproxy.Startup.Initial.{IsInitial}
use grooveproxy.Startup.{Flags, ca_files}

-- An action of goproxy that does what it is named for, and signs with the CA.
pub record Signs {Raw Leaf : Type 0} (ca : KeyPair Raw Leaf) (action : ConnectActionLiteral)
    (a : ConnectAction Raw Leaf) : Type 0 where
  pub does : a.action ≡ action
  pub with_ca : a.tls_config ≡ ca

module _ {D W Raw Leaf : Type 0} (authority : Authority Raw Leaf) (system : System W)
    (old : Goproxy Raw Leaf) (disk : D) (index_file : Option (List CacheMetadata)) (uuid : String)
    (flags : Flags) where
  -- What `main` has at hand when its servers start.
  pub record Started (goproxy : Goproxy Raw Leaf) (groove : Groove D) : Type 0 where
    pub cert : String
    pub key : String
    pub files : ca_files system flags ≡ ok (cert, key)
    pub ca : KeyPair Raw Leaf
    pub loaded : authority.load_key_pair cert key ≡ ok ca
    pub leaf : Leaf
    pub parsed : authority.parse_certificate ca.certificate ≡ ok leaf
    pub own : goproxy.goproxy_ca ≡ record { certificate = ca.certificate; leaf = some leaf }
    pub accepts : Signs goproxy.goproxy_ca connect_accept goproxy.ok_connect
    pub intercepts : Signs goproxy.goproxy_ca connect_mitm goproxy.mitm_connect
    pub intercepts_http : Signs goproxy.goproxy_ca connect_http_mitm goproxy.http_mitm_connect
    pub rejects : Signs goproxy.goproxy_ca connect_reject goproxy.reject_connect
    pub initial : IsInitial disk index_file uuid groove
