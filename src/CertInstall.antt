-- ===== src/CertInstall.antt =====
-- groove/proxy/cert.go: the CA of the proxy, and its installation on the local machine. The files,
-- the commands and the user of the machine are the operations of a `System` over its state `W`; the
-- TLS library's readers of keys and certificates are an `Authority`. `log.Fatal` ends the program with
-- its message, an `err`.
pub mod Installed
use Prim.Native.String.{◌++◌ as text_append}
use grooveproxy.Base.{
  Bool, true, false, List, [], ◌∷◌, Option, none, some, String, Result, ok, err, if◌then◌else◌,
  same_text,
}

-- `tls.Certificate`: the first of its certificates, which a loaded pair has, and the parsed leaf.
pub record KeyPair (Raw Leaf : Type 0) : Type 0 where
  pub certificate : Raw
  pub leaf : Option Leaf

pub record Authority (Raw Leaf : Type 0) : Type 0 where
  -- `tls.LoadX509KeyPair`
  pub load_key_pair : String → String → Result (KeyPair Raw Leaf)
  -- `x509.ParseCertificate`
  pub parse_certificate : Raw → Result Leaf

pub data ConnectActionLiteral : Type 0 where
  connect_accept connect_mitm connect_http_mitm connect_reject : ConnectActionLiteral

-- `goproxy.ConnectAction`, with the CA of its `TLSConfig`.
pub record ConnectAction (Raw Leaf : Type 0) : Type 0 where
  pub action : ConnectActionLiteral
  pub tls_config : KeyPair Raw Leaf

-- The variables of goproxy that `setCA` sets.
pub record Goproxy (Raw Leaf : Type 0) : Type 0 where
  pub goproxy_ca : KeyPair Raw Leaf
  pub ok_connect : ConnectAction Raw Leaf
  pub mitm_connect : ConnectAction Raw Leaf
  pub http_mitm_connect : ConnectAction Raw Leaf
  pub reject_connect : ConnectAction Raw Leaf

module _ {Raw Leaf : Type 0} (authority : Authority Raw Leaf) where
  -- The variables once the leaf is parsed.
  unfoldable pub goproxy_with : KeyPair Raw Leaf → Goproxy Raw Leaf
  goproxy_with ca = record {
    goproxy_ca = ca;
    ok_connect = record { action = connect_accept; tls_config = ca };
    mitm_connect = record { action = connect_mitm; tls_config = ca };
    http_mitm_connect = record { action = connect_http_mitm; tls_config = ca };
    reject_connect = record { action = connect_reject; tls_config = ca };
  }

  unfoldable pub use_leaf :
      Goproxy Raw Leaf → KeyPair Raw Leaf → Result Leaf → Goproxy Raw Leaf × Option String
  use_leaf goproxy ca (err e) = (goproxy, some e)
  use_leaf goproxy ca (ok leaf) = (goproxy_with (record ca { leaf = some leaf }), none)

  -- `setCA`, with its error.
  unfoldable pub set_ca : Goproxy Raw Leaf → String → String → Goproxy Raw Leaf × Option String
  set_ca goproxy ca_cert ca_key = elim (authority.load_key_pair ca_cert ca_key) [
    | err e ↦ (goproxy, some e)
    | ok ca ↦ use_leaf goproxy ca (authority.parse_certificate ca.certificate)
  ]

-- A command with its arguments and its directory.
pub record Command : Type 0 where
  pub path : String
  pub args : List String
  pub dir : Option String

pub record System (W : Type 0) : Type 0 where
  -- the home directory of `user.Current`
  pub current_home : Result String
  -- `path.Join`
  pub join : String → String → String
  pub goos : String
  pub mkdir_all : W → String → W × Option String
  -- whether `os.Stat` gives no error
  pub stat : W → String → Bool
  -- `cmd.Output`, with its error
  pub output : W → Command → W × Option String

pub record CaPaths : Type 0 where
  pub local_path : String
  pub ca_path : String
  pub ca_key : String

unfoldable pub genrsa : String → Command
genrsa local_path = record {
  path = "openssl";
  args = "genrsa" ∷ "-out" ∷ "ca.key" ∷ "2048" ∷ [];
  dir = some local_path;
}

unfoldable pub request_certificate : String → Command
request_certificate local_path = record {
  path = "openssl";
  args =
      "req" ∷ "-new" ∷ "-x509" ∷ "-key" ∷ "ca.key" ∷ "-out" ∷ "ca.crt" ∷ "-subj"
      ∷ "/C=US/ST=CA/L= /O= /OU= /CN=GrooveProxy/emailAddress= " ∷ [];
  dir = some local_path;
}

abbrev pub system_path : String
system_path = "/usr/local/share/ca-certificates/grooveproxy-ca.crt"

unfoldable pub copy_certificate : String → Command
copy_certificate ca_path = record {
  path = "sudo";
  args = "cp" ∷ ca_path ∷ system_path ∷ [];
  dir = none;
}

unfoldable pub update_certificates : Command
update_certificates = record { path = "sudo"; args = "update-ca-certificates" ∷ []; dir = none }

unfoldable pub cert_util : String → Command
cert_util home = record {
  path = "sudo";
  args =
      "certutil"
      ∷ "-d"
      ∷ text_append "sql:" (text_append home "/.pki/nssdb")
      ∷ "-A"
      ∷ "-t"
      ∷ "C,,"
      ∷ "-n"
      ∷ "grooveproxy"
      ∷ "-i"
      ∷ system_path
      ∷ [];
  dir = none;
}

unfoldable pub add_trusted : String → Command
add_trusted ca_path = record {
  path = "sudo";
  args =
      "security" ∷ "add-trusted-cert" ∷ "-d" ∷ "-p" ∷ "ssl" ∷ "-p" ∷ "basic" ∷ "-k"
      ∷ "/Library/Keychains/System.keychain" ∷ ca_path ∷ [];
  dir = none;
}

-- `log.Fatal` on an error, and else the rest.
abbrev pub or_fatal :
    {W : Type 0} → W × Option String → (W → W × Result (Unit {0})) → W × Result (Unit {0})
or_fatal (w, some e) rest = (w, err e)
or_fatal (w, none) rest = rest w

abbrev pub no_user : String → String
no_user e = text_append "Unable to resolve current user: " e

abbrev pub already_generated : CaPaths → String
already_generated paths =
    text_append "CA certificate already generated, remove to regenerate:\n `rm "
      (text_append paths.ca_path (text_append " && rm " (text_append paths.ca_key "`\n")))

module _ {W : Type 0} (system : System W) where
  unfoldable pub ca_paths : String → CaPaths
  ca_paths home =
      let local_path = system.join home ".grooveproxy" in
      record {
        local_path = local_path;
        ca_path = system.join local_path "ca.crt";
        ca_key = system.join local_path "ca.key";
      }

  -- `getLocalCAPaths`
  unfoldable pub get_local_ca_paths : Result CaPaths
  get_local_ca_paths = elim system.current_home [
    | err e ↦ err (no_user e)
    | ok home ↦ ok (ca_paths home)
  ]

  unfoldable pub install_ca_linux : String → W → W × Result (Unit {0})
  install_ca_linux ca_path w = elim system.current_home [
    | err e ↦ (w, err (no_user e))
    | ok home ↦ or_fatal (system.output w (copy_certificate ca_path)) λ w1.
        or_fatal (system.output w1 update_certificates)
          λ w2. or_fatal (system.output w2 (cert_util home)) λ w3. (w3, ok tt)
  ]

  unfoldable pub install_ca_darwin : String → W → W × Result (Unit {0})
  install_ca_darwin ca_path w = or_fatal (system.output w (add_trusted ca_path)) λ w1. (w1, ok tt)

  unfoldable pub install_ca_os : CaPaths → W → W × Result (Unit {0})
  install_ca_os paths w =
      if same_text system.goos "linux"
      then install_ca_linux paths.ca_path w
      else if same_text system.goos "darwin"
      then install_ca_darwin paths.ca_path w
      else (w, err "Unknown OS, can't perform local installation")

  -- The commands that make the certificate, and its installation.
  unfoldable pub generate_ca : CaPaths → W → W × Result (Unit {0})
  generate_ca paths w = or_fatal (system.output w (genrsa paths.local_path)) λ w1.
      or_fatal (system.output w1 (request_certificate paths.local_path))
        λ w2. install_ca_os paths w2

  unfoldable pub install_at : CaPaths → W → W × Result (Unit {0})
  install_at paths w = or_fatal (system.mkdir_all w paths.local_path) λ w1.
      if system.stat w1 paths.ca_path
      then (w1, err (already_generated paths))
      else generate_ca paths w1

  -- `installCA`
  unfoldable pub install_ca : W → W × Result (Unit {0})
  install_ca w = elim get_local_ca_paths [ err e ↦ (w, err e) | ok paths ↦ install_at paths w ]
