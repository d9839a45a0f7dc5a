-- ===== src/CertInstall/Installed.antt =====
-- groove/proxy/cert.go: when an installation succeeds, and what it leaves alone.
use grooveproxy.Base.{
  ◌≡◌, ◌↔◌, refl, sym, ◌∙◌, ap, false, List, [], ◌∷◌, Option, none, some, String, Result, ok, err,
  if◌then◌else◌, same_text, arith, inl, inr, Bool-cases, Result-cases,
}
use grooveproxy.CertInstall.{
  Command, System, CaPaths, genrsa, request_certificate, copy_certificate, update_certificates,
  cert_util, add_trusted, or_fatal, no_user, ca_paths, get_local_ca_paths, install_ca_linux,
  install_ca_darwin, install_ca_os, generate_ca, install_at, install_ca,
}

or_fatal-ok :
    {W : Type 0} (m : W × Option String) (k : W → W × Result (Unit {0})) (w' : W)
    → or_fatal m k ≡ (w', ok tt)
    → (w : W) × (m ≡ (w, none)) × (k w ≡ (w', ok tt))
or_fatal-ok (w, some e) k w' h = ground (arith, h)
or_fatal-ok (w, none) k w' h = (w, refl, h)

module _ {W : Type 0} (system : System W) where
  -- Specification: commands that ran one after the other, each without an error.
  abbrev pub Succeed : W → List Command → W → Type 0
  Succeed w [] w' = w ≡ w'
  Succeed w (c ∷ cs) w' = (w1 : W) × (system.output w c ≡ (w1, none)) × Succeed w1 cs w'

  -- Specification: the commands of an installation, on a system that has one.
  abbrev pub script : String → CaPaths → Option (List Command)
  script home paths =
      let certificate = λ (install : List Command).
        genrsa paths.local_path ∷ request_certificate paths.local_path ∷ install in
      if same_text system.goos "linux"
      then some
          (certificate (copy_certificate paths.ca_path ∷ update_certificates ∷ cert_util home ∷ []))
      else if same_text system.goos "darwin"
      then some (certificate (add_trusted paths.ca_path ∷ []))
      else none

  -- What an installation that succeeds has done.
  pub record Installed (w w' : W) : Type 0 where
    pub home : String
    pub user : system.current_home ≡ ok home
    -- the folder is there, and holds no certificate yet
    pub folder : W
    pub made : system.mkdir_all w (ca_paths system home).local_path ≡ (folder, none)
    pub fresh : system.stat folder (ca_paths system home).ca_path ≡ false
    -- the commands for the system ran, without an error
    pub commands : List Command
    pub known_os : script home (ca_paths system home) ≡ some commands
    pub succeeded : Succeed folder commands w'

  abbrev run_all : W → List Command → W × Result (Unit {0})
  run_all w [] = (w, ok tt)
  run_all w (c ∷ cs) = or_fatal (system.output w c) λ w1. run_all w1 cs

  run_all-Succeed : (w w' : W) (cs : List Command) → run_all w cs ≡ (w', ok tt) → Succeed w cs w'
  run_all-Succeed w w' [] h = ground (arith, h)
  run_all-Succeed w w' (c ∷ cs) h =
      let (w1, ran, rest) = or_fatal-ok (system.output w c) (λ x. run_all x cs) w' h in
      (w1, ran, run_all-Succeed w1 w' cs rest)

  Succeed-run_all : (w w' : W) (cs : List Command) → Succeed w cs w' → run_all w cs ≡ (w', ok tt)
  Succeed-run_all w w' [] h = ap (λ x. (x, ok tt)) h
  Succeed-run_all w w' (c ∷ cs) (w1, ran, rest) =
      ap (λ m. or_fatal m (λ x. run_all x cs)) ran ∙ Succeed-run_all w1 w' cs rest

  generate_ca-script :
      (home : String) (paths : CaPaths) (cs : List Command) (w : W)
      → system.current_home ≡ ok home
      → script home paths ≡ some cs
      → generate_ca system paths w ≡ run_all w cs
  unfolding generate_ca install_ca_os install_ca_linux install_ca_darwin
  generate_ca-script home paths cs w user known =
      elim (Bool-cases (same_text system.goos "linux")) [
        | inl linux ↦
            let which : genrsa paths.local_path
                  ∷ request_certificate paths.local_path
                  ∷ copy_certificate paths.ca_path
                  ∷ update_certificates
                  ∷ cert_util home
                  ∷ []
                ≡ cs =
              ground (arith, known, linux) in
            rw (sym which, linux, user) refl
        | inr other ↦ elim (Bool-cases (same_text system.goos "darwin")) [
          | inl darwin ↦
              let which : genrsa paths.local_path
                    ∷ request_certificate paths.local_path
                    ∷ add_trusted paths.ca_path
                    ∷ []
                  ≡ cs =
                ground (arith, known, other, darwin) in
              rw (sym which, other, darwin) refl
          | inr unknown ↦ ground (arith, known, other, unknown)
        ]
      ]

  os-known :
      (home : String) (paths : CaPaths) (w w' : W)
      → install_ca_os system paths w ≡ (w', ok tt)
      → (cs : List Command) × (script home paths ≡ some cs)
  unfolding install_ca_os
  os-known home paths w w' h = elim (Bool-cases (same_text system.goos "linux")) [
    | inl linux ↦ (
      genrsa paths.local_path
          ∷ request_certificate paths.local_path
          ∷ copy_certificate paths.ca_path
          ∷ update_certificates
          ∷ cert_util home
          ∷ [],
      rw linux refl,
    )
    | inr other ↦ elim (Bool-cases (same_text system.goos "darwin")) [
      | inl darwin ↦ (
        genrsa paths.local_path
            ∷ request_certificate paths.local_path
            ∷ add_trusted paths.ca_path
            ∷ [],
        rw (other, darwin) refl,
      )
      | inr unknown ↦ ground (arith, h, other, unknown)
    ]
  ]

  generated-known :
      (home : String) (paths : CaPaths) (w w' : W)
      → generate_ca system paths w ≡ (w', ok tt)
      → (cs : List Command) × (script home paths ≡ some cs)
  unfolding generate_ca
  generated-known home paths w w' h =
      let (w1, made_key, rest) = or_fatal-ok (system.output w (genrsa paths.local_path)) _ w' h in
      let (w2, signed, last) =
        or_fatal-ok (system.output w1 (request_certificate paths.local_path)) _ w' rest in
      os-known home paths w2 w' last

  Installed-at :
      (home : String) (w w' : W)
      → system.current_home ≡ ok home
      → install_at system (ca_paths system home) w ≡ (w', ok tt)
      → Installed w w'
  unfolding install_at
  Installed-at home w w' user h =
      let paths = ca_paths system home in
      let (folder, made, rest) = or_fatal-ok (system.mkdir_all w paths.local_path) _ w' h in
      elim (Bool-cases (system.stat folder paths.ca_path)) [
        | inl there ↦ ground (arith, rest, there)
        | inr fresh ↦
            let generated : generate_ca system paths folder ≡ (w', ok tt) =
              ground (arith, rest, fresh) in
            let (commands, known) = generated-known home paths folder w' generated in
            record {
              home = home;
              user = user;
              folder = folder;
              made = made;
              fresh = fresh;
              commands = commands;
              known_os = known;
              succeeded =
                  run_all-Succeed folder w' commands
                    (sym (generate_ca-script home paths commands folder user known) ∙ generated);
            }
      ]

  user-known :
      (home : String)
      → system.current_home ≡ ok home
      → get_local_ca_paths system ≡ ok (ca_paths system home)
  unfolding get_local_ca_paths
  user-known home user = rw user refl

  user-unknown :
      (e : String) → system.current_home ≡ err e → get_local_ca_paths system ≡ err (no_user e)
  unfolding get_local_ca_paths
  user-unknown e unknown = rw unknown refl

  installs :
      (home : String) (w folder w' : W) (commands : List Command)
      → system.current_home ≡ ok home
      → system.mkdir_all w (ca_paths system home).local_path ≡ (folder, none)
      → system.stat folder (ca_paths system home).ca_path ≡ false
      → script home (ca_paths system home) ≡ some commands
      → Succeed folder commands w'
      → install_at system (ca_paths system home) w ≡ (w', ok tt)
  unfolding install_at
  installs home w folder w' commands user made fresh known succeeded =
      rw (made, fresh)
        (generate_ca-script home (ca_paths system home) commands folder user known
          ∙ Succeed-run_all folder w' commands succeeded)

  -- `installCA` succeeds exactly if the user is known, the folder for the CA can be made and holds no
  -- certificate yet, the system is Linux or macOS, and the commands for it, those that make the
  -- certificate and those that install it, run one after the other without an error; the machine
  -- is then as they leave it.
  pub install_ca-Installed : (w w' : W) → (install_ca system w ≡ (w', ok tt)) ↔ Installed w w'
  unfolding install_ca
  install_ca-Installed w w' = (
    λ h. elim (Result-cases system.current_home) [
      | inl (e, unknown) ↦ ground (arith, h, user-unknown e unknown)
      | inr (home, user) ↦ Installed-at home w w' user (ground (arith, h, user-known home user))
    ],
    λ i.
        rw (user-known i.home i.user, install_ca)
          (installs i.home w i.folder w' i.commands i.user i.made i.fresh i.known_os i.succeeded),
  )
