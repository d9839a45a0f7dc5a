-- ===== src/CertStore.antt =====
-- groove/proxy/optimized_storage.go: the certificates of the hosts. A host's lock is held for the
-- whole of `Fetch`, so that the fetches of one host come one after the other; `genCert` is an action
-- on the state `W` of the outside world.
use grooveproxy.Base.{
  ◌≡◌, ◌≢◌, refl, sym, ◌∙◌, ap, Bool, false, List, [], ◌∷◌, none, some, String, Result, ok, err,
  StringMap, string_dec, if_neg, if_pos, empty_map, insert, arith, inl, inr, Option-cases, All,
}

pub record OptimizedCertStore (Cert : Type 0) : Type 0 where
  pub certs : StringMap Cert
  -- whether a lock was made for the host
  pub locks : StringMap Bool

module _ {Cert : Type 0} where
  unfoldable pub new_optimized_cert_store : OptimizedCertStore Cert
  new_optimized_cert_store = record { certs = empty_map; locks = empty_map }

  -- `hostLock`: a lock is made once and is free between fetches.
  unfoldable pub host_lock : OptimizedCertStore Cert → String → OptimizedCertStore Cert
  host_lock s host = elim (s.locks host) [
    | some lock ↦ s
    | none ↦ record s { locks = insert s.locks host false }
  ]

  lock-certs : (s : OptimizedCertStore Cert) (host : String) → (host_lock s host).certs ≡ s.certs
  unfolding host_lock
  lock-certs s host = ground arith

module _ {W Cert : Type 0} where
  unfoldable pub keep_cert :
      OptimizedCertStore Cert → String → W × Result Cert → OptimizedCertStore Cert × W × Result Cert
  keep_cert s host (w, err e) = (s, w, err e)
  keep_cert s host (w, ok cert) = (record s { certs = insert s.certs host cert }, w, ok cert)

  unfoldable pub fetch :
      OptimizedCertStore Cert
      → String
      → (W → W × Result Cert)
      → W
      → OptimizedCertStore Cert × W × Result Cert
  fetch s host gen_cert w =
      let s' = host_lock s host in
      elim (s'.certs host) [ some cert ↦ (s', w, ok cert) | none ↦ keep_cert s' host (gen_cert w) ]

  -- Fetches that come one after the other, each with its result.
  unfoldable pub fetch_all :
      OptimizedCertStore Cert
      → W
      → List (String × (W → W × Result Cert))
      → List (String × Result Cert)
  fetch_all s w [] = []
  fetch_all s w ((host, gen_cert) ∷ fetches) =
      let (s', w', result) = fetch s host gen_cert w in (host, result) ∷ fetch_all s' w' fetches

  keep-keeps :
      (s : OptimizedCertStore Cert) (host other : String) (r : W × Result Cert) (cert : Cert)
      → other ≢ host
      → s.certs host ≡ some cert
      → (keep_cert s other r).0.certs host ≡ some cert
  unfolding keep_cert
  keep-keeps s host other (w, err e) cert ne known = known
  keep-keeps s host other (w, ok c) cert ne known = if_neg (string_dec other host) ne _ _ ∙ known

  keep-stores :
      (s s' : OptimizedCertStore Cert) (host : String) (r : W × Result Cert) (w' : W) (cert : Cert)
      → keep_cert s host r ≡ (s', w', ok cert)
      → s'.certs host ≡ some cert
  unfolding keep_cert
  keep-stores s s' host (w, err e) w' cert ran =
      let results : err e ≡ ok cert = ap (λ x. x.2) ran in ground (arith, results)
  keep-stores s s' host (w, ok c) w' cert ran =
      let same : ok c ≡ ok cert = ap (λ x. x.2) ran in
      let same_cert : c ≡ cert = ground (arith, same) in
      ap (λ x. x.0.certs host) (sym ran)
      ∙ if_pos (string_dec host host) refl _ _
      ∙ ap some same_cert

  fetch-unknown :
      (s : OptimizedCertStore Cert) (host : String) (gen_cert : W → W × Result Cert) (w : W)
      → s.certs host ≡ none
      → fetch s host gen_cert w ≡ keep_cert (host_lock s host) host (gen_cert w)
  unfolding fetch
  fetch-unknown s host gen_cert w unknown = ground (arith, lock-certs s host, unknown)

  fetch-known :
      (s : OptimizedCertStore Cert) (host : String) (gen_cert : W → W × Result Cert) (w : W)
      (cert : Cert)
      → s.certs host ≡ some cert
      → fetch s host gen_cert w ≡ (host_lock s host, w, ok cert)
  unfolding fetch
  fetch-known s host gen_cert w cert known = ground (arith, lock-certs s host, known)

  -- A host with a certificate keeps it.
  fetch-keeps :
      (s : OptimizedCertStore Cert) (host other : String) (gen_cert : W → W × Result Cert) (w : W)
      (cert : Cert)
      → s.certs host ≡ some cert
      → (fetch s other gen_cert w).0.certs host ≡ some cert
  fetch-keeps s host other gen_cert w cert known = elim (Option-cases (s.certs other)) [
    | inr (c, there) ↦
        ap (λ x. x.0.certs host) (fetch-known s other gen_cert w c there)
        ∙ ap (λ m. m host) (lock-certs s other)
        ∙ known
    | inl unknown ↦
        let ne : other ≢ host = λ e.
          (let clash : some cert ≡ none = sym known ∙ ap s.certs (sym e) ∙ unknown in
            ground (arith, clash)) in
        ap (λ x. x.0.certs host) (fetch-unknown s other gen_cert w unknown)
        ∙ keep-keeps (host_lock s other) host other (gen_cert w) cert ne
            (ap (λ m. m host) (lock-certs s other) ∙ known)
  ]

  fetch-stores :
      (s s' : OptimizedCertStore Cert) (host : String) (gen_cert : W → W × Result Cert) (w w' : W)
      (cert : Cert)
      → fetch s host gen_cert w ≡ (s', w', ok cert)
      → s'.certs host ≡ some cert
  fetch-stores s s' host gen_cert w w' cert ran = elim (Option-cases (s.certs host)) [
    | inr (c, there) ↦
        let ends : ◌≡◌ {A = OptimizedCertStore Cert × W × Result Cert} (host_lock s host, w, ok c)
            (s', w', ok cert) =
          sym (fetch-known s host gen_cert w c there) ∙ ran in
        let same : ok c ≡ ok cert = ap (λ x. x.2) ends in
        let same_cert : c ≡ cert = ground (arith, same) in
        ap (λ x. x.0.certs host) (sym ends)
        ∙ ap (λ m. m host) (lock-certs s host)
        ∙ there
        ∙ ap some same_cert
    | inl unknown ↦
        keep-stores (host_lock s host) s' host (gen_cert w) w' cert
          (sym (fetch-unknown s host gen_cert w unknown) ∙ ran)
  ]

  known-All :
      (host : String) (cert : Cert) (s : OptimizedCertStore Cert) (w : W)
      (fetches : List (String × (W → W × Result Cert)))
      → s.certs host ≡ some cert
      → All (λ f. f.0 ≡ host → f.1 ≡ ok cert) (fetch_all s w fetches)
  unfolding fetch_all
  known-All host cert s w [] known = tt
  known-All host cert s w ((other, gen_cert) ∷ fetches) known =
      let (s', w', result) = fetch s other gen_cert w in
      (
        (λ e. ap (λ x. x.2) (fetch-known s other gen_cert w cert (ap s.certs e ∙ known))),
        known-All host cert s' w' fetches (fetch-keeps s host other gen_cert w cert known),
      )

  -- When a fetch gives a certificate for a host, every later fetch of the host gives the same, whatever
  -- its generator is, and the next fetch does not run its generator: it leaves the outside world and
  -- the certificates as they are, and makes sure of the host's lock.
  pub fetch-once :
      (s s' : OptimizedCertStore Cert) (host : String) (gen_cert gen' : W → W × Result Cert)
      (w w' v : W) (cert : Cert) (between : List (String × (W → W × Result Cert)))
      → fetch s host gen_cert w ≡ (s', w', ok cert)
      → All (λ f. f.0 ≡ host → f.1 ≡ ok cert) (fetch_all s' w' between)
        × (fetch s' host gen' v ≡ (host_lock s' host, v, ok cert))
  fetch-once s s' host gen_cert gen' w w' v cert between ran =
      let known = fetch-stores s s' host gen_cert w w' cert ran in
      (known-All host cert s' w' between known, fetch-known s' host gen' v cert known)
