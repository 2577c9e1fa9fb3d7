-- ===== src/Presets/K3s/Health.antt =====
-- What a successful health check of k3s has seen.
use gnomock.Engine.Actions.{ok, wrapping, given, Reply-cases}
use gnomock.Presets.K3s.{
  Client, healthcheck, config, config_bytes, read_config, check_cluster, some_of, kubeconfig_url,
  nodes_call, service_accounts_call,
}
use gnomock.Container.{Container, default_address}
use gnomock.Base.{ℤ, Text, ℕ, ◌≡◌, ◌≤◌, pos, ◌∷◌, Bool-cases, ◌==◌, lit, inr, inl, arith, ◌∙◌, ap}
use gnomock.Engine.{History, reply, http_get}
use gnomock.Base.Int.{int_eq, int_eq_iff}
use gnomock.Engine.Success.{bind-ok, wrapping-ok, closing-ok, given-ok}

module _ (s : Client) where
  some_of-ok :
      (message : Text) (n : ℕ) (h h' : History)
      → some_of s message n h ≡ (ok tt, h')
      → (1 ≤ n) × (h' ≡ h)
  unfolding some_of
  some_of-ok message n h h' e = elim (Bool-cases (n == 0)) [
    | inl p ↦ absurd (ground arith)
    | inr p ↦ (ground arith, ground arith)
  ]

  read_config-ok :
      (code : ℤ) (bytes : Text) (h h' : History)
      → read_config s code h ≡ (ok bytes, h')
      → (code ≡ pos 200) × (s.read_body h ≡ reply bytes) × (h' ≡ h)
  unfolding read_config
  read_config-ok code bytes h h' e = elim (Bool-cases (int_eq code (pos 200))) [
    | inr p ↦ absurd (ground arith)
    | inl p ↦ elim (Reply-cases (s.read_body h)) [
      | inr (x, q) ↦ absurd (ground arith)
      | inl (bs, q) ↦ ((int_eq_iff code (pos 200)).0 p, ground arith, ground arith)
    ]
  ]

  config_bytes-ok :
      (c : Container) (bytes : Text) (h h' : History)
      → config_bytes s c h ≡ (ok bytes, h')
      → (s.do_request (kubeconfig_url c) h ≡ reply (pos 200))
        × (s.read_body h' ≡ reply bytes)
        × (h' ≡ http_get (kubeconfig_url c) ∷ h)
  unfolding config_bytes
  config_bytes-ok c bytes h h' e = elim (Reply-cases (s.new_request (kubeconfig_url c))) [
    | inr (x, p) ↦ absurd (ground arith)
    | inl (u, p) ↦ elim (Reply-cases (s.do_request (kubeconfig_url c) h)) [
      | inr (x, q) ↦ absurd (ground arith)
      | inl (code, q) ↦
          let g = http_get (kubeconfig_url c) ∷ h in
          let (good, body, same) =
            read_config-ok code bytes g h'
              (closing-ok s.close_body (read_config s code) g h' bytes (ground arith)) in
          (q ∙ ap reply good, ground arith, same)
    ]
  ]

  config-ok :
      (c : Container) (kubeconfig : Text × Text) (h h' : History)
      → config s c h ≡ (ok kubeconfig, h')
      → (bytes : Text) × (s.do_request (kubeconfig_url c) h ≡ reply (pos 200))
        × (s.read_body h' ≡ reply bytes)
        × (s.parses bytes ≡ reply kubeconfig)
        × (h' ≡ http_get (kubeconfig_url c) ∷ h)
  unfolding config
  config-ok c kubeconfig h h' e =
      let get = wrapping (lit "can't get kubeconfig bytes") (config_bytes s c) in
      let parse =
        λ (bs : Text). wrapping (lit "can't create kubeconfig from bytes") (given (s.parses bs)) in
      let (bytes, g, p, q) = bind-ok get parse h h' kubeconfig e in
      let (good, body, calls) =
        config_bytes-ok c bytes h g
          (wrapping-ok (lit "can't get kubeconfig bytes") (config_bytes s c) h g bytes p) in
      let (parsed, same) = given-ok (s.parses bytes) g h' kubeconfig (
        wrapping-ok (lit "can't create kubeconfig from bytes") (given (s.parses bytes)) g h'
          kubeconfig q) in
      (bytes, good, ground arith, parsed, same ∙ calls)

  check_cluster-ok :
      (host : Text) (kubeconfig : Text × Text) (h h' : History)
      → check_cluster s host kubeconfig h ≡ (ok tt, h')
      → (n : ℕ) × (m : ℕ) × (1 ≤ n)
        × (1 ≤ m)
        × (s.nodes host h ≡ reply n)
        × (s.service_accounts host (nodes_call host ∷ h) ≡ reply m)
        × (h' ≡ service_accounts_call host ∷ nodes_call host ∷ h)
  unfolding check_cluster some_of
  check_cluster-ok host (old, kubeconfig) h h' e =
      elim (Reply-cases (s.new_for_config host kubeconfig)) [
        | inr (x, p) ↦ absurd (ground arith)
        | inl (u, p) ↦ elim (Reply-cases (s.nodes host h)) [
          | inr (x, q) ↦ absurd (ground arith)
          | inl (n, q) ↦ elim (Bool-cases (n == 0)) [
            | inl z ↦ absurd (ground arith)
            | inr z ↦ elim (Reply-cases (s.service_accounts host (nodes_call host ∷ h))) [
              | inr (x, r) ↦ absurd (ground arith)
              | inl (m, r) ↦
                  let (some_m, same) =
                    some_of-ok (lit "no service accounts found in cluster") m
                      (service_accounts_call host ∷ nodes_call host ∷ h) h' (ground arith) in
                  (n, m, ground arith, some_m, q, r, same)
            ]
          ]
        ]
      ]

  -- A successful health check has made three calls: it got the kubeconfig with status 200 and could
  -- read it, and then the cluster at the address of the default port, whatever host the kubeconfig
  -- names, listed at least one node and at least one service account.
  pub healthcheck-ready :
      (c : Container) (h h' : History)
      → healthcheck s c h ≡ (ok tt, h')
      → (n : ℕ) × (m : ℕ) × (bytes : Text) × (kubeconfig : Text × Text) × (g : History) × (1 ≤ n)
        × (1 ≤ m)
        × (g ≡ http_get (kubeconfig_url c) ∷ h)
        × (s.do_request (kubeconfig_url c) h ≡ reply (pos 200))
        × (s.parses bytes ≡ reply kubeconfig)
        × (s.nodes (default_address c) g ≡ reply n)
        × (s.service_accounts (default_address c) (nodes_call (default_address c) ∷ g) ≡ reply m)
        × (h' ≡ service_accounts_call (default_address c) ∷ nodes_call (default_address c) ∷ g)
  unfolding healthcheck
  healthcheck-ready c h h' e =
      let prefix = lit "failed to get kubeconfig" in
      let (kubeconfig, g, p, q) =
        bind-ok (wrapping prefix (config s c)) (check_cluster s (default_address c)) h h' tt e in
      let (bytes, good, body, parsed, calls) =
        config-ok c kubeconfig h g (wrapping-ok prefix (config s c) h g kubeconfig p) in
      let (n, m, some_n, some_m, nodes, accounts, last) =
        check_cluster-ok (default_address c) kubeconfig g h' q in
      (n, m, bytes, kubeconfig, g, some_n, some_m, calls, good, parsed, nodes, accounts, last)
