-- ===== src/Config/Check/Accepts.antt =====
-- What a configuration that passes the check has.
use supersim.Prelude.{
  ◌≡◌, ◌≢◌, ◌↔◌, refl, ap, ◌==◌, Bool, true, false, List, [], ◌∷◌, Option, none, some, String, ok,
  All, arith, inl, inr, length, Option-cases, Result-cases, Bool-cases,
}
use supersim.Prelude.Text.{Text}
use supersim.Config.Types.{CliConfig, ForkCliConfig}
use supersim.Config.Host.{validate_host}
use supersim.Config.Registry.{
  Registry, Superchain, OpChain, IsComplete, Names, find_network, superchain_member_chains,
  is_in_superchain, op_chain_by_name, is_in_superchain-op_chain_by_name,
}
use supersim.Config.Check.{ConfigError, check_chains, check_fork, check}

-- The chain that `OPChainByName` finds for a name.
abbrev pub Found : Registry → Type 0 → Superchain → String → Type 0
Found reg E s chain =
    (c : OpChain) × (op_chain_by_name reg {E = E} s chain ≡ ok (some c)) × (c.chain ≡ chain)

-- The network is known, and `OPChainByName` finds every chain, of which there is one at least.
pub record CanFork (reg : Registry) (E : Type 0) (fork : ForkCliConfig) : Type 0 where
  pub superchain : Superchain
  pub known : find_network fork.network reg.superchains ≡ some superchain
  pub some_chain : fork.chains ≢ []
  pub all_found : All (Found reg E superchain) fork.chains

module _ (reg : Registry) (E : Type 0) where
  Found-when :
      (s : Superchain) (name : String) (b : Bool) (o : Option OpChain)
      → op_chain_by_name reg {E = E} s name ≡ ok o
      → Names name b o
      → b ≡ true
      → Found reg E s name
  Found-when s name true none q n e = absurd n
  Found-when s name true (some c) q n e = (c, q, n)
  Found-when s name false o q n e = absurd (ground arith)

  Found-of :
      (s : Superchain) (name : String)
      → IsComplete reg s
      → is_in_superchain reg {E = ConfigError} name s ≡ ok true
      → Found reg E s name
  Found-of s name h e =
      let (b, o, p, q, n) = is_in_superchain-op_chain_by_name reg ConfigError E s name h in
      Found-when s name b o q n (ground arith)

  in_when :
      (name : String) (b : Bool) (o : Option OpChain) (c : OpChain)
      → Names name b o
      → o ≡ some c
      → b ≡ true
  in_when name true o c n e = refl
  in_when name false none c n e = absurd (ground arith)
  in_when name false (some d) c n e = absurd n

  in_of :
      (s : Superchain) (name : String)
      → IsComplete reg s
      → Found reg E s name
      → is_in_superchain reg {E = ConfigError} name s ≡ ok true
  in_of s name h (c, f, same) =
      let (b, o, p, q, n) = is_in_superchain-op_chain_by_name reg ConfigError E s name h in
      let t = in_when name b o c n (ground arith) in ground arith

  check_chains_sound :
      (fork : ForkCliConfig) (s : Superchain) (chains : List String)
      → IsComplete reg s
      → check_chains reg fork s chains ≡ ok tt
      → All (Found reg E s) chains
  unfolding check_chains
  check_chains_sound fork s [] h e = tt
  check_chains_sound fork s (chain ∷ chains) h e =
      let (b, o, p, q, n) = is_in_superchain-op_chain_by_name reg ConfigError E s chain h in
      elim (Bool-cases b) [
        | inl t ↦ (Found-when s chain b o q n t, check_chains_sound fork s chains h (ground arith))
        | inr f ↦ elim (Result-cases (superchain_member_chains reg {E = ConfigError} s)) [
          | inl (x, r) ↦ absurd (ground arith)
          | inr (inl (x, r)) ↦ absurd (ground arith)
          | inr (inr r) ↦ absurd (ground arith)
        ]
      ]

  check_chains_complete :
      (fork : ForkCliConfig) (s : Superchain) (chains : List String)
      → IsComplete reg s
      → All (Found reg E s) chains
      → check_chains reg fork s chains ≡ ok tt
  unfolding check_chains
  check_chains_complete fork s [] h v = refl
  check_chains_complete fork s (chain ∷ chains) h v =
      ground (arith, in_of s chain h v.0, check_chains_complete fork s chains h v.1)

  check_fork-sound :
      (fork : ForkCliConfig)
      → ((s : Superchain) → find_network fork.network reg.superchains ≡ some s → IsComplete reg s)
      → check_fork reg fork ≡ ok tt
      → CanFork reg E fork
  unfolding check_fork
  check_fork-sound fork h e = elim (Option-cases (find_network fork.network reg.superchains)) [
    | inl q ↦ absurd (ground arith)
    | inr (s, q) ↦ elim (Bool-cases (length fork.chains == 0)) [
      | inr f ↦ record {
        superchain = s;
        known = q;
        some_chain = λ z. ground (arith, ap length z);
        all_found = check_chains_sound fork s fork.chains (h s q) (ground arith);
      }
      | inl t ↦ elim (Result-cases (superchain_member_chains reg {E = ConfigError} s)) [
        | inl (x, r) ↦ absurd (ground arith)
        | inr (inl (x, r)) ↦ absurd (ground arith)
        | inr (inr r) ↦ absurd (ground arith)
      ]
    ]
  ]

  check_fork_complete :
      (fork : ForkCliConfig)
      → ((s : Superchain) → find_network fork.network reg.superchains ≡ some s → IsComplete reg s)
      → CanFork reg E fork
      → check_fork reg fork ≡ ok tt
  unfolding check_fork
  check_fork_complete fork h v = ground (
    arith,
    v.known,
    nonempty fork.chains v.some_chain,
    check_chains_complete fork v.superchain fork.chains (h v.superchain v.known) v.all_found,
  )
    where
      nonempty : (xs : List String) → xs ≢ [] → (length xs == 0) ≡ false
      nonempty [] n = absurd (n refl)
      nonempty (x ∷ xs) n = ground arith

  -- With a registry that has an entry for each chain of the network named, a configuration for a
  -- fork passes exactly where both hosts are accepted, the network is known, a chain is named, and
  -- `OPChainByName` finds each chain named.
  pub check_iff :
      (parse_ip : Text → Bool) (c : CliConfig) (fork : ForkCliConfig)
      → ((s : Superchain) → find_network fork.network reg.superchains ≡ some s → IsComplete reg s)
      → c.fork_config ≡ some fork
      → (check reg parse_ip c ≡ ok tt) ↔ (
          (validate_host parse_ip c.l1_host ≡ ok tt)
          × (validate_host parse_ip c.l2_host ≡ ok tt)
          × CanFork reg E fork)
  unfolding check
  check_iff parse_ip c fork h e = (
    λ p. elim (Result-cases (validate_host parse_ip c.l1_host)) [
      | inr (inl (x, q)) ↦ absurd (ground arith)
      | inr (inr q) ↦ absurd (ground arith)
      | inl (u, q) ↦ elim (Result-cases (validate_host parse_ip c.l2_host)) [
        | inr (inl (x, r)) ↦ absurd (ground arith)
        | inr (inr r) ↦ absurd (ground arith)
        | inl (u', r) ↦ (q, r, check_fork-sound fork h (ground arith))
      ]
    ],
    λ v. ground (arith, v.0, v.1, check_fork_complete fork h v.2),
  )
