-- ===== src/App/Ready.antt =====
-- What NewSupersim makes of a command line that has passed the check.
use supersim.Prelude.{
  ℕ, ◌+◌, ◌<◌, ◌≡◌, ◌≢◌, ◌⊎◌, inl, inr, refl, sym, Bool, map, none, some, ok, err, arith, length,
  get_elem?,
}
use supersim.Prelude.Int.{word}
use supersim.Prelude.Text.{Text}
use supersim.Config.Types.{ChainConfig, NetworkConfig, CliConfig, ForkCliConfig}
use supersim.Config.Registry.{Registry, Superchain, find_network, IsComplete}
use supersim.Config.Check.{check}
use supersim.Config.Check.Accepts.{CanFork, check_iff}
use supersim.Config.Default.{Deployment, L2Deployment, default_network, get_default_network_config}
use supersim.Orchestrator.Fork.{Outside, ForkError, network_config_from_fork_cli_config}
use supersim.Orchestrator.Fork.Chains.{found_chains, network_config_from_fork_cli_config-CanFork}
use supersim.Orchestrator.Network.{Orchestrator, new_orchestrator}
use supersim.Orchestrator.Network.Ports.{AllFronted, Differ, new_orchestrator-AllFronted}
use supersim.App.{
  Supersim, SupersimError, fork_failed, forwarded, forwarded_l2, log_chains, fork_network,
  new_supersim,
}
use supersim.App.Fork.{IsKeyed, Unrepeated, log_chains-Forked, Forked-Differ}

-- A program whose network is the one given, with the ports, the hosts and the settings of interop
-- that the command line gives, and whose orchestrator is made of that network, with a proxy in front
-- of each L2.
pub record IsReady (cli : CliConfig) (n : NetworkConfig) (s : Supersim) : Type 0 where
  pub keeps_cli : s.cli_config ≡ cli
  pub has_l1 :
      s.network_config.l1_config ≡ record n.l1_config { port = cli.l1_port; host = cli.l1_host }
  pub has_l2s :
      s.network_config.l2_configs
      ≡ map (λ (c : ChainConfig). record c { host = cli.l2_host }) n.l2_configs
  pub has_starting_port : s.network_config.l2_starting_port ≡ cli.l2_starting_port
  pub keeps_interop : s.network_config.interop_enabled ≡ n.interop_enabled
  pub has_auto_relay : s.network_config.interop_auto_relay ≡ cli.interop_auto_relay
  pub has_delay : s.network_config.interop_delay ≡ cli.interop_delay
  pub is_orchestrator : new_orchestrator s.network_config cli.admin_port ≡ ok s.orchestrator
  pub is_fronted :
      AllFronted s.network_config s.orchestrator.l2_chains 0 s.orchestrator.l2_op_sims
        s.network_config.l2_configs

-- The orchestrator is made of a network whose L2s differ and whose ports fit.
makes_orchestrator :
    (cli : CliConfig) (n : NetworkConfig)
    → Differ (map (forwarded_l2 cli) n.l2_configs)
    → cli.l2_starting_port + length (map (forwarded_l2 cli) n.l2_configs) < word
    → (o : Orchestrator) × (new_orchestrator (forwarded cli n) cli.admin_port ≡ ok o)
      × AllFronted
          (forwarded cli n)
          o.l2_chains
          0
          o.l2_op_sims
          (map (forwarded_l2 cli) n.l2_configs)
unfolding forwarded
makes_orchestrator cli n differ fits =
    let (o, made, fronted, _) =
      new_orchestrator-AllFronted (forwarded cli n) cli.admin_port differ fits in
    (o, made, fronted)

module _ (reg : Registry) (d : Deployment) (now : ℕ) (out : Outside) (cli : CliConfig) where
  ready :
      (n local : NetworkConfig)
      → get_default_network_config d now cli.logs_directory {E = SupersimError} ≡ ok local
      → (elim cli.fork_config [ none ↦ ok local | some fork ↦ fork_network reg out cli fork ])
        ≡ ok n
      → Differ (map (forwarded_l2 cli) n.l2_configs)
      → cli.l2_starting_port + length (map (forwarded_l2 cli) n.l2_configs) < word
      → (s : Supersim) × (new_supersim reg d now out cli ≡ ok s) × IsReady cli n s
  unfolding new_supersim forwarded
  ready n local has_local has_network differ fits =
      let (o, made, fronted) = makes_orchestrator cli n differ fits in
      (
        record { cli_config = cli; network_config = forwarded cli n; orchestrator = o },
        ground (arith, has_local, has_network, made),
        record {
          keeps_cli = refl;
          has_l1 = refl;
          has_l2s = refl;
          has_starting_port = refl;
          keeps_interop = refl;
          has_auto_relay = refl;
          has_delay = refl;
          is_orchestrator = made;
          is_fronted = fronted;
        },
      )

  default_network-made :
      (a b : L2Deployment)
      → get_elem? d.l2s 0 ≡ some a
      → get_elem? d.l2s 1 ≡ some b
      → get_default_network_config d now cli.logs_directory {E = SupersimError}
        ≡ ok (default_network d now cli.logs_directory a b)
  unfolding get_default_network_config
  default_network-made a b first second = ground (arith, first, second)

  -- Without a fork, of a deployment whose first two L2s have different ids, and with a starting
  -- port that leaves room for two, the program is set up for the default network of these L2s.
  pub new_supersim-local :
      (a b : L2Deployment)
      → get_elem? d.l2s 0 ≡ some a
      → get_elem? d.l2s 1 ≡ some b
      → cli.fork_config ≡ none
      → a.chain_id ≢ b.chain_id
      → cli.l2_starting_port + 2 < word
      → (s : Supersim) × (new_supersim reg d now out cli ≡ ok s)
        × IsReady cli (default_network d now cli.logs_directory a b) s
  new_supersim-local a b first second vanilla differ fits =
      let local : NetworkConfig = default_network d now cli.logs_directory a b in
      ready local local (default_network-made a b first second) (ground (arith, vanilla))
        (((λ e. differ (sym e)), tt), (tt, tt)) (omega arith)

  fork_network-made :
      (fork : ForkCliConfig) (s : Superchain) (n : NetworkConfig)
      → find_network fork.network reg.superchains ≡ some s
      → network_config_from_fork_cli_config reg out cli.logs_directory fork ≡ ok n
      → log_chains reg n.l2_configs ≡ ok tt
      → fork_network reg out cli fork ≡ ok n
  unfolding fork_network
  fork_network-made fork s n known made logged = ground (arith, known, made, logged)

  fork_failure :
      (a b : L2Deployment) (fork : ForkCliConfig) (s : Superchain) (e : ForkError)
      → get_elem? d.l2s 0 ≡ some a
      → get_elem? d.l2s 1 ≡ some b
      → cli.fork_config ≡ some fork
      → find_network fork.network reg.superchains ≡ some s
      → network_config_from_fork_cli_config reg out cli.logs_directory fork ≡ err e
      → new_supersim reg d now out cli ≡ err (fork_failed e)
  unfolding new_supersim fork_network
  fork_failure a b fork s e first second forks known failed =
      ground (arith, default_network-made a b first second, forks, known, failed)

  -- With a registry that has an entry for each chain of the network, under its id, a command line
  -- for a fork that passes the check, names no chain twice and leaves room for the ports gives the
  -- error of the fork, or a program set up for the network of the fork; it does not panic.
  pub new_supersim-fork :
      (a b : L2Deployment) (parse_ip : Text → Bool) (fork : ForkCliConfig)
      → get_elem? d.l2s 0 ≡ some a
      → get_elem? d.l2s 1 ≡ some b
      → ((s : Superchain) → find_network fork.network reg.superchains ≡ some s → IsComplete reg s)
      → IsKeyed reg
      → cli.fork_config ≡ some fork
      → check reg parse_ip cli ≡ ok tt
      → Unrepeated fork.chains
      → cli.l2_starting_port + length fork.chains < word
      → ((e : ForkError) × (new_supersim reg d now out cli ≡ err (fork_failed e)))
        ⊎ ((n : NetworkConfig) × (s : Supersim) × (network_config_from_fork_cli_config reg out
                cli.logs_directory fork
              ≡ ok n)
            × (new_supersim reg d now out cli ≡ ok s)
            × IsReady cli n s)
  new_supersim-fork a b parse_ip fork first second complete keyed forks checked once fits =
      let can : CanFork reg ForkError fork =
        ((check_iff reg ForkError parse_ip cli fork complete forks).0 checked).2 in
      elim (network_config_from_fork_cli_config-CanFork reg out cli.logs_directory fork can) [
        | inl (e, failed) ↦
            inl (e, fork_failure a b fork can.superchain e first second forks can.known failed)
        | inr (n, l1, made, _, _, forked) ↦
            let cs =
              found_chains reg out cli.logs_directory can.superchain fork.chains can.all_found in
            let (logged, long) =
              log_chains-Forked reg keyed out cli.logs_directory fork.interop_enabled can.superchain
                l1 cs cli fork.chains can.all_found n.l2_configs forked in
            let differ =
              Forked-Differ reg keyed out cli.logs_directory fork.interop_enabled can.superchain l1
                cs cli fork.chains can.all_found n.l2_configs once forked in
            let network = fork_network-made fork can.superchain n can.known made logged in
            let (s, set_up, is_ready) =
              ready n (default_network d now cli.logs_directory a b)
                (default_network-made a b first second) (ground (arith, forks, network)) differ
                (omega (arith, long)) in
            inr (n, s, made, set_up, is_ready)
      ]
