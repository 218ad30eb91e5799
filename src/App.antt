-- ===== src/App.antt =====
-- supersim.go: NewSupersim, Start and Stop. The time of day is an argument.
pub mod Fork
pub mod Ready
pub mod Lifecycle
mod Tests
use supersim.Prelude.{
  ℕ, Bool, List, [], ◌∷◌, map, Option, none, some, String, Result, ok, err, panic, map_err, ◌>>=◌,
  ◌>>◌, or_panic,
}
use supersim.Prelude.Dict.{lookup}
use supersim.Config.Types.{ChainConfig, NetworkConfig, CliConfig, ForkCliConfig}
use supersim.Config.Registry.{Registry, find_network}
use supersim.Config.Default.{Deployment, get_default_network_config}
use supersim.Orchestrator.Fork.{Outside, ForkError, network_config_from_fork_cli_config}
use supersim.Orchestrator.Network.{Orchestrator, new_orchestrator}

pub record Supersim : Type 0 where
  pub cli_config : CliConfig
  pub network_config : NetworkConfig
  pub orchestrator : Orchestrator

-- A constructor to each `fmt.Errorf`; the second one does not wrap its error.
pub data SupersimError : Type 0 where
  fork_failed : ForkError → SupersimError
  orchestrator_failed : SupersimError

-- The hosts, the ports and the settings of interop that the command line gives.
abbrev pub forwarded_l1 : CliConfig → ChainConfig → ChainConfig
forwarded_l1 cli cfg = record cfg { port = cli.l1_port; host = cli.l1_host }

abbrev pub forwarded_l2 : CliConfig → ChainConfig → ChainConfig
forwarded_l2 cli cfg = record cfg { host = cli.l2_host }

unfoldable pub forwarded : CliConfig → NetworkConfig → NetworkConfig
forwarded cli n = record n {
  l1_config = forwarded_l1 cli n.l1_config;
  l2_starting_port = cli.l2_starting_port;
  l2_configs = map (forwarded_l2 cli) n.l2_configs;
  interop_auto_relay = cli.interop_auto_relay;
  interop_delay = cli.interop_delay;
}

module _ (reg : Registry) where
  -- The lines that print the chains dereference the registry's entry and the fork of each.
  unfoldable pub log_chains : List ChainConfig → Result SupersimError (Unit {0})
  log_chains [] = ok tt
  log_chains (cfg ∷ cfgs) = do
    chain ← or_panic (lookup cfg.chain_id reg.op_chains)
    fork ← or_panic cfg.fork_config
    log_chains cfgs

  unfoldable pub fork_network :
      Outside → CliConfig → ForkCliConfig → Result SupersimError NetworkConfig
  fork_network out cli fork = do
    superchain ← or_panic (find_network fork.network reg.superchains)
    n ← map_err fork_failed (network_config_from_fork_cli_config reg out cli.logs_directory fork)
    log_chains n.l2_configs
    ok n

  unfoldable pub new_supersim : Deployment → ℕ → Outside → CliConfig → Result SupersimError Supersim
  new_supersim d now out cli = do
    local ← get_default_network_config d now cli.logs_directory
    n ← elim cli.fork_config [ none ↦ ok local | some fork ↦ fork_network out cli fork ]
    o ← map_err (λ e. orchestrator_failed) (new_orchestrator (forwarded cli n) cli.admin_port)
    ok (record { cli_config = cli; network_config = forwarded cli n; orchestrator = o })
