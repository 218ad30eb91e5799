-- ===== src/App/Tests.antt =====
-- The set-up for a fork of both chains of a network, and for the default network.
use supersim.Prelude.{
  ◌==◌, ◌≡◌, ◌⊎◌, refl, sym, ap, ◌∙◌, Bool, false, [], ◌∷◌, none, some, ok, err, arith, Bool-cases,
  inl, inr,
}
use supersim.Prelude.Text.{Text, codes, text_eq}
use supersim.Prelude.Dict.{lookup}
use supersim.Config.Types.{NetworkConfig, CliConfig}
use supersim.Config.Default.{Deployment, L2Deployment, default_network}
use supersim.Config.Host.{validate_host}
use supersim.Config.Check.{check, check_fork, check_chains}
use supersim.Config.Registry.{OpChain, find_network, is_in_superchain}
use supersim.Config.TestData.{two_chains, chain_op, chain_base, mainnet_only, fork_both}
use supersim.Orchestrator.Fork.{ForkError, network_config_from_fork_cli_config}
use supersim.Orchestrator.TestData.{outside}
use supersim.App.{Supersim, fork_failed, new_supersim}
use supersim.App.Fork.{IsKeyed}
use supersim.App.Ready.{IsReady, new_supersim-local, new_supersim-fork}

abbrev chain_a : L2Deployment
chain_a = record { chain_id = 901; genesis_json = codes "{}" }

abbrev chain_b : L2Deployment
chain_b = record { chain_id = 902; genesis_json = codes "{}" }

abbrev deployment : Deployment
deployment = record {
  l1_chain_id = 900;
  l1_genesis_json = codes "{}";
  l2s = chain_a ∷ chain_b ∷ [];
}

-- The settings of a command line without flags.
abbrev vanilla : CliConfig
vanilla = record {
  admin_port = 8_420;
  l1_port = 8_545;
  l2_starting_port = 9_545;
  interop_auto_relay = false;
  interop_delay = 0;
  logs_directory = "";
  fork_config = none;
  l1_host = codes "127.0.0.1";
  l2_host = codes "127.0.0.1";
}

abbrev forking : CliConfig
forking = record vanilla { fork_config = some fork_both }

abbrev no_ip : Text → Bool
no_ip host = false

sets_up_local :
    (s : Supersim) × (new_supersim two_chains deployment 1_700_000_000 outside vanilla ≡ ok s)
    × IsReady vanilla (default_network deployment 1_700_000_000 "" chain_a chain_b) s
sets_up_local =
    new_supersim-local two_chains deployment 1_700_000_000 outside vanilla chain_a chain_b refl refl
      refl (λ e. omega arith) (omega arith)

two_chains-IsKeyed : IsKeyed two_chains
unfolding lookup
two_chains-IsKeyed id c h = elim (Bool-cases (10 == id)) [
  | inl t ↦
      let same : chain_op ≡ c = ground arith in
      ap (λ (x : OpChain). x.chain_id) (sym same) ∙ ground arith
  | inr f ↦ elim (Bool-cases (8_453 == id)) [
    | inl t ↦
        let same : chain_base ≡ c = ground arith in
        ap (λ (x : OpChain). x.chain_id) (sym same) ∙ ground arith
    | inr g ↦ absurd (ground arith)
  ]
]

accepted : check two_chains no_ip forking ≡ ok tt
unfolding check validate_host text_eq check_fork find_network check_chains is_in_superchain lookup
accepted = refl

new_supersim-fork_example :
    ((e : ForkError) × (new_supersim two_chains deployment 1_700_000_000 outside forking
        ≡ err (fork_failed e)))
    ⊎ ((n : NetworkConfig) × (s : Supersim) × (network_config_from_fork_cli_config two_chains
            outside "" fork_both
          ≡ ok n)
        × (new_supersim two_chains deployment 1_700_000_000 outside forking ≡ ok s)
        × IsReady forking n s)
new_supersim-fork_example =
    new_supersim-fork two_chains deployment 1_700_000_000 outside forking chain_a chain_b no_ip
      fork_both refl refl mainnet_only two_chains-IsKeyed refl accepted (((λ e. cc), tt), (tt, tt))
      (omega arith)
