-- ===== src/Orchestrator/Network.antt =====
-- orchestrator/orchestrator.go, NewOrchestrator, with the fields that New of
-- opsimulator/opsimulator.go sets. An anvil is named by its configuration.
pub mod Ports
use supersim.Prelude.{
  ℕ, ◌+◌, ◌%◌, ltb, if◌then◌else◌, Bool, true, false, List, [], ◌∷◌, ◌++◌, map, Option, none, some,
  String, Result, ok, err, External, returns, fails, ◌>>=◌, or_panic,
}
use supersim.Prelude.Dict.{Dict, lookup, insert}
use supersim.Prelude.Int.{word}
use supersim.Prelude.Text.{Text}
use supersim.Config.Types.{ChainConfig, NetworkConfig}
use supersim.Interop.Store.{new_store}
use supersim.Interop.Indexer.{Indexer}
use supersim.Interop.Relayer.{Relayer}
use supersim.Admin.{AdminServer, new_admin_server}

-- `OpSimulator`, what `New` is given.
pub record OpSim : Type 0 where
  pub port : ℕ
  pub host : Text
  pub chain : ChainConfig
  pub l1_chain : ChainConfig
  pub peers : Dict ChainConfig
  pub interop_delay : ℕ

pub record Orchestrator : Type 0 where
  pub config : NetworkConfig
  pub l1_chain : ChainConfig
  pub l2_chains : Dict ChainConfig
  pub l2_op_sims : Dict OpSim
  pub indexer : Option Indexer
  pub relayer : Option Relayer
  pub admin_server : AdminServer

-- `cfg.Port = 0`, on the loop's copy.
abbrev pub behind_proxy : ChainConfig → ChainConfig
behind_proxy cfg = record cfg { port = 0 }

-- The loop that makes the anvils.
unfoldable pub l2_anvils : List ChainConfig → Dict ChainConfig → Dict ChainConfig
l2_anvils [] chains = chains
l2_anvils (cfg ∷ cfgs) chains = l2_anvils cfgs (insert cfg.chain_id (behind_proxy cfg) chains)

-- `if nextL2Port > 0 { nextL2Port++ }` on uint64.
unfoldable pub next_port : ℕ → ℕ
next_port port = if ltb 0 port then (port + 1) % word else port

abbrev pub op_sim_of : NetworkConfig → Dict ChainConfig → ℕ → ChainConfig → ChainConfig → OpSim
op_sim_of n peers port cfg chain = record {
  port = port;
  host = cfg.host;
  chain = chain;
  l1_chain = n.l1_config;
  peers = peers;
  interop_delay = n.interop_delay;
}

-- The loop that makes the proxies; `New` dereferences the chain that it looks up.
unfoldable pub l2_op_sims :
    NetworkConfig
    → Dict ChainConfig
    → List ChainConfig
    → ℕ
    → Dict OpSim
    → Result String (Dict OpSim)
l2_op_sims n peers [] port sims = ok sims
l2_op_sims n peers (cfg ∷ cfgs) port sims = or_panic (lookup cfg.chain_id peers) >>= λ chain.
    l2_op_sims n peers cfgs (next_port port)
      (insert cfg.chain_id (op_sim_of n peers port cfg chain) sims)

abbrev pub new_indexer : Indexer
new_indexer = record { store = new_store; published = [] }

abbrev pub new_relayer : Relayer
new_relayer = record { calls = []; sleeps = [] }

-- The indexer, with interop only.
abbrev pub indexer_of : NetworkConfig → Option Indexer
indexer_of n = if n.interop_enabled then some new_indexer else none

abbrev pub relayer_of : NetworkConfig → Option Relayer
relayer_of n =
    if n.interop_enabled then (if n.interop_auto_relay then some new_relayer else none) else none

abbrev pub assemble : NetworkConfig → ℕ → Dict ChainConfig → Dict OpSim → Orchestrator
assemble n admin_port chains sims = record {
  config = n;
  l1_chain = n.l1_config;
  l2_chains = chains;
  l2_op_sims = sims;
  indexer = indexer_of n;
  relayer = relayer_of n;
  admin_server = new_admin_server admin_port n (indexer_of n);
}

unfoldable pub new_orchestrator : NetworkConfig → ℕ → Result String Orchestrator
new_orchestrator n admin_port = do
  let chains : Dict ChainConfig = l2_anvils n.l2_configs []
  sims ← l2_op_sims n chains n.l2_configs n.l2_starting_port []
  ok (assemble n admin_port chains sims)
