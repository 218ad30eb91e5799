-- ===== src/Orchestrator/Describe.antt =====
-- orchestrator/orchestrator.go: Endpoint and ConfigAsString; Config of opsimulator/opsimulator.go.
-- `sort.Slice`, the order in which a map is walked, the log files and the addresses that a pointer
-- leads to are outside.
pub mod Order
mod Tests
use supersim.Prelude.{
  ℕ, ltb, ◌==◌, if◌then◌else◌, Bool, List, [], ◌∷◌, ◌++◌, map, Option, none, some, String, Result,
  ok, ◌>>=◌, or_panic,
}
use supersim.Prelude.Dict.{Dict, lookup}
use supersim.Prelude.Text.{Text, codes, decimal}
use supersim.Config.Types.{ChainConfig}
use supersim.Admin.{admin_config_as_string}
use supersim.Anvil.Rpc.{chain_endpoint}
use supersim.OpSimulator.Server.{new_server, endpoint}
use supersim.Orchestrator.Network.{OpSim, Orchestrator}

abbrev pub op_sim_endpoint : OpSim → Text
op_sim_endpoint sim = endpoint (new_server sim.host sim.port)

-- `Config` of a proxy: that of its chain with the proxy's port.
abbrev pub op_sim_config : OpSim → ChainConfig
op_sim_config sim = record sim.chain { port = sim.port }

-- The endpoint of a chain; the proxy that a map does not have is a nil pointer.
unfoldable pub endpoint_of : Orchestrator → ℕ → Result String Text
endpoint_of o chain_id =
    if o.l1_chain.chain_id == chain_id
    then ok (chain_endpoint o.l1_chain)
    else (or_panic (lookup chain_id o.l2_op_sims) >>= λ sim. ok (op_sim_endpoint sim))

abbrev pub sims_of : Dict OpSim → List OpSim
sims_of [] = []
sims_of ((id, sim) ∷ d) = sim ∷ sims_of d

-- `opSims[i].Config().Port < opSims[j].Config().Port`
abbrev pub by_port : OpSim → OpSim → Bool
by_port a b = ltb (op_sim_config a).port (op_sim_config b).port

-- "Name: %s  ChainID: %d  RPC: %s  LogPath: %s\n"
abbrev pub chain_line : ChainConfig → Text → Text → Text
chain_line cfg rpc log_path =
    codes "Name: "
    ++ (codes cfg.name
        ++ (codes "  ChainID: "
            ++ (decimal cfg.chain_id
                ++ (codes "  RPC: "
                    ++ (rpc ++ (codes "  LogPath: " ++ (log_path ++ codes "\n")))))))

abbrev pub address_lines : (String → Text) → Text
address_lines address_of =
    codes "    L1 Contracts:\n     - OptimismPortal:         "
    ++ (address_of "OptimismPortalProxy"
        ++ (codes "\n     - L1CrossDomainMessenger: "
            ++ (address_of "L1CrossDomainMessengerProxy"
                ++ (codes "\n     - L1StandardBridge:       "
                    ++ (address_of "L1StandardBridgeProxy" ++ codes "\n")))))

abbrev pub heading : Orchestrator → Text → Text
heading o log_path =
    admin_config_as_string o.admin_server
    ++ (codes "\nChain Configuration\n-----------------------\nL1: "
        ++ (chain_line o.l1_chain (chain_endpoint o.l1_chain) log_path
            ++ codes
                "\nL2: Predeploy Contracts Spec ( https://specs.optimism.io/protocol/predeploys.html )\n"))

-- What is outside: the file of an anvil's log, and the addresses by their names.
pub record Printed : Type 0 where
  pub log_path : ChainConfig → Text
  pub addresses : ℕ → Option (String → Text)
  pub walk : Dict OpSim → List OpSim
  pub sort_slice : (OpSim → OpSim → Bool) → List OpSim → List OpSim

module _ (out : Printed) where
  -- The body of the loop over the sorted proxies.
  unfoldable pub op_sim_lines : OpSim → Result String Text
  op_sim_lines sim = do
    l2 ← or_panic sim.chain.l2_config
    address_of ← or_panic (out.addresses l2.l1_addresses)
    ok (
        codes "\n  * "
        ++ (chain_line (op_sim_config sim) (op_sim_endpoint sim) (out.log_path sim.chain)
            ++ address_lines address_of))

  unfoldable pub all_op_sim_lines : List OpSim → Result String Text
  all_op_sim_lines [] = ok []
  all_op_sim_lines (sim ∷ sims) = do
    lines ← op_sim_lines sim
    rest ← all_op_sim_lines sims
    ok (lines ++ rest)

  unfoldable pub config_as_string : Orchestrator → Result String Text
  config_as_string o = do
    lines ← all_op_sim_lines (out.sort_slice by_port (out.walk o.l2_op_sims))
    ok (heading o (out.log_path o.l1_chain) ++ lines)
