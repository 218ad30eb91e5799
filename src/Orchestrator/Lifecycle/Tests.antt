-- ===== src/Orchestrator/Lifecycle/Tests.antt =====
-- The start of a local network.
use supersim.Prelude.{
  ◌≡◌, ◌≢◌, ◌⊎◌, ◌++◌, refl, Bool, true, List, [], ◌∷◌, map, ok, panic, returns, fails, arith,
}
use supersim.Config.TestData.{local_network}
use supersim.Config.Types.{ChainConfig}
use supersim.Prelude.Dict.{Dict}
use supersim.Orchestrator.Network.{Orchestrator, OpSim, assemble, behind_proxy, op_sim_of}
use supersim.Orchestrator.Lifecycle.Order.{start_order}
use supersim.Orchestrator.Lifecycle.{
  l1, l2_chain, op_sim, start_part, perform_all, Deed, configure_chain, Outcome, configure_all,
  start,
}
use supersim.Orchestrator.Lifecycle.Started.{start_deeds, start_lem}
use supersim.Orchestrator.Lifecycle.Misconfigured.{configure_all-panic}

abbrev anvils : Dict ChainConfig
anvils = map (λ (c : ChainConfig). (c.chain_id, behind_proxy c)) local_network.l2_configs

abbrev sims : Dict OpSim
sims =
    map (λ (c : ChainConfig). (c.chain_id, op_sim_of local_network anvils 9_545 c (behind_proxy c)))
      local_network.l2_configs

abbrev network : Orchestrator
network = assemble local_network 8_420 anvils sims

abbrev all_succeed : Outcome
all_succeed d = returns tt

abbrev all_fail : Outcome
all_fail d = fails "no connection"

abbrev all_seen : Deed → Bool
all_seen d = true

-- Where all goes well, everything is done.
local_start : start all_succeed all_seen network [] ≡ (ok tt, start_deeds network)
local_start = start_lem all_succeed all_seen (λ d. refl) network []

configure_all-panic_example :
    configure_all all_fail all_seen network [] ≡ (panic, map configure_chain (901 ∷ 902 ∷ []))
configure_all-panic_example =
    configure_all-panic all_fail all_seen network [] (902 ∷ []) 901 "no connection" [] refl refl
      (omega arith)

-- The proxies cannot listen.
abbrev no_proxy : Outcome
no_proxy (start_part (op_sim id)) = fails "address already in use"
no_proxy d = returns tt

start_order_example :
    (start no_proxy all_seen network [] ≡ (ok tt, [] ++ start_deeds network))
    ⊎ (((start no_proxy all_seen network []).0 ≢ ok tt)
        × ((done : List Deed) × (rest : List Deed) × (start_deeds network ≡ done ++ rest)
            × ((start no_proxy all_seen network []).1 ≡ [] ++ done)))
start_order_example = start_order no_proxy all_seen network []

-- Nothing is done after the first proxy has failed.
no_mining :
    (start no_proxy all_seen network []).1
    ≡ start_part l1
      ∷ start_part (l2_chain 901)
      ∷ start_part (l2_chain 902)
      ∷ start_part (op_sim 901)
      ∷ []
unfolding start perform_all
no_mining = refl
