-- ===== src/Orchestrator/Tests.antt =====
-- The package's theorems at a fork of both chains of a network.
use supersim.Prelude.{ℕ, ◌+◌, ◌*◌, ◌≤◌, ◌<◌, ◌≡◌, ◌⊎◌, refl, ok, All, arith}
use supersim.Config.TestData.{chain_op, local_network}
use supersim.Orchestrator.Fork.{latest_l2_height_from_l1_header}
use supersim.Orchestrator.Network.{Orchestrator, new_orchestrator}
use supersim.Orchestrator.Network.Ports.{AllFronted, HasAnvil, new_orchestrator-AllFronted}
use supersim.Orchestrator.TestData.{latest, l1, client_of}
use supersim.Orchestrator.Fork.Height.{latest_l2_height_lem}

latest_l2_height_lem_example :
    (j : ℕ) × (latest_l2_height_from_l1_header chain_op (client_of 10) l1 ≡ ok (50 + j))
    × (j ≤ 500)
    × (1_000 + 2 * j ≤ 1_995)
    × ((j ≡ 500) ⊎ (1_995 < 1_000 + 2 * (j + 1)))
latest_l2_height_lem_example =
    latest_l2_height_lem chain_op (client_of 10) l1 latest 50 500 refl
      (record { has_number = refl; has_time = refl; fits = omega arith }) (omega arith)

new_orchestrator-AllFronted_example :
    (o : Orchestrator) × (new_orchestrator local_network 8_420 ≡ ok o)
    × AllFronted local_network o.l2_chains 0 o.l2_op_sims local_network.l2_configs
    × All (HasAnvil o.l2_chains) local_network.l2_configs
new_orchestrator-AllFronted_example =
    new_orchestrator-AllFronted local_network 8_420 ((λ e. omega arith, tt), (tt, tt)) (omega arith)
