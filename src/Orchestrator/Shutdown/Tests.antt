-- ===== src/Orchestrator/Shutdown/Tests.antt =====
-- A stop where the L1 fails to.
use supersim.Prelude.{◌≡◌, refl, [], ◌∷◌, External, returns, fails}
use supersim.Config.TestData.{local_network}
use supersim.Orchestrator.Network.{Orchestrator, assemble}
use supersim.Orchestrator.Lifecycle.{Part, l1, message_relayer, message_indexer, admin}
use supersim.Orchestrator.Shutdown.{stop}

abbrev network : Orchestrator
network = assemble local_network 8_420 [] []

abbrev l1_hangs : Part → External (Unit {0})
l1_hangs l1 = fails "already stopped"
l1_hangs p = returns tt

-- All the same the admin server, which comes after it, is stopped.
all_stopped :
    stop l1_hangs network
    ≡ (message_relayer ∷ message_indexer ∷ l1 ∷ admin ∷ [], (l1, "already stopped") ∷ [])
unfolding stop
all_stopped = refl
