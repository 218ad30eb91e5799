-- ===== src/Admin/Tests.antt =====
-- The admin server of a network of two chains, one of them twice.
use supersim.Prelude.{
  ℕ, ◌≡◌, refl, List, [], ◌∷◌, arith, some, none, ok, err, ◌⊎◌, true, External, returns,
}
use supersim.Prelude.Text.{codes, decimal}
use supersim.Interop.Types.{Log, message_not_found}
use supersim.Interop.Message.{hash}
use supersim.Prelude.Tasks.{running}
use supersim.Interop.Indexer.Life.{NotResent}
use supersim.Interop.Indexer.Turns.{Turn, Goroutines, Taken, run_turns}
use supersim.Interop.TestData.{small_lib, sent_log, hash_5, reader}
use supersim.Config.TestData.{local_network}
use supersim.Admin.{
  new_admin_server, admin_endpoint, JsonL2ToL2Message, get_message_failed,
  get_l2_to_l2_message_by_msg_hash,
}
use supersim.Admin.Server.{start, stop, new_service}
use supersim.Admin.Messages.{message_of, idle, get_l2_to_l2_message_by_msg_hash_lem}

-- Message 5 is sent, and the goroutine of its chain waits in the second `Publish`, so that a message
-- sent after it is not stored.
abbrev turns : List Turn
turns =
    record { chain_id = 901; log = sent_log; stuck_at = some 1 }
    ∷ record { chain_id = 901; log = sent_log; stuck_at = none }
    ∷ []

get_l2_to_l2_message_by_msg_hash_lem_example :
    (g : Goroutines) × (logs : List (ℕ × Log)) × (run_turns small_lib (λ c. reader) turns idle
      ≡ running g)
    × Taken turns [] logs g.waiting
    × (((j : JsonL2ToL2Message) × (get_l2_to_l2_message_by_msg_hash (some g.indexer) (some hash_5)
            ≡ ok j)
          × (hash small_lib (message_of j) ≡ ok hash_5)
          × ¬ NotResent small_lib (λ c. reader) hash_5 logs)
        ⊎ ((get_l2_to_l2_message_by_msg_hash (some g.indexer) (some hash_5)
              ≡ err (get_message_failed message_not_found))
            × NotResent small_lib (λ c. reader) hash_5 logs))
get_l2_to_l2_message_by_msg_hash_lem_example =
    get_l2_to_l2_message_by_msg_hash_lem small_lib (λ c. reader) turns hash_5
      (omega arith, (omega arith, tt))

-- The admin server on a port of the system's choice: it is bound, serves, and is stopped.
abbrev any_port : ℕ → External ℕ
any_port port = returns 40_124

server_runs :
    (stop (start (returns tt) any_port (new_service (new_admin_server 0 local_network none))).1).0
    ≡ true
unfolding start stop
server_runs = refl

bound_endpoint :
    admin_endpoint
      (start (returns tt) any_port (new_service (new_admin_server 0 local_network none))).1.server
    ≡ codes "http://127.0.0.1:40124"
unfolding start decimal
bound_endpoint = refl
