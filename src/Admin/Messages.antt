-- ===== src/Admin/Messages.antt =====
-- What the admin server answers of the messages that the indexer has seen: admin/admin.go with
-- interop/indexer.go.
use supersim.Prelude.{
  ℕ, ◌≡◌, refl, ap, ◌∙◌, List, [], none, some, ok, err, All, arith, inl, inr, ◌⊎◌,
}
use supersim.Prelude.Dict.{lookup}
use supersim.Prelude.Tasks.{running}
use supersim.Interop.Types.{Log, Ethlib, message_not_found}
use supersim.Interop.Message.{L2ToL2Message, hash}
use supersim.Interop.Store.{Entry, new_store, get}
use supersim.Interop.Indexer.{Indexer, ChainReader}
use supersim.Interop.Indexer.Steps.{view}
use supersim.Interop.Indexer.History.{HasTopics}
use supersim.Interop.Indexer.Life.{NotResent}
use supersim.Interop.Indexer.Known.{play_all-IsOf}
use supersim.Interop.Indexer.SetUp.{new_l2_to_l2_message_indexer}
use supersim.Interop.Indexer.Turns.{Turn, Goroutines, Taken, run_turns, run_turns-refines}
use supersim.Admin.{JsonL2ToL2Message, get_message_failed, get_l2_to_l2_message_by_msg_hash}

-- The message that a response tells of.
abbrev pub message_of : JsonL2ToL2Message → L2ToL2Message
message_of j = record {
  destination = j.destination;
  source = j.source;
  nonce = j.nonce;
  sender = j.sender;
  target = j.target;
  message = j.message;
}

-- The goroutines of an indexer that has just been made.
abbrev pub idle : Goroutines
idle = record { indexer = new_l2_to_l2_message_indexer; waiting = [] }

stored :
    (i : Indexer) (h : ℕ) (e : Entry)
    → view h i.store ≡ some e
    → (j : JsonL2ToL2Message) × (get_l2_to_l2_message_by_msg_hash (some i) (some h) ≡ ok j)
      × (message_of j ≡ e.message)
unfolding get_l2_to_l2_message_by_msg_hash get
stored i h e q = (_, ground (arith, q), refl)

missing :
    (i : Indexer) (h : ℕ)
    → view h i.store ≡ none
    → get_l2_to_l2_message_by_msg_hash (some i) (some h)
      ≡ err (get_message_failed message_not_found)
unfolding get_l2_to_l2_message_by_msg_hash get
missing i h q = ground (arith, q)

-- From when the indexer was made, whatever logs of four topics have come to its goroutines, and
-- whichever of these wait in a `Publish`: a request for a hash, the zero hash included, is answered
-- with a message of that hash, if one of the logs that were taken is the sent event of one that was
-- stored; and with the error of the store, wrapped, if none is.
pub get_l2_to_l2_message_by_msg_hash_lem :
    (lib : Ethlib) (backends : ℕ → ChainReader) (turns : List Turn) (h : ℕ)
    → All (λ (t : Turn). HasTopics t.log) turns
    → (g : Goroutines) × (logs : List (ℕ × Log)) × (run_turns lib backends turns idle ≡ running g)
      × Taken turns [] logs g.waiting
      × (((j : JsonL2ToL2Message) × (get_l2_to_l2_message_by_msg_hash (some g.indexer) (some h)
              ≡ ok j)
            × (hash lib (message_of j) ≡ ok h)
            × ¬ NotResent lib backends h logs)
          ⊎ ((get_l2_to_l2_message_by_msg_hash (some g.indexer) (some h)
                ≡ err (get_message_failed message_not_found))
              × NotResent lib backends h logs))
unfolding new_store lookup
get_l2_to_l2_message_by_msg_hash_lem lib backends turns h topics =
    let (g, logs, ran, takes, same) = run_turns-refines lib backends turns idle topics in
    (
      g,
      logs,
      ran,
      takes,
      elim (play_all-IsOf lib backends h logs none tt) [
        | inl (e, q, is, sent) ↦
            let (j, answered, tells) = stored g.indexer h e (same h ∙ q) in
            inl (j, answered, ap (hash lib) tells ∙ is, sent refl)
        | inr (q, left, quiet) ↦ inr (missing g.indexer h (same h ∙ q), quiet)
      ],
    )
