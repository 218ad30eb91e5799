-- ===== src/OpSimulator/Deposits.antt =====
-- opsimulator/deposits.go: the deposits of the L1, read off the logs of its portal. The decoder of a
-- deposit's log and the subscription of logs are outside; `D` is a deposit transaction.
pub mod Stream
use supersim.Prelude.{
  ℕ, ◌==◌, if◌then◌else◌, List, [], ◌∷◌, ◌++◌, Option, none, some, String, Result, ok, err, panic,
  External, from_external,
}
use supersim.Prelude.Tasks.{Loop, running, returned, crashed}
use supersim.Interop.Types.{Log}

pub data DepositError : Type 0 where
  not_a_deposit_event : DepositError
  unmarshal_failed subscription_failed : String → DepositError

-- What was sent on the two channels.
pub record Deposits (D : Type 0) : Type 0 where
  pub deposits : List D
  pub errors : List DepositError

-- What the `select` takes.
pub data Taken : Type 0 where
  log_taken : Log → Taken
  log_error : String → Taken
  context_done unsubscribed : Taken

module _ {D : Type 0} (event_id : ℕ) (unmarshal : Log → External D) where
  unfoldable pub log_to_deposit_tx : Log → Result DepositError D
  log_to_deposit_tx log = elim log.topics [
    | [] ↦ err not_a_deposit_event
    | topic ∷ _ ↦
        if topic == event_id
        then from_external unmarshal_failed (unmarshal log)
        else err not_a_deposit_event
  ]

  abbrev pub send_deposit : D → Deposits D → Deposits D
  send_deposit d s = record s { deposits = s.deposits ++ d ∷ [] }

  abbrev pub send_error : DepositError → Deposits D → Deposits D
  send_error e s = record s { errors = s.errors ++ e ∷ [] }

  abbrev pub after_decoding : Result DepositError D → Deposits D → Deposits D
  after_decoding (ok d) s = send_deposit d s
  after_decoding (err e) s = send_error e s
  after_decoding panic s = s

  -- The `for` of the goroutine of `SubscribeDepositTx`.
  unfoldable pub forward_deposits : List Taken → Deposits D → Loop (Deposits D) DepositError
  unfolding log_to_deposit_tx
  forward_deposits [] s = running s
  forward_deposits (log_taken log ∷ rest) s =
      forward_deposits rest (after_decoding (log_to_deposit_tx log) s)
  forward_deposits (log_error e ∷ rest) s =
      forward_deposits rest (send_error (subscription_failed e) s)
  forward_deposits (context_done ∷ rest) s = returned none s
  forward_deposits (unsubscribed ∷ rest) s = returned none s
