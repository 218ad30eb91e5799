-- ===== src/Interop/Relayer.antt =====
-- interop/relayer.go: the loop of the goroutine that relays the messages bound for one chain, and
-- its retries. The lines that only print are left out.
pub mod Retries
pub mod SetUp
pub mod Delivery
use supersim.Prelude.{
  ℕ, zero, suc, ◌+◌, ◌-◌, ◌*◌, ◌%◌, ◌^◌, ◌==◌, if◌then◌else◌, List, [], ◌∷◌, ◌++◌, Option, none,
  some, Result, ok, err, panic, External, returns, fails,
}
use supersim.Prelude.Int.{ℤ, of_int64, word}
use supersim.Prelude.Tasks.{Loop, running, returned, crashed}
use supersim.Interop.Types.{Identifier, Error, external, relay_failed_after, Ethlib}
use supersim.Interop.Store.{Entry, message_payload}

-- A call of `RelayMessage`, and what the goroutine has done: the calls it made, and the durations
-- that it slept, in nanoseconds.
pub record Relay : Type 0 where
  pub identifier : Identifier
  pub payload : List ℕ

pub record Relayer : Type 0 where
  pub calls : List Relay
  pub sleeps : List ℤ

-- What each call of `RelayMessage` comes back with, by the attempt.
abbrev pub Outcomes : Type 0
Outcomes = ℕ → External (Unit {0})

-- `time.Second * time.Duration(1<<attempt)`
unfoldable pub backoff : ℕ → ℤ
backoff attempt = of_int64 (1_000_000_000 * 2 ^ attempt % word)

abbrev pub record_call : Relay → Relayer → Relayer
record_call c r = record r { calls = r.calls ++ c ∷ [] }

abbrev pub record_sleep : ℕ → Relayer → Relayer
record_sleep attempt r = record r { sleeps = r.sleeps ++ backoff attempt ∷ [] }

-- The rounds `attempt`, `attempt + 1`, … of the loop, as many as are left.
unfoldable pub relay_rounds :
    ℕ → ℕ → Relay → Outcomes → ℕ → Relayer → Result Error (Unit {0}) × Relayer
relay_rounds max_retries zero call outcome attempt r = (ok tt, r)
relay_rounds max_retries (suc left) call outcome attempt r =
    let again =
      relay_rounds max_retries left call outcome (attempt + 1)
        (record_sleep attempt (record_call call r)) in
    elim (outcome attempt) [
      | returns _ ↦ (ok tt, record_call call r)
      | fails e ↦
          if attempt == max_retries - 1
          then (err (relay_failed_after max_retries (external e)), record_call call r)
          else again
    ]

module _ (lib : Ethlib) where
  -- The arguments of the call: a nil identifier or log is dereferenced.
  unfoldable pub relay_call : Entry → Result Error Relay
  unfolding message_payload
  relay_call e = elim e.identifier [
    | none ↦ panic
    | some id ↦ elim (message_payload lib e) [
      | ok p ↦ ok (record { identifier = id; payload = p })
      | err x ↦ err x
      | panic ↦ panic
    ]
  ]

  -- With no retries allowed the loop has no round, and dereferences nothing.
  unfoldable pub relay_message_with_retry :
      Entry → ℕ → Outcomes → Relayer → Result Error (Unit {0}) × Relayer
  unfolding relay_rounds
  relay_message_with_retry e zero outcome r = (ok tt, r)
  relay_message_with_retry e (suc n) outcome r = elim (relay_call e) [
    | ok c ↦ relay_rounds (suc n) (suc n) c outcome 0 r
    | err x ↦ (err x, r)
    | panic ↦ (panic, r)
  ]

-- What the goroutine's `select` takes: the end of the context, or a message, with what the calls
-- for it will come back with.
pub data Select : Type 0 where
  done : Select
  message : Entry → Outcomes → Select

module _ (lib : Ethlib) where
  abbrev after_relay : Result Error (Unit {0}) × Relayer → Loop Relayer Error
  after_relay (ok a, r) = running r
  after_relay (err e, r) = returned (some e) r
  after_relay (panic, r) = crashed r

  -- The `for` of the goroutine of a destination.
  unfoldable pub relay_messages : List Select → Relayer → Loop Relayer Error
  relay_messages [] r = running r
  relay_messages (done ∷ rest) r = returned none r
  relay_messages (message e outcome ∷ rest) r =
      elim (after_relay (relay_message_with_retry lib e 1 outcome r)) [
        | running r' ↦ relay_messages rest r'
        | returned x r' ↦ returned x r'
        | crashed r' ↦ crashed r'
      ]
