-- ===== src/Anvil/Tests.antt =====
-- The walk at a trace of three frames.
use mathlib.Core.List.{Perm}
use supersim.Prelude.{ℕ, ◌≡◌, refl, List, [], ◌∷◌, some, ok, returns}
use supersim.Prelude.Int.{pos}
use supersim.Interop.Types.{Log}
use supersim.Anvil.{
  CallLog, CallFrame, frame, no_calls, call, Transaction, simulated_logs, walk, size, append_calls,
  log_of,
}
use supersim.Anvil.Rounds.{rounds, rounds-walk}
use supersim.Prelude.{◌≢◌, arith}
use supersim.Anvil.Walk.{all_logs, simulated_logs-Perm}

abbrev log_at : ℕ → CallLog
log_at a = record { address = a; topics = a ∷ []; payload = [] }

-- A call that logs 1 and calls twice; the first nested call logs 2 in a call of its own.
abbrev trace_result : CallFrame
trace_result = frame (log_at 1 ∷ []) (
    call (frame [] (call (frame (log_at 2 ∷ []) no_calls) no_calls))
      (call (frame (log_at 3 ∷ []) no_calls) no_calls))

abbrev transfer : Transaction
transfer = record {
  chain_id = pos 901;
  to = some 77;
  gas = 21_000;
  gas_price = pos 1;
  payload = [];
  value = pos 5;
}

simulated_logs-Perm_example :
    (logs : List Log) × (simulated_logs (λ tx. returns 9) (λ args. returns trace_result) transfer
      ≡ ok logs)
    × Perm logs (all_logs trace_result)
simulated_logs-Perm_example =
    simulated_logs-Perm (λ tx. returns 9) (λ args. returns trace_result) transfer 9 trace_result
      refl refl

-- The logs of a level come before those of the next one.
level_by_level :
    simulated_logs (λ tx. returns 9) (λ args. returns trace_result) transfer
    ≡ ok (log_of (log_at 1) ∷ log_of (log_at 3) ∷ log_of (log_at 2) ∷ [])
unfolding simulated_logs walk size append_calls
level_by_level = refl

rounds-walk_example :
    (rounds (size trace_result) (call trace_result no_calls, [])
      ≡ (no_calls, walk (size trace_result) (call trace_result no_calls) []))
    × ((rounds 2 (call trace_result no_calls, [])).0 ≢ no_calls)
unfolding size
rounds-walk_example = rounds-walk trace_result 2 (omega arith)
