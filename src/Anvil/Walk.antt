-- ===== src/Anvil/Walk.antt =====
-- The walk finds every log of the trace, and no other.
use mathlib.Core.List.{append-nil, append_assoc, Perm, perm_append_comm, perm-append_left_iff}
use mathlib.Core.List.Perm
use supersim.Prelude.{
  ℕ, zero, suc, ◌+◌, ◌≤◌, ◌≡◌, refl, sym, ap, ◌∙◌, List, [], ◌++◌, map, ok, External, returns,
  arith,
}
use supersim.Interop.Types.{Log}
use supersim.Anvil.{
  CallFrame, Calls, frame, no_calls, call, append_calls, log_of, walk, size, size_calls,
  Transaction, TxArgs, args_of, simulated_logs,
}

-- The logs of a frame and of the calls nested in it, in the order of the calls.
unfoldable mutual
  pub all_logs : CallFrame → List Log
  all_logs (frame logs calls) = map log_of logs ++ all_logs_calls calls

  pub all_logs_calls : Calls → List Log
  all_logs_calls no_calls = []
  all_logs_calls (call c rest) = all_logs c ++ all_logs_calls rest

all_logs_calls-append_calls :
    (cs ds : Calls) → all_logs_calls (append_calls cs ds) ≡ all_logs_calls cs ++ all_logs_calls ds
unfolding all_logs_calls append_calls
all_logs_calls-append_calls no_calls ds = refl
all_logs_calls-append_calls (call c cs) ds =
    ap (λ l. all_logs c ++ l) (all_logs_calls-append_calls cs ds)
    ∙ sym (append_assoc (all_logs c) (all_logs_calls cs) (all_logs_calls ds))

pub size_calls-append_calls :
    (cs ds : Calls) → size_calls (append_calls cs ds) ≡ size_calls cs + size_calls ds
unfolding size_calls append_calls
size_calls-append_calls no_calls ds = omega arith
size_calls-append_calls (call c cs) ds = omega (arith, size_calls-append_calls cs ds)

-- The nested calls' logs may come before the logs of the rest of the queue, or after them.
queue_swap :
    (logs mine nested rest : List Log)
    → Perm ((logs ++ mine) ++ (rest ++ nested)) (logs ++ ((mine ++ nested) ++ rest))
queue_swap logs mine nested rest =
    rw (append_assoc logs mine (rest ++ nested), append_assoc mine nested rest)
      ((perm-append_left_iff logs).1 ((perm-append_left_iff mine).1 (perm_append_comm rest nested)))

walk-Perm :
    (fuel : ℕ) (stack : Calls) (logs : List Log)
    → size_calls stack ≤ fuel
    → Perm (walk fuel stack logs) (logs ++ all_logs_calls stack)
unfolding walk all_logs_calls all_logs size_calls size
walk-Perm zero no_calls logs h = rw (append-nil logs) (Perm.refl logs)
walk-Perm (suc fuel) no_calls logs h = rw (append-nil logs) (Perm.refl logs)
walk-Perm zero (call (frame own nested) stack) logs h = absurd (omega arith)
walk-Perm (suc fuel) (call (frame own nested) stack) logs h =
    Perm.trans
      (walk-Perm fuel (append_calls stack nested) (logs ++ map log_of own)
        (omega (arith, size_calls-append_calls stack nested)))
      (rw (all_logs_calls-append_calls stack nested)
        (queue_swap logs (map log_of own) (all_logs_calls nested) (all_logs_calls stack)))

-- Where the sender is known and the trace succeeds, what comes back is a permutation of the logs
-- of all frames of the trace: none is left out, repeated or added, whatever the nesting.
pub simulated_logs-Perm :
    (sender : Transaction → External ℕ) (trace : TxArgs → External CallFrame) (tx : Transaction)
    (from : ℕ) (result : CallFrame)
    → sender tx ≡ returns from
    → trace (args_of from tx) ≡ returns result
    → (logs : List Log) × (simulated_logs sender trace tx ≡ ok logs) × Perm logs (all_logs result)
unfolding simulated_logs size_calls all_logs_calls
simulated_logs-Perm sender trace tx from result hs ht = (
  walk (size result) (call result no_calls) [],
  ground (arith, hs, ht),
  rw (← append-nil (all_logs result))
      (walk-Perm (size result) (call result no_calls) [] (omega arith)),
)
