-- ===== src/Anvil/Rounds.antt =====
-- The loop of the walk ends: it takes a round to each frame of the trace.
use supersim.Prelude.{ℕ, zero, suc, ◌<◌, ◌≡◌, ◌≢◌, refl, List, [], ◌++◌, map, arith}
use supersim.Interop.Types.{Log}
use supersim.Anvil.{
  CallFrame, Calls, frame, no_calls, call, append_calls, log_of, logs_of, calls_of, walk, size,
  size_calls,
}
use supersim.Anvil.Walk.{size_calls-append_calls}

-- The queue and the logs so far.
abbrev pub Queue : Type 0
Queue = Calls × List Log

-- One round of `for len(stack) > 0`.
unfoldable pub round : Queue → Queue
unfolding append_calls
round (no_calls, logs) = (no_calls, logs)
round (call c stack, logs) = (append_calls stack (calls_of c), logs ++ map log_of (logs_of c))

unfoldable pub rounds : ℕ → Queue → Queue
unfolding round
rounds zero q = q
rounds (suc n) q = rounds n (round q)

rounds-queue :
    (stack : Calls) (logs : List Log) (n : ℕ)
    → size_calls stack ≡ n
    → rounds n (stack, logs) ≡ (no_calls, walk n stack logs)
unfolding rounds walk size_calls size
rounds-queue no_calls logs zero e = refl
rounds-queue no_calls logs (suc n) e = absurd (omega arith)
rounds-queue (call (frame own nested) stack) logs zero e = absurd (omega arith)
rounds-queue (call (frame own nested) stack) logs (suc n) e =
    rounds-queue (append_calls stack nested) (logs ++ map log_of own) n
      (omega (arith, size_calls-append_calls stack nested))

rounds-busy :
    (stack : Calls) (logs : List Log) (k : ℕ)
    → k < size_calls stack
    → (rounds k (stack, logs)).0 ≢ no_calls
unfolding rounds size_calls size
rounds-busy no_calls logs k h = absurd (omega arith)
rounds-busy (call (frame own nested) stack) logs zero h = λ q. cc
rounds-busy (call (frame own nested) stack) logs (suc k) h =
    rounds-busy (append_calls stack nested) (logs ++ map log_of own) k
      (omega (arith, size_calls-append_calls stack nested))

alone : (result : CallFrame) → size_calls (call result no_calls) ≡ size result
unfolding size_calls
alone result = omega arith

-- From the first frame of a trace the loop ends after just as many rounds as the trace has frames,
-- with the logs that the walk gives on that much fuel; after fewer rounds it has not ended.
pub rounds-walk :
    (result : CallFrame) (k : ℕ)
    → k < size result
    → (rounds (size result) (call result no_calls, [])
        ≡ (no_calls, walk (size result) (call result no_calls) []))
      × ((rounds k (call result no_calls, [])).0 ≢ no_calls)
rounds-walk result k h = (
  rounds-queue (call result no_calls) [] (size result) (alone result),
  rounds-busy (call result no_calls) [] k (omega (arith, alone result)),
)
