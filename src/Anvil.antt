-- ===== src/Anvil.antt =====
-- anvil/anvil.go, SimulatedLogs: the logs of a traced call. Transactions, their senders and
-- `debug_traceCall` are outside. The trace is a tree of call frames, walked by a queue; the fuel of
-- the walk is the number of frames.
pub mod Walk
pub mod Rounds
pub mod Port
pub mod Args
pub mod Process
pub mod Rpc
mod Tests
use supersim.Prelude.{
  ℕ, zero, suc, ◌+◌, List, [], ◌∷◌, ◌++◌, map, Option, String, Result, ok, External, from_external,
  ◌>>=◌,
}
use supersim.Prelude.Int.{ℤ}
use supersim.Interop.Types.{Log}

-- `callLog`
pub record CallLog : Type 0 where
  pub address : ℕ
  pub topics : List ℕ
  pub payload : List ℕ

-- `callFrame`, and the list of its nested calls.
mutual
  pub data CallFrame : Type 0 where
    frame : List CallLog → Calls → CallFrame

  pub data Calls : Type 0 where
    no_calls : Calls
    call : CallFrame → Calls → Calls

abbrev pub logs_of : CallFrame → List CallLog
logs_of (frame logs calls) = logs

abbrev pub calls_of : CallFrame → Calls
calls_of (frame logs calls) = calls

-- `append(stack, call.Calls...)`
unfoldable pub append_calls : Calls → Calls → Calls
append_calls no_calls cs = cs
append_calls (call c rest) cs = call c (append_calls rest cs)

-- `types.Transaction`, what the program reads; a contract's creation has no receiver.
pub record Transaction : Type 0 where
  pub chain_id : ℤ
  pub to : Option ℕ
  pub gas : ℕ
  pub gas_price : ℤ
  pub payload : List ℕ
  pub value : ℤ

-- `txArgs`
pub record TxArgs : Type 0 where
  pub from : ℕ
  pub to : Option ℕ
  pub gas : ℕ
  pub gas_price : ℤ
  pub payload : List ℕ
  pub value : ℤ

pub data SimulationError : Type 0 where
  sender_failed trace_failed : String → SimulationError

-- `types.Log{Address: …, Topics: …, Data: …}`, the other fields left zero.
abbrev pub log_of : CallLog → Log
log_of l = record {
  address = l.address;
  topics = l.topics;
  payload = l.payload;
  block_number = 0;
  tx_hash = 0;
  index = 0;
}

-- The loop over the queue, on the logs gathered so far.
unfoldable pub walk : ℕ → Calls → List Log → List Log
unfolding append_calls
walk fuel no_calls logs = logs
walk zero (call c stack) logs = logs
walk (suc fuel) (call c stack) logs =
    walk fuel (append_calls stack (calls_of c)) (logs ++ map log_of (logs_of c))

-- The number of frames.
unfoldable mutual
  pub size : CallFrame → ℕ
  size (frame logs calls) = suc (size_calls calls)

  pub size_calls : Calls → ℕ
  size_calls no_calls = 0
  size_calls (call c rest) = size c + size_calls rest

abbrev pub args_of : ℕ → Transaction → TxArgs
args_of from tx = record {
  from = from;
  to = tx.to;
  gas = tx.gas;
  gas_price = tx.gas_price;
  payload = tx.payload;
  value = tx.value;
}

-- `sender` is `types.Sender` with the latest signer, `trace` the call of `debug_traceCall`.
unfoldable pub simulated_logs :
    (Transaction → External ℕ)
    → (TxArgs → External CallFrame)
    → Transaction
    → Result SimulationError (List Log)
simulated_logs sender trace tx = do
  from ← from_external sender_failed (sender tx)
  result ← from_external trace_failed (trace (args_of from tx))
  ok (walk (size result) (call result no_calls) [])
