-- ===== src/OpSimulator/Tests.antt =====
-- The package's theorems at a chain that executes a message of its peer 901.
use text.Mathlib.Text.{◌==◌ as str_eq}
use supersim.Prelude.{
  ℕ, ◌+◌, ◌≡◌, ◌≢◌, ◌==◌, ◌↔◌, ◌++◌, refl, true, List, [], ◌∷◌, some, none, ok, panic, External,
  returns, fails, All,
}
use supersim.Prelude.Int.{pos, of_int64, to_uint64}
use supersim.Interop.Types.{Log}
use supersim.Prelude.Dict.{lookup}
use supersim.Interop.Message.{append_topics, executing_message_payload_bytes}
use supersim.Interop.TestData.{small_lib, checksum, bytes, log_of, sent_log, identifier_5}
use supersim.OpSimulator.Check.{
  ExecutingMessage, Client, Simulator, check_message, check_delay, check_interop_invariants,
}
use supersim.OpSimulator.Check.Valid.{IsValid, Parses}
use supersim.OpSimulator.Check.Decide.{check_interop_invariants_iff}
use supersim.OpSimulator.Check.Total.{check_interop_invariants-ne-panic}
use supersim.OpSimulator.Json.{GoError, JsonRpcMessage, Decoder, error_response}
use supersim.OpSimulator.Handler.{
  Backend, answers, or_respond, forward_rpc_request, handle_message, handle_messages,
}
use supersim.OpSimulator.Handler.Vetting.{IsVetted, handle_message_gate}
use supersim.OpSimulator.Handler.Replies.{AllFit, handle_messages-fit}
use supersim.Prelude.{arith}
use supersim.Prelude.Tasks.{returned}
use supersim.OpSimulator.Deposits.{
  Deposits, not_a_deposit_event, log_taken, context_done, forward_deposits,
}
use supersim.OpSimulator.Deposits.Stream.{nothing, deposit, foreign, extended, forward_deposits_lem}

-- The peer has the block of the initiating log.
abbrev peer : Client
peer = record {
  header_by_number = λ n. returns (record { number = n; time = 2_000 });
  filter_logs = λ origin from to. returns (sent_log ∷ []);
}

-- An inbox's log carries the hash as its payload.
abbrev parse_log : Log → External ExecutingMessage
parse_log log = elim log.payload [
  | [] ↦ fails "no data"
  | h ∷ rest ↦ returns (record { msg_hash = h; id = identifier_5 })
]

abbrev simulator : Simulator
simulator = record {
  lib = small_lib;
  parse = parse_log;
  peers = (901, peer) ∷ [];
  interop_delay = 0;
  latest_header = returns (record { number = pos 3; time = 2_100 });
}

-- The hash of the initiating log's payload.
abbrev payload_hash : ℕ
payload_hash = checksum (bytes 32 1 ++ bytes 32 902 ++ bytes 32 77 ++ bytes 32 5 ++ 9 ∷ 1 ∷ 2 ∷ [])

abbrev executing : Log
executing = log_of (4 ∷ []) (payload_hash ∷ []) 300

abbrev executed : ExecutingMessage
executed = record { msg_hash = payload_hash; id = identifier_5 }

check_interop_invariants_iff_example :
    (check_interop_invariants simulator (executing ∷ []) ≡ ok tt) ↔ (
      (ms : List ExecutingMessage) × Parses simulator (executing ∷ []) ms
      × All (IsValid simulator) ms)
check_interop_invariants_iff_example = check_interop_invariants_iff simulator (executing ∷ [])

check_interop_invariants-ne-panic_example :
    check_interop_invariants simulator (executing ∷ sent_log ∷ []) ≢ panic
check_interop_invariants-ne-panic_example =
    check_interop_invariants-ne-panic simulator (executing ∷ sent_log ∷ [])

accepts_executed : check_message simulator executed ≡ ok tt
unfolding check_message check_delay executing_message_payload_bytes append_topics lookup to_uint64
    of_int64
accepts_executed = refl

-- The world counts the calls; a transaction is its first byte, and byte 126 is a deposit's.
abbrev first_byte : List ℕ → External ℕ
first_byte [] = fails "empty"
first_byte (t ∷ ts) = returns t

abbrev decoder : Decoder
decoder = record {
  decode = λ body. returns body;
  unmarshal_message = λ raw. returns none;
  unmarshal_messages = λ raw. returns [];
}

abbrev backend : Backend ℕ ℕ
backend = record {
  decoder = decoder;
  unmarshal_bytes = λ raw. returns (raw ∷ []);
  unmarshal_params = λ raw. returns (raw ∷ []);
  marshal_message = λ m. returns m.result;
  marshal_messages = λ ms. returns [];
  decode_tx = first_byte;
  is_deposit = λ t. t == 126;
  simulated_logs = λ w t. returns (executing ∷ []);
  simulator = λ w. simulator;
  call = λ w method params. (answers (b'7' ∷ []), w + 1);
}

abbrev request : ℕ → JsonRpcMessage
request t = record {
  version = "2.0";
  id = b'1' ∷ [];
  method = "eth_sendRawTransaction";
  params = t ∷ [];
  error = none;
  result = [];
}

handle_message_gate_example :
    ((str_eq (request 126).method "eth_sendRawTransaction" ≡ true
        → IsVetted backend 0 (request 126))
      → handle_message backend (request 126) 0
        ≡ or_respond (request 126) (forward_rpc_request backend (request 126) 0))
    × (str_eq (request 126).method "eth_sendRawTransaction" ≡ true
        → ¬ IsVetted backend 0 (request 126)
        → (e : GoError) × (handle_message backend (request 126) 0
            ≡ (ok (error_response (request 126) e), 0)))
handle_message_gate_example = handle_message_gate backend (request 126) 0

handle_messages-fit_example :
    (rs : List JsonRpcMessage) × (w' : ℕ) × (handle_messages backend
        (some (request 2) ∷ some (request 126) ∷ [])
        0
      ≡ (ok rs, w'))
    × AllFit (request 2 ∷ request 126 ∷ []) rs
handle_messages-fit_example = handle_messages-fit backend (request 2 ∷ request 126 ∷ []) 0

-- Event 8 is a deposit, and its transaction is the hash of the log's transaction.
abbrev hash_of : Log → External ℕ
hash_of log = returns log.tx_hash

abbrev none_sent : Deposits ℕ
none_sent = record { deposits = []; errors = [] }

forward_deposits_lem_example :
    forward_deposits 8 hash_of
      (log_taken (log_of (8 ∷ []) [] 500) ∷ log_taken sent_log ∷ context_done ∷ [])
      none_sent
    ≡ returned none (extended 8 hash_of none_sent (500 ∷ []) (not_a_deposit_event ∷ []))
forward_deposits_lem_example =
    forward_deposits_lem 8 hash_of (log_taken (log_of (8 ∷ []) [] 500) ∷ log_taken sent_log ∷ []) []
      context_done (500 ∷ []) (not_a_deposit_event ∷ []) none_sent tt
      (deposit refl refl (foreign refl (λ e. omega arith) nothing))
