-- ===== src/EndToEnd/Tests.antt =====
-- Message 5 from chain 901, on its way to a proxy whose peer 901 is.
use supersim.Prelude.{
  ℕ, ◌+◌, ◌==◌, ◌≡◌, refl, ◌++◌, [], ◌∷◌, ok, fails, returns, External, arith, inl, none, some,
  filter, if◌then◌else◌,
}
use supersim.Prelude.Dict.{lookup}
use supersim.Prelude.Int.{of_int64, to_uint64}
use supersim.Interop.Types.{Log}
use supersim.Interop.Message.{
  is_executing_message_log, new_message_from_sent_event, hash, encode, append_topics,
  executing_message_payload_bytes,
}
use supersim.Interop.Indexer.{process_event_log}
use supersim.Interop.Relayer.{relay_call}
use supersim.Interop.TestData.{
  small_lib, sent_log, message_5, hash_5, identifier_5, empty_indexer, log_of, checksum, bytes,
}
use supersim.OpSimulator.Check.{
  ExecutingMessage, Client, Simulator, at_index, check_interop_invariants,
}
use supersim.OpSimulator.Check.Valid.{Parses, end, executing}
use supersim.OpSimulator.Json.{GoError, JsonRpcMessage, Decoder, error_response}
use supersim.OpSimulator.Handler.{Backend, answers, forward_rpc_request, or_respond, handle_message}
use supersim.EndToEnd.Gate.{Sends, claimed, hash_of_payload, handle_message-claimed}
use supersim.EndToEnd.{
  IsServed, executing_message_of, identifier_of, entry_of, publications_of, relay_of,
  process_event_log-executes,
}

abbrev peer : Client
peer = record {
  header_by_number = λ n. returns (record { number = n; time = 2_000 });
  filter_logs = λ origin from to. returns (sent_log ∷ []);
}

-- An inbox's log carries the hash as its payload.
abbrev parse_log : Log → External ExecutingMessage
parse_log log = elim log.payload [
  | [] ↦ fails "no data"
  | h ∷ rest ↦ returns (record { msg_hash = h; id = identifier_5 })
]

abbrev simulator : Simulator
simulator = record {
  lib = small_lib;
  parse = parse_log;
  peers = (901, peer) ∷ [];
  interop_delay = 0;
  latest_header = fails "not asked for";
}

finds_peer : lookup 901 simulator.peers ≡ some peer
unfolding lookup
finds_peer = refl

alone : filter (at_index simulator (of_int64 sent_log.index)) (sent_log ∷ []) ≡ sent_log ∷ []
unfolding of_int64
alone = refl

abbrev served : IsServed simulator 901 sent_log
served = record {
  client = peer;
  header = record { number = of_int64 10; time = 2_000 };
  logs = sent_log ∷ [];
  is_peer = finds_peer;
  has_block = refl;
  has_number = refl;
  has_logs = refl;
  is_unique = alone;
  is_late = inl refl;
}

-- The payload of the message's log, and what the inbox logs of the relayer's call.
abbrev payload_hash : ℕ
payload_hash = checksum (bytes 32 1 ++ bytes 32 902 ++ bytes 32 77 ++ bytes 32 5 ++ 9 ∷ 1 ∷ 2 ∷ [])

abbrev inbox_log : Log
inbox_log = log_of (4 ∷ []) (payload_hash ∷ []) 300

abbrev relayed : ExecutingMessage
relayed = executing_message_of small_lib (relay_of simulator 901 sent_log served)

inbox_log-Parses : Parses simulator (inbox_log ∷ []) (relayed ∷ [])
unfolding is_executing_message_log executing_message_payload_bytes append_topics of_int64
inbox_log-Parses = executing refl refl end

decoded :
    new_message_from_sent_event small_lib sent_log (identifier_of simulator 901 sent_log served)
    ≡ ok message_5
unfolding new_message_from_sent_event of_int64 to_uint64
decoded = refl

hashed : hash small_lib message_5 ≡ ok hash_5
unfolding hash encode of_int64
hashed = refl

process_event_log-executes_example :
    let (r, j) = process_event_log small_lib peer.header_by_number 901 sent_log empty_indexer in
    (r ≡ ok tt)
    × (j.published
        ≡ empty_indexer.published ++ publications_of simulator 901 sent_log served message_5)
    × (relay_call small_lib (entry_of simulator 901 sent_log served message_5)
        ≡ ok (relay_of simulator 901 sent_log served))
    × (check_interop_invariants simulator (inbox_log ∷ []) ≡ ok tt)
process_event_log-executes_example =
    process_event_log-executes simulator 901 sent_log served empty_indexer message_5 hash_5
      (inbox_log ∷ []) (omega arith) (omega arith) refl decoded hashed inbox_log-Parses

-- A request whose transaction claims another hash than that of the log's payload.
abbrev forged : ℕ
forged = payload_hash + 1

abbrev forged_log : Log
forged_log = log_of (4 ∷ []) (forged ∷ []) 300

abbrev decoder : Decoder
decoder = record {
  decode = λ body. returns body;
  unmarshal_message = λ raw. returns none;
  unmarshal_messages = λ raw. returns [];
}

abbrev backend : Backend ℕ ℕ
backend = record {
  decoder = decoder;
  unmarshal_bytes = λ raw. returns (raw ∷ []);
  unmarshal_params = λ raw. returns (raw ∷ []);
  marshal_message = λ m. returns m.result;
  marshal_messages = λ ms. returns [];
  decode_tx = λ raw. returns 2;
  is_deposit = λ t. t == 126;
  simulated_logs = λ w t. returns (forged_log ∷ []);
  simulator = λ w. simulator;
  call = λ w method params. (answers (b'7' ∷ []), w + 1);
}

abbrev request : JsonRpcMessage
request = record {
  version = "2.0";
  id = b'1' ∷ [];
  method = "eth_sendRawTransaction";
  params = 2 ∷ [];
  error = none;
  result = [];
}

abbrev sends : Sends backend 0 request (forged_log ∷ [])
sends = record {
  raw_tx = 2 ∷ [];
  tx = 2;
  is_send = refl;
  has_one = refl;
  decodes = refl;
  is_no_deposit = refl;
  simulates = refl;
}

forged_log-Parses :
    Parses simulator (forged_log ∷ []) (claimed backend 0 901 sent_log served forged ∷ [])
unfolding is_executing_message_log of_int64
forged_log-Parses = executing refl refl end

handle_message-claimed_example :
    (e : GoError) × (handle_message backend request 0 ≡ (
      if forged == hash_of_payload backend 0 901 sent_log served
      then or_respond request (forward_rpc_request backend request 0)
      else (ok (error_response request e), 0)))
handle_message-claimed_example =
    handle_message-claimed backend 0 901 sent_log served request (forged_log ∷ []) forged
      (omega arith) (omega arith) sends forged_log-Parses
