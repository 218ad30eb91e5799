-- ===== src/EndToEnd.antt =====
-- The way of a message through the parts: interop/indexer.go makes its entry, interop/relayer.go
-- calls the destination with it, and the proxy of opsimulator/opsimulator.go checks that call.
pub mod Gate
mod Tests
use supersim.Prelude.{
  ℕ, ◌<◌, ◌^◌, ◌==◌, ==_refl, ◌≡◌, refl, sym, ap, ◌∙◌, List, [], ◌∷◌, ◌++◌, Option, some, Result,
  ok, External, returns, arith, get_elem?, filter,
}
use mathlib.Core.List.{append_assoc}
use supersim.Prelude.Dict.{lookup}
use supersim.Prelude.Int.{pos, of_int64, to_uint64, of_int64-pos, to_uint64-of_int64}
use supersim.Prelude.Text.{Text}
use supersim.Interop.Types.{Log, Header, Identifier, Ethlib}
use supersim.Interop.Message.{
  L2ToL2Message, new_message_from_sent_event, hash, executing_message_payload_bytes,
}
use supersim.Interop.Store.{Entry, new_entry, handle_sent_event, message_payload}
use supersim.Interop.Indexer.{
  Indexer, get_identifier, process_sent, process_event_log, sent_message_from_source_key,
  sent_message_to_destination_key,
}
use supersim.Interop.Relayer.{Relay, relay_call}
use supersim.OpSimulator.Check.{
  ExecutingMessage, Client, Simulator, at_index, check_interop_invariants,
}
use supersim.OpSimulator.Check.Valid.{IsLateEnough, IsValid, Parses}
use supersim.OpSimulator.Check.Decide.{check_interop_invariants_iff}

-- The proxy's client of a chain serves a log: its block has the number and the time of a header,
-- the log alone has its index there, and the delay, if any, has passed.
pub record IsServed (sim : Simulator) (chain_id : ℕ) (log : Log) : Type 0 where
  pub client : Client
  pub header : Header
  pub logs : List Log
  pub is_peer : lookup chain_id sim.peers ≡ some client
  pub has_block : client.header_by_number (of_int64 log.block_number) ≡ returns header
  pub has_number : header.number ≡ of_int64 log.block_number
  pub has_logs :
      client.filter_logs log.address (of_int64 log.block_number) (of_int64 log.block_number)
      ≡ returns logs
  pub is_unique : filter (at_index sim (of_int64 log.index)) logs ≡ log ∷ []
  pub is_late : IsLateEnough sim header

-- What the inbox logs of a call of the relayer: its identifier, and the hash of its payload.
abbrev pub executing_message_of : Ethlib → Relay → ExecutingMessage
executing_message_of lib call = record {
  msg_hash = lib.keccak256 call.payload;
  id = call.identifier;
}

module _ (sim : Simulator) (chain_id : ℕ) (log : Log) (served : IsServed sim chain_id log) where
  abbrev pub identifier_of : Identifier
  identifier_of = record {
    origin = log.address;
    block_number = served.header.number;
    log_index = of_int64 log.index;
    timestamp = of_int64 served.header.time;
    chain_id = of_int64 chain_id;
  }

  abbrev pub relay_of : Relay
  relay_of = record {
    identifier = identifier_of;
    payload = executing_message_payload_bytes sim.lib log;
  }

  pub relay_of-IsValid :
      chain_id < 2 ^ 63
      → served.header.time < 2 ^ 63
      → IsValid sim (executing_message_of sim.lib relay_of)
  relay_of-IsValid small early = record {
    client = served.client;
    header = served.header;
    logs = served.logs;
    log = log;
    is_peer = ap (λ k. lookup k sim.peers) (to_uint64-of_int64 chain_id small) ∙ served.is_peer;
    has_block = ap served.client.header_by_number served.has_number ∙ served.has_block;
    has_time = of_int64-pos served.header.time early;
    has_logs = rw served.has_number served.has_logs;
    is_unique = served.is_unique;
    has_hash = refl;
    is_late = served.is_late;
  }

  identifier_lem : get_identifier served.client.header_by_number chain_id log ≡ ok identifier_of
  unfolding get_identifier
  identifier_lem = ground (arith, served.has_block)

  abbrev pub entry_of : L2ToL2Message → Entry
  entry_of m = new_entry sim.lib m log identifier_of

  abbrev pub publications_of : L2ToL2Message → List (Text × Entry)
  publications_of m =
      (sent_message_from_source_key m.source, entry_of m)
      ∷ (sent_message_to_destination_key m.destination, entry_of m)
      ∷ []

  process_sent-publications :
      (i : Indexer) (m : L2ToL2Message) (h : ℕ)
      → new_message_from_sent_event sim.lib log identifier_of ≡ ok m
      → hash sim.lib m ≡ ok h
      → let (r, j) = process_sent sim.lib served.client.header_by_number chain_id log i in
        (r ≡ ok tt) × (j.published ≡ i.published ++ publications_of m)
  unfolding process_sent handle_sent_event
  process_sent-publications i m h decoded hashed = (
    ground (arith, identifier_lem, decoded, hashed),
    ground (
      arith,
      identifier_lem,
      decoded,
      hashed,
      append_assoc i.published ((sent_message_from_source_key m.source, entry_of m) ∷ [])
          ((sent_message_to_destination_key m.destination, entry_of m) ∷ []),
    ),
  )

  process_event_log-sent :
      (i : Indexer)
      → get_elem? log.topics 0 ≡ some sim.lib.sent_message_id
      → process_event_log sim.lib served.client.header_by_number chain_id log i
        ≡ process_sent sim.lib served.client.header_by_number chain_id log i
  unfolding process_event_log
  process_event_log-sent i first = ground (arith, first)

  relay_call-entry : (m : L2ToL2Message) → relay_call sim.lib (entry_of m) ≡ ok relay_of
  unfolding relay_call
  relay_call-entry m = refl

  -- Of a log of the SentMessage event that the proxy's client serves, on a chain whose id and whose
  -- time are below 2^63, and whose message decodes and has a hash, the indexer publishes an entry
  -- under the keys of its source and of its destination; the relayer makes one call of that entry;
  -- and the proxy's check passes any logs whose one executing message is the one of that call.
  pub process_event_log-executes :
      (i : Indexer) (m : L2ToL2Message) (h : ℕ) (logs : List Log)
      → chain_id < 2 ^ 63
      → served.header.time < 2 ^ 63
      → get_elem? log.topics 0 ≡ some sim.lib.sent_message_id
      → new_message_from_sent_event sim.lib log identifier_of ≡ ok m
      → hash sim.lib m ≡ ok h
      → Parses sim logs (executing_message_of sim.lib relay_of ∷ [])
      → let (r, j) = process_event_log sim.lib served.client.header_by_number chain_id log i in
        (r ≡ ok tt)
        × (j.published ≡ i.published ++ publications_of m)
        × (relay_call sim.lib (entry_of m) ≡ ok relay_of)
        × (check_interop_invariants sim logs ≡ ok tt)
  process_event_log-executes i m h logs small early first decoded hashed parses =
      let (done, published) = process_sent-publications i m h decoded hashed in
      rw (process_event_log-sent i first) (
        done,
        published,
        relay_call-entry m,
        (check_interop_invariants_iff sim logs).1 (
          executing_message_of sim.lib relay_of ∷ [],
          parses,
          (relay_of-IsValid small early, tt),
        ),
      )
