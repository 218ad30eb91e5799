-- ===== src/OpSimulator/Check/Valid.antt =====
-- What the check is for, said without the code: which executing messages are valid.
use supersim.Prelude.{◌+◌, ◌%◌, ◌≤◌, ◌≡◌, ◌⊎◌, true, false, some, List, [], ◌∷◌, returns, filter}
use supersim.Prelude.Dict.{lookup}
use supersim.Prelude.Int.{pos, word, to_uint64}
use supersim.Interop.Types.{Log, Header}
use supersim.Interop.Message.{executing_message_payload_bytes, is_executing_message_log}
use supersim.OpSimulator.Check.{ExecutingMessage, Client, Simulator, at_index}

module _ (sim : Simulator) where
  -- No delay is asked for, or the chain's latest block is late enough.
  abbrev pub IsLateEnough : Header → Type 0
  IsLateEnough source =
      (sim.interop_delay ≡ 0)
      ⊎ ((now : Header) × (sim.latest_header ≡ returns now)
          × ((source.time + sim.interop_delay) % word ≤ now.time))

  -- The identifier names a block of a peer chain, with its time; exactly one log of its origin
  -- there has its index; the hash is that of this log's payload; and the delay has passed.
  pub record IsValid (m : ExecutingMessage) : Type 0 where
    pub client : Client
    pub header : Header
    pub logs : List Log
    pub log : Log
    pub is_peer : lookup (to_uint64 m.id.chain_id) sim.peers ≡ some client
    pub has_block : client.header_by_number m.id.block_number ≡ returns header
    pub has_time : m.id.timestamp ≡ pos header.time
    pub has_logs : client.filter_logs m.id.origin m.id.block_number m.id.block_number ≡ returns logs
    pub is_unique : filter (at_index sim m.id.log_index) logs ≡ log ∷ []
    pub has_hash : m.msg_hash ≡ sim.lib.keccak256 (executing_message_payload_bytes sim.lib log)
    pub is_late : IsLateEnough header

  -- The executing messages among the logs, where all of them parse.
  pub data Parses : List Log → List ExecutingMessage → Type 0 where
    end : Parses [] []
    other :
        {l : Log} {ls : List Log} {ms : List ExecutingMessage}
        → is_executing_message_log sim.lib l ≡ false
        → Parses ls ms
        → Parses (l ∷ ls) ms
    executing :
        {l : Log} {ls : List Log} {m : ExecutingMessage} {ms : List ExecutingMessage}
        → is_executing_message_log sim.lib l ≡ true
        → sim.parse l ≡ returns m
        → Parses ls ms
        → Parses (l ∷ ls) (m ∷ ms)
