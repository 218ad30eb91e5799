-- ===== src/OpSimulator/Check.antt =====
-- opsimulator/opsimulator.go, checkInteropInvariants: what a transaction's simulated logs must
-- satisfy before the transaction is forwarded. It is that of a proxy whose Start has dialled its own
-- client: until then, while the HTTP server runs already, `ethClient` is nil.
pub mod Valid
pub mod Decide
pub mod Total
use supersim.Prelude.{
  ℕ, ◌+◌, ◌-◌, ◌%◌, ◌==◌, ltb, leb, not, if◌then◌else◌, Bool, List, [], ◌∷◌, ◌++◌, String, Result,
  ok, External, from_external, ◌>>=◌, ◌>>◌, fail_if, or_err, or_panic, get_elem?, length, filter,
}
use supersim.Prelude.Dict.{Dict, lookup}
use supersim.Prelude.Int.{ℤ, pos, word, of_int64, to_uint64, eq_ℤ}
use supersim.Interop.Types.{Log, Header, Identifier, Ethlib}
use supersim.Interop.Message.{executing_message_payload_bytes, is_executing_message_log}

-- `bindings.CrossL2InboxExecutingMessage`
pub record ExecutingMessage : Type 0 where
  pub msg_hash : ℕ
  pub id : Identifier

-- The client of a peer chain: `HeaderByNumber` and `FilterLogs` at one address and a block range.
pub record Client : Type 0 where
  pub header_by_number : ℤ → External Header
  pub filter_logs : ℕ → ℤ → ℤ → External (List Log)

-- What the check reads of an `OpSimulator`. `parse` is `ParseExecutingMessage` of the inbox's
-- binding, `latest_header` what `HeaderByNumber(ctx, nil)` of the simulated chain comes back with.
pub record Simulator : Type 0 where
  pub lib : Ethlib
  pub parse : Log → External ExecutingMessage
  pub peers : Dict Client
  pub interop_delay : ℕ
  pub latest_header : External Header

-- A constructor to each `fmt.Errorf`.
pub data CheckError : Type 0 where
  decode_failed fetch_block_failed fetch_logs_failed fetch_header_failed : String → CheckError
  no_chain : ℤ → CheckError
  timestamp_mismatch initiating_not_found fields_not_equal : CheckError
  unexpected_number : ℕ → CheckError
  not_enough_time : ℕ → ℕ → CheckError

module _ (sim : Simulator) where
  -- The first loop, on the messages gathered so far.
  unfoldable pub gather :
      List Log → List ExecutingMessage → Result CheckError (List ExecutingMessage)
  gather [] messages = ok messages
  gather (log ∷ logs) messages =
      let skip = gather logs messages in
      let take =
        from_external decode_failed (sim.parse log) >>= λ m. gather logs (messages ++ m ∷ []) in
      if not (is_executing_message_log sim.lib log) then skip else take

  abbrev pub at_index : ℤ → Log → Bool
  at_index index log = eq_ℤ (of_int64 log.index) index

  unfoldable pub check_delay : Header → Result CheckError (Unit {0})
  check_delay source = if sim.interop_delay == 0 then ok tt else (do
    header ← from_external fetch_header_failed sim.latest_header
    fail_if (ltb header.time ((source.time + sim.interop_delay) % word))
        (not_enough_time sim.interop_delay ((header.time + word - source.time) % word)))

  -- The body of the second loop.
  unfoldable pub check_message : ExecutingMessage → Result CheckError (Unit {0})
  check_message m = do
    source ← or_err (lookup (to_uint64 m.id.chain_id) sim.peers) (no_chain m.id.chain_id)
    header ← from_external fetch_block_failed (source.header_by_number m.id.block_number)
    fail_if (not (eq_ℤ m.id.timestamp (pos header.time))) timestamp_mismatch
    logs ←
        from_external fetch_logs_failed
          (source.filter_logs m.id.origin m.id.block_number m.id.block_number)
    let initiating = filter (at_index m.id.log_index) logs
    fail_if (length initiating == 0) initiating_not_found
    fail_if (ltb 1 (length initiating)) (unexpected_number (length initiating))
    log ← or_panic (get_elem? initiating 0)
    fail_if (not (m.msg_hash == sim.lib.keccak256 (executing_message_payload_bytes sim.lib log)))
        fields_not_equal
    check_delay header

  unfoldable pub check_messages : List ExecutingMessage → Result CheckError (Unit {0})
  check_messages [] = ok tt
  check_messages (m ∷ ms) = do check_message m; check_messages ms

  unfoldable pub check_interop_invariants : List Log → Result CheckError (Unit {0})
  check_interop_invariants logs = do
    messages ← gather logs []
    if leb 1 (length messages) then check_messages messages else ok tt
