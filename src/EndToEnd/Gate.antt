-- ===== src/EndToEnd/Gate.antt =====
-- A relay at the proxy of its destination: opsimulator/opsimulator.go's handler with its check.
use supersim.Prelude.{
  ℕ, ◌<◌, ◌^◌, ◌==◌, ==_iff, ◌≡◌, refl, ap, ◌∙◌, List, [], ◌∷◌, All, ok, true, false, returns,
  arith, inl, inr, Bool-cases, if◌then◌else◌,
}
use supersim.Prelude.Dict.{lookup}
use supersim.Prelude.Int.{of_int64, to_uint64, to_uint64-of_int64}
use mathlib.Core.Path.{subst}
use text.Mathlib.Text.{◌==◌ as str_eq}
use supersim.Interop.Types.{Log}
use supersim.Interop.Message.{executing_message_payload_bytes}
use supersim.OpSimulator.Check.{ExecutingMessage, Simulator}
use supersim.OpSimulator.Check.Valid.{IsValid, Parses, end, other, executing}
use supersim.OpSimulator.Check.Decide.{check_interop_invariants_iff}
use supersim.OpSimulator.Json.{GoError, JsonRpcMessage, error_response}
use supersim.OpSimulator.Handler.{
  Backend, library_error, forward_rpc_request, or_respond, handle_message,
}
use supersim.OpSimulator.Handler.Vetting.{IsVetted, handle_message_gate}
use supersim.EndToEnd.{IsServed, identifier_of, relay_of-IsValid}

-- The executing messages among the logs are determined by them.
Parses-eq :
    (sim : Simulator) {logs : List Log} {ms ns : List ExecutingMessage}
    → Parses sim logs ms
    → Parses sim logs ns
    → ms ≡ ns
Parses-eq sim end end = refl
Parses-eq sim (other p h) (other q k) = Parses-eq sim h k
Parses-eq sim (other p h) (executing q r k) = absurd (cc)
Parses-eq sim (executing p r h) (other q k) = absurd (cc)
Parses-eq sim (executing p r h) (executing q s k) = let tails = Parses-eq sim h k in cc

module _ {W Tx : Type 0} (b : Backend W Tx) (w : W) where
  -- A request that holds one transaction, no deposit, with these logs when it is simulated.
  pub record Sends (msg : JsonRpcMessage) (logs : List Log) : Type 0 where
    pub raw_tx : List ℕ
    pub tx : Tx
    pub is_send : str_eq msg.method "eth_sendRawTransaction" ≡ true
    pub has_one : b.unmarshal_bytes msg.params ≡ returns (raw_tx ∷ [])
    pub decodes : b.decode_tx raw_tx ≡ returns tx
    pub is_no_deposit : b.is_deposit tx ≡ false
    pub simulates : b.simulated_logs w tx ≡ returns logs

  Sends-logs :
      {msg : JsonRpcMessage} {logs : List Log}
      → Sends msg logs
      → (v : IsVetted b w msg) → v.logs ≡ logs
  Sends-logs s v =
      let same_raw : s.raw_tx ≡ v.raw_tx = let p = s.has_one in let q = v.has_one in cc in
      let same_tx : s.tx ≡ v.tx = let p = s.decodes in let q = v.decodes in cc in
      let p = s.simulates in let q = v.simulates in cc

  module _ (chain_id : ℕ) (log : Log) (served : IsServed (b.simulator w) chain_id log) where
    abbrev sim : Simulator
    sim = b.simulator w

    -- A relay of the log, with a hash of the relayer's choice.
    abbrev pub claimed : ℕ → ExecutingMessage
    claimed g = record { msg_hash = g; id = identifier_of sim chain_id log served }

    abbrev pub hash_of_payload : ℕ
    hash_of_payload = sim.lib.keccak256 (executing_message_payload_bytes sim.lib log)

    claimed-hash : (g : ℕ) → chain_id < 2 ^ 63 → IsValid sim (claimed g) → g ≡ hash_of_payload
    claimed-hash g small v =
        let key : to_uint64 (of_int64 chain_id) ≡ chain_id = to_uint64-of_int64 chain_id small in
        let there = ap (λ k. lookup k sim.peers) key ∙ served.is_peer in
        let same_client : v.client ≡ served.client = let p = v.is_peer in cc in
        let same_logs : v.logs ≡ served.logs =
          let p = v.has_logs in let q = served.has_logs in let r = served.has_number in cc in
        let same_log : v.log ≡ log = let p = v.is_unique in let q = served.is_unique in cc in
        let p = v.has_hash in cc

    claimed-IsVetted :
        (msg : JsonRpcMessage) (logs : List Log) (g : ℕ)
        → chain_id < 2 ^ 63
        → served.header.time < 2 ^ 63
        → Sends msg logs
        → Parses sim logs (claimed g ∷ [])
        → g ≡ hash_of_payload
        → IsVetted b w msg
    claimed-IsVetted msg logs g small early s parses same = record {
      raw_tx = s.raw_tx;
      tx = s.tx;
      logs = logs;
      has_one = s.has_one;
      decodes = s.decodes;
      is_no_deposit = s.is_no_deposit;
      simulates = s.simulates;
      passes = (check_interop_invariants_iff sim logs).1 (
        claimed g ∷ [],
        parses,
        (rw same (relay_of-IsValid sim chain_id log served small early), tt),
      );
    }

    IsVetted-claimed :
        (msg : JsonRpcMessage) (logs : List Log) (g : ℕ)
        → chain_id < 2 ^ 63
        → Sends msg logs
        → Parses sim logs (claimed g ∷ [])
        → IsVetted b w msg
        → g ≡ hash_of_payload
    IsVetted-claimed msg logs g small s parses v =
        let (ms, found, valid) = (check_interop_invariants_iff sim v.logs).0 v.passes in
        let same : ms ≡ claimed g ∷ [] =
          Parses-eq sim (subst (λ l. Parses sim l ms) (Sends-logs s v) found) parses in
        claimed-hash g small (subst (All (IsValid sim)) same valid).0

    -- A transaction whose one executing message names a log that the proxy's client serves, on a
    -- chain whose id and whose time are below 2^63: it is forwarded where the hash it claims is that
    -- of the payload of the log, and refused in any other case, with the world left as it was.
    pub handle_message-claimed :
        (msg : JsonRpcMessage) (logs : List Log) (g : ℕ)
        → chain_id < 2 ^ 63
        → served.header.time < 2 ^ 63
        → Sends msg logs
        → Parses sim logs (claimed g ∷ [])
        → (e : GoError) × (handle_message b msg w ≡ (
            if g == hash_of_payload
            then or_respond msg (forward_rpc_request b msg w)
            else (ok (error_response msg e), w)))
    handle_message-claimed msg logs g small early s parses =
        let gate = handle_message_gate b msg w in
        elim (Bool-cases (g == hash_of_payload)) [
          | inl t ↦
              let vetted =
                claimed-IsVetted msg logs g small early s parses ((==_iff g hash_of_payload).0 t) in
              (library_error "", rw t (gate.0 (λ is. vetted)))
          | inr f ↦
              let (e, refused) = gate.1 s.is_send (λ v.
                let same = IsVetted-claimed msg logs g small s parses v in
                absurd (ground (arith, f, same))) in
              (e, rw f refused)
        ]
