-- ===== src/OpSimulator/Check/Decide.antt =====
-- The check accepts the valid messages and no others.
use supersim.Prelude.{
  ℕ, ◌+◌, ◌*◌, ◌≡◌, refl, sym, ap, ◌∙◌, ◌↔◌, inl, inr, ◌==◌, ==_iff, ltb, false, some, List, [],
  ◌∷◌, ◌++◌, ok, filter, length, get_elem?, All, arith, Bool-cases, Option-cases, External-cases,
  Result-cases,
}
use mathlib.Core.List.{append-nil, append_assoc}
use supersim.Prelude.Dict.{lookup}
use supersim.Prelude.Int.{ℤ, pos, word, to_uint64, eq_ℤ_iff, to_uint64-wraps}
use supersim.Interop.Types.{Log, Header}
use supersim.Interop.Message.{executing_message_payload_bytes, is_executing_message_log}
use supersim.OpSimulator.Check.{
  ExecutingMessage, Simulator, at_index, gather, check_delay, check_message, check_messages,
  check_interop_invariants,
}
use supersim.OpSimulator.Check.Valid.{IsLateEnough, IsValid, Parses, end, other, executing}

singleton {ℓ} :
    {A : Type ℓ} (xs : List A) (a : A)
    → (length xs == 0) ≡ false
    → ltb 1 (length xs) ≡ false
    → get_elem? xs 0 ≡ some a
    → xs ≡ a ∷ []
singleton [] a h k e = cc
singleton (x ∷ []) a h k e = ground arith
singleton (x ∷ y ∷ xs) a h k e = ground arith

module _ (sim : Simulator) where
  check_delay_sound : (h : Header) → check_delay sim h ≡ ok tt → IsLateEnough sim h
  unfolding check_delay
  check_delay_sound h e = elim (Bool-cases (sim.interop_delay == 0)) [
    | inl q ↦ inl (ground arith)
    | inr q ↦ elim (External-cases sim.latest_header) [
      | inl (now, p) ↦ inr (now, p, ground arith)
      | inr (x, p) ↦ absurd (ground arith)
    ]
  ]

  check_delay_complete : (h : Header) → IsLateEnough sim h → check_delay sim h ≡ ok tt
  unfolding check_delay
  check_delay_complete h (inl q) = ground arith
  check_delay_complete h (inr (now, q, l)) = ground arith

  check_message_complete : (m : ExecutingMessage) → IsValid sim m → check_message sim m ≡ ok tt
  unfolding check_message
  check_message_complete m v = ground (
    arith,
    check_delay_complete v.header v.is_late,
    eq_ℤ_iff m.id.timestamp (pos v.header.time),
    ==_iff m.msg_hash (sim.lib.keccak256 (executing_message_payload_bytes sim.lib v.log)),
  )

  check_message_sound : (m : ExecutingMessage) → check_message sim m ≡ ok tt → IsValid sim m
  unfolding check_message
  check_message_sound m e = elim (Option-cases (lookup (to_uint64 m.id.chain_id) sim.peers)) [
    | inl p ↦ absurd (ground arith)
    | inr (c, p) ↦ elim (External-cases (c.header_by_number m.id.block_number)) [
      | inr (x, p₂) ↦ absurd (ground arith)
      | inl (h, p₂) ↦
          elim (External-cases (c.filter_logs m.id.origin m.id.block_number m.id.block_number)) [
            | inr (x, p₃) ↦ absurd (ground arith)
            | inl (logs, p₃) ↦
                elim (Option-cases (get_elem? (filter (at_index sim m.id.log_index) logs) 0)) [
                  | inl p₄ ↦ absurd (ground arith)
                  | inr (l, p₄) ↦ record {
                    client = c;
                    header = h;
                    logs = logs;
                    log = l;
                    is_peer = p;
                    has_block = p₂;
                    has_time = ground (arith, eq_ℤ_iff m.id.timestamp (pos h.time));
                    has_logs = p₃;
                    is_unique =
                        singleton (filter (at_index sim m.id.log_index) logs) l (ground arith)
                          (ground arith) p₄;
                    has_hash = ground (
                      arith,
                      ==_iff m.msg_hash
                          (sim.lib.keccak256 (executing_message_payload_bytes sim.lib l)),
                    );
                    is_late = check_delay_sound h (ground arith);
                  }
                ]
          ]
    ]
  ]

  gather_complete :
      (acc : List ExecutingMessage) {logs : List Log} {ms : List ExecutingMessage}
      → Parses sim logs ms
      → gather sim logs acc ≡ ok (acc ++ ms)
  unfolding gather
  gather_complete acc end = ap ok (sym (append-nil acc))
  gather_complete acc (other q p) = ground (arith, gather_complete acc p)
  gather_complete acc (executing {m = m} {ms = ms} q e p) =
      ground (arith, gather_complete (acc ++ m ∷ []) p, append_assoc acc (m ∷ []) ms)

  abbrev Gathered : List Log → List ExecutingMessage → List ExecutingMessage → Type 0
  Gathered logs acc r = (ms : List ExecutingMessage) × Parses sim logs ms × (r ≡ acc ++ ms)

  gather_sound :
      (logs : List Log) (acc r : List ExecutingMessage)
      → gather sim logs acc ≡ ok r
      → Gathered logs acc r
  unfolding gather
  gather_sound [] acc r e = ([], end, ground (arith, append-nil acc))
  gather_sound (l ∷ ls) acc r e = elim (Bool-cases (is_executing_message_log sim.lib l)) [
    | inr q ↦ let (ms, p, s) = gather_sound ls acc r (ground arith) in (ms, other q p, s)
    | inl q ↦ elim (External-cases (sim.parse l)) [
      | inr (x, f) ↦ absurd (ground arith)
      | inl (m, f) ↦
          let (ms, p, s) = gather_sound ls (acc ++ m ∷ []) r (ground arith) in
          (m ∷ ms, executing q f p, s ∙ append_assoc acc (m ∷ []) ms)
    ]
  ]

  check_messages_sound :
      (ms : List ExecutingMessage) → check_messages sim ms ≡ ok tt → All (IsValid sim) ms
  unfolding check_messages
  check_messages_sound [] e = tt
  check_messages_sound (m ∷ ms) e =
      (check_message_sound m (ground arith), check_messages_sound ms (ground arith))

  check_messages_complete :
      (ms : List ExecutingMessage) → All (IsValid sim) ms → check_messages sim ms ≡ ok tt
  unfolding check_messages
  check_messages_complete [] v = refl
  check_messages_complete (m ∷ ms) v =
      ground (arith, check_message_complete m v.0, check_messages_complete ms v.1)

  checks-gathered :
      (logs : List Log) (ms : List ExecutingMessage)
      → gather sim logs [] ≡ ok ms
      → check_interop_invariants sim logs ≡ check_messages sim ms
  unfolding check_interop_invariants check_messages
  checks-gathered logs [] e = ground arith
  checks-gathered logs (m ∷ ms) e = ground arith

  check_interop_invariants_sound :
      (logs : List Log)
      → check_interop_invariants sim logs ≡ ok tt
      → (ms : List ExecutingMessage) × Parses sim logs ms × All (IsValid sim) ms
  unfolding check_interop_invariants
  check_interop_invariants_sound logs e = elim (Result-cases (gather sim logs [])) [
    | inl (r, q) ↦
        let (ms, p, s) = gather_sound logs [] r q in
        (ms, p, check_messages_sound ms (sym (checks-gathered logs ms (q ∙ ap ok s)) ∙ e))
    | inr (inl (x, q)) ↦ absurd (ground arith)
    | inr (inr q) ↦ absurd (ground arith)
  ]

  -- The check passes exactly where every log of the inbox's event parses, and every executing
  -- message so found is valid.
  pub check_interop_invariants_iff :
      (logs : List Log)
      → (check_interop_invariants sim logs ≡ ok tt)
        ↔ ((ms : List ExecutingMessage) × Parses sim logs ms × All (IsValid sim) ms)
  check_interop_invariants_iff logs = (
    check_interop_invariants_sound logs,
    λ found.
        checks-gathered logs found.0 (gather_complete [] found.1)
        ∙ check_messages_complete found.0 found.2,
  )

  -- The same message, said to be of another chain.
  abbrev pub with_chain : ExecutingMessage → ℤ → ExecutingMessage
  with_chain m c = record m {
    id = record {
      origin = m.id.origin;
      block_number = m.id.block_number;
      log_index = m.id.log_index;
      timestamp = m.id.timestamp;
      chain_id = c;
    };
  }

  -- A valid message stays valid if a multiple of 2^64 is added to its chain id, though no peer has
  -- such an id: the check reads the id's low word only.
  pub check_message_wraps :
      (m : ExecutingMessage) (n j : ℕ)
      → m.id.chain_id ≡ pos n
      → check_message sim m ≡ ok tt
      → check_message sim (with_chain m (pos (n + j * word))) ≡ ok tt
  check_message_wraps m n j e c =
      let v = check_message_sound m c in
      check_message_complete (with_chain m (pos (n + j * word))) (record {
        client = v.client;
        header = v.header;
        logs = v.logs;
        log = v.log;
        is_peer =
            ap (λ k. lookup k sim.peers) (to_uint64-wraps n j ∙ ap to_uint64 (sym e)) ∙ v.is_peer;
        has_block = v.has_block;
        has_time = v.has_time;
        has_logs = v.has_logs;
        is_unique = v.is_unique;
        has_hash = v.has_hash;
        is_late = v.is_late;
      })
