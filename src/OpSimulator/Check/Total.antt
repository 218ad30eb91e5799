-- ===== src/OpSimulator/Check/Total.antt =====
-- The check never panics: the index into the initiating logs is in range.
use supersim.Prelude.{
  ◌≡◌, ◌≢◌, refl, ◌==◌, false, List, [], ◌∷◌, ◌++◌, some, Option-cases, External-cases,
  Result-cases, panic, get_elem?, length, filter, arith, inl, inr,
}
use supersim.Prelude.Dict.{lookup}
use supersim.Prelude.Int.{to_uint64}
use supersim.Interop.Types.{Log, Header}
use supersim.OpSimulator.Check.{
  ExecutingMessage, Simulator, at_index, gather, check_delay, check_message, check_messages,
  check_interop_invariants,
}

first_of_nonempty {ℓ} :
    {A : Type ℓ} (xs : List A) → (length xs == 0) ≡ false → (a : A) × (get_elem? xs 0 ≡ some a)
first_of_nonempty [] h = absurd (ground arith)
first_of_nonempty (x ∷ xs) h = (x, refl)

module _ (sim : Simulator) where
  check_delay-ne-panic : (h : Header) → check_delay sim h ≢ panic
  unfolding check_delay
  check_delay-ne-panic h e = ground arith

  check_message-ne-panic : (m : ExecutingMessage) → check_message sim m ≢ panic
  unfolding check_message
  check_message-ne-panic m e = elim (Option-cases (lookup (to_uint64 m.id.chain_id) sim.peers)) [
    | inl p ↦ ground arith
    | inr (c, p) ↦ elim (External-cases (c.header_by_number m.id.block_number)) [
      | inr (x, q) ↦ ground arith
      | inl (h, q) ↦
          elim (External-cases (c.filter_logs m.id.origin m.id.block_number m.id.block_number)) [
            | inr (x, r) ↦ ground arith
            | inl (logs, r) ↦ ground (
              arith,
              check_delay-ne-panic h,
              first_of_nonempty (filter (at_index sim m.id.log_index) logs),
            )
          ]
    ]
  ]

  check_messages-ne-panic : (ms : List ExecutingMessage) → check_messages sim ms ≢ panic
  unfolding check_messages
  check_messages-ne-panic [] e = cc
  check_messages-ne-panic (m ∷ ms) e =
      ground (arith, check_message-ne-panic m, check_messages-ne-panic ms)

  gather-ne-panic : (logs : List Log) (acc : List ExecutingMessage) → gather sim logs acc ≢ panic
  unfolding gather
  gather-ne-panic [] acc e = cc
  gather-ne-panic (l ∷ ls) acc e = elim (External-cases (sim.parse l)) [
    | inl (m, q) ↦ ground (arith, gather-ne-panic ls acc, gather-ne-panic ls (acc ++ m ∷ []))
    | inr (x, q) ↦ ground (arith, gather-ne-panic ls acc)
  ]

  -- Whatever the logs and the answers of the clients, the check of a proxy whose own client is there,
  -- as it is once its Start is over, returns nil or an error: it does not panic.
  pub check_interop_invariants-ne-panic :
      (logs : List Log) → check_interop_invariants sim logs ≢ panic
  unfolding check_interop_invariants
  check_interop_invariants-ne-panic logs e = elim (Result-cases (gather sim logs [])) [
    | inl (ms, q) ↦ ground (arith, check_messages-ne-panic ms)
    | inr (inl (x, q)) ↦ ground arith
    | inr (inr q) ↦ gather-ne-panic logs [] q
  ]
