-- ===== src/OpSimulator/Handler/Vetting.antt =====
-- Which requests reach the simulated chain.
use text.Mathlib.Text.{◌==◌ as str_eq}
use supersim.Prelude.{
  ℕ, ◌==◌, ◌≡◌, ◌≢◌, true, false, refl, List, [], ◌∷◌, ok, panic, returns, length, arith, inl, inr,
  Bool-cases, Result-cases, External-cases,
}
use supersim.Interop.Types.{Log}
use supersim.OpSimulator.Check.{check_interop_invariants}
use supersim.OpSimulator.Check.Total.{check_interop_invariants-ne-panic}
use supersim.OpSimulator.Json.{GoError, JsonRpcMessage, error_response}
use supersim.OpSimulator.Handler.{
  Backend, vet_raw_transaction, forward_rpc_request, or_respond, handle_message,
}

single {ℓ} : {A : Type ℓ} (xs : List A) → (length xs == 1) ≡ true → (a : A) × (xs ≡ a ∷ [])
single [] h = absurd (ground arith)
single (x ∷ []) h = (x, refl)
single (x ∷ y ∷ xs) h = absurd (ground arith)

module _ {W Tx : Type 0} (b : Backend W Tx) where
  -- The request holds one transaction, no deposit, whose simulated logs pass the interop check.
  pub record IsVetted (w : W) (msg : JsonRpcMessage) : Type 0 where
    pub raw_tx : List ℕ
    pub tx : Tx
    pub logs : List Log
    pub has_one : b.unmarshal_bytes msg.params ≡ returns (raw_tx ∷ [])
    pub decodes : b.decode_tx raw_tx ≡ returns tx
    pub is_no_deposit : b.is_deposit tx ≡ false
    pub simulates : b.simulated_logs w tx ≡ returns logs
    pub passes : check_interop_invariants (b.simulator w) logs ≡ ok tt

  vet_complete :
      (w : W) (msg : JsonRpcMessage) → IsVetted w msg → vet_raw_transaction b w msg ≡ ok tt
  unfolding vet_raw_transaction
  vet_complete w msg v =
      ground (arith, v.has_one, v.decodes, v.is_no_deposit, v.simulates, v.passes)

  vet_sound : (w : W) (msg : JsonRpcMessage) → vet_raw_transaction b w msg ≡ ok tt → IsVetted w msg
  unfolding vet_raw_transaction
  vet_sound w msg e = elim (External-cases (b.unmarshal_bytes msg.params)) [
    | inr (x, q) ↦ absurd (ground arith)
    | inl (ps, q) ↦
        let (raw, one) = single ps (ground arith) in
        elim (External-cases (b.decode_tx raw)) [
          | inr (x, q₂) ↦ absurd (ground arith)
          | inl (tx, q₂) ↦ elim (External-cases (b.simulated_logs w tx)) [
            | inr (x, q₃) ↦ absurd (ground arith)
            | inl (logs, q₃) ↦ record {
              raw_tx = raw;
              tx = tx;
              logs = logs;
              has_one = ground arith;
              decodes = q₂;
              is_no_deposit = ground arith;
              simulates = q₃;
              passes = ground arith;
            }
          ]
        ]
  ]

  pub vet-ne-panic : (w : W) (msg : JsonRpcMessage) → vet_raw_transaction b w msg ≢ panic
  unfolding vet_raw_transaction
  vet-ne-panic w msg e = elim (External-cases (b.unmarshal_bytes msg.params)) [
    | inr (x, q) ↦ ground arith
    | inl (ps, q) ↦ elim (Bool-cases (length ps == 1)) [
      | inr f ↦ ground arith
      | inl t ↦
          let (raw, one) = single ps t in
          elim (External-cases (b.decode_tx raw)) [
            | inr (x, q₂) ↦ ground arith
            | inl (tx, q₂) ↦ elim (External-cases (b.simulated_logs w tx)) [
              | inr (x, q₃) ↦ ground arith
              | inl (logs, q₃) ↦
                  ground (arith, check_interop_invariants-ne-panic (b.simulator w) logs)
            ]
          ]
    ]
  ]

  -- The gate. A request that is no `eth_sendRawTransaction`, or is vetted, is forwarded; any other
  -- is answered with an error, and the world outside is left as it was.
  pub handle_message_gate :
      (msg : JsonRpcMessage) (w : W)
      → ((str_eq msg.method "eth_sendRawTransaction" ≡ true → IsVetted w msg)
          → handle_message b msg w ≡ or_respond msg (forward_rpc_request b msg w))
        × (str_eq msg.method "eth_sendRawTransaction" ≡ true
            → ¬ IsVetted w msg
            → (e : GoError) × (handle_message b msg w ≡ (ok (error_response msg e), w)))
  unfolding handle_message
  handle_message_gate msg w = elim (Bool-cases (str_eq msg.method "eth_sendRawTransaction")) [
    | inr f ↦ (λ v. ground arith, λ t n. absurd (ground arith))
    | inl t ↦ (
      λ v. ground (arith, vet_complete w msg (v t)),
      λ t n. elim (Result-cases (vet_raw_transaction b w msg)) [
        | inl (a, q) ↦ absurd (n (vet_sound w msg q))
        | inr (inl (e, q)) ↦ (e, ground arith)
        | inr (inr q) ↦ absurd (vet-ne-panic w msg q)
      ],
    )
  ]
