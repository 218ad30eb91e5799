-- ===== src/Interop/Relayer/Retries.antt =====
-- The retries: how many calls are made, what is slept between them, and what comes of them.
use mathlib.Core.List.{append-nil, append_assoc}
use supersim.Prelude.{
  ℕ, zero, suc, ◌+◌, ◌<◌, ◌≡◌, List, [], ◌∷◌, ◌++◌, ok, err, returns, fails, arith, String,
}
use supersim.Prelude.Int.{ℤ}
use supersim.Interop.Types.{Ethlib, external, relay_failed_after}
use supersim.Interop.Store.{Entry}
use supersim.Interop.Relayer.{
  Relay, Relayer, Outcomes, backoff, relay_rounds, record_call, record_sleep, relay_call,
  relay_message_with_retry,
}

-- One call more than `n`.
abbrev pub repeated : ℕ → Relay → List Relay
repeated zero c = c ∷ []
repeated (suc n) c = c ∷ repeated n c

-- The sleeps after the attempts `attempt`, `attempt + 1`, …, each twice as long as the one before
-- (in 64-bit nanoseconds).
abbrev pub backoffs : ℕ → ℕ → List ℤ
backoffs attempt zero = []
backoffs attempt (suc n) = backoff attempt ∷ backoffs (attempt + 1) n

-- `n` calls that failed, a sleep after each, and one call more.
abbrev pub tried : ℕ → ℕ → Relay → Relayer → Relayer
tried n attempt c r = record {
  calls = r.calls ++ repeated n c;
  sleeps = r.sleeps ++ backoffs attempt n;
}

tried-suc :
    (n attempt : ℕ) (c : Relay) (r : Relayer)
    → tried n (attempt + 1) c (record_sleep attempt (record_call c r)) ≡ tried (suc n) attempt c r
tried-suc n attempt c r = ground (
  arith,
  append_assoc r.calls (c ∷ []) (repeated n c),
  append_assoc r.sleeps (backoff attempt ∷ []) (backoffs (attempt + 1) n),
)

tried-zero : (attempt : ℕ) (c : Relay) (r : Relayer) → record_call c r ≡ tried zero attempt c r
tried-zero attempt c r = ground (arith, append-nil r.sleeps)

module _ (max : ℕ) (c : Relay) (outcome : Outcomes) where
  relay_rounds-success :
      (left attempt n last : ℕ) (r : Relayer)
      → attempt + left ≡ max
      → attempt + n ≡ last
      → last < max
      → ((k : ℕ) → k < last → (e : String) × (outcome k ≡ fails e))
      → outcome last ≡ returns tt
      → relay_rounds max left c outcome attempt r ≡ (ok tt, tried n attempt c r)
  unfolding relay_rounds
  relay_rounds-success zero attempt n last r h hl lt f s = absurd (omega arith)
  relay_rounds-success (suc left) attempt zero last r h hl lt f s =
      let q : attempt ≡ last = omega arith in ground (arith, tried-zero attempt c r)
  relay_rounds-success (suc left) attempt (suc n) last r h hl lt f s =
      let (e, failed) = f attempt (omega arith) in
      ground (
        arith,
        relay_rounds-success left (attempt + 1) n last (record_sleep attempt (record_call c r))
            (omega arith) (omega arith) lt f s,
        tried-suc n attempt c r,
      )

  relay_rounds-failure :
      (n attempt last : ℕ) (r : Relayer) (e : String)
      → attempt + n ≡ last
      → last + 1 ≡ max
      → ((k : ℕ) → k < last → (x : String) × (outcome k ≡ fails x))
      → outcome last ≡ fails e
      → relay_rounds max (suc n) c outcome attempt r
        ≡ (err (relay_failed_after max (external e)), tried n attempt c r)
  unfolding relay_rounds
  relay_rounds-failure zero attempt last r e hl hm f s =
      let q : attempt ≡ last = omega arith in ground (arith, tried-zero attempt c r)
  relay_rounds-failure (suc n) attempt last r e hl hm f s =
      let (x, failed) = f attempt (omega arith) in
      ground (
        arith,
        relay_rounds-failure n (attempt + 1) last (record_sleep attempt (record_call c r)) e
            (omega arith) (omega arith) f s,
        tried-suc n attempt c r,
      )

-- A message that can be relayed is relayed by the first call that succeeds, if that is among the
-- first `max` ones: then there was one call for it and one for each failure, and a sleep after each
-- failure. If all `max` calls fail, the error of the last one comes back, and no sleep follows it.
pub relay_message_with_retry_lem :
    (lib : Ethlib) (e : Entry) (c : Relay) (outcome : Outcomes) (max last : ℕ) (r : Relayer)
    → relay_call lib e ≡ ok c
    → last < max
    → ((k : ℕ) → k < last → (x : String) × (outcome k ≡ fails x))
    → (outcome last ≡ returns tt
        → relay_message_with_retry lib e max outcome r ≡ (ok tt, tried last 0 c r))
      × ((x : String)
          → last + 1 ≡ max
          → outcome last ≡ fails x
          → relay_message_with_retry lib e max outcome r
            ≡ (err (relay_failed_after max (external x)), tried last 0 c r))
unfolding relay_message_with_retry
relay_message_with_retry_lem lib e c outcome zero last r hc lt f = absurd (omega arith)
relay_message_with_retry_lem lib e c outcome (suc m) last r hc lt f = (
  λ s. ground (
    arith,
    relay_rounds-success (suc m) c outcome (suc m) 0 last last r (omega arith) (omega arith) lt f s,
  ),
  λ x hm s.
      let q : last ≡ m = omega arith in
      ground (arith, relay_rounds-failure (suc m) c outcome last 0 last r x (omega arith) hm f s),
)
