-- ===== src/Interop/Message/Payload.antt =====
-- The payload of a log determines the log's topics and data: an executing message whose payload
-- hash fits an initiating log can have come from no other one with as many topics.
use mathlib.Core.List.{append-nil, append_assoc}
use supersim.Prelude.{
  ℕ, ◌+◌, ◌*◌, ◌^◌, ◌<◌, ◌≡◌, refl, sym, ap, ◌∙◌, List, [], ◌∷◌, ◌++◌, arith, length, length-append,
  All,
}
use supersim.Interop.Types.{Log, Ethlib}
use supersim.Interop.Message.{append_topics, executing_message_payload_bytes}

-- Equal concatenations split at equal lengths.
pub append-inj {ℓ} :
    {A : Type ℓ} (xs ys us vs : List A)
    → length xs ≡ length ys
    → xs ++ us ≡ ys ++ vs
    → (xs ≡ ys) × (us ≡ vs)
append-inj [] [] us vs h e = (refl, e)
append-inj [] (y ∷ ys) us vs h e = absurd (omega arith)
append-inj (x ∷ xs) [] us vs h e = absurd (omega arith)
append-inj (x ∷ xs) (y ∷ ys) us vs h e = ground (arith, append-inj xs ys us vs (omega arith))

abbrev pub IsHash : ℕ → Type 0
IsHash h = h < 2 ^ 256

module _ (lib : Ethlib) where
  -- The bytes of the topics, with no accumulator.
  abbrev topic_bytes : List ℕ → List ℕ
  topic_bytes [] = []
  topic_bytes (t ∷ ts) = lib.hash_bytes t ++ topic_bytes ts

  append_topics-eq-append :
      (msg topics : List ℕ) → append_topics lib msg topics ≡ msg ++ topic_bytes topics
  unfolding append_topics
  append_topics-eq-append msg [] = sym (append-nil msg)
  append_topics-eq-append msg (t ∷ ts) =
      append_topics-eq-append (msg ++ lib.hash_bytes t) ts
      ∙ append_assoc msg (lib.hash_bytes t) (topic_bytes ts)

  topic_bytes-inj :
      (ts us xs ys : List ℕ)
      → length ts ≡ length us
      → All IsHash ts
      → All IsHash us
      → topic_bytes ts ++ xs ≡ topic_bytes us ++ ys
      → (ts ≡ us) × (xs ≡ ys)
  topic_bytes-inj [] [] xs ys h p q e = (refl, e)
  topic_bytes-inj [] (u ∷ us) xs ys h p q e = absurd (omega arith)
  topic_bytes-inj (t ∷ ts) [] xs ys h p q e = absurd (omega arith)
  topic_bytes-inj (t ∷ ts) (u ∷ us) xs ys h p q e =
      let (same, rest) =
        append-inj (lib.hash_bytes t) (lib.hash_bytes u) (topic_bytes ts ++ xs)
          (topic_bytes us ++ ys) (lib.hash_bytes_length t ∙ sym (lib.hash_bytes_length u))
          (sym (append_assoc (lib.hash_bytes t) (topic_bytes ts) xs)
            ∙ e
            ∙ append_assoc (lib.hash_bytes u) (topic_bytes us) ys) in
      let (tail, data_eq) = topic_bytes-inj ts us xs ys (omega arith) p.1 q.1 rest in
      (cc (lib.hash_bytes_inj t u p.0 q.0 same, tail), data_eq)

  -- Two logs with equally many topics, all of them hashes, have the same payload bytes only if
  -- they have the same topics and the same data.
  pub executing_message_payload_bytes_inj :
      (a b : Log)
      → length a.topics ≡ length b.topics
      → All IsHash a.topics
      → All IsHash b.topics
      → executing_message_payload_bytes lib a ≡ executing_message_payload_bytes lib b
      → (a.topics ≡ b.topics) × (a.payload ≡ b.payload)
  unfolding executing_message_payload_bytes
  executing_message_payload_bytes_inj a b h p q e =
      topic_bytes-inj a.topics b.topics a.payload b.payload h p q (
        ap (λ m. m ++ a.payload) (sym (append_topics-eq-append [] a.topics))
        ∙ e
        ∙ ap (λ m. m ++ b.payload) (append_topics-eq-append [] b.topics))

  -- The payload is 32 bytes to each topic, and the data.
  pub length-executing_message_payload_bytes :
      (log : Log)
      → length (executing_message_payload_bytes lib log)
        ≡ 32 * length log.topics + length log.payload
  unfolding executing_message_payload_bytes
  length-executing_message_payload_bytes log = omega (
    arith,
    length-append (append_topics lib [] log.topics) log.payload,
    ap length (append_topics-eq-append [] log.topics),
    length-topic_bytes log.topics,
  )
    where
      length-topic_bytes : (ts : List ℕ) → length (topic_bytes ts) ≡ 32 * length ts
      length-topic_bytes [] = omega arith
      length-topic_bytes (t ∷ ts) = omega (
        arith,
        length-append (lib.hash_bytes t) (topic_bytes ts),
        lib.hash_bytes_length t,
        length-topic_bytes ts,
      )
