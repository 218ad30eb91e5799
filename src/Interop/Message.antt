-- ===== src/Interop/Message.antt =====
-- interop/message.go and interop/derive.go: a cross-chain message, its hash, and the payload of an
-- initiating log.
pub mod Payload
pub mod Decode
use supersim.Prelude.{
  ℕ, ◌==◌, Bool, false, List, [], ◌∷◌, ◌++◌, Result, ok, ◌>>=◌, from_external, or_panic, get_elem?,
}
use supersim.Prelude.Int.{ℤ, pos, of_int64, to_uint64}
use supersim.Interop.Types.{Log, Identifier, Error, external, cannot_encode, Ethlib}

pub record L2ToL2Message : Type 0 where
  pub destination : ℕ
  pub source : ℕ
  pub nonce : ℤ
  pub sender : ℕ
  pub target : ℕ
  pub message : List ℕ

module _ (lib : Ethlib) where
  unfoldable pub encode : L2ToL2Message → Result Error (List ℕ)
  encode m =
      from_external (λ e. cannot_encode (external e))
        (lib.pack_message (of_int64 m.destination) (of_int64 m.source) m.nonce m.sender m.target
          m.message)

  -- `L2ToL2Message.Hash`
  unfoldable pub hash : L2ToL2Message → Result Error ℕ
  unfolding encode
  hash m = do encoded ← encode m; ok (lib.keccak256 encoded)

  -- An index past the log's topics panics.
  unfoldable pub new_message_from_sent_event : Log → Identifier → Result Error L2ToL2Message
  new_message_from_sent_event log identifier = do
    event ← from_external external (lib.unpack_sent_message log.payload)
    nonce ← or_panic (get_elem? log.topics 3)
    destination ← or_panic (get_elem? log.topics 1)
    target ← or_panic (get_elem? log.topics 2)
    ok (record {
      destination = to_uint64 (pos destination);
      source = to_uint64 identifier.chain_id;
      nonce = pos nonce;
      sender = event.0;
      target = lib.hash_to_address target;
      message = event.1;
    })

  -- The loop over the topics, on the bytes gathered so far.
  unfoldable pub append_topics : List ℕ → List ℕ → List ℕ
  append_topics msg [] = msg
  append_topics msg (topic ∷ topics) = append_topics (msg ++ lib.hash_bytes topic) topics

  unfoldable pub executing_message_payload_bytes : Log → List ℕ
  unfolding append_topics
  executing_message_payload_bytes log = append_topics [] log.topics ++ log.payload

  unfoldable pub is_executing_message_log : Log → Bool
  is_executing_message_log log = elim log.topics [
    | [] ↦ false
    | topic ∷ _ ↦ topic == lib.executing_message_id
  ]
