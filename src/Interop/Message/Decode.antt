-- ===== src/Interop/Message/Decode.antt =====
-- What the message of a SentMessage log is.
use supersim.Prelude.{ℕ, ◌^◌, ◌<◌, ◌≡◌, List, [], ◌∷◌, returns, ok, arith}
use supersim.Prelude.Int.{pos, of_int64, to_uint64, to_uint64-of_int64}
use supersim.Interop.Types.{Log, Identifier, Ethlib}
use supersim.Interop.Message.{new_message_from_sent_event}

module _ (lib : Ethlib) where
  -- A log of four topics whose data unpacks gives the message with those fields; the source is the
  -- chain the log was seen on, for every chain id below 2^63.
  pub new_message_from_sent_event_fields :
      (log : Log) (identifier : Identifier) (id destination target nonce sender chain : ℕ)
      (message : List ℕ)
      → log.topics ≡ id ∷ destination ∷ target ∷ nonce ∷ []
      → lib.unpack_sent_message log.payload ≡ returns (sender, message)
      → identifier.chain_id ≡ of_int64 chain
      → chain < 2 ^ 63
      → destination < 2 ^ 64
      → target < 2 ^ 160
      → new_message_from_sent_event lib log identifier
        ≡ ok (record {
          destination = destination;
          source = chain;
          nonce = pos nonce;
          sender = sender;
          target = target;
          message = message;
        })
  unfolding new_message_from_sent_event to_uint64
  new_message_from_sent_event_fields log identifier id d t n s c m ht hu hc h63 hd ha =
      ground (arith, to_uint64-of_int64 c h63, lib.hash_to_address_crops t)
