-- ===== src/Interop/Indexer/Topics.antt =====
-- The keys under which entries are published and subscribed to.
use mathlib.Core.List.{append_cancel_left}
use supersim.Prelude.{ℕ, ◌≡◌, refl, sym, ap, ◌∙◌, Option, some, arith, get_elem?}
use supersim.Prelude.Text.{Text, codes, decimal_inj}
use supersim.Interop.Indexer.{
  sent_message_from_source_key, sent_message_to_destination_key, relayed_message_to_destination_key,
  failed_relayed_message_to_destination_key,
}

-- What an entry is published as, with the chain id in the key.
pub data Topic : Type 0 where
  sent_from sent_to relayed_to failed_to : ℕ → Topic

abbrev pub key_of : Topic → Text
key_of (sent_from c) = sent_message_from_source_key c
key_of (sent_to c) = sent_message_to_destination_key c
key_of (relayed_to c) = relayed_message_to_destination_key c
key_of (failed_to c) = failed_relayed_message_to_destination_key c

-- The first byte and the thirteenth tell the four kinds of key apart.
abbrev marks : Text → Option ℕ × Option ℕ
marks t = (get_elem? t 0, get_elem? t 12)

abbrev kind_marks : Topic → Option ℕ × Option ℕ
kind_marks (sent_from c) = (some b'S', some b's')
kind_marks (sent_to c) = (some b'S', some b'd')
kind_marks (relayed_to c) = (some b'R', some b'g')
kind_marks (failed_to c) = (some b'F', some b'd')

marks-key_of : (t : Topic) → marks (key_of t) ≡ kind_marks t
unfolding sent_message_from_source_key sent_message_to_destination_key
    relayed_message_to_destination_key failed_relayed_message_to_destination_key
marks-key_of (sent_from c) = refl
marks-key_of (sent_to c) = refl
marks-key_of (relayed_to c) = refl
marks-key_of (failed_to c) = refl

same_marks : (a b : Topic) → key_of a ≡ key_of b → kind_marks a ≡ kind_marks b
same_marks a b e = sym (marks-key_of a) ∙ ap marks e ∙ marks-key_of b

-- Two publications share a key only if they are of the same kind and for the same chain, though
-- one kind of key has no colon before its chain id.
pub key_of_inj : (a b : Topic) → key_of a ≡ key_of b → a ≡ b
unfolding sent_message_from_source_key sent_message_to_destination_key
    relayed_message_to_destination_key failed_relayed_message_to_destination_key
key_of_inj (sent_from c) (sent_from d) e =
    ap sent_from (decimal_inj c d (append_cancel_left (codes "SentMessage:source:") _ _ e))
key_of_inj (sent_to c) (sent_to d) e =
    ap sent_to (decimal_inj c d (append_cancel_left (codes "SentMessage:destination:") _ _ e))
key_of_inj (relayed_to c) (relayed_to d) e =
    ap relayed_to (decimal_inj c d (append_cancel_left (codes "RelayedMessage:destination:") _ _ e))
key_of_inj (failed_to c) (failed_to d) e =
    ap failed_to
      (decimal_inj c d (append_cancel_left (codes "FailedRelayedMessage:destination") _ _ e))
key_of_inj a b e = ground (arith, same_marks a b e)
