-- ===== src/Interop/TestData.antt =====
-- A small library for the tests, and logs of the messenger: chain 901 sends to chain 902.
use native.Mathlib.Nat.{pow-succ'}
use supersim.Prelude.{
  ℕ, zero, suc, ◌+◌, ◌*◌, ◌/◌, ◌%◌, ◌^◌, ◌<◌, ◌≡◌, refl, List, [], ◌∷◌, ◌++◌, External, returns,
  fails, arith, length, length-append, some,
}
use supersim.Prelude.Int.{ℤ, pos, negsuc}
use supersim.Interop.Types.{Log, Identifier, Ethlib}
use supersim.Interop.Message.{L2ToL2Message}
use supersim.Interop.Message.Payload.{append-inj}
use supersim.Interop.Store.{Entry}
use supersim.Interop.Indexer.{Indexer, ChainReader}

-- The `n` low bytes, the highest first.
abbrev pub bytes : ℕ → ℕ → List ℕ
bytes zero h = []
bytes (suc n) h = bytes n (h / 256) ++ h % 256 ∷ []

pub length-bytes : (n h : ℕ) → length (bytes n h) ≡ n
length-bytes zero h = refl
length-bytes (suc n) h =
    omega (arith, length-append (bytes n (h / 256)) (h % 256 ∷ []), length-bytes n (h / 256))

pub bytes_inj : (n h k : ℕ) → h < 256 ^ n → k < 256 ^ n → bytes n h ≡ bytes n k → h ≡ k
bytes_inj zero h k hh hk e = omega arith
bytes_inj (suc n) h k hh hk e =
    let (low, high) =
      append-inj (bytes n (h / 256)) (bytes n (k / 256)) (h % 256 ∷ []) (k % 256 ∷ [])
        (omega (arith, length-bytes n (h / 256), length-bytes n (k / 256))) e in
    let same =
      bytes_inj n (h / 256) (k / 256) (omega (arith, pow-succ' 256 n))
        (omega (arith, pow-succ' 256 n)) low in
    ground (arith, same)

abbrev pub checksum : List ℕ → ℕ
checksum [] = 7
checksum (b ∷ bs) = (31 * checksum bs + b) % 1_000_003

abbrev pub magnitude : ℤ → ℕ
magnitude (pos n) = n
magnitude (negsuc n) = suc n

abbrev pub unpack : List ℕ → External (ℕ × List ℕ)
unpack [] = fails "no data"
unpack (sender ∷ message) = returns (sender, message)

abbrev pub small_lib : Ethlib
small_lib = record {
  keccak256 = checksum;
  hash_bytes = bytes 32;
  hash_bytes_length = length-bytes 32;
  hash_bytes_inj = λ h k hh hk e. bytes_inj 32 h k hh hk e;
  hash_to_address = λ h. h % 2 ^ 160;
  hash_to_address_crops = λ h. refl;
  pack_message = λ d s n sender target message.
      returns (magnitude d ∷ magnitude s ∷ magnitude n ∷ sender ∷ target ∷ message);
  unpack_sent_message = unpack;
  sent_message_id = 1;
  relayed_message_id = 2;
  failed_relayed_message_id = 3;
  executing_message_id = 4;
  sent_ne_relayed = λ e. omega arith;
  sent_ne_failed_relayed = λ e. omega arith;
  relayed_ne_failed_relayed = λ e. omega arith;
}

abbrev pub log_of : List ℕ → List ℕ → ℕ → Log
log_of topics payload tx_hash = record {
  address = 23;
  topics = topics;
  payload = payload;
  block_number = 10;
  tx_hash = tx_hash;
  index = 0;
}

-- Message 5 from chain 901 to target 77 on chain 902, as its sender 9 sent it.
abbrev pub sent_log : Log
sent_log = log_of (1 ∷ 902 ∷ 77 ∷ 5 ∷ []) (9 ∷ 1 ∷ 2 ∷ []) 100

abbrev pub message_5 : L2ToL2Message
message_5 = record {
  destination = 902;
  source = 901;
  nonce = pos 5;
  sender = 9;
  target = 77;
  message = 1 ∷ 2 ∷ [];
}

abbrev pub hash_5 : ℕ
hash_5 = checksum (902 ∷ 901 ∷ 5 ∷ 9 ∷ 77 ∷ 1 ∷ 2 ∷ [])

abbrev pub relayed_log : ℕ → Log
relayed_log tx_hash = log_of (2 ∷ 901 ∷ 5 ∷ hash_5 ∷ []) [] tx_hash

abbrev pub failed_log : ℕ → Log
failed_log tx_hash = log_of (3 ∷ 901 ∷ 5 ∷ hash_5 ∷ []) [] tx_hash

abbrev pub identifier_5 : Identifier
identifier_5 = record {
  origin = 23;
  block_number = pos 10;
  log_index = pos 0;
  timestamp = pos 2_000;
  chain_id = pos 901;
}

abbrev pub entry_5 : Entry
entry_5 = record {
  message = message_5;
  identifier = some identifier_5;
  log = some sent_log;
  lifecycle = record { sent_tx_hash = 100; failed_tx_hashes = []; relayed_tx_hash = 0 };
}

abbrev pub reader : ChainReader
reader n = returns (record { number = n; time = 2_000 })

abbrev pub empty_indexer : Indexer
empty_indexer = record { store = record { entry_by_hash = [] }; published = [] }

abbrev pub stored_indexer : Indexer
stored_indexer = record {
  store = record { entry_by_hash = (hash_5, entry_5) ∷ [] };
  published = [];
}
