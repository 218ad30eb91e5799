-- ===== src/Interop/Types.antt =====
-- The data that the package interop reads: logs, headers and message identifiers
-- (bindings/crossl2inbox.go), its error values, and what it calls of go-ethereum. A hash or an
-- address is the number that its bytes spell, so the zero hash is 0.
use supersim.Prelude.{ℕ, ◌%◌, ◌^◌, ◌<◌, ◌≡◌, ◌≢◌, List, String, External, length}
use supersim.Prelude.Int.{ℤ}

-- `types.Log`, the fields that the program reads; `payload` is its `Data`.
pub record Log : Type 0 where
  pub address : ℕ
  pub topics : List ℕ
  pub payload : List ℕ
  pub block_number : ℕ
  pub tx_hash : ℕ
  pub index : ℕ

-- `types.Header`, the fields that the program reads.
pub record Header : Type 0 where
  pub number : ℤ
  pub time : ℕ

-- `bindings.Identifier`
pub record Identifier : Type 0 where
  pub origin : ℕ
  pub block_number : ℤ
  pub log_index : ℤ
  pub timestamp : ℤ
  pub chain_id : ℤ

-- The error values, a constructor to each `fmt.Errorf` and `errors.New`; a wrapped error is the
-- argument. `external` is an error of a library, by its text.
pub data Error : Type 0 where
  external : String → Error
  cannot_encode create_message_failed hash_failed store_failed : Error → Error
  message_not_found already_relayed unexpected_event_type : Error
  update_lifecycle_failed relayed_event_failed failed_relayed_event_failed : Error → Error
  get_block_failed get_identifier_failed : Error → Error
  handle_sent_failed handle_relayed_failed handle_failed_relayed_failed : Error → Error
  unexpected_event : ℕ → Error
  relay_failed_after : ℕ → Error → Error

-- What the package calls of go-ethereum and of the parsed ABIs, with the documented facts that the
-- proofs use.
pub record Ethlib : Type 0 where
  pub keccak256 : List ℕ → ℕ
  -- `Hash.Bytes`: 32 bytes, and different ones for different hashes
  pub hash_bytes : ℕ → List ℕ
  pub hash_bytes_length : (h : ℕ) → length (hash_bytes h) ≡ 32
  pub hash_bytes_inj : (h k : ℕ) → h < 2 ^ 256 → k < 2 ^ 256 → hash_bytes h ≡ hash_bytes k → h ≡ k
  -- `common.HexToAddress(hash.Hex())` crops the hash from the left
  pub hash_to_address : ℕ → ℕ
  pub hash_to_address_crops : (h : ℕ) → hash_to_address h ≡ h % 2 ^ 160
  -- `abi.Arguments.Pack` at the six arguments of a message
  pub pack_message : ℤ → ℤ → ℤ → ℕ → ℕ → List ℕ → External (List ℕ)
  -- `UnpackIntoInterface(event, "SentMessage", data)`: the sender and the message
  pub unpack_sent_message : List ℕ → External (ℕ × List ℕ)
  -- The `ID` of the events of the messenger, and of the inbox's ExecutingMessage
  pub sent_message_id : ℕ
  pub relayed_message_id : ℕ
  pub failed_relayed_message_id : ℕ
  pub executing_message_id : ℕ
  pub sent_ne_relayed : sent_message_id ≢ relayed_message_id
  pub sent_ne_failed_relayed : sent_message_id ≢ failed_relayed_message_id
  pub relayed_ne_failed_relayed : relayed_message_id ≢ failed_relayed_message_id
