-- ===== src/OpSimulator/Json.antt =====
-- opsimulator/json.go: the messages of JSON-RPC and its errors. encoding/json is a parameter; a raw
-- message is its bytes, empty where the field is absent.
pub mod Batch
use supersim.Prelude.{
  ℕ, ◌==◌, Bool, true, false, ◌||◌, if◌then◌else◌, List, [], ◌∷◌, String, Option, none, some,
  Result, ok, External, from_external, map_err, ◌>>=◌,
}
use supersim.Prelude.Int.{ℤ, negsuc}
use supersim.OpSimulator.Check.{CheckError}

abbrev pub Raw : Type 0
Raw = List ℕ

-- The text of an error: given, or formatted by checkInteropInvariants.
pub data ErrorText : Type 0 where
  literal : String → ErrorText
  of_check : CheckError → ErrorText

-- `jsonError`
pub record JsonError : Type 0 where
  pub code : ℤ
  pub message : ErrorText
  pub details : Option String

-- An `error` value: a `*jsonError`, or another one with its text, the `ErrorCode` if it is an
-- `rpc.Error`, and the `ErrorData` if it is an `rpc.DataError`.
pub data GoError : Type 0 where
  json : JsonError → GoError
  plain : String → Option ℤ → Option String → GoError

-- `jsonRpcMessage`
pub record JsonRpcMessage : Type 0 where
  pub version : String
  pub id : Raw
  pub method : String
  pub params : Raw
  pub error : Option JsonError
  pub result : Raw

abbrev pub vsn : String
vsn = "2.0"

abbrev pub errcode_default : ℤ
errcode_default = negsuc 31999

-- `InvalidParams`
abbrev pub invalid_params : ℤ
invalid_params = negsuc 32601

abbrev code_or : Option ℤ → ℤ → ℤ
code_or none d = d
code_or (some c) d = c

unfoldable pub to_json_error : GoError → JsonError
to_json_error (json je) = je
to_json_error (plain t code details) = record {
  code = code_or code errcode_default;
  message = literal t;
  details = details;
}

unfoldable pub error_response : JsonRpcMessage → GoError → JsonRpcMessage
unfolding to_json_error
error_response msg e = record {
  version = vsn;
  id = msg.id;
  method = "";
  params = [];
  error = some (to_json_error e);
  result = [];
}

abbrev pub is_space : ℕ → Bool
is_space c = c == 0x20 || c == 0x09 || c == 0x0a || c == 0x0d

unfoldable pub is_json_rpc_batch : Raw → Bool
is_json_rpc_batch [] = false
is_json_rpc_batch (c ∷ raw) =
    let rest = is_json_rpc_batch raw in if is_space c then rest else c == b'['

-- What the package calls of encoding/json on a request: the first value of a body, and that value
-- as a message or as a list of them. A JSON `null` sets the pointer to nil.
pub record Decoder : Type 0 where
  pub decode : List ℕ → External Raw
  pub unmarshal_message : Raw → External (Option JsonRpcMessage)
  pub unmarshal_messages : Raw → External (List (Option JsonRpcMessage))

unfoldable pub read_json_messages :
    Decoder → List ℕ → Result String (List (Option JsonRpcMessage) × Bool)
unfolding is_json_rpc_batch
read_json_messages dec body = do
  raw ← from_external (λ e. e) (dec.decode body)
  if is_json_rpc_batch raw
      then (do msgs ← from_external (λ e. e) (dec.unmarshal_messages raw); ok (msgs, true))
      else (do msg ← from_external (λ e. e) (dec.unmarshal_message raw); ok (msg ∷ [], false))
