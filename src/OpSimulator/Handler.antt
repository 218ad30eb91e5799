-- ===== src/OpSimulator/Handler.antt =====
-- opsimulator/opsimulator.go, handler and forwardRPCRequest: the requests of a body are vetted and
-- passed on to the simulated chain one by one. `W` is the state of the world outside, which only a
-- forwarded request may change; simulations and queries read it.
pub mod Vetting
pub mod Replies
use text.Mathlib.Text.{◌==◌ as str_eq}
use supersim.Prelude.{
  ℕ, ◌==◌, ltb, not, if◌then◌else◌, Bool, List, [], ◌∷◌, String, Option, none, some, Result, ok,
  err, panic, External, returns, fails, from_external, map_err, ◌>>=◌, ◌>>◌, fail_if, or_panic,
  get_elem?, length,
}
use supersim.Interop.Types.{Log}
use supersim.OpSimulator.Check.{Simulator, CheckError, check_interop_invariants}
use supersim.OpSimulator.Json.{
  Raw, GoError, json, plain, JsonError, JsonRpcMessage, literal, of_check, ErrorText, vsn,
  invalid_params, to_json_error, error_response, Decoder, read_json_messages,
}

-- What a call of the chain's client comes back with.
pub data Reply : Type 0 where
  answers : Raw → Reply
  refuses : GoError → Reply

-- What the handler calls outside: encoding/json on parameters and responses, transactions, and the
-- clients of the chain.
pub record Backend (W Tx : Type 0) : Type 0 where
  pub decoder : Decoder
  pub unmarshal_bytes : Raw → External (List (List ℕ))
  pub unmarshal_params : Raw → External (List Raw)
  pub marshal_message : JsonRpcMessage → External (List ℕ)
  pub marshal_messages : List JsonRpcMessage → External (List ℕ)
  pub decode_tx : List ℕ → External Tx
  pub is_deposit : Tx → Bool
  -- `Chain.SimulatedLogs`, and what the interop check reads
  pub simulated_logs : W → Tx → External (List Log)
  pub simulator : W → Simulator
  -- `CallContext`: the error, or the raw result, and the world after the call
  pub call : W → String → List Raw → Reply × W

abbrev pub json_error : ErrorText → GoError
json_error t = json (record { code = invalid_params; message = t; details = none })

abbrev pub library_error : String → GoError
library_error e = plain e none none

-- What is written to the response: a status with a text, or the encoded responses.
pub data HttpResponse : Type 0 where
  bad_request internal_error : String → HttpResponse
  encoded : List ℕ → HttpResponse

abbrev encoded_or_error : External (List ℕ) → HttpResponse
encoded_or_error (returns enc) = encoded enc
encoded_or_error (fails e) = internal_error e

-- The result of a call as a response; `ID` is the request's.
abbrev pub response_of : JsonRpcMessage → Reply → Result GoError JsonRpcMessage
response_of req (answers r) =
    ok (record { version = vsn; id = req.id; method = ""; params = []; error = none; result = r })
response_of req (refuses e) = err (json (to_json_error e))

-- An error becomes the response at the request's place.
abbrev pub or_respond :
    {W : Type 0}
    → JsonRpcMessage
    → Result GoError JsonRpcMessage × W
    → Result GoError JsonRpcMessage × W
or_respond msg (ok r, w) = (ok r, w)
or_respond msg (err e, w) = (ok (error_response msg e), w)
or_respond msg (panic, w) = (panic, w)

module _ {W Tx : Type 0} (b : Backend W Tx) where
  -- The part of the loop's body for `eth_sendRawTransaction`: an error is sent back, and the
  -- request is not forwarded.
  unfoldable pub vet_raw_transaction : W → JsonRpcMessage → Result GoError (Unit {0})
  vet_raw_transaction w msg = do
    params ← from_external library_error (b.unmarshal_bytes msg.params)
    fail_if (not (length params == 1)) (json_error (literal "invalid request params"))
    raw_tx ← or_panic (get_elem? params 0)
    tx ← from_external library_error (b.decode_tx raw_tx)
    fail_if (b.is_deposit tx) (json_error (literal "cannot process deposit tx"))
    logs ← from_external (λ e. json_error (literal "failed tx simulation")) (b.simulated_logs w tx)
    map_err (λ e. json_error (of_check e)) (check_interop_invariants (b.simulator w) logs)

  unfoldable pub forward_rpc_request : JsonRpcMessage → W → Result GoError JsonRpcMessage × W
  forward_rpc_request req w =
      elim (if ltb 0 (length req.params) then b.unmarshal_params req.params else returns []) [
        | fails e ↦ (err (json_error (literal e)), w)
        | returns params ↦ let (r, w') = b.call w req.method params in (response_of req r, w')
      ]

  unfoldable pub handle_message : JsonRpcMessage → W → Result GoError JsonRpcMessage × W
  handle_message msg w =
      elim (if str_eq msg.method "eth_sendRawTransaction"
        then vet_raw_transaction w msg
        else ok tt) [
          | ok _ ↦ or_respond msg (forward_rpc_request msg w)
          | err e ↦ (ok (error_response msg e), w)
          | panic ↦ (panic, w)
        ]

  -- The loop over the requests; a nil request is dereferenced.
  unfoldable pub handle_messages :
      List (Option JsonRpcMessage) → W → Result GoError (List JsonRpcMessage) × W
  handle_messages [] w = (ok [], w)
  handle_messages (none ∷ rest) w = (panic, w)
  handle_messages (some msg ∷ rest) w =
      let (r, w') = handle_message msg w in
      elim r [
        | err e ↦ (err e, w')
        | panic ↦ (panic, w')
        | ok response ↦
            let (rs, w'') = handle_messages rest w' in
            (rs >>= λ responses. ok (response ∷ responses), w'')
      ]

  -- `json.Marshal(batchRes)` or `json.Marshal(batchRes[0])`
  unfoldable pub encode_responses : Bool → List JsonRpcMessage → Result GoError HttpResponse
  encode_responses is_batch responses =
      if is_batch then ok (encoded_or_error (b.marshal_messages responses)) else (do
        first ← or_panic (get_elem? responses 0)
        ok (encoded_or_error (b.marshal_message first)))

  -- The handler on a request's body; a panic is left to the HTTP server.
  unfoldable pub handle : List ℕ → W → Result GoError HttpResponse × W
  unfolding read_json_messages
  handle body w = elim (read_json_messages b.decoder body) [
    | err e ↦ (ok (bad_request e), w)
    | panic ↦ (panic, w)
    | ok found ↦ let (rs, w') = handle_messages found.0 w in (rs >>= encode_responses found.1, w')
  ]
