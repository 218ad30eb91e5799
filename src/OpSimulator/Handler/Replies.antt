-- ===== src/OpSimulator/Handler/Replies.antt =====
-- The responses to the requests of one body.
use supersim.Prelude.{
  ◌≡◌, ◌⊎◌, ◌++◌, refl, List, [], ◌∷◌, Option, some, none, ok, panic, map, arith, inl, inr,
  Result-cases, length, if◌then◌else◌, External-cases, ltb, returns,
}
use text.Mathlib.Text.{◌==◌ as str_eq}
use supersim.OpSimulator.Json.{
  Raw, GoError, json, literal, JsonRpcMessage, vsn, to_json_error, error_response,
}
use supersim.OpSimulator.Handler.{
  Backend, vet_raw_transaction, forward_rpc_request, or_respond, json_error, Reply, answers,
  refuses, handle_message, handle_messages,
}
use supersim.OpSimulator.Handler.Vetting.{vet-ne-panic}

Reply-cases : (r : Reply) → ((a : Raw) × (r ≡ answers a)) ⊎ ((e : GoError) × (r ≡ refuses e))
Reply-cases (answers a) = inl (a, refl)
Reply-cases (refuses e) = inr (e, refl)

-- A response fits its request: the version, and the request's id.
abbrev pub Fits : JsonRpcMessage → JsonRpcMessage → Type 0
Fits msg r = (r.version ≡ vsn) × (r.id ≡ msg.id)

-- A response for each request, in the order of the requests.
abbrev pub AllFit : List JsonRpcMessage → List JsonRpcMessage → Type 0
AllFit [] [] = Unit
AllFit [] (r ∷ rs) = ⊥
AllFit (m ∷ ms) [] = ⊥
AllFit (m ∷ ms) (r ∷ rs) = Fits m r × AllFit ms rs

module _ {W Tx : Type 0} (b : Backend W Tx) where
  forward-Fits :
      (msg : JsonRpcMessage) (w : W)
      → (r : JsonRpcMessage) × (w' : W) × (or_respond msg (forward_rpc_request b msg w)
          ≡ (ok r, w'))
        × Fits msg r
  unfolding forward_rpc_request error_response
  forward-Fits msg w =
      elim (External-cases
        (if ltb 0 (length msg.params) then b.unmarshal_params msg.params else returns [])) [
          | inr (e, q) ↦
              (error_response msg (json_error (literal e)), w, ground arith, (refl, refl))
          | inl (ps, q) ↦ elim (Reply-cases (b.call w msg.method ps).0) [
            | inl (r, p) ↦ (
              record {
                version = vsn;
                id = msg.id;
                method = "";
                params = [];
                error = none;
                result = r;
              },
              (b.call w msg.method ps).1,
              ground arith,
              (refl, refl),
            )
            | inr (e, p) ↦ (
              error_response msg (json (to_json_error e)),
              (b.call w msg.method ps).1,
              ground arith,
              (refl, refl),
            )
          ]
        ]

  -- Every request is answered, also where vetting, decoding or the call fails, and the answer
  -- carries its id.
  handle_message-Fits :
      (msg : JsonRpcMessage) (w : W)
      → (r : JsonRpcMessage) × (w' : W) × (handle_message b msg w ≡ (ok r, w')) × Fits msg r
  unfolding handle_message error_response
  handle_message-Fits msg w =
      let (r, w', q, f) = forward-Fits msg w in
      elim (Result-cases (
        if str_eq msg.method "eth_sendRawTransaction"
        then vet_raw_transaction b w msg
        else ok tt)) [
          | inl (a, p) ↦ (r, w', ground arith, f)
          | inr (inl (e, p)) ↦ (error_response msg e, w, ground arith, (refl, refl))
          | inr (inr p) ↦ absurd (ground (arith, vet-ne-panic b w msg))
        ]

  -- Where no request is a JSON null, the loop ends with one response to each request, in the order
  -- of the requests, and each has the version 2.0 and the id of its request.
  pub handle_messages-fit :
      (msgs : List JsonRpcMessage) (w : W)
      → (rs : List JsonRpcMessage) × (w' : W) × (handle_messages b (map some msgs) w ≡ (ok rs, w'))
        × AllFit msgs rs
  unfolding handle_messages
  handle_messages-fit [] w = ([], w, refl, tt)
  handle_messages-fit (msg ∷ msgs) w =
      let (r, w', q, f) = handle_message-Fits msg w in
      let (rs, w'', qs, fs) = handle_messages-fit msgs w' in (r ∷ rs, w'', ground arith, (f, fs))

  -- A JSON null among the requests is a nil pointer, which panics when its turn comes: nothing is
  -- answered, though the requests before it have been passed on.
  pub handle_messages-null :
      (msgs : List JsonRpcMessage) (rest : List (Option JsonRpcMessage)) (w : W)
      → handle_messages b (map some msgs ++ none ∷ rest) w
        ≡ (panic, (handle_messages b (map some msgs) w).1)
  unfolding handle_messages
  handle_messages-null [] rest w = refl
  handle_messages-null (msg ∷ msgs) rest w =
      let (r, w', q, f) = handle_message-Fits msg w in
      let ih = handle_messages-null msgs rest w' in ground arith
