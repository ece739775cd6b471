-- ===== src/Rpc/RoundTrip.antt =====
-- What arrives of a message that goes over the wire (internal/rpc/rpc.go).
use cloud_sdk_go.Base.{◌≡◌, arith, String, true, List, [], ◌∷◌, Dict, ok, ◌>>=◌}
use cloud_sdk_go.Rpc.Messages.{
  Json, Params, Request, RpcError, ConsumeMessage, ConsumeResult, ControlResult, PublishParams,
  result_status_success, new_response_from_bytes, response_bytes, new_consume_response,
  consume_result, new_control_response, control_result, new_request_from_bytes, request_bytes,
  new_publish_request, publish_params,
}

-- The broker's result for one stream.
abbrev pub one_stream : String → String → String → List ConsumeMessage → ConsumeResult
one_stream ctx sub stream msgs = record {
  consume_context = ctx;
  subscription_id = sub;
  messages = (stream, msgs) ∷ [];
}

-- A consume response that is encoded, sent, decoded and opened gives the context, the subscription
-- and the messages it was made of, if the JSON library decodes what it encodes.
pub consume_response-trip :
    (json : Json) (id ctx sub stream : String) (msgs : List ConsumeMessage)
    → let resp = new_consume_response json id ctx sub stream msgs in
      let res = one_stream ctx sub stream msgs in
      json.unmarshal_response (json.marshal_response resp) ≡ ok resp
      → json.unmarshal_consume (json.marshal_consume res) ≡ ok res
      → (new_response_from_bytes json (response_bytes json resp) >>= consume_result json) ≡ ok res
unfolding new_response_from_bytes response_bytes new_consume_response consume_result
consume_response-trip json id ctx sub stream msgs wire result = rw (wire, result)

-- A control response that is encoded, sent, decoded and opened reports success if it was made for
-- success, if the JSON library decodes what it encodes.
pub control_response-trip :
    (json : Json) (id : String) (e : RpcError)
    → let resp = new_control_response json id true e in
      let res : ControlResult = record { status = result_status_success } in
      json.unmarshal_response (json.marshal_response resp) ≡ ok resp
      → json.unmarshal_control (json.marshal_control res) ≡ ok res
      → (new_response_from_bytes json (response_bytes json resp) >>= control_result json) ≡ ok res
unfolding new_response_from_bytes response_bytes new_control_response control_result
control_response-trip json id e wire result = rw (wire, result)

-- A publish request that is made, encoded, sent and decoded has as its parameters the one message
-- that it was made for, if the JSON library decodes what it encodes.
pub publish_request-trip :
    (json : Json) (uuid msg_uuid stream payload text : String) (headers : Dict String)
    (req : Request)
    → let params : List PublishParams =
        record { msg_id = msg_uuid; stream = stream; payload = payload; headers = headers } ∷ [] in
      json.marshal_params (Params.publish params) ≡ ok text
      → json.unmarshal_publish_params text ≡ ok params
      → new_publish_request json uuid msg_uuid stream headers payload ≡ ok req
      → json.unmarshal_request (json.marshal_request req) ≡ ok req
      → (new_request_from_bytes json (request_bytes json req) >>= publish_params json) ≡ ok params
unfolding new_request_from_bytes request_bytes new_publish_request publish_params
publish_request-trip json uuid msg_uuid stream payload text headers req encoded decoded made wire =
    ground arith
