-- ===== src/Rpc/Tests.antt =====
-- A JSON library that knows one message of each kind, for the tests.
use cloud_sdk_go.Base.{String, List, [], ◌∷◌, message, ok, err}
use cloud_sdk_go.Rpc.Messages.{
  Json, Method, PublishParams, Request, Response, ControlResult, ConsumeMessage, ConsumeResult,
  no_error, json_rpc_version, result_status_success,
}
use cloud_sdk_go.Rpc.RoundTrip.{one_stream}

abbrev messages : List ConsumeMessage
messages = record { msg_id = "m1"; payload = "p"; headers = [] } ∷ []

abbrev result : ConsumeResult
result = one_stream "c1" "s1" "stream" messages

abbrev success : ControlResult
success = record { status = result_status_success }

abbrev published : List PublishParams
published = record { msg_id = "u2"; stream = "stream"; payload = "p"; headers = [] } ∷ []

abbrev pub request : Request
request = record {
  version = json_rpc_version;
  id = "u1";
  method = Method.publish_;
  params = "params";
}

abbrev response : String → Response
response text = record { version = json_rpc_version; id = "r1"; result = text; error = no_error }

abbrev pub json : String → Json
json text = record {
  marshal_params = λ p. ok "params";
  unmarshal_consume_params = λ s. err (message "unused");
  unmarshal_publish_params = λ s. ok published;
  marshal_request = λ r. "request";
  unmarshal_request = λ s. ok request;
  marshal_response = λ r. "response";
  unmarshal_response = λ s. ok (response text);
  marshal_control = λ r. "control";
  unmarshal_control = λ s. ok success;
  marshal_consume = λ r. "consume";
  unmarshal_consume = λ s. ok result;
  marshal_publish = λ r. "publish";
  unmarshal_publish = λ s. err (message "unused");
}
