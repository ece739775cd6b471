-- ===== src/Rpc/Messages.antt =====
-- The requests, the responses and their constructors (internal/rpc/rpc.go).
use cloud_sdk_go.Base.{
  String, Bool, true, false, Option, none, some, List, [], ◌∷◌, ℤ, pos, negsuc, Dict, Failure,
  message, because, error_text, Result, ok, ◌>>=◌, fail_if, context, str_eq, not,
}

abbrev pub json_rpc_version : String
json_rpc_version = "2.0"

abbrev pub result_status_success : String
result_status_success = "success"

pub data Method : Type 0 where
  open_ close_ consume_ publish_ : Method
  other_ : String → Method

pub record ConsumeParams : Type 0 where
  pub subscription_id : String
  pub consume_context : String

pub record PublishParams : Type 0 where
  pub msg_id : String
  pub stream : String
  pub payload : String
  pub headers : Dict String

-- What a request is built from: `controlParams`, `ConsumeParams` or `[]PublishParams`.
pub data Params : Type 0 where
  control : String → Params
  consume : ConsumeParams → Params
  publish : List PublishParams → Params

pub record Request : Type 0 where
  pub version : String
  pub id : String
  pub method : Method
  pub params : String

pub record RpcError : Type 0 where
  pub code : ℤ
  pub text : String
  pub extra : String

pub record Response : Type 0 where
  pub version : String
  pub id : String
  pub result : String
  pub error : RpcError

pub record ControlResult : Type 0 where
  pub status : String

pub record ConsumeMessage : Type 0 where
  pub msg_id : String
  pub payload : String
  pub headers : Dict String

pub record ConsumeResult : Type 0 where
  pub consume_context : String
  pub subscription_id : String
  pub messages : Dict (List ConsumeMessage)

pub record PublishResult : Type 0 where
  pub status : String
  pub msg_id : String
  pub method : Method

abbrev pub no_error : RpcError
no_error = record { code = pos 0; text = ""; extra = "" }

-- The encodings of github.com/goccy/go-json that the package calls. `none` is an error; the
-- marshalling of a result discards the error, so the text that stands then is a value too.
pub record Json : Type 0 where
  pub marshal_params : Params → Result String
  pub unmarshal_consume_params : String → Result ConsumeParams
  pub unmarshal_publish_params : String → Result (List PublishParams)
  pub marshal_request : Request → String
  pub unmarshal_request : String → Result Request
  pub marshal_response : Response → String
  pub unmarshal_response : String → Result Response
  pub marshal_control : ControlResult → String
  pub unmarshal_control : String → Result ControlResult
  pub marshal_consume : ConsumeResult → String
  pub unmarshal_consume : String → Result ConsumeResult
  pub marshal_publish : PublishResult → String
  pub unmarshal_publish : String → Result PublishResult

unfoldable pub new_error_response : String → Failure → Response
unfolding error_text
new_error_response id e = record {
  version = json_rpc_version;
  id = id;
  result = "";
  error = record { code = negsuc 32098; text = error_text e; extra = "" };
}

module _ (json : Json) where
  open json use {
    marshal_params, unmarshal_consume_params, unmarshal_publish_params, marshal_request,
    unmarshal_request, marshal_response, unmarshal_response, marshal_control, unmarshal_control,
    marshal_consume, unmarshal_consume, marshal_publish, unmarshal_publish,
  }

  unfoldable pub new_request_from_bytes : String → Result Request
  new_request_from_bytes payload = context "failed to unmarshal request" (unmarshal_request payload)

  -- `uuid` is the fresh id.
  unfoldable pub new_request : String → Method → Params → Result Request
  new_request uuid method params = marshal_params params >>= λ text.
      ok (record { version = json_rpc_version; id = uuid; method = method; params = text })

  unfoldable pub new_open_request : String → String → Result Request
  unfolding new_request
  new_open_request uuid client = new_request uuid Method.open_ (Params.control client)

  unfoldable pub new_close_request : String → String → Result Request
  unfolding new_request
  new_close_request uuid client = new_request uuid Method.close_ (Params.control client)

  unfoldable pub new_consume_request : String → String → String → Result Request
  unfolding new_request
  new_consume_request uuid sub_id consume_ctx =
      new_request uuid Method.consume_
        (Params.consume (record { subscription_id = sub_id; consume_context = consume_ctx }))

  unfoldable pub new_publish_request :
      String → String → String → Dict String → String → Result Request
  unfolding new_request
  new_publish_request uuid msg_uuid stream headers payload = new_request uuid Method.publish_ (
      Params.publish
        (record { msg_id = msg_uuid; stream = stream; payload = payload; headers = headers } ∷ []))

  unfoldable pub consume_params : Request → Result ConsumeParams
  consume_params req =
      context "failed to unmarshal consumer params" (unmarshal_consume_params req.params)

  unfoldable pub publish_params : Request → Result (List PublishParams)
  publish_params req =
      context "failed to unmarshal publish params" (unmarshal_publish_params req.params)

  unfoldable pub request_bytes : Request → String
  request_bytes req = marshal_request req

  unfoldable pub new_response_from_bytes : String → Result Response
  new_response_from_bytes payload = unmarshal_response payload

  unfoldable pub response_bytes : Response → String
  response_bytes resp = marshal_response resp

  unfoldable pub new_control_response : String → Bool → RpcError → Response
  new_control_response id true e = record {
    version = json_rpc_version;
    id = id;
    result = marshal_control (record { status = result_status_success });
    error = no_error;
  }
  new_control_response id false e = record {
    version = json_rpc_version;
    id = id;
    result = "";
    error = e;
  }

  unfoldable pub new_consume_response :
      String → String → String → String → List ConsumeMessage → Response
  new_consume_response id consume_ctx sub_id stream msgs = record {
    version = json_rpc_version;
    id = id;
    result = marshal_consume (record {
      consume_context = consume_ctx;
      subscription_id = sub_id;
      messages = (stream, msgs) ∷ [];
    });
    error = no_error;
  }

  -- The error argument is `nil` or an error.
  unfoldable pub new_publish_response : String → String → Option Failure → Response
  unfolding new_error_response
  new_publish_response id msg_id (some e) = new_error_response id e
  new_publish_response id msg_id none = record {
    version = json_rpc_version;
    id = id;
    result =
        marshal_publish
          (record { status = result_status_success; msg_id = msg_id; method = Method.publish_ });
    error = no_error;
  }

  unfoldable pub control_result : Response → Result ControlResult
  control_result resp =
      context "failed to unmarshal control result" (unmarshal_control resp.result) >>= λ r.
      fail_if (not (str_eq r.status result_status_success))
        (because "received unknown result" (message r.status))
      >>= λ _. ok r

  unfoldable pub consume_result : Response → Result ConsumeResult
  consume_result resp = context "failed to unmarshal consume result" (unmarshal_consume resp.result)

  unfoldable pub publish_result : Response → Result PublishResult
  publish_result resp = context "failed to unmarshal publish result" (unmarshal_publish resp.result)
