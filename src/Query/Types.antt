-- ===== src/Query/Types.antt =====
-- The messages of the API proxy, and what a query depends on (api.go).
--
-- Requests go through resty, which is not part of the repository: `Proxy` holds the replies of the
-- cloud. A body is a list of bytes.
use cloud_sdk_go.Base.{ℕ, String, Bool, Option, List, Dict, Failure, Result}

pub record Envelop : Type 0 where
  pub method : String
  pub url : String
  pub headers : Dict (List String)
  pub object_url : String
  pub body : String
  pub query_id : String

pub record CreateMultipartResponse : Type 0 where
  pub object_urls : List String
  pub query_id : String

pub record QueryResponse : Type 0 where
  pub id : String
  pub status : String
  pub code : ℕ
  pub headers : Dict (List String)
  pub object_url : String
  pub body : String

-- A transport error, or a status code with the decoded result (the zero value if there is none).
pub data HttpReply {ℓ} (A : Type ℓ) : Type ℓ where
  failed : Failure → HttpReply A
  replied : (status : ℕ) → A → HttpReply A

-- What a poll meets: the request's context is done, or the cloud replies. The result is decoded
-- into the response of the poll before, so it holds the fields that the reply leaves out too.
pub data Poll : Type 0 where
  cancelled : Failure → Poll
  polled : HttpReply QueryResponse → Poll

-- The package's variables, which an application may change.
pub record Limits : Type 0 where
  pub request_body_max : ℕ
  pub request_object_max : ℕ
  pub multipart_request_object_max : ℕ
  pub part_size : ℕ
  pub status_poll_time_min : ℕ
  pub status_poll_time_max : ℕ

-- The defaults; times are nanoseconds.
abbrev pub default_limits : Limits
default_limits = record {
  request_body_max = 307200;
  request_object_max = 104857600;
  multipart_request_object_max = 2147483648;
  part_size = 52428800;
  status_poll_time_min = 500000000;
  status_poll_time_max = 15000000000;
}

-- The body of a request. The first `Read` into a buffer returns at most `first` bytes, and an
-- error is one that is not the end of the text.
pub record Body : Type 0 where
  pub bytes : List ℕ
  pub first : ℕ
  pub first_error : Option Failure
  pub rest_error : Option Failure

pub record Request : Type 0 where
  pub method : String
  pub url : String
  pub headers : Dict (List String)
  pub body : Option Body

pub record Response : Type 0 where
  pub status_code : ℕ
  pub headers : Dict (List String)
  pub body : List ℕ

-- `fallback` is the request in the old style, by method, URL and headers (`fallbackQuery`); of the
-- envelope it is given no more than those.
pub record Proxy : Type 0 where
  pub has_client : Bool
  pub create_multipart : HttpReply CreateMultipartResponse
  pub create_object : HttpReply String
  pub upload_part : ℕ → String → List ℕ → HttpReply (Unit {0})
  pub upload_object : String → List ℕ → HttpReply (Unit {0})
  pub query : Envelop → HttpReply QueryResponse
  pub polls : List Poll
  pub download : String → HttpReply (List ℕ)
  pub fallback : Envelop → List ℕ → Result Response
  pub encode : List ℕ → String
  pub decode : String → Result (List ℕ)
