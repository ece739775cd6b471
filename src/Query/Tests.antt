-- ===== src/Query/Tests.antt =====
-- Instances of the theorems on queries, with a cloud that has its answer at once, and tests.
use cloud_sdk_go.Base.{
  ℕ, ◌≡◌, refl, String, true, none, some, List, [], ◌∷◌, All, arith, message, ok, err,
}
use cloud_sdk_go.App.Linking.{returns}
use cloud_sdk_go.Query.Types.{
  QueryResponse, failed, replied, Poll, polled, Limits, Body, Request, Proxy,
}
use cloud_sdk_go.Query.Upload.{read_part, read_parts}
use cloud_sdk_go.Query.Defs.{next_pause, poll_status, query}
use cloud_sdk_go.Query.Parts.{join, IsPart, read_parts-join}
use cloud_sdk_go.Query.Bodies.{query_truncates, query_download_any_status}

abbrev small_limits : Limits
small_limits = record {
  request_body_max = 4;
  request_object_max = 6;
  multipart_request_object_max = 7;
  part_size = 3;
  status_poll_time_min = 2;
  status_poll_time_max = 7;
}

abbrev with_status : String → String → QueryResponse
with_status status object_url = record {
  id = "q";
  status = status;
  code = 201;
  headers = [];
  object_url = object_url;
  body = "done";
}

abbrev cloud : QueryResponse → Proxy
cloud resp = record {
  has_client = true;
  create_multipart = failed (message "unused");
  create_object = failed (message "unused");
  upload_part = λ i url part. replied 200 tt;
  upload_object = λ url bytes. replied 200 tt;
  query = λ env. replied 200 resp;
  polls = [];
  download = λ url. replied 500 (9 ∷ []);
  fallback = λ env payload. err (message "unused");
  encode = λ bytes. "encoded";
  decode = λ text. ok (7 ∷ 8 ∷ []);
}

abbrev request : Request
request = record { method = "POST"; url = "/x"; headers = []; body = none }

abbrev short_body : Body
short_body = record { bytes = 1 ∷ 2 ∷ []; first = 2; first_error = none; rest_error = none }

-- A reader that gives two bytes of three at its first read.
abbrev split_body : Body
split_body = record { bytes = 1 ∷ 2 ∷ 3 ∷ []; first = 2; first_error = none; rest_error = none }

abbrev bytes : List ℕ
bytes = 1 ∷ 2 ∷ 3 ∷ 4 ∷ 5 ∷ []

three_parts : (read_parts small_limits 6 none 0 bytes).0 ≡ (1 ∷ 2 ∷ 3 ∷ []) ∷ (4 ∷ 5 ∷ []) ∷ []
unfolding read_parts read_part
three_parts = refl

read_parts-join_example :
    let (parts, end) = read_parts small_limits 6 none 0 bytes in
    (end ≡ ok tt) × (join parts ≡ bytes) × All (IsPart 3) parts
read_parts-join_example =
    read_parts-join small_limits (omega arith) 6 0 bytes (omega arith) (omega arith)

abbrev running : QueryResponse
running = with_status "RUNNING" ""

abbrev polls : List Poll
polls =
    polled (replied 200 running)
    ∷ polled (replied 200 running)
    ∷ polled (replied 200 (with_status "SUCCESS" ""))
    ∷ polled (failed (message "unused"))
    ∷ []

pauses : (poll_status small_limits 2 polls running).0 ≡ 2 ∷ 4 ∷ 7 ∷ []
unfolding poll_status next_pause
pauses = refl

query_truncates_example :
    query small_limits
      (cloud (with_status "SUCCESS" ""))
      (record request { body = some split_body })
    ≡ query small_limits
        (cloud (with_status "SUCCESS" ""))
        (record request { body = some short_body })
query_truncates_example =
    query_truncates small_limits (cloud (with_status "SUCCESS" "")) request split_body (omega arith)

query_download_any_status_example :
    query small_limits
      (cloud (with_status "SUCCESS" "u"))
      (record request { body = some short_body })
    ≡ returns (some (ok (record { status_code = 201; headers = []; body = 9 ∷ [] })))
query_download_any_status_example =
    query_download_any_status small_limits (cloud (with_status "SUCCESS" "u")) request short_body
      (with_status "SUCCESS" "u") 500 (9 ∷ []) (omega arith) refl refl refl refl refl refl refl
