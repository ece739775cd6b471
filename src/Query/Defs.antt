-- ===== src/Query/Defs.antt =====
-- `Query` of a device (api.go).
use cloud_sdk_go.Base.{
  ℕ, ◌*◌, String, ◌&&◌, Option, none, some, List, [], ◌∷◌, ◌++◌, length, take, drop, min, ltb, ◌==◌,
  str_eq, is_empty, if◌then◌else◌, Failure, message, Result, ok, err, ◌>>=◌,
}
use cloud_sdk_go.App.Linking.{Outcome, panics, returns}
use cloud_sdk_go.Query.Types.{
  Envelop, CreateMultipartResponse, QueryResponse, failed, replied, Poll, cancelled, polled, Limits,
  Body, Request, Response, Proxy,
}
use cloud_sdk_go.Query.Upload.{upload_multipart, upload_single}

abbrev pub request_envelop : Request → Envelop
request_envelop r = record {
  method = r.method;
  url = r.url;
  headers = r.headers;
  object_url = "";
  body = "";
  query_id = "";
}

abbrev pub no_client : Failure
no_client = message "Failed to find the client for region"

-- The one `Read` of the body: what it returns, and the bytes that the reader has left.
unfoldable pub read_payload : Limits → Option Body → Result (List ℕ × List ℕ)
read_payload limits none = ok ([], [])
read_payload limits (some b) = elim b.first_error [
  | some e ↦ err e
  | none ↦ let n = min b.first limits.request_body_max in ok (take n b.bytes, drop n b.bytes)
]

-- Where a large body goes: the parts' URLs with the query's id, or a single object's URL.
pub data Target : Type 0 where
  multipart : CreateMultipartResponse → Target
  single : String → Target

-- The multipart object, and if the device does not know it the single one.
unfoldable pub create_target : Proxy → Result Target
create_target p = elim p.create_multipart [
  | failed e ↦ err e
  | replied status m ↦
      if status == 404
      then elim p.create_object [
        | failed e ↦ err e
        | replied status' url ↦
            if status' == 404
            then err (message "payload too large for this device")
            else if status' == 200
            then ok (if is_empty m.query_id then single url else multipart m)
            else err (message "failed to create object")
      ]
      else if status == 200
      then ok (if is_empty m.query_id then single "" else multipart m)
      else err (message "failed to create object")
]

-- The envelope of a large body, uploaded.
unfoldable pub store_body :
    Limits → Proxy → Envelop → Option Failure → List ℕ → Target → Outcome (Result Envelop)
store_body limits p env e bytes (multipart m) =
    elim (upload_multipart limits p.upload_part m.object_urls e bytes) [
      | panics ↦ panics
      | returns (err x) ↦ returns (err x)
      | returns (ok _) ↦ returns (ok (record env { query_id = m.query_id }))
    ]
store_body limits p env e bytes (single url) =
    returns (
      upload_single limits p.upload_object url e bytes >>= λ _.
      ok (record env { object_url = url }))

abbrev rest_error : Option Body → Option Failure
rest_error none = none
rest_error (some b) = b.rest_error

-- The envelope for the body: inline if the first read did not fill the buffer.
unfoldable pub prepare : Limits → Proxy → Request → List ℕ → List ℕ → Outcome (Result Envelop)
unfolding create_target store_body
prepare limits p r payload rest =
    let env = request_envelop r in
    if length payload == limits.request_body_max
    then (if p.has_client
        then elim (create_target p) [
          | err e ↦ returns (err e)
          | ok target ↦ store_body limits p env (rest_error r.body) (payload ++ rest) target
        ]
        else returns (err no_client))
    else returns (ok (record env { body = p.encode payload }))

-- The next pause between two polls.
unfoldable pub next_pause : Limits → ℕ → ℕ
next_pause limits pause =
    if ltb pause limits.status_poll_time_max
    then (if ltb limits.status_poll_time_max (pause * 2)
        then limits.status_poll_time_max
        else pause * 2)
    else pause

-- The loop of the polls: the pauses that it makes, and the last response. `none` means that the
-- query runs on after all the polls that are given.
unfoldable pub poll_status :
    Limits → ℕ → List Poll → QueryResponse → List ℕ × Option (Result QueryResponse)
unfolding next_pause
poll_status limits pause [] resp =
    if str_eq resp.status "RUNNING" then ([], none) else ([], some (ok resp))
poll_status limits pause (cancelled e ∷ polls) resp =
    if str_eq resp.status "RUNNING" then (pause ∷ [], some (err e)) else ([], some (ok resp))
poll_status limits pause (polled (failed e) ∷ polls) resp =
    if str_eq resp.status "RUNNING" then (pause ∷ [], some (err e)) else ([], some (ok resp))
poll_status limits pause (polled (replied status new) ∷ polls) resp =
    let (pauses, end) = poll_status limits (next_pause limits pause) polls new in
    if str_eq resp.status "RUNNING"
    then (if status == 200
        then (pause ∷ pauses, end)
        else (pause ∷ [], some (err (message "request error"))))
    else ([], some (ok resp))

-- The body of the response: an object to download, or the text itself. The status of the
-- download is not looked at: the test reads the status of the query's last reply, which is 200.
unfoldable pub response_body : Proxy → QueryResponse → Result (List ℕ)
response_body p resp =
    if is_empty resp.object_url
    then p.decode resp.body
    else elim (p.download resp.object_url) [ failed e ↦ err e | replied status bytes ↦ ok bytes ]

unfoldable pub finish : Proxy → Result QueryResponse → Result Response
unfolding response_body
finish p (err e) = err e
finish p (ok resp) = response_body p resp >>= λ bytes.
    ok (record { status_code = resp.code; headers = resp.headers; body = bytes })

-- The query itself, for an envelope that is ready; `plain` is the request without its body.
unfoldable pub run_query : Limits → Proxy → Envelop → List ℕ → Envelop → Option (Result Response)
unfolding finish
run_query limits p plain payload env = elim (p.query env) [
  | failed e ↦ some (err e)
  | replied status resp ↦
      if (status == 404) && ltb (length payload) limits.request_body_max
      then some (p.fallback plain payload)
      else if status == 200
      then elim (poll_status limits limits.status_poll_time_min p.polls resp).1 [
        | none ↦ none
        | some last ↦ some (finish p last)
      ]
      else some (err (message "failed to query"))
]

unfoldable pub query : Limits → Proxy → Request → Outcome (Option (Result Response))
unfolding read_payload
query limits p r = elim (read_payload limits r.body) [
  | err e ↦ returns (some (err e))
  | ok (payload, rest) ↦ elim (prepare limits p r payload rest) [
    | panics ↦ panics
    | returns (err e) ↦ returns (some (err e))
    | returns (ok env) ↦ returns (
        if p.has_client
        then run_query limits p (request_envelop r) payload env
        else some (err no_client))
  ]
]
