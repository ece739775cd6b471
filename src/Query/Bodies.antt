-- ===== src/Query/Bodies.antt =====
-- What is sent and what comes back.
use cloud_sdk_go.Base.{
  ℕ, ◌<◌, ◌≡◌, refl, sym, ap, ◌∙◌, inl, inr, Option-cases, true, false, Option, none, some, List,
  [], ◌∷◌, arith, length, take, drop, min, str_eq, is_empty, Result, ok, err, if◌then◌else◌, zero,
  suc,
}
use cloud_sdk_go.App.Linking.{Outcome, returns}
use cloud_sdk_go.Query.Types.{
  Envelop, QueryResponse, failed, replied, Poll, cancelled, polled, Limits, Body, Request, Response,
  Proxy,
}
use cloud_sdk_go.Query.Defs.{
  request_envelop, no_client, prepare, run_query, poll_status, response_body, finish, query,
}

length-take-min : (n : ℕ) (xs : List ℕ) → length (take n xs) ≡ min n (length xs)
length-take-min zero xs = omega arith
length-take-min (suc n) [] = omega arith
length-take-min (suc n) (x ∷ xs) = omega (arith, length-take-min n xs)

take-take : (n : ℕ) (xs : List ℕ) → take n (take n xs) ≡ take n xs
take-take zero xs = refl
take-take (suc n) [] = refl
take-take (suc n) (x ∷ xs) = ap (λ ys. x ∷ ys) (take-take n xs)

-- The answer to a request whose first read of the body does not fill the buffer.
abbrev inline_answer : Limits → Proxy → Request → List ℕ → Outcome (Option (Result Response))
inline_answer limits p r payload =
    let env = request_envelop r in
    returns (
      if p.has_client
      then run_query limits p env payload (record env { body = p.encode payload })
      else some (err no_client))

prepare_inline :
    (limits : Limits) (p : Proxy) (r : Request) (payload rest : List ℕ)
    → length payload < limits.request_body_max
    → prepare limits p r payload rest
      ≡ returns (ok (record (request_envelop r) { body = p.encode payload }))
unfolding prepare
prepare_inline limits p r payload rest h = ground arith

query_inline :
    (limits : Limits) (p : Proxy) (r : Request) (b : Body)
    → b.first < limits.request_body_max
    → b.first_error ≡ none
    → query limits p (record r { body = some b }) ≡ inline_answer limits p r (take b.first b.bytes)
unfolding query
query_inline limits p r b h e =
    let n : min b.first limits.request_body_max ≡ b.first = omega arith in
    let r' : Request = record r { body = some b } in
    let payload = take b.first b.bytes in
    let rest = drop b.first b.bytes in
    let l = length-take-min b.first b.bytes in
    rw (e, query, n, prepare_inline limits p r' payload rest (omega arith), n)

-- A request whose body's first read returns fewer bytes than the buffer holds is answered exactly
-- as one whose body ends after those bytes: what is left of the body is not sent.
pub query_truncates :
    (limits : Limits) (p : Proxy) (r : Request) (b : Body)
    → b.first < limits.request_body_max
    → query limits p (record r { body = some b })
      ≡ query limits p (record r { body = some (record b { bytes = take b.first b.bytes }) })
query_truncates limits p r b h = elim (Option-cases b.first_error) [
  | inl e ↦
      let short : Body = record b { bytes = take b.first b.bytes } in
      query_inline limits p r b h e
      ∙ ap (inline_answer limits p r) (sym (take-take b.first b.bytes))
      ∙ sym (query_inline limits p r short h e)
  | inr (x, e) ↦ unfold query in rw (e, query)
]

poll_done :
    (limits : Limits) (pause : ℕ) (polls : List Poll) (resp : QueryResponse)
    → str_eq resp.status "RUNNING" ≡ false
    → poll_status limits pause polls resp ≡ ([], some (ok resp))
unfolding poll_status
poll_done limits pause [] resp h = rw h
poll_done limits pause (cancelled e ∷ polls) resp h = rw h
poll_done limits pause (polled (failed e) ∷ polls) resp h = rw h
poll_done limits pause (polled (replied status new) ∷ polls) resp h = rw h

answered :
    (limits : Limits) (p : Proxy) (plain : Envelop) (payload : List ℕ) (resp : QueryResponse)
    (bytes : List ℕ)
    → p.query (record plain { body = p.encode payload }) ≡ replied 200 resp
    → str_eq resp.status "RUNNING" ≡ false
    → response_body p resp ≡ ok bytes
    → run_query limits p plain payload (record plain { body = p.encode payload })
      ≡ some (ok (record { status_code = resp.code; headers = resp.headers; body = bytes }))
unfolding run_query finish
answered limits p plain payload resp bytes sent done given =
    ground (arith, poll_done limits limits.status_poll_time_min p.polls resp done)

-- The answer to a request whose body is read whole and does not fill the buffer.
whole_answer :
    (limits : Limits) (p : Proxy) (r : Request) (b : Body) (resp : QueryResponse) (bytes : List ℕ)
    → b.first < limits.request_body_max
    → b.first_error ≡ none
    → take b.first b.bytes ≡ b.bytes
    → p.has_client ≡ true
    → p.query (record (request_envelop r) { body = p.encode b.bytes }) ≡ replied 200 resp
    → str_eq resp.status "RUNNING" ≡ false
    → response_body p resp ≡ ok bytes
    → query limits p (record r { body = some b })
      ≡ returns
          (some (ok (record { status_code = resp.code; headers = resp.headers; body = bytes })))
whole_answer limits p r b resp bytes h e whole client sent done given =
    query_inline limits p r b h e
    ∙ simp (whole, client)
        (ap (λ x. returns x)
          (answered limits p (request_envelop r) b.bytes resp bytes sent done given))

inline_body :
    (p : Proxy) (resp : QueryResponse) (bytes : List ℕ)
    → is_empty resp.object_url ≡ true
    → p.decode resp.body ≡ ok bytes
    → response_body p resp ≡ ok bytes
unfolding response_body
inline_body p resp bytes inline decoded = ground arith

downloaded_body :
    (p : Proxy) (resp : QueryResponse) (status : ℕ) (bytes : List ℕ)
    → is_empty resp.object_url ≡ false
    → p.download resp.object_url ≡ replied status bytes
    → response_body p resp ≡ ok bytes
unfolding response_body
downloaded_body p resp status bytes o d = ground arith

-- A request whose body is read whole and does not fill the buffer, to a device with a client, is
-- sent with the encoded body; if the cloud has the answer at once, with its text inline, the
-- caller gets the answer's code, headers and decoded body.
pub query_answers :
    (limits : Limits) (p : Proxy) (r : Request) (b : Body) (resp : QueryResponse) (bytes : List ℕ)
    → b.first < limits.request_body_max
    → b.first_error ≡ none
    → take b.first b.bytes ≡ b.bytes
    → p.has_client ≡ true
    → p.query (record (request_envelop r) { body = p.encode b.bytes }) ≡ replied 200 resp
    → str_eq resp.status "RUNNING" ≡ false
    → is_empty resp.object_url ≡ true
    → p.decode resp.body ≡ ok bytes
    → query limits p (record r { body = some b })
      ≡ returns
          (some (ok (record { status_code = resp.code; headers = resp.headers; body = bytes })))
query_answers limits p r b resp bytes h e whole client sent done inline decoded =
    whole_answer limits p r b resp bytes h e whole client sent done
      (inline_body p resp bytes inline decoded)

-- A request whose body is read whole and does not fill the buffer, to a device with a client, is
-- sent with the encoded body; if the cloud has the answer at once and it refers to an object,
-- the caller gets the answer's code and headers with whatever bytes the download replies, as a success, whatever the download's status.
pub query_download_any_status :
    (limits : Limits) (p : Proxy) (r : Request) (b : Body) (resp : QueryResponse) (status : ℕ)
    (bytes : List ℕ)
    → b.first < limits.request_body_max
    → b.first_error ≡ none
    → take b.first b.bytes ≡ b.bytes
    → p.has_client ≡ true
    → p.query (record (request_envelop r) { body = p.encode b.bytes }) ≡ replied 200 resp
    → str_eq resp.status "RUNNING" ≡ false
    → is_empty resp.object_url ≡ false
    → p.download resp.object_url ≡ replied status bytes
    → query limits p (record r { body = some b })
      ≡ returns
          (some (ok (record { status_code = resp.code; headers = resp.headers; body = bytes })))
query_download_any_status limits p r b resp status bytes h e whole client sent done object got =
    whole_answer limits p r b resp bytes h e whole client sent done
      (downloaded_body p resp status bytes object got)
