-- ===== src/Pubsub/Publish.antt =====
-- Publishing (publish.go).
use cloud_sdk_go.Base.{
  String, Bool, true, false, Option, none, some, List, [], ◌∷◌, ◌++◌, map, length, ltb, ℕ, Dict, ℤ,
  pos_part, neg_part, ◌+◌, ◌==◌, str_eq, if◌then◌else◌, Failure, message, because, Result, ok, err,
  ◌>>=◌, context,
}
use cloud_sdk_go.Rpc.Messages.{
  Json, Response, PublishResult, publish_result, new_publish_request, result_status_success,
}
use cloud_sdk_go.Pubsub.Conn.{Conn, send_message}

-- Why a publish request failed: the broker's error, a result that is no success, or one that
-- cannot be read.
pub data PublishError : Type 0 where
  refused : ℤ → String → PublishError
  unsuccessful : String → PublishError
  unreadable : Failure → PublishError

-- The outcome of a publish request, as the application sees it.
pub record Published : Type 0 where
  pub id : String
  pub error : Option PublishError

abbrev publish_error : Result PublishResult → Option PublishError
publish_error (err e) = some (unreadable e)
publish_error (ok r) =
    if str_eq r.status result_status_success then none else some (unsuccessful r.status)

-- A channel of results with one receiver: what its buffer holds, whether the receiver waits, and what
-- it has received.
pub record AckChannel : Type 0 where
  pub capacity : ℕ
  pub buffer : List Published
  pub waiting : Bool
  pub received : List Published

unfoldable pub make_channel : ℕ → AckChannel
make_channel capacity = record { capacity = capacity; buffer = []; waiting = false; received = [] }

-- A send that does not block: to the receiver if it waits, else to the buffer if it has space, else
-- nowhere.
unfoldable pub try_send : Published → AckChannel → AckChannel
try_send p ch =
    if ch.waiting
    then record ch { waiting = false; received = ch.received ++ (p ∷ []) }
    else if ltb (length ch.buffer) ch.capacity
    then record ch { buffer = ch.buffer ++ (p ∷ []) }
    else ch

-- The receiver comes to its receive: it takes the first of the buffer, or waits.
unfoldable pub receive_next : List Published → AckChannel → AckChannel
receive_next [] ch = record ch { waiting = true }
receive_next (p ∷ buffer) ch = record ch { buffer = buffer; received = ch.received ++ (p ∷ []) }

-- `pubResultAck`: the channel, which is nil after `cancel`.
pub record PubResultAck : Type 0 where
  pub channel : AckChannel
  pub is_open : Bool

-- What happens around the channel of a request that was sent: the handler is called with a
-- response, the receiver comes to its receive, or the application calls `cancel`.
pub data AckEvent : Type 0 where
  responds : Response → AckEvent
  receives cancels : AckEvent

-- The select of `Publish` at the end of its context: what was received, or the time-out.
abbrev pub first_ack : String → List Published → Result Published
first_ack id [] = err (because "timed out waiting for publish response" (message id))
first_ack id (p ∷ later) = ok p

module _ (json : Json) where
  -- The handler of the response.
  unfoldable pub to_published : Response → Published
  to_published resp = record {
    id = resp.id;
    error =
        if pos_part resp.error.code + neg_part resp.error.code == 0
        then publish_error (publish_result json resp)
        else some (refused resp.error.code resp.error.text);
  }

  -- The handler sends to the channel, if there still is one, without blocking.
  unfoldable pub on_response : Response → PubResultAck → PubResultAck
  unfolding to_published try_send
  on_response resp a =
      if a.is_open then record a { channel = try_send (to_published resp) a.channel } else a

  -- `sendPublishMessage`; `uuid` and `msg_uuid` are fresh ids, `text` the payload in base64.
  unfoldable pub send_publish_message :
      (uuid msg_uuid stream : String) → Dict String → String → Conn → Conn × Result String
  send_publish_message uuid msg_uuid stream headers text c =
      elim (new_publish_request json uuid msg_uuid stream headers text) [
        | err e ↦ (c, err e)
        | ok req ↦
            let (c', failure) = send_message req c in
            (c', elim failure [ none ↦ ok req.id | some e ↦ err e ])
      ]

  unfoldable pub ack_event : AckEvent → PubResultAck → PubResultAck
  unfolding on_response receive_next
  ack_event (responds resp) a = on_response resp a
  ack_event receives a = record a { channel = receive_next a.channel.buffer a.channel }
  ack_event cancels a = record a { is_open = false }

  unfoldable pub acks : List AckEvent → PubResultAck → PubResultAck
  unfolding ack_event
  acks [] a = a
  acks (event ∷ events) a = acks events (ack_event event a)

  -- `PublishAsync`: the id of the message, whose response goes to the application's channel.
  unfoldable pub publish_async :
      (uuid msg_uuid stream : String) → Dict String → String → Conn → Conn × Result String
  unfolding send_publish_message
  publish_async uuid msg_uuid stream headers text c =
      let (c', sent) = send_publish_message uuid msg_uuid stream headers text c in
      (c', context "publish failure" sent)

  -- `Publish`, whose channel has no buffer: `early` are the responses that are processed after the
  -- request was queued and before `Publish` comes to its select, `later` those from then on to the
  -- end of its context. Its own channel is never cancelled.
  unfoldable pub publish :
      (uuid msg_uuid stream : String)
      → Dict String
      → String
      → (early later : List Response) → Conn
      → Conn × Result Published
  unfolding send_publish_message acks make_channel
  publish uuid msg_uuid stream headers text early later c =
      let (c', sent) = send_publish_message uuid msg_uuid stream headers text c in
      let events = map responds early ++ (receives ∷ map responds later) in
      let ack = acks events (record { channel = make_channel 0; is_open = true }) in
      (c', context "publish failure" sent >>= λ id. first_ack id ack.channel.received)
