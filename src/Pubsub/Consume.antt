-- ===== src/Pubsub/Consume.antt =====
-- The consumer and the dispatch of what it receives (subscribe.go).
use cloud_sdk_go.Base.{
  ℕ, String, Bool, true, false, Option, none, some, List, [], ◌∷◌, ◌++◌, length, Dict, lookup,
  str_eq, if◌then◌else◌, Failure, message, Result, ok, err,
}
use cloud_sdk_go.Rpc.Messages.{ConsumeMessage, ConsumeResult}
use cloud_sdk_go.Stats.Defs.{
  ConnStats, record_dispatch, record_sdk_processing_start, record_sdk_processing_complete,
}
use cloud_sdk_go.Gap.Tracker.{GapReason, broker_response_timeout, processing_backpressure}

-- How the consumer ends.
pub data End : Type 0 where
  stopped : End
  gap : GapReason → End
  broken : Failure → End

-- What one round of the consumer meets after its request is sent; `taken` says whether the
-- subscriber takes the result before the processing timeout. `cancelled_between` is the end of the
-- subscription in the pause before the request.
pub data Round : Type 0 where
  not_sent : Failure → Round
  answered : (error_code_is_zero : Bool) → Result ConsumeResult → (taken : Bool) → Round
  timed_out : Round
  cancelled : Round
  cancelled_between : Round

-- What the consumer does: a request with a context, a result that it records, one that it hands to
-- the subscriber.
pub data Step : Type 0 where
  requests : (consume_ctx : String) → Step
  records : (consume_ctx : String) → (messages : ℕ) → Step
  hands_over : ConsumeResult → Step

abbrev pub or_no_messages : Option (List ConsumeMessage) → List ConsumeMessage
or_no_messages none = []
or_no_messages (some ms) = ms

-- `none` as the end means that the consumer runs on.
unfoldable pub consumer : String → String → List Round → List Step × Option End
consumer stream ctx [] = ([], none)
consumer stream ctx (not_sent e ∷ rounds) = ([], some (broken e))
consumer stream ctx (answered false result taken ∷ rounds) =
    (requests ctx ∷ [], some (broken (message "consume error")))
consumer stream ctx (answered true (err e) taken ∷ rounds) = (requests ctx ∷ [], some (broken e))
consumer stream ctx (answered true (ok res) true ∷ rounds) =
    let (steps, end) = consumer stream res.consume_context rounds in
    (
      requests ctx
          ∷ records res.consume_context (length (or_no_messages (lookup stream res.messages)))
          ∷ hands_over res
          ∷ steps,
      end,
    )
consumer stream ctx (answered true (ok res) false ∷ rounds) = (
  requests ctx
      ∷ records res.consume_context (length (or_no_messages (lookup stream res.messages)))
      ∷ [],
  some (gap processing_backpressure),
)
consumer stream ctx (timed_out ∷ rounds) = (requests ctx ∷ [], some (gap broker_response_timeout))
consumer stream ctx (cancelled_between ∷ rounds) = ([], some stopped)
consumer stream ctx (cancelled ∷ rounds) = (requests ctx ∷ [], some stopped)

-- A call of the subscription's callback.
pub record Callback : Type 0 where
  pub decoded : Result String
  pub msg_id : String
  pub headers : Dict String

abbrev pub topic_of : ConsumeMessage → String
topic_of m = elim (lookup "stream" m.headers) [ none ↦ "" | some t ↦ t ]

module _ (now : ℕ) (decode : String → Result String) (sub_stream : String) where
  -- The messages of the subscription's stream, one after the other.
  unfoldable pub dispatch_messages : List ConsumeMessage → ConnStats → ConnStats × List Callback
  dispatch_messages [] s = (s, [])
  dispatch_messages (m ∷ ms) s =
      let started =
        record_sdk_processing_start now sub_stream m.msg_id (topic_of m)
          (record_dispatch sub_stream s) in
      let (s', calls) = dispatch_messages ms (record_sdk_processing_complete sub_stream started) in
      (s', record { decoded = decode m.payload; msg_id = m.msg_id; headers = m.headers } ∷ calls)

  -- Messages of another stream are logged and skipped.
  unfoldable pub dispatch_consume_result :
      Dict (List ConsumeMessage) → ConnStats → ConnStats × List Callback
  unfolding dispatch_messages
  dispatch_consume_result [] s = (s, [])
  dispatch_consume_result ((stream, ms) ∷ rest) s =
      let (s', calls) = if str_eq stream sub_stream then dispatch_messages ms s else (s, []) in
      let (s'', more) = dispatch_consume_result rest s' in (s'', calls ++ more)
