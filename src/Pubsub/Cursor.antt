-- ===== src/Pubsub/Cursor.antt =====
-- What the consumer acknowledges, and what the application is given.
use cloud_sdk_go.Base.{
  ℕ, ◌≡◌, refl, ap, ap, inl, inr, String, true, false, List, [], ◌∷◌, ◌++◌, map, Dict, str_eq,
  Bool-cases, if◌then◌else◌, Result, ok, err,
}
use cloud_sdk_go.Rpc.Messages.{ConsumeMessage}
use cloud_sdk_go.Stats.Defs.{ConnStats}
use cloud_sdk_go.Stats.Counters.{Op, dispatched, processing, processed, apply, apply_all}
use cloud_sdk_go.Pubsub.Consume.{
  Round, not_sent, answered, timed_out, cancelled, cancelled_between, Step, requests, records,
  hands_over, consumer, Callback, topic_of, dispatch_messages, dispatch_consume_result,
}

-- Every request carries the context of the last result that was handed to the subscriber, and
-- `ctx` before the first.
abbrev pub Acknowledges : String → List Step → Type 0
Acknowledges ctx [] = Unit
Acknowledges ctx (requests c ∷ steps) = (c ≡ ctx) × Acknowledges ctx steps
Acknowledges ctx (records c n ∷ steps) = Acknowledges ctx steps
Acknowledges ctx (hands_over res ∷ steps) = Acknowledges res.consume_context steps

-- The consumer acknowledges a result, by asking for the next one with its context, only after the
-- subscriber has taken it, whatever the broker answers.
pub consumer-Acknowledges :
    (stream ctx : String) (rounds : List Round) → Acknowledges ctx (consumer stream ctx rounds).0
unfolding consumer
consumer-Acknowledges stream ctx [] = tt
consumer-Acknowledges stream ctx (not_sent e ∷ rounds) = tt
consumer-Acknowledges stream ctx (answered false result taken ∷ rounds) = (refl, tt)
consumer-Acknowledges stream ctx (answered true (err e) taken ∷ rounds) = (refl, tt)
consumer-Acknowledges stream ctx (answered true (ok res) true ∷ rounds) =
    (refl, consumer-Acknowledges stream res.consume_context rounds)
consumer-Acknowledges stream ctx (answered true (ok res) false ∷ rounds) = (refl, tt)
consumer-Acknowledges stream ctx (timed_out ∷ rounds) = (refl, tt)
consumer-Acknowledges stream ctx (cancelled ∷ rounds) = (refl, tt)
consumer-Acknowledges stream ctx (cancelled_between ∷ rounds) = tt

-- The messages of one stream in a result.
abbrev pub messages_of : String → Dict (List ConsumeMessage) → List ConsumeMessage
messages_of stream [] = []
messages_of stream ((j, ms) ∷ rest) =
    let others = messages_of stream rest in if str_eq j stream then ms ++ others else others

abbrev pub callback_for : (String → Result String) → ConsumeMessage → Callback
callback_for decode m = record {
  decoded = decode m.payload;
  msg_id = m.msg_id;
  headers = m.headers;
}

-- What the statistics are told of one message.
abbrev pub message_ops : ℕ → String → List ConsumeMessage → List Op
message_ops now stream [] = []
message_ops now stream (m ∷ ms) =
    dispatched stream
    ∷ processing now stream m.msg_id (topic_of m)
    ∷ processed stream
    ∷ message_ops now stream ms

map-append' :
    (f : ConsumeMessage → Callback) (xs ys : List ConsumeMessage)
    → map f (xs ++ ys) ≡ map f xs ++ map f ys
map-append' f [] ys = refl
map-append' f (x ∷ xs) ys = ap (λ zs. f x ∷ zs) (map-append' f xs ys)

ops-append :
    (now : ℕ) (stream : String) (xs ys : List ConsumeMessage) (s : ConnStats)
    → apply_all (message_ops now stream (xs ++ ys)) s
      ≡ apply_all (message_ops now stream ys) (apply_all (message_ops now stream xs) s)
unfolding apply_all
ops-append now stream [] ys s = refl
ops-append now stream (x ∷ xs) ys s = ops-append now stream xs ys (
    apply (processed stream)
      (apply (processing now stream x.msg_id (topic_of x)) (apply (dispatched stream) s)))

module _ (now : ℕ) (decode : String → Result String) (stream : String) where
  dispatch_messages_lem :
      (ms : List ConsumeMessage) (s : ConnStats)
      → dispatch_messages now decode stream ms s
        ≡ (apply_all (message_ops now stream ms) s, map (callback_for decode) ms)
  unfolding dispatch_messages apply_all apply
  dispatch_messages_lem [] s = refl
  dispatch_messages_lem (m ∷ ms) s = rw (dispatch_messages_lem ms _)

  -- The application is called once for each message of its stream in a result, in their order, and
  -- for no message of another stream; each call is recorded as a dispatch, a start and an end of
  -- its processing.
  pub dispatch_consume_result_lem :
      (messages : Dict (List ConsumeMessage)) (s : ConnStats)
      → dispatch_consume_result now decode stream messages s ≡ (
        apply_all (message_ops now stream (messages_of stream messages)) s,
        map (callback_for decode) (messages_of stream messages),
      )
  unfolding dispatch_consume_result apply_all
  dispatch_consume_result_lem [] s = refl
  dispatch_consume_result_lem ((j, ms) ∷ rest) s = elim (Bool-cases (str_eq j stream)) [
    | inl same ↦ rw (
      same,
      dispatch_messages_lem ms s,
      dispatch_consume_result_lem rest (apply_all (message_ops now stream ms) s),
      ops-append now stream ms (messages_of stream rest) s,
      map-append' (callback_for decode) ms (messages_of stream rest),
    )
    | inr other ↦ rw (other, dispatch_consume_result_lem rest s)
  ]
