-- ===== src/Pubsub/Acks.antt =====
-- Which results of publishing reach the application.
use cloud_sdk_go.Base.{
  String, Dict, ok, err, because, message, ◌∙◌, ◌≡◌, refl, ap, true, false, List, [], ◌∷◌, ◌++◌,
  map,
}
use cloud_sdk_go.Rpc.Messages.{Json, Response}
use cloud_sdk_go.Pubsub.Publish.{
  to_published, on_response, PubResultAck, AckEvent, responds, receives, make_channel, try_send,
  receive_next, ack_event, acks, publish, first_ack, send_publish_message, Published,
}
use cloud_sdk_go.Pubsub.Conn.{Conn}

-- The channel of `Publish`, before its select and in it.
abbrev unread : PubResultAck
unread = record { channel = make_channel 0; is_open = true }

abbrev awaited : PubResultAck
awaited = record {
  channel = record { capacity = 0; buffer = []; waiting = true; received = [] };
  is_open = true;
}

-- The channel after the first result.
abbrev settled : Published → PubResultAck
settled p = record {
  channel = record { capacity = 0; buffer = []; waiting = false; received = p ∷ [] };
  is_open = true;
}

module _ (json : Json) where
  acks-append :
      (xs ys : List AckEvent) (a : PubResultAck)
      → acks json (xs ++ ys) a ≡ acks json ys (acks json xs a)
  unfolding acks
  acks-append [] ys a = refl
  acks-append (x ∷ xs) ys a = acks-append xs ys (ack_event json x a)

  -- Without a receiver and without a buffer nothing is kept of a response.
  acks_early : (early : List Response) → acks json (map responds early) unread ≡ unread
  unfolding acks ack_event on_response try_send make_channel
  acks_early [] = refl
  acks_early (r ∷ early) = acks_early early

  acks-settled :
      (p : Published) (later : List Response)
      → acks json (map responds later) (settled p) ≡ settled p
  unfolding acks ack_event on_response try_send
  acks-settled p [] = refl
  acks-settled p (r ∷ later) = acks-settled p later

  -- What `Publish` has received at the end of its context.
  acks_of_publish :
      (early later : List Response)
      → acks json (map responds early ++ (receives ∷ map responds later)) unread
        ≡ acks json (map responds later) awaited
  unfolding acks ack_event receive_next make_channel
  acks_of_publish early later =
      acks-append (map responds early) (receives ∷ map responds later) unread
      ∙ ap (acks json (receives ∷ map responds later)) (acks_early early)

  acks-awaited :
      (resp : Response) (later : List Response)
      → acks json (map responds (resp ∷ later)) awaited ≡ settled (to_published json resp)
  unfolding acks ack_event on_response try_send
  acks-awaited resp later = acks-settled (to_published json resp) later

  publish_waits :
      (uuid msg_uuid stream : String) (headers : Dict String) (text id : String) (c : Conn)
      (early later : List Response)
      → (send_publish_message json uuid msg_uuid stream headers text c).1 ≡ ok id
      → (publish json uuid msg_uuid stream headers text early later c).1
        ≡ first_ack id (acks json (map responds later) awaited).channel.received
  unfolding publish
  publish_waits uuid msg_uuid stream headers text id c early later sent =
      rw (sent, publish) (ap (λ a. first_ack id a.channel.received) (acks_of_publish early later))

  -- When the request of `Publish` is sent, the first response that comes after `Publish` has reached
  -- its select is its result, whatever came before and comes after; and if none comes before its
  -- context ends, `Publish` reports a time-out, although responses came before its select, whatever
  -- they say: its channel has no buffer, and the handler does not wait for a receiver.
  pub publish_lem :
      (uuid msg_uuid stream : String) (headers : Dict String) (text id : String) (c : Conn)
      (early : List Response) (resp : Response) (later : List Response)
      → (send_publish_message json uuid msg_uuid stream headers text c).1 ≡ ok id
      → ((publish json uuid msg_uuid stream headers text early (resp ∷ later) c).1
          ≡ ok (to_published json resp))
        × ((publish json uuid msg_uuid stream headers text early [] c).1
            ≡ err (because "timed out waiting for publish response" (message id)))
  unfolding acks
  publish_lem uuid msg_uuid stream headers text id c early resp later sent = (
    publish_waits uuid msg_uuid stream headers text id c early (resp ∷ later) sent
        ∙ ap (λ a. first_ack id a.channel.received) (acks-awaited resp later),
    publish_waits uuid msg_uuid stream headers text id c early [] sent,
  )
