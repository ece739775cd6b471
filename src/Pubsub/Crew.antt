-- ===== src/Pubsub/Crew.antt =====
-- The goroutines of a connection and the wait for their end (connection.go: connect, ping, writer,
-- processor, reader, disconnect, closeNotify).
--
-- A move is one step of one goroutine, and any order of moves may happen. `work` is what the
-- goroutines do of themselves, `event` what comes from a caller, a timer or the broker, and
-- `outage` the failure of the websocket, whose calls then return errors. A subscriber is taken to
-- end, which it does when its context ends or the broker does not answer, if the callback returns.
--
-- The processor and the writer call handlers: the handler of a consume request waits until its
-- subscriber takes the response or the subscriber's context is cancelled (subscribe.go: consumer).
-- When the subscriber has gone and its subscription could not be deleted nobody does either, so that
-- the release of a handler is an event.
use cloud_sdk_go.Base.{ℕ, ◌+◌, ◌-◌, ◌<◌, ◌≡◌, Bool, true, false}

-- `closing` is the closed channel, `finished` the end of `closeNotify`'s wait, after which the
-- error is passed on. The wait group counts the three goroutines, the subscribers and the pings;
-- A goroutine is held while a handler that it called waits;
-- `backlog` is the number of messages in the channel of the reader.
pub record Crew : Type 0 where
  pub closing : Bool
  pub finished : Bool
  pub socket_up : Bool
  pub reader : Bool
  pub writer : Bool
  pub processor : Bool
  pub writer_held : Bool
  pub processor_held : Bool
  pub subscribers : ℕ
  pub pings : ℕ
  pub backlog : ℕ

-- As `connect` starts them.
abbrev pub started : Crew
started = record {
  closing = false;
  finished = false;
  socket_up = true;
  reader = true;
  writer = true;
  processor = true;
  writer_held = false;
  processor_held = false;
  subscribers = 0;
  pings = 0;
  backlog = 0;
}

pub data Work (c c' : Crew) : Type 0 where
  reader_ends :
      c.reader ≡ true
      → c.socket_up ≡ false
      → c' ≡ record c { reader = false; closing = true }
      → Work c c'
  writer_ends :
      c.writer ≡ true
      → c.writer_held ≡ false
      → c.closing ≡ true
      → c' ≡ record c { writer = false }
      → Work c c'
  writer_fails :
      c.writer ≡ true
      → c.writer_held ≡ false
      → c.socket_up ≡ false
      → c' ≡ record c { writer = false; closing = true }
      → Work c c'
  processor_takes :
      c.processor ≡ true
      → c.processor_held ≡ false
      → 0 < c.backlog
      → c' ≡ record c { backlog = c.backlog - 1 }
      → Work c c'
  processor_ends :
      c.processor ≡ true
      → c.processor_held ≡ false
      → c.closing ≡ true
      → c' ≡ record c { processor = false }
      → Work c c'
  subscriber_ends :
      0 < c.subscribers → c' ≡ record c { subscribers = c.subscribers - 1 } → Work c c'
  ping_ends : 0 < c.pings → c' ≡ record c { pings = c.pings - 1 } → Work c c'
  ping_fails : 0 < c.pings → c' ≡ record c { pings = c.pings - 1; closing = true } → Work c c'
  close_finishes :
      c.closing ≡ true
      → c.finished ≡ false
      → c.reader ≡ false
      → c.writer ≡ false
      → c.processor ≡ false
      → c.subscribers ≡ 0
      → c.pings ≡ 0
      → c' ≡ record c { finished = true }
      → Work c c'

pub data Event (c c' : Crew) : Type 0 where
  -- `connect` closes the connection when the open message fails.
  open_fails : c.closing ≡ false → c' ≡ record c { closing = true } → Event c c'
  -- `disconnect` closes the websocket of a connection that is not closed.
  disconnects : c.closing ≡ false → c' ≡ record c { socket_up = false } → Event c c'
  write_fails :
      c.writer ≡ true
      → c.writer_held ≡ false
      → c' ≡ record c { writer = false; closing = true }
      → Event c c'
  receives :
      c.reader ≡ true
      → c.socket_up ≡ true
      → c.backlog < 64
      → c' ≡ record c { backlog = c.backlog + 1 }
      → Event c c'
  -- The message finds the channel full.
  drops : c.reader ≡ true → c.socket_up ≡ true → c' ≡ c → Event c c'
  subscribes : c.finished ≡ false → c' ≡ record c { subscribers = c.subscribers + 1 } → Event c c'
  ping_due :
      c.processor ≡ true
      → c.processor_held ≡ false
      → c' ≡ record c { pings = c.pings + 1 }
      → Event c c'
  -- The processor takes a message, and a handler that it calls waits.
  processor_waits :
      c.processor ≡ true
      → c.processor_held ≡ false
      → 0 < c.backlog
      → c' ≡ record c { backlog = c.backlog - 1; processor_held = true }
      → Event c c'
  -- A handler that the writer calls, as it has timed out, waits.
  writer_waits :
      c.writer ≡ true → c.writer_held ≡ false → c' ≡ record c { writer_held = true } → Event c c'
  -- The subscriber takes the response, or its context is cancelled.
  processor_released :
      c.processor_held ≡ true → c' ≡ record c { processor_held = false } → Event c c'
  writer_released : c.writer_held ≡ true → c' ≡ record c { writer_held = false } → Event c c'

pub data Move (c c' : Crew) : Type 0 where
  work : Work c c' → Move c c'
  event : Event c c' → Move c c'
  outage : c' ≡ record c { socket_up = false } → Move c c'

pub data Run (c : Crew) : Crew → Type 0 where
  here : Run c c
  next : {d e : Crew} → Run c d → Move d e → Run c e
