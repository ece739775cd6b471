-- ===== src/Pubsub/Traffic.antt =====
-- The goroutines that carry requests and responses (connection.go: writer, reader, processor;
-- message.go: sendMessage).
--
-- One turn is one round of one goroutine's loop, or one call of `sendMessage`; what the websocket
-- does, and what the clock says in the handler map, are part of the turn. The channels hold 64
-- messages. Pings and the end of the goroutines are in Pubsub/Crew.
use cloud_sdk_go.Base.{
  ℕ, String, Bool, true, false, Option, none, some, List, [], ◌∷◌, ◌++◌, map, length, ltb,
  if◌then◌else◌, Failure, Result, ok, err,
}
use cloud_sdk_go.Rpc.Messages.{Json, Request, Response, new_response_from_bytes}
use cloud_sdk_go.HandlerMap.Defs.{HandlerMap, Call, new_handler_map, get_and_delete, set_handler}

-- `msgRequest`; the handler may be nil.
pub record MsgRequest (H : Type 0) : Type 0 where
  pub request : Request
  pub handler : Option H

-- The channels, the handlers, and which goroutines run.
pub record Traffic (H : Type 0) : Type 0 where
  pub writer_queue : List (MsgRequest H)
  pub reader_queue : List String
  pub handlers : HandlerMap H
  pub writing : Bool
  pub reading : Bool

-- What comes of a turn: a refusal by `sendMessage`, a request on the wire, a call of a handler, a
-- message that is dropped or cannot be read, a failure with which the connection is closed.
pub data Act (H : Type 0) : Type 0 where
  refuses : MsgRequest H → Act H
  wires : Request → Act H
  calls : Call H → Act H
  drops : String → Act H
  ignores : String → Act H
  fails : Failure → Act H

pub data Turn (H : Type 0) : Type 0 where
  submits : MsgRequest H → Turn H
  writes : (now reset : ℕ) → Option Failure → Turn H
  reads : Result String → Turn H
  processes : (now reset : ℕ) → Turn H

module _ {H : Type 0} where
  -- The goroutines as `connect` starts them, with the map of `newInternalConnection`.
  abbrev pub new_traffic : ℕ → ℕ → Traffic H
  new_traffic now duration = record {
    writer_queue = [];
    reader_queue = [];
    handlers = new_handler_map now duration;
    writing = true;
    reading = true;
  }

  unfoldable pub submit : MsgRequest H → Traffic H → Traffic H × List (Act H)
  submit m t =
      if ltb (length t.writer_queue) 64
      then (record t { writer_queue = t.writer_queue ++ (m ∷ []) }, [])
      else (t, refuses m ∷ [])

  -- `c.msgHandlers.Set`, if there is a handler.
  unfoldable pub register : ℕ → ℕ → MsgRequest H → HandlerMap H → HandlerMap H × List (Call H)
  unfolding set_handler
  register now reset m handlers = elim m.handler [
    | none ↦ (handlers, [])
    | some h ↦ set_handler now reset m.request.id h handlers
  ]

  -- The result of `c.ws.Write`: a failure ends the writer.
  abbrev pub write_result : Request → Option Failure → Traffic H → Traffic H × List (Act H)
  write_result req none t = (t, wires req ∷ [])
  write_result req (some e) t = (record t { writing = false }, fails e ∷ [])

  -- A message that the writer takes.
  unfoldable pub write_message :
      ℕ → ℕ → Option Failure → MsgRequest H → Traffic H → Traffic H × List (Act H)
  unfolding register
  write_message now reset result m t =
      let (handlers, expired) = register now reset m t.handlers in
      let (t', acts) = write_result m.request result (record t { handlers = handlers }) in
      (t', map calls expired ++ acts)

  -- One round of the writer that takes a message, if it runs and there is one.
  unfoldable pub write_next :
      ℕ → ℕ → Option Failure → List (MsgRequest H) → Traffic H → Traffic H × List (Act H)
  unfolding write_message
  write_next now reset result [] t = (t, [])
  write_next now reset result (m ∷ queue) t =
      if t.writing
      then write_message now reset result m (record t { writer_queue = queue })
      else (t, [])

  -- One round of the reader: a message is passed on if the processor keeps up.
  unfoldable pub read_next : Result String → Traffic H → Traffic H × List (Act H)
  read_next result t =
      if t.reading
      then elim result [
        | err e ↦ (record t { reading = false }, fails e ∷ [])
        | ok text ↦
            if ltb (length t.reader_queue) 64
            then (record t { reader_queue = t.reader_queue ++ (text ∷ []) }, [])
            else (t, drops text ∷ [])
      ]
      else (t, [])

  -- The call of the handler that was found under an id, if there is one.
  abbrev pub answer : String → Option H → Response → List (Act H)
  answer id none resp = []
  answer id (some h) resp = calls (record { id = id; handler = h; response = resp }) ∷ []

  unfoldable pub process_response : ℕ → ℕ → Response → Traffic H → Traffic H × List (Act H)
  unfolding get_and_delete
  process_response now reset resp t =
      let (found, handlers, expired) = get_and_delete now reset resp.id t.handlers in
      (record t { handlers = handlers }, map calls expired ++ answer resp.id found resp)

  module _ (json : Json) where
    -- One round of the processor that takes a message, if there is one.
    unfoldable pub process_next : ℕ → ℕ → List String → Traffic H → Traffic H × List (Act H)
    unfolding process_response
    process_next now reset [] t = (t, [])
    process_next now reset (text ∷ queue) t =
        let t' : Traffic H = record t { reader_queue = queue } in
        elim (new_response_from_bytes json text) [
          | err e ↦ (t', ignores text ∷ [])
          | ok resp ↦ process_response now reset resp t'
        ]

    unfoldable pub turn : Turn H → Traffic H → Traffic H × List (Act H)
    unfolding submit write_next read_next process_next
    turn (submits m) t = submit m t
    turn (writes now reset result) t = write_next now reset result t.writer_queue t
    turn (reads result) t = read_next result t
    turn (processes now reset) t = process_next now reset t.reader_queue t

    unfoldable pub traffic : List (Turn H) → Traffic H → Traffic H × List (Act H)
    unfolding turn
    traffic [] t = (t, [])
    traffic (x ∷ xs) t =
        let (t', acts) = turn x t in let (t'', more) = traffic xs t' in (t'', acts ++ more)
