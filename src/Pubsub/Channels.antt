-- ===== src/Pubsub/Channels.antt =====
-- How full the channels get, and whom a response reaches.
use cloud_sdk_go.Base.{
  All-append, ℕ, ◌≤◌, inl, inr, String, Option, none, some, List, [], ◌∷◌, map, arith, length,
  length-append, ltb, Bool-cases, Result-cases, Failure, Result, ok, err, All, Bool, true, false,
  if◌then◌else◌,
}
use cloud_sdk_go.Rpc.Messages.{Json, Request, Response, new_response_from_bytes}
use cloud_sdk_go.HandlerMap.Defs.{new_handler_map, expire_check, take_handler, get_and_delete}
use cloud_sdk_go.Pubsub.Traffic.{
  MsgRequest, Traffic, Act, calls, Turn, submits, writes, reads, processes, new_traffic, submit,
  register, write_result, write_message, write_next, read_next, answer, process_response,
  process_next, turn, traffic,
}
use cloud_sdk_go.Pubsub.Owners.{
  IsMatched, IsOwn, IsOwnTurn, IsWell, Matches, expire_check-Checks, register-Checks,
  take_handler-Found, answer-IsMatched,
}

-- `registered` is the id of the request with which a handler is submitted.
module _ {H : Type 0} (registered : H → String) where
  write_result-Matches :
      (req : Request) (result : Option Failure) (t : Traffic H)
      → IsWell registered t
      → Matches registered (write_result req result t)
  write_result-Matches req none t w = record { well = w; matched = (tt, tt) }
  write_result-Matches req (some e) t w = record {
    well = record { writer = w.writer; reader = w.reader; own = w.own; kept = w.kept };
    matched = (tt, tt);
  }

  write_message-Matches :
      (now reset : ℕ) (result : Option Failure) (m : MsgRequest H) (t : Traffic H)
      → IsOwn registered m
      → IsWell registered t
      → Matches registered (write_message now reset result m t)
  unfolding write_message
  write_message-Matches now reset result m t o w =
      let (handlers, expired) = register now reset m t.handlers in
      let c = register-Checks registered now reset m t.handlers o w.kept in
      let t' : Traffic H = record t { handlers = handlers } in
      let x =
        write_result-Matches m.request result t'
          (record { writer = w.writer; reader = w.reader; own = w.own; kept = c.kept }) in
      record {
        well = x.well;
        matched =
            All-append (IsMatched registered) (map calls expired)
              (write_result m.request result t').1 c.matched x.matched;
      }

  either-Matches :
      (b : Bool) (x y : Traffic H × List (Act H))
      → Matches registered x
      → Matches registered y
      → Matches registered (if b then x else y)
  either-Matches true x y p q = p
  either-Matches false x y p q = q

  write_next-Matches :
      (now reset : ℕ) (result : Option Failure) (queue : List (MsgRequest H)) (t : Traffic H)
      → length queue ≤ 64
      → All (IsOwn registered) queue
      → IsWell registered t
      → Matches registered (write_next now reset result queue t)
  unfolding write_next
  write_next-Matches now reset result [] t q o w = record { well = w; matched = tt }
  write_next-Matches now reset result (m ∷ queue) t q o w =
      let t' : Traffic H = record t { writer_queue = queue } in
      let x =
        write_message-Matches now reset result m t' o.0
          (record { writer = omega arith; reader = w.reader; own = o.1; kept = w.kept }) in
      either-Matches t.writing (write_message now reset result m t') (t, []) x
        (record { well = w; matched = tt })

  process_response-Matches :
      (now reset : ℕ) (resp : Response) (t : Traffic H)
      → IsWell registered t
      → Matches registered (process_response now reset resp t)
  unfolding process_response get_and_delete
  process_response-Matches now reset resp t w =
      let c = expire_check-Checks registered now reset t.handlers w.kept in
      let (checked, expired) = expire_check now reset t.handlers in
      let f = take_handler-Found registered resp.id checked c.kept in
      let found = (take_handler resp.id checked).0 in
      record {
        well = record { writer = w.writer; reader = w.reader; own = w.own; kept = f.0 };
        matched =
            All-append (IsMatched registered) (map calls expired) (answer resp.id found resp)
              c.matched (answer-IsMatched registered found resp f.1);
      }

  submit-Matches :
      (m : MsgRequest H) (t : Traffic H)
      → IsOwn registered m
      → IsWell registered t
      → Matches registered (submit m t)
  unfolding submit
  submit-Matches m t o w = elim (Bool-cases (ltb (length t.writer_queue) 64)) [
    | inl space ↦ rw space (record {
      well = record {
        writer = ground (arith, length-append t.writer_queue (m ∷ []));
        reader = w.reader;
        own = All-append (IsOwn registered) t.writer_queue (m ∷ []) w.own (o, tt);
        kept = w.kept;
      };
      matched = tt;
    })
    | inr full ↦ rw full (record { well = w; matched = (tt, tt) })
  ]

  read_next-Matches :
      (result : Result String) (t : Traffic H)
      → IsWell registered t
      → Matches registered (read_next result t)
  unfolding read_next
  read_next-Matches (err e) t w = elim (Bool-cases t.reading) [
    | inl on ↦ simp on (record {
      well = record { writer = w.writer; reader = w.reader; own = w.own; kept = w.kept };
      matched = (tt, tt);
    })
    | inr off ↦ simp off (record { well = w; matched = tt })
  ]
  read_next-Matches (ok text) t w = elim (Bool-cases t.reading) [
    | inr off ↦ simp off (record { well = w; matched = tt })
    | inl on ↦ elim (Bool-cases (ltb (length t.reader_queue) 64)) [
      | inl space ↦
          simp (on, space)
            (record {
              well = record {
                writer = w.writer;
                reader = ground (arith, length-append t.reader_queue (text ∷ []));
                own = w.own;
                kept = w.kept;
              };
              matched = tt;
            })
      | inr full ↦ simp (on, full) (record { well = w; matched = (tt, tt) })
    ]
  ]

  module _ (json : Json) where
    process_next-Matches :
        (now reset : ℕ) (queue : List String) (t : Traffic H)
        → length queue ≤ 64
        → IsWell registered t
        → Matches registered (process_next json now reset queue t)
    unfolding process_next
    process_next-Matches now reset [] t q w = record { well = w; matched = tt }
    process_next-Matches now reset (text ∷ queue) t q w =
        let t' : Traffic H = record t { reader_queue = queue } in
        let w' : IsWell registered t' = record {
          writer = w.writer;
          reader = omega arith;
          own = w.own;
          kept = w.kept;
        } in
        elim (Result-cases (new_response_from_bytes json text)) [
          | inr (e, x) ↦ rw (x, process_next) (record { well = w'; matched = (tt, tt) })
          | inl (resp, x) ↦ rw (x, process_next) (process_response-Matches now reset resp t' w')
        ]

    turn-Matches :
        (x : Turn H) (t : Traffic H)
        → IsOwnTurn registered x
        → IsWell registered t
        → Matches registered (turn json x t)
    unfolding turn
    turn-Matches (submits m) t o w = submit-Matches m t o w
    turn-Matches (writes now reset result) t o w =
        write_next-Matches now reset result t.writer_queue t w.writer w.own w
    turn-Matches (reads result) t o w = read_next-Matches result t w
    turn-Matches (processes now reset) t o w =
        process_next-Matches now reset t.reader_queue t w.reader w

    run-Matches :
        (turns : List (Turn H)) (t : Traffic H)
        → All (IsOwnTurn registered) turns
        → IsWell registered t
        → Matches registered (traffic json turns t)
    unfolding traffic
    run-Matches [] t o w = record { well = w; matched = tt }
    run-Matches (x ∷ xs) t o w =
        let one = turn-Matches x t o.0 w in
        let t' = (turn json x t).0 in
        let rest = run-Matches xs t' o.1 one.well in
        record {
          well = rest.well;
          matched =
              All-append (IsMatched registered) (turn json x t).1 (traffic json xs t').1 one.matched
                rest.matched;
        }

    -- The channels hold 64 messages at most, and responses reach their own handlers.
    pub record IsOrderly (after : Traffic H × List (Act H)) : Type 0 where
      pub writer : length after.0.writer_queue ≤ 64
      pub reader : length after.0.reader_queue ≤ 64
      pub matched : All (IsMatched registered) after.1

    -- When each handler is submitted with the request whose id is registered for it, then after any
    -- turns on a new connection the channels of the writer and of the processor hold 64 messages at
    -- most, and every handler that was called, for a response of the broker or for a time-out, was
    -- given a response with the id of its own request.
    pub traffic-IsOrderly :
        (now duration : ℕ) (turns : List (Turn H))
        → All (IsOwnTurn registered) turns
        → IsOrderly (traffic json turns (new_traffic now duration))
    unfolding new_handler_map
    traffic-IsOrderly now duration turns o =
        let m = run-Matches turns (new_traffic now duration) o (record {
          writer = omega arith;
          reader = omega arith;
          own = tt;
          kept = record { young = tt; old = tt };
        }) in
        record { writer = m.well.writer; reader = m.well.reader; matched = m.matched }
