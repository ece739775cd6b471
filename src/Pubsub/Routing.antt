-- ===== src/Pubsub/Routing.antt =====
-- What becomes of a request's handler, and how full the channels are.
use cloud_sdk_go.Base.{
  ℕ, ◌+◌, ◌≤◌, ◌≡◌, refl, inl, inr, String, Bool, Option, none, some, List, [], ◌∷◌, ◌++◌, map,
  arith, lookup, ap, sym, subst, Option-cases, Result-cases, str_eq, Bool-cases, if◌then◌else◌,
  Failure, Result,
}
use cloud_sdk_go.Rpc.Messages.{Json, Request, Response, new_response_from_bytes}
use cloud_sdk_go.HandlerMap.Defs.{HandlerMap, Call, new_handler_map, get_and_delete}
use cloud_sdk_go.HandlerMap.Lifetime.{Op, set, get, after}
use cloud_sdk_go.HandlerMap.Answers.{
  count, call_ids, found_id, answers, pending, IsWellFormed, step-balance, after-IsWellFormed,
  count-append,
}
use cloud_sdk_go.Pubsub.Traffic.{
  MsgRequest, Traffic, Act, refuses, wires, calls, drops, ignores, fails, Turn, submits, writes,
  reads, processes, new_traffic, submit, register, write_result, write_message, write_next,
  read_next, answer, process_response, process_next, turn, traffic,
}

module _ {H : Type 0} where
  -- How often the handler of an id is called.
  abbrev pub called : String → List (Act H) → ℕ
  called id [] = 0
  called id (calls c ∷ acts) = (if str_eq c.id id then 1 else 0) + called id acts
  called id (_ ∷ acts) = called id acts

  abbrev pub weight : String → MsgRequest H → ℕ
  weight id m = elim m.handler [ none ↦ 0 | some _ ↦ if str_eq m.request.id id then 1 else 0 ]

  -- How often a handler of an id is refused with its request.
  abbrev pub refused : String → List (Act H) → ℕ
  refused id [] = 0
  refused id (refuses m ∷ acts) = weight id m + refused id acts
  refused id (_ ∷ acts) = refused id acts

  -- How many handlers of an id wait in the channel of the writer.
  abbrev pub queued : String → List (MsgRequest H) → ℕ
  queued id [] = 0
  queued id (m ∷ queue) = weight id m + queued id queue

  abbrev submitted_by : String → Turn H → ℕ
  submitted_by id (submits m) = weight id m
  submitted_by id _ = 0

  -- How often a request with an id and a handler is submitted.
  abbrev pub submitted : String → List (Turn H) → ℕ
  submitted id [] = 0
  submitted id (x ∷ xs) = submitted_by id x + submitted id xs

  called-append :
      (id : String) (xs ys : List (Act H)) → called id (xs ++ ys) ≡ called id xs + called id ys
  called-append id [] ys = omega arith
  called-append id (calls c ∷ xs) ys = omega (arith, called-append id xs ys)
  called-append id (refuses m ∷ xs) ys = called-append id xs ys
  called-append id (wires r ∷ xs) ys = called-append id xs ys
  called-append id (drops s ∷ xs) ys = called-append id xs ys
  called-append id (ignores s ∷ xs) ys = called-append id xs ys
  called-append id (fails e ∷ xs) ys = called-append id xs ys

  refused-append :
      (id : String) (xs ys : List (Act H)) → refused id (xs ++ ys) ≡ refused id xs + refused id ys
  refused-append id [] ys = omega arith
  refused-append id (refuses m ∷ xs) ys = omega (arith, refused-append id xs ys)
  refused-append id (calls c ∷ xs) ys = refused-append id xs ys
  refused-append id (wires r ∷ xs) ys = refused-append id xs ys
  refused-append id (drops s ∷ xs) ys = refused-append id xs ys
  refused-append id (ignores s ∷ xs) ys = refused-append id xs ys
  refused-append id (fails e ∷ xs) ys = refused-append id xs ys

  queued-append :
      (id : String) (xs ys : List (MsgRequest H))
      → queued id (xs ++ ys) ≡ queued id xs + queued id ys
  queued-append id [] ys = omega arith
  queued-append id (m ∷ xs) ys = omega (arith, queued-append id xs ys)

  called-calls :
      (id : String) (cs : List (Call H)) → called id (map calls cs) ≡ count id (call_ids cs)
  called-calls id [] = refl
  called-calls id (c ∷ cs) = omega (arith, called-calls id cs)

  refused-calls : (id : String) (cs : List (Call H)) → refused id (map calls cs) ≡ 0
  refused-calls id [] = refl
  refused-calls id (c ∷ cs) = refused-calls id cs

  -- The handlers of an id in the channel and in the map.
  abbrev waiting : String → Traffic H → ℕ
  waiting id t = queued id t.writer_queue + pending id t.handlers

  -- No handler appears or goes but by a submission, a call or a refusal, and the map stays well
  -- formed.
  record Accounts (id : String) (before : ℕ) (after : Traffic H × List (Act H)) : Type 0 where
    balance : called id after.1 + refused id after.1 + waiting id after.0 ≡ before
    formed : IsWellFormed after.0.handlers

  recount :
      {id : String} {m n : ℕ} {after : Traffic H × List (Act H)}
      → m ≡ n
      → Accounts id m after
      → Accounts id n after
  recount e a = record { balance = omega (arith, a.balance); formed = a.formed }

  register_lem :
      (now reset : ℕ) (id : String) (m : MsgRequest H) (h : HandlerMap H)
      → IsWellFormed h
      → pending id h + weight id m ≤ 1
      → let (h', expired) = register now reset m h in
        (count id (call_ids expired) + pending id h' ≡ pending id h + weight id m) × IsWellFormed h'
  unfolding register answers after
  register_lem now reset id m h w b = elim (Option-cases m.handler) [
    | inl none_set ↦ rw none_set (omega arith, w)
    | inr (f, e) ↦
        let op : Op H = set now reset m.request.id f in
        rw (e, register)
          (ground (arith, e, step-balance id op h w (ground arith)), after-IsWellFormed op h w)
  ]

  -- The write itself concerns no handler.
  write_result_lem :
      (id : String) (req : Request) (result : Option Failure) (t : Traffic H)
      → let (t', acts) = write_result req result t in
        (called id acts ≡ 0)
        × (refused id acts ≡ 0)
        × (waiting id t' ≡ waiting id t)
        × (t'.handlers ≡ t.handlers)
  write_result_lem id req none t = (refl, refl, refl, refl)
  write_result_lem id req (some e) t = (refl, refl, refl, refl)

  write_message-Accounts :
      (now reset : ℕ) (result : Option Failure) (id : String) (m : MsgRequest H) (t : Traffic H)
      → IsWellFormed t.handlers
      → weight id m + waiting id t ≤ 1
      → Accounts id (weight id m + waiting id t) (write_message now reset result m t)
  unfolding write_message
  write_message-Accounts now reset result id m t w b =
      let r = register now reset m t.handlers in
      let one = register_lem now reset id m t.handlers w (omega arith) in
      let t' : Traffic H = record t { handlers = r.0 } in
      let acts = (write_result m.request result t').1 in
      let q = write_result_lem id m.request result t' in
      record {
        balance = omega (
          arith,
          one.0,
          q.0,
          q.1,
          q.2,
          called-append id (map calls r.1) acts,
          refused-append id (map calls r.1) acts,
          called-calls id r.1,
          refused-calls id r.1,
        );
        formed = rw q.3 one.1;
      }

  called-answer :
      (id : String) (found : Option H) (resp : Response)
      → called id (answer resp.id found resp) ≡ count id (found_id resp.id found)
  called-answer id none resp = refl
  called-answer id (some h) resp = refl

  refused-answer :
      (id : String) (found : Option H) (resp : Response)
      → refused id (answer resp.id found resp) ≡ 0
  refused-answer id none resp = refl
  refused-answer id (some h) resp = refl

  process_response-Accounts :
      (now reset : ℕ) (resp : Response) (id : String) (t : Traffic H)
      → IsWellFormed t.handlers
      → waiting id t ≤ 1
      → Accounts id (waiting id t) (process_response now reset resp t)
  unfolding process_response answers after
  process_response-Accounts now reset resp id t w b =
      let op : Op H = get now reset resp.id in
      let r = get_and_delete now reset resp.id t.handlers in
      record {
        balance = omega (
          arith,
          step-balance id op t.handlers w (omega arith),
          called-append id (map calls r.2) (answer resp.id r.0 resp),
          refused-append id (map calls r.2) (answer resp.id r.0 resp),
          called-calls id r.2,
          refused-calls id r.2,
          called-answer id r.0 resp,
          refused-answer id r.0 resp,
          count-append id (call_ids r.2) (found_id resp.id r.0),
        );
        formed = after-IsWellFormed op t.handlers w;
      }

  module _ (json : Json) where
    write_next-Accounts :
        (now reset : ℕ) (result : Option Failure) (id : String) (queue : List (MsgRequest H))
        (t : Traffic H)
        → t.writer_queue ≡ queue
        → IsWellFormed t.handlers
        → waiting id t ≤ 1
        → Accounts id (waiting id t) (write_next now reset result queue t)
    unfolding write_next
    write_next-Accounts now reset result id [] t e w b = record {
      balance = omega arith;
      formed = w;
    }
    write_next-Accounts now reset result id (m ∷ queue) t e w b =
        let t' : Traffic H = record t { writer_queue = queue } in
        let split : queued id t.writer_queue ≡ weight id m + queued id queue = ap (queued id) e in
        let one = write_message-Accounts now reset result id m t' w (omega arith) in
        let branch = λ (b : Bool). if b then write_message now reset result m t' else (t, []) in
        elim (Bool-cases t.writing) [
          | inl on ↦
              subst (λ r. Accounts id (waiting id t) r) (ap branch (sym on))
                (record { balance = omega (arith, one.balance); formed = one.formed })
          | inr off ↦
              subst (λ r. Accounts id (waiting id t) r) (ap branch (sym off))
                (record { balance = omega arith; formed = w })
        ]

    read_next-Accounts :
        (result : Result String) (id : String) (t : Traffic H)
        → IsWellFormed t.handlers
        → Accounts id (waiting id t) (read_next result t)
    unfolding read_next
    read_next-Accounts result id t w = ground arith

    process_next-Accounts :
        (now reset : ℕ) (id : String) (queue : List String) (t : Traffic H)
        → IsWellFormed t.handlers
        → waiting id t ≤ 1
        → Accounts id (waiting id t) (process_next json now reset queue t)
    unfolding process_next
    process_next-Accounts now reset id [] t w b = record { balance = omega arith; formed = w }
    process_next-Accounts now reset id (text ∷ queue) t w b =
        elim (Result-cases (new_response_from_bytes json text)) [
          | inr (e, q) ↦ rw (q, process_next) (record { balance = omega arith; formed = w })
          | inl (resp, q) ↦
              rw (q, process_next)
                (process_response-Accounts now reset resp id (record t { reader_queue = queue }) w
                  b)
        ]

    turn-Accounts :
        (x : Turn H) (id : String) (t : Traffic H)
        → IsWellFormed t.handlers
        → submitted_by id x + waiting id t ≤ 1
        → Accounts id (submitted_by id x + waiting id t) (turn json x t)
    unfolding turn submit
    turn-Accounts (submits m) id t w b = ground (arith, queued-append id t.writer_queue (m ∷ []))
    turn-Accounts (writes now reset result) id t w b =
        recount (omega arith)
          (write_next-Accounts now reset result id t.writer_queue t refl w (omega arith))
    turn-Accounts (reads result) id t w b = recount (omega arith) (read_next-Accounts result id t w)
    turn-Accounts (processes now reset) id t w b =
        recount (omega arith) (process_next-Accounts now reset id t.reader_queue t w (omega arith))

    traffic-Accounts :
        (xs : List (Turn H)) (id : String) (t : Traffic H)
        → IsWellFormed t.handlers
        → submitted id xs + waiting id t ≤ 1
        → Accounts id (submitted id xs + waiting id t) (traffic json xs t)
    unfolding traffic
    traffic-Accounts [] id t w b = record { balance = omega arith; formed = w }
    traffic-Accounts (x ∷ xs) id t w b =
        let r = turn json x t in
        let one = turn-Accounts x id t w (omega arith) in
        let rest = traffic-Accounts xs id r.0 one.formed (omega (arith, one.balance)) in
        let more = (traffic json xs r.0).1 in
        record {
          balance = omega (
            arith,
            one.balance,
            rest.balance,
            called-append id r.1 more,
            refused-append id r.1 more,
          );
          formed = rest.formed;
        }

    -- A handler whose request's id is submitted at most once to a new connection is, after any
    -- turns of the writer, the reader and the processor, in one place: refused with its request,
    -- waiting in the channel of the writer, waiting in the map, or called, by the response or by
    -- the expiry, and that once; of an id that is not submitted with a handler there is nothing.
    pub traffic-answers :
        (now duration : ℕ) (id : String) (turns : List (Turn H))
        → submitted id turns ≤ 1
        → let (t, acts) = traffic json turns (new_traffic now duration) in
          called id acts + refused id acts + queued id t.writer_queue + pending id t.handlers
          ≡ submitted id turns
    unfolding new_handler_map lookup
    traffic-answers now duration id turns b =
        let a =
          traffic-Accounts turns id (new_traffic now duration) (record { young = tt; old = tt })
            (omega arith) in
        omega (arith, a.balance)
