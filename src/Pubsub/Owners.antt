-- ===== src/Pubsub/Owners.antt =====
-- Under whose id a handler stands in the map, and whom a response reaches.
use cloud_sdk_go.Base.{
  ℕ, ◌≤◌, ◌≡◌, inl, inr, String, Option, none, some, List, [], ◌∷◌, map, arith, length, ltb,
  Bool-cases, Option-cases, All, Dict, lookup, insert, erase, eq_iff,
}
use cloud_sdk_go.Rpc.Messages.{Response, new_error_response}
use cloud_sdk_go.HandlerMap.Defs.{
  HandlerMap, timed_out, expire_check, take_handler, put_handler, set_handler,
}
use cloud_sdk_go.Pubsub.Traffic.{MsgRequest, Traffic, Act, calls, Turn, submits, register, answer}

-- The id of the request with which a handler was submitted is a function of the handler.
module _ {H : Type 0} (registered : H → String) where
  -- A handler is called with a response that bears the id of the handler's own request.
  abbrev pub IsMatched : Act H → Type 0
  IsMatched (calls c) = c.response.id ≡ registered c.handler
  IsMatched _ = Unit

  -- A request that has a handler bears the handler's id.
  abbrev pub IsOwn : MsgRequest H → Type 0
  IsOwn m = elim m.handler [ none ↦ Unit | some h ↦ registered h ≡ m.request.id ]

  abbrev pub IsOwnTurn : Turn H → Type 0
  IsOwnTurn (submits m) = IsOwn m
  IsOwnTurn _ = Unit

  -- Every handler stands under its own id.
  abbrev pub Kept : Dict H → Type 0
  Kept [] = Unit
  Kept ((id, h) ∷ d) = (registered h ≡ id) × Kept d

  pub record IsKept (h : HandlerMap H) : Type 0 where
    pub young : Kept h.current_handlers
    pub old : Kept h.older_handlers

  pub insert-Kept :
      (id : String) (h : H) (d : Dict H) → registered h ≡ id → Kept d → Kept (insert id h d)
  unfolding insert
  insert-Kept id h [] e k = (e, tt)
  insert-Kept id h ((j, g) ∷ d) e k =
      ground (arith, eq_iff j id, eq_iff id j, insert-Kept id h d e k.1)

  pub erase-Kept : (id : String) (d : Dict H) → Kept d → Kept (erase id d)
  unfolding erase
  erase-Kept id [] k = tt
  erase-Kept id ((j, g) ∷ d) k = ground (arith, erase-Kept id d k.1)

  -- What is found under an id is registered under it.
  abbrev pub Found : String → Option H → Type 0
  Found id found = elim found [ none ↦ Unit | some h ↦ registered h ≡ id ]

  pub lookup-Found : (id : String) (d : Dict H) → Kept d → Found id (lookup id d)
  unfolding lookup
  lookup-Found id [] k = tt
  lookup-Found id ((j, g) ∷ d) k = ground (arith, eq_iff j id, eq_iff id j, lookup-Found id d k.1)

  -- The channels hold 64 messages at most and their requests have their own handlers, as has the
  -- map.
  pub record IsWell (t : Traffic H) : Type 0 where
    pub writer : length t.writer_queue ≤ 64
    pub reader : length t.reader_queue ≤ 64
    pub own : All IsOwn t.writer_queue
    pub kept : IsKept t.handlers

  pub record Matches (after : Traffic H × List (Act H)) : Type 0 where
    pub well : IsWell after.0
    pub matched : All IsMatched after.1

  pub timed_out-IsMatched :
      (d : List (String × H)) → Kept d → All IsMatched (map calls (map timed_out d))
  unfolding new_error_response
  timed_out-IsMatched [] k = tt
  timed_out-IsMatched ((id, h) ∷ d) k = (cc, timed_out-IsMatched d k.1)

  pub record Checks (after : HandlerMap H) (expired : List (Act H)) : Type 0 where
    pub kept : IsKept after
    pub matched : All IsMatched expired

  pub expire_check-Checks :
      (now reset : ℕ) (h : HandlerMap H)
      → IsKept h
      → Checks (expire_check now reset h).0 (map calls (expire_check now reset h).1)
  unfolding expire_check
  expire_check-Checks now reset h k = elim (Bool-cases (ltb now h.new_expire_time)) [
    | inl young ↦ rw young (record { kept = k; matched = tt })
    | inr old ↦ rw old (record {
      kept = record { young = tt; old = k.young };
      matched = timed_out-IsMatched h.older_handlers k.old;
    })
  ]

  pub register-Checks :
      (now reset : ℕ) (m : MsgRequest H) (h : HandlerMap H)
      → IsOwn m
      → IsKept h
      → Checks (register now reset m h).0 (map calls (register now reset m h).1)
  unfolding register set_handler put_handler
  register-Checks now reset m h o k = elim (Option-cases m.handler) [
    | inl e ↦ rw (e, register) (record { kept = k; matched = tt })
    | inr (f, e) ↦
        let own : registered f ≡ m.request.id = rw e at o in
        let c = expire_check-Checks now reset h k in
        let checked = (expire_check now reset h).0 in
        rw (e, register)
          (record {
            kept = record {
              young = insert-Kept m.request.id f checked.current_handlers own c.kept.young;
              old = c.kept.old;
            };
            matched = c.matched;
          })
  ]

  pub take_handler-Found :
      (id : String) (h : HandlerMap H)
      → IsKept h
      → IsKept (take_handler id h).1 × Found id (take_handler id h).0
  unfolding take_handler
  take_handler-Found id h k =
      let young = lookup-Found id h.current_handlers k.young in
      let old = lookup-Found id h.older_handlers k.old in
      ground (
        arith,
        erase-Kept id h.current_handlers k.young,
        erase-Kept id h.older_handlers k.old,
        young,
        old,
      )

  pub answer-IsMatched :
      (found : Option H) (resp : Response)
      → Found resp.id found
      → All IsMatched (answer resp.id found resp)
  answer-IsMatched none resp f = tt
  answer-IsMatched (some h) resp f = (cc, tt)
