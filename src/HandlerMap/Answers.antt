-- ===== src/HandlerMap/Answers.antt =====
-- Every registered handler is called at most once, and is waiting until it is called.
use cloud_sdk_go.Base.{
  ℕ, ◌+◌, ◌≤◌, ◌≡◌, refl, String, Option, none, some, List, [], ◌∷◌, ◌++◌, map, arith, Dict, lookup,
  insert, erase, lookup-insert, lookup-erase, eq_iff, str_eq, if◌then◌else◌,
}
use cloud_sdk_go.HandlerMap.Defs.{
  HandlerMap, Call, timed_out, new_handler_map, expire_check, take_handler, put_handler,
  get_and_delete, set_handler,
}
use cloud_sdk_go.HandlerMap.Lifetime.{Op, set, get, after, after_all}

-- How often an id occurs.
abbrev pub count : String → List String → ℕ
count id [] = 0
count id (x ∷ xs) = (if str_eq x id then 1 else 0) + count id xs

pub count-append :
    (id : String) (xs ys : List String) → count id (xs ++ ys) ≡ count id xs + count id ys
count-append id [] ys = omega arith
count-append id (x ∷ xs) ys = omega (arith, count-append id xs ys)

module _ {H : Type 0} where
  abbrev pub call_ids : List (Call H) → List String
  call_ids [] = []
  call_ids (c ∷ cs) = c.id ∷ call_ids cs

  abbrev pub found_id : String → Option H → List String
  found_id id none = []
  found_id id (some h) = id ∷ []

  -- The ids whose handlers one operation calls or hands to its caller, who calls them.
  unfoldable pub answers : Op H → HandlerMap H → List String
  answers (set now reset id h) m = call_ids (set_handler now reset id h m).1
  answers (get now reset id) m =
      let (found, _, calls) = get_and_delete now reset id m in call_ids calls ++ found_id id found

  unfoldable pub answers_all : List (Op H) → HandlerMap H → List String
  answers_all [] m = []
  answers_all (op ∷ ops) m = answers op m ++ answers_all ops (after op m)

  abbrev pub registers : String → Op H → ℕ
  registers id (set now reset j h) = if str_eq j id then 1 else 0
  registers id (get now reset j) = 0

  -- How often an id is registered.
  abbrev pub registrations : String → List (Op H) → ℕ
  registrations id [] = 0
  registrations id (op ∷ ops) = registers id op + registrations id ops

  abbrev pub holds : String → Dict H → ℕ
  holds id d = elim (lookup id d) [ none ↦ 0 | some _ ↦ 1 ]

  -- How many handlers wait under an id.
  abbrev pub pending : String → HandlerMap H → ℕ
  pending id m = holds id m.current_handlers + holds id m.older_handlers

  -- No id is listed twice.
  abbrev pub IsUnique : Dict H → Type 0
  IsUnique [] = Unit
  IsUnique ((k, v) ∷ d) = (lookup k d ≡ none) × IsUnique d

  insert-IsUnique : (k : String) (v : H) (d : Dict H) → IsUnique d → IsUnique (insert k v d)
  unfolding insert lookup
  insert-IsUnique k v [] u = (refl, tt)
  insert-IsUnique k v ((j, w) ∷ d) u =
      ground (arith, eq_iff j k, eq_iff k j, insert-IsUnique k v d u.1, lookup-insert j k v d)

  erase-IsUnique : (k : String) (d : Dict H) → IsUnique d → IsUnique (erase k d)
  unfolding erase
  erase-IsUnique k [] u = tt
  erase-IsUnique k ((j, w) ∷ d) u = ground (arith, erase-IsUnique k d u.1, lookup-erase j k d)

  count-timed_out :
      (id : String) (d : Dict H) → IsUnique d → count id (call_ids (map timed_out d)) ≡ holds id d
  unfolding lookup
  count-timed_out id [] u = refl
  count-timed_out id ((j, w) ∷ d) u = ground (arith, eq_iff j id, count-timed_out id d u.1)

  pub record IsWellFormed (m : HandlerMap H) : Type 0 where
    pub young : IsUnique m.current_handlers
    pub old : IsUnique m.older_handlers

  expire_check-IsWellFormed :
      (now reset : ℕ) (m : HandlerMap H)
      → IsWellFormed m
      → IsWellFormed (expire_check now reset m).0
  unfolding expire_check
  expire_check-IsWellFormed now reset m w = ground arith

  pub after-IsWellFormed :
      (op : Op H) (m : HandlerMap H) → IsWellFormed m → IsWellFormed (after op m)
  unfolding after set_handler get_and_delete put_handler take_handler
  after-IsWellFormed (set now reset id h) m w =
      let c = expire_check now reset m in
      let w' = expire_check-IsWellFormed now reset m w in
      ground (arith, insert-IsUnique id h c.0.current_handlers w'.young)
  after-IsWellFormed (get now reset id) m w =
      let c = expire_check now reset m in
      let w' = expire_check-IsWellFormed now reset m w in
      ground (
        arith,
        erase-IsUnique id c.0.current_handlers w'.young,
        erase-IsUnique id c.0.older_handlers w'.old,
      )

  expire_check-balance :
      (now reset : ℕ) (id : String) (m : HandlerMap H)
      → IsWellFormed m
      → count id (call_ids (expire_check now reset m).1) + pending id (expire_check now reset m).0
        ≡ pending id m
  unfolding expire_check lookup
  expire_check-balance now reset id m w = ground (arith, count-timed_out id m.older_handlers w.old)

  take_handler-balance :
      (id j : String) (m : HandlerMap H)
      → count id (found_id j (take_handler j m).0) + pending id (take_handler j m).1 ≡ pending id m
  unfolding take_handler
  take_handler-balance id j m =
      ground (
        arith,
        eq_iff j id,
        lookup-erase id j m.current_handlers,
        lookup-erase id j m.older_handlers,
      )

  put_handler-balance :
      (id j : String) (h : H) (m : HandlerMap H)
      → pending id m + registers id (set 0 0 j h) ≤ 1
      → pending id (put_handler j h m) ≡ pending id m + registers id (set 0 0 j h)
  unfolding put_handler
  put_handler-balance id j h m b =
      ground (arith, eq_iff j id, lookup-insert id j h m.current_handlers)

  pub step-balance :
      (id : String) (op : Op H) (m : HandlerMap H)
      → IsWellFormed m
      → pending id m + registers id op ≤ 1
      → count id (answers op m) + pending id (after op m) ≡ pending id m + registers id op
  unfolding answers after set_handler get_and_delete
  step-balance id (set now reset j h) m w b =
      let c = expire_check now reset m in
      let e = expire_check-balance now reset id m w in omega (arith, put_handler-balance id j h c.0)
  step-balance id (get now reset j) m w b =
      let c = expire_check now reset m in
      let found = (take_handler j c.0).0 in
      omega (
        arith,
        expire_check-balance now reset id m w,
        take_handler-balance id j c.0,
        count-append id (call_ids c.1) (found_id j found),
      )

  run-balance :
      (id : String) (ops : List (Op H)) (m : HandlerMap H)
      → IsWellFormed m
      → pending id m + registrations id ops ≤ 1
      → count id (answers_all ops m) + pending id (after_all ops m)
        ≡ pending id m + registrations id ops
  unfolding answers_all after_all
  run-balance id [] m w b = omega arith
  run-balance id (op ∷ ops) m w b =
      let s = step-balance id op m w (omega arith) in
      omega (
        arith,
        s,
        run-balance id ops (after op m) (after-IsWellFormed op m w) (omega (arith, s)),
        count-append id (answers op m) (answers_all ops (after op m)),
      )

  -- A handler whose id is registered at most once, in any sequence of operations on a new map, is
  -- called by the expiry, returned by `GetAndDelete` or still waiting, exactly one of these and
  -- once if it was registered, and none of these if it was not: no handler is lost and none is
  -- answered twice.
  pub answered_or_pending :
      (now duration : ℕ) (id : String) (ops : List (Op H))
      → registrations id ops ≤ 1
      → let m = new_handler_map now duration in
        count id (answers_all ops m) + pending id (after_all ops m) ≡ registrations id ops
  unfolding new_handler_map lookup
  answered_or_pending now duration id ops b =
      let balance =
        run-balance id ops (new_handler_map {H = H} now duration) (record { young = tt; old = tt })
          (omega arith) in
      omega arith
