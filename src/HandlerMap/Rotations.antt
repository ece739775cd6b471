-- ===== src/HandlerMap/Rotations.antt =====
-- How long a handler stays in a map that two goroutines use.
use cloud_sdk_go.Base.{
  ℕ, zero, suc, ◌+◌, ◌-◌, ◌≤◌, ◌≡◌, refl, subst, str_eq, ltb, ◌≢◌, ◌⊎◌, inl, inr, String, Bool,
  true, false, none, some, List, [], ◌∷◌, ◌++◌, map, arith, Dict, lookup, insert, lookup-insert,
  lookup-erase, eq_iff, eq_refl, All, if◌then◌else◌, Bool-cases,
}
use cloud_sdk_go.HandlerMap.Defs.{
  HandlerMap, Call, timed_out, take_handler, put_handler, rotate, is_expired,
}
use cloud_sdk_go.HandlerMap.Sections.{
  Shared, Goroutine, writer, processor, Section, tests, rotates, puts, takes, is_due, set_due,
  rotate_due, section, sections,
}

module _ {H : Type 0} where
  -- A section does not access the handler of an id.
  abbrev pub Spares : String → Section H → Type 0
  Spares id (puts j h) = j ≢ id
  Spares id (takes j) = j ≢ id
  Spares id _ = Unit

  -- Whether a section rotates the generations.
  abbrev pub turns : Section H → Shared H → ℕ
  turns (rotates g reset) s = if is_due g s then 1 else 0
  turns _ s = 0

  -- How many rotations there are in a run.
  abbrev pub rotations : List (Section H) → Shared H → ℕ
  rotations [] s = 0
  rotations (x ∷ xs) s = turns x s + rotations xs (section x s).0

  -- The handler survives one more rotation, or none.
  abbrev Stays : String → H → ℕ → HandlerMap H → Type 0
  Stays id h zero m =
      (lookup id m.current_handlers ≡ some h)
      ⊎ ((lookup id m.current_handlers ≡ none) × (lookup id m.older_handlers ≡ some h))
  Stays id h (suc n) m = lookup id m.current_handlers ≡ some h

  Stays-weaker : (id : String) (h : H) (n : ℕ) (m : HandlerMap H) → Stays id h n m → Stays id h 0 m
  Stays-weaker id h zero m s = s
  Stays-weaker id h (suc n) m s = inl s

  put_handler-Stays :
      (id j : String) (g h : H) (n : ℕ) (m : HandlerMap H)
      → j ≢ id
      → Stays id h n m
      → Stays id h n (put_handler j g m)
  unfolding put_handler
  put_handler-Stays id j g h zero m ne s =
      ground (arith, lookup-insert id j g m.current_handlers, eq_iff j id)
  put_handler-Stays id j g h (suc n) m ne s =
      ground (arith, lookup-insert id j g m.current_handlers, eq_iff j id)

  take_handler-Stays :
      (id j : String) (h : H) (n : ℕ) (m : HandlerMap H)
      → j ≢ id
      → Stays id h n m
      → Stays id h n (take_handler j m).1
  unfolding take_handler
  take_handler-Stays id j h zero m ne s =
      ground (
        arith,
        lookup-erase id j m.current_handlers,
        lookup-erase id j m.older_handlers,
        eq_iff j id,
      )
  take_handler-Stays id j h (suc n) m ne s =
      ground (arith, lookup-erase id j m.current_handlers, eq_iff j id)

  rotate-Stays :
      (id : String) (h : H) (reset : ℕ) (m : HandlerMap H)
      → Stays id h 1 m
      → Stays id h 0 (rotate reset m).0
  unfolding lookup
  rotate-Stays id h reset m s = inr (refl, s)

  found : (id : String) (h : H) (m : HandlerMap H) → Stays id h 0 m → (take_handler id m).0 ≡ some h
  unfolding take_handler
  found id h m s = ground arith

  set_due-handlers :
      (g : Goroutine) (b : Bool) (s : Shared H) → (set_due g b s).handlers ≡ s.handlers
  set_due-handlers writer b s = refl
  set_due-handlers processor b s = refl

  same-Stays :
      (id : String) (h : H) (n m : ℕ) (hm : HandlerMap H)
      → n ≡ m
      → Stays id h n hm
      → Stays id h m hm
  same-Stays id h n m hm e k = subst (λ i. Stays id h i hm) e k

  rotate_due-Stays :
      (g : Goroutine) (reset : ℕ) (id : String) (h : H) (n m : ℕ) (s : Shared H)
      → m + (if is_due g s then 1 else 0) ≡ n
      → n ≤ 1
      → Stays id h n s.handlers
      → Stays id h m (rotate_due g reset s).0.handlers
  unfolding rotate_due
  rotate_due-Stays g reset id h n m s e b k = elim (Bool-cases (is_due g s)) [
    | inl due ↦
        let e1 : m + 1 ≡ n = rw due at e in
        let rotated = (rotate reset s.handlers).0 in
        let k1 =
          rotate-Stays id h reset s.handlers (same-Stays id h n 1 s.handlers (omega arith) k) in
        let k2 = same-Stays id h 0 m rotated (omega arith) k1 in
        simp (due, set_due-handlers g false (record s { handlers = rotated })) k2
    | inr idle ↦
        let e0 : m + 0 ≡ n = rw idle at e in
        simp idle (same-Stays id h n m s.handlers (omega arith) k)
  ]

  -- The handler survives `n` rotations, of which a section may be one.
  section-Stays :
      (x : Section H) (id : String) (h : H) (n m : ℕ) (s : Shared H)
      → Spares id x
      → m + turns x s ≡ n
      → n ≤ 1
      → Stays id h n s.handlers
      → Stays id h m (section x s).0.handlers
  unfolding section
  section-Stays (tests g now) id h n m s o e b k =
      rw (set_due-handlers g (is_expired now s.handlers) s)
        (same-Stays id h n m s.handlers (omega arith) k)
  section-Stays (rotates g reset) id h n m s o e b k = rotate_due-Stays g reset id h n m s e b k
  section-Stays (puts j f) id h n m s o e b k =
      put_handler-Stays id j f h m s.handlers o (same-Stays id h n m s.handlers (omega arith) k)
  section-Stays (takes j) id h n m s o e b k =
      take_handler-Stays id j h m s.handlers o (same-Stays id h n m s.handlers (omega arith) k)

  sections-Stays :
      (xs : List (Section H)) (id : String) (h : H) (n : ℕ) (s : Shared H)
      → All (Spares id) xs
      → rotations xs s ≤ n
      → n ≤ 1
      → Stays id h n s.handlers
      → Stays id h 0 (sections xs s).0.handlers
  unfolding sections
  sections-Stays [] id h n s o r b k = Stays-weaker id h n s.handlers k
  sections-Stays (x ∷ xs) id h n s o r b k =
      let m = n - turns x s in
      sections-Stays xs id h m (section x s).0 o.1 (omega arith) (omega arith)
        (section-Stays x id h n m s o.0 (omega arith) b k)

  -- With two goroutines at work on the map, a handler that was put is found by a `GetAndDelete` for
  -- its id after any sections of theirs that do not access it and among which the generations rotate
  -- once at most, whatever the tests before it said.
  pub put-take_within_rotation :
      (xs : List (Section H)) (id : String) (h : H) (s : Shared H)
      → All (Spares id) xs
      → let set : Shared H = record s { handlers = put_handler id h s.handlers } in
        rotations xs set ≤ 1 → (take_handler id (sections xs set).0.handlers).0 ≡ some h
  unfolding put_handler
  put-take_within_rotation xs id h s o r =
      let set : Shared H = record s { handlers = put_handler id h s.handlers } in
      found id h (sections xs set).0.handlers
        (sections-Stays xs id h 1 set o r (omega arith) (simp (lookup-insert, eq_refl)))

  -- The handler of an id is called with the time-out of the id.
  abbrev pub IsTimedOut : String → H → List (Call H) → Type 0
  IsTimedOut id h [] = false ≡ true
  IsTimedOut id h (c ∷ cs) = (c ≡ timed_out (id, h)) ⊎ IsTimedOut id h cs

  lookup-IsTimedOut :
      (id : String) (h : H) (d : Dict H) → lookup id d ≡ some h → IsTimedOut id h (map timed_out d)
  unfolding lookup
  lookup-IsTimedOut id h [] e = absurd (ground arith)
  lookup-IsTimedOut id h ((j, f) ∷ d) e = elim (Bool-cases (str_eq j id)) [
    | inl same ↦
        let e1 : some f ≡ some h = rw same at e in inl (ground (arith, eq_iff j id, same, e1))
    | inr other ↦ inr (lookup-IsTimedOut id h d (rw other at e))
  ]

  IsTimedOut-before :
      (id : String) (h : H) (xs ys : List (Call H))
      → IsTimedOut id h xs
      → IsTimedOut id h (xs ++ ys)
  IsTimedOut-before id h [] ys e = absurd (ground arith)
  IsTimedOut-before id h (x ∷ xs) ys (inl e) = inl e
  IsTimedOut-before id h (x ∷ xs) ys (inr e) = inr (IsTimedOut-before id h xs ys e)

  IsTimedOut-after :
      (id : String) (h : H) (xs ys : List (Call H))
      → IsTimedOut id h ys
      → IsTimedOut id h (xs ++ ys)
  IsTimedOut-after id h [] ys e = e
  IsTimedOut-after id h (x ∷ xs) ys e = inr (IsTimedOut-after id h xs ys e)

  -- Two goroutines that both pass the test before either rotates take the generations round twice:
  -- a handler that was only just put is timed out and is not found any more, however long the
  -- duration of the map is.
  pub double_rotation-times_out :
      (m : HandlerMap H) (id : String) (h : H) (now later reset reset' : ℕ)
      → m.new_expire_time ≤ now
      → m.new_expire_time ≤ later
      → let before : Shared H = record {
        handlers = put_handler id h m;
        writer_due = false;
        processor_due = false;
      } in
        let (after, calls) =
          sections
            (tests writer now
              ∷ tests processor later
              ∷ rotates writer reset
              ∷ rotates processor reset'
              ∷ [])
            before in
        ((take_handler id after.handlers).0 ≡ none) × IsTimedOut id h calls
  unfolding sections section rotate_due put_handler take_handler lookup
  double_rotation-times_out m id h now later reset reset' a b =
      let current = insert id h m.current_handlers in
      let due : ltb now m.new_expire_time ≡ false = ground arith in
      let due_too : ltb later m.new_expire_time ≡ false = ground arith in
      let calls = lookup-IsTimedOut id h current (simp (lookup-insert, eq_refl)) in
      rw (due, due_too)
        (
          refl,
          IsTimedOut-after id h (map timed_out m.older_handlers) (map timed_out current ++ [])
              (IsTimedOut-before id h (map timed_out current) [] calls),
        )
