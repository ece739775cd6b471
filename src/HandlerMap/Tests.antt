-- ===== src/HandlerMap/Tests.antt =====
-- Tests of the handler map and instances of its theorems, with texts as handlers.
use cloud_sdk_go.Base.{
  ◌≡◌, refl, true, false, none, String, ◌+◌, some, [], ◌∷◌, List, lookup, insert, erase, arith,
  eq_iff,
}
use cloud_sdk_go.HandlerMap.Defs.{
  HandlerMap, new_handler_map, get_and_delete, set_handler, put_handler, take_handler,
}
use cloud_sdk_go.HandlerMap.Lifetime.{Op, set, get, after, after_all}
use cloud_sdk_go.HandlerMap.Sections.{
  Shared, writer, processor, Section, tests, rotates, puts, takes, section, sections, rotate_due,
}
use cloud_sdk_go.HandlerMap.Rotations.{
  IsTimedOut, put-take_within_rotation, double_rotation-times_out,
}
use cloud_sdk_go.HandlerMap.Answers.{answers, answers_all, count, pending, answered_or_pending}

abbrev empty : HandlerMap String
empty = new_handler_map 0 100

abbrev shared : Shared String
shared = record { handlers = empty; writer_due = false; processor_due = true }

-- The processor's test was passed before "a" is put, and it rotates after.
abbrev between : List (Section String)
between =
    rotates processor 120 ∷ takes "c" ∷ tests writer 130 ∷ rotates writer 131 ∷ puts "b" "g" ∷ []

put-take_within_rotation_example :
    let set : Shared String = record shared { handlers = put_handler "a" "f" empty } in
    (take_handler "a" (sections between set).0.handlers).0 ≡ some "f"
unfolding put_handler section rotate_due take_handler new_handler_map lookup
put-take_within_rotation_example =
    put-take_within_rotation between "a" "f" shared
      (tt, (ground (arith, eq_iff "c" "a"), (tt, (tt, (ground (arith, eq_iff "b" "a"), tt)))))
      (omega arith)

double_rotation-times_out_example :
    let before : Shared String = record {
      handlers = put_handler "a" "f" empty;
      writer_due = false;
      processor_due = false;
    } in
    let (after, calls) =
      sections
        (tests writer 100 ∷ tests processor 100 ∷ rotates writer 101 ∷ rotates processor 102 ∷ [])
        before in
    ((take_handler "a" after.handlers).0 ≡ none) × IsTimedOut "a" "f" calls
unfolding new_handler_map
double_rotation-times_out_example =
    double_rotation-times_out empty "a" "f" 100 100 101 102 (omega arith) (omega arith)

abbrev session : List (Op String)
session = set 10 10 "a" "f" ∷ set 120 120 "b" "g" ∷ get 300 300 "b" ∷ get 310 310 "a" ∷ []

session_answers : answers_all session empty ≡ "a" ∷ "b" ∷ []
unfolding answers_all answers after new_handler_map set_handler get_and_delete lookup insert erase
session_answers = refl

answered_or_pending_example :
    count "a" (answers_all session empty) + pending "a" (after_all session empty) ≡ 1
answered_or_pending_example = answered_or_pending 0 100 "a" session (omega arith)
