-- ===== src/App/Returned.antt =====
-- Which calls of the application's message handler are reported.
use cloud_sdk_go.Base.{
  ℕ, ◌+◌, ◌-◌, ◌≤◌, ◌<◌, ◌≡◌, refl, sym, ◌∙◌, Bool, true, false, List, [], ◌∷◌, ◌++◌, ℤ, pos, arith,
}
use cloud_sdk_go.App.Slow.{
  Beat, fires, ticks, returns, stops, Line, slow, still, returned, Phase, absent, armed, reminding,
  holding, begin_reminders, handler_returned, beat_line, close_watch, watch,
}

abbrev pub warned : List Line → Bool
warned [] = false
warned (slow t ∷ lines) = true
warned (still t ∷ lines) = warned lines
warned (returned t ∷ lines) = warned lines

abbrev pub reported : List Line → Bool
reported [] = false
reported (slow t ∷ lines) = reported lines
reported (still t ∷ lines) = reported lines
reported (returned t ∷ lines) = true

-- The beats before the handler returns.
abbrev pub until_return : List Beat → List Beat
until_return [] = []
until_return (fires now ∷ beats) = fires now ∷ until_return beats
until_return (ticks now ∷ beats) = ticks now ∷ until_return beats
until_return (returns now ∷ beats) = []
until_return (stops ∷ beats) = []

-- The watchdog is stopped.
abbrev pub Stops : List Beat → Type 0
Stops [] = false ≡ true
Stops (stops ∷ beats) = Unit
Stops (fires now ∷ beats) = Stops beats
Stops (ticks now ∷ beats) = Stops beats
Stops (returns now ∷ beats) = Stops beats

-- The beats before the handler returns are in the order of their times, from `t` on, the timer
-- keeps to its threshold, and the handler returns; after that come any beats and the stop.
abbrev pub IsTimely : ℕ → ℕ → ℕ → List Beat → Type 0
IsTimely limit started t [] = false ≡ true
IsTimely limit started t (fires now ∷ beats) =
    (t ≤ now) × (started + limit ≤ now) × IsTimely limit started now beats
IsTimely limit started t (ticks now ∷ beats) = (t ≤ now) × IsTimely limit started now beats
IsTimely limit started t (returns now ∷ beats) = (t ≤ now) × Stops beats
IsTimely limit started t (stops ∷ beats) = false ≡ true

reported-append : (xs ys : List Line) → reported ys ≡ true → reported (xs ++ ys) ≡ true
reported-append [] ys e = e
reported-append (slow t ∷ xs) ys e = reported-append xs ys e
reported-append (still t ∷ xs) ys e = reported-append xs ys e
reported-append (returned t ∷ xs) ys e = refl

module _ (limit : ℕ) (reminder : ℤ) (started : ℕ) where
  -- Whatever the timers do between the return and the stop.
  close_watch-reported :
      (elapsed : ℕ) (phase : Phase) (beats : List Beat)
      → 0 < limit
      → limit ≤ elapsed
      → Stops beats
      → reported (close_watch (pos limit) reminder started elapsed phase beats) ≡ true
  unfolding close_watch handler_returned
  close_watch-reported elapsed phase [] some_limit late s = absurd (ground arith)
  close_watch-reported elapsed phase (stops ∷ beats) some_limit late s = ground arith
  close_watch-reported elapsed phase (fires now ∷ beats) some_limit late s =
      let (phase', lines) = beat_line (pos limit) reminder started phase (fires now) in
      reported-append lines (close_watch (pos limit) reminder started elapsed phase' beats)
        (close_watch-reported elapsed phase' beats some_limit late s)
  close_watch-reported elapsed phase (ticks now ∷ beats) some_limit late s =
      let (phase', lines) = beat_line (pos limit) reminder started phase (ticks now) in
      reported-append lines (close_watch (pos limit) reminder started elapsed phase' beats)
        (close_watch-reported elapsed phase' beats some_limit late s)
  close_watch-reported elapsed phase (returns now ∷ beats) some_limit late s =
      let (phase', lines) = beat_line (pos limit) reminder started phase (returns now) in
      reported-append lines (close_watch (pos limit) reminder started elapsed phase' beats)
        (close_watch-reported elapsed phase' beats some_limit late s)

  late-reported :
      (phase : Phase) (t : ℕ) (beats : List Beat)
      → 0 < limit
      → started + limit ≤ t
      → IsTimely limit started t beats
      → reported (watch (pos limit) reminder started phase beats) ≡ true
  unfolding watch beat_line begin_reminders
  late-reported phase t [] s late o = absurd (ground arith)
  late-reported phase t (fires now ∷ beats) s late o =
      let (phase', lines) = beat_line (pos limit) reminder started phase (fires now) in
      reported-append lines (watch (pos limit) reminder started phase' beats)
        (late-reported phase' now beats s (omega (arith, late, o.0)) o.2)
  late-reported phase t (ticks now ∷ beats) s late o =
      let (phase', lines) = beat_line (pos limit) reminder started phase (ticks now) in
      reported-append lines (watch (pos limit) reminder started phase' beats)
        (late-reported phase' now beats s (omega (arith, late, o.0)) o.1)
  late-reported phase t (returns now ∷ beats) s late o =
      close_watch-reported (now - started) phase beats s (omega (arith, late, o.0)) o.1
  late-reported phase t (stops ∷ beats) s late o = absurd (ground arith)

  tick-unwarned :
      (phase : Phase) (now : ℕ) (rest : List Line)
      → warned ((beat_line (pos limit) reminder started phase (ticks now)).1 ++ rest) ≡ warned rest
  unfolding beat_line
  tick-unwarned absent now rest = refl
  tick-unwarned armed now rest = refl
  tick-unwarned reminding now rest = refl
  tick-unwarned holding now rest = refl

  -- A handler whose watchdog warned of it before it returned has its return reported, whatever the
  -- timers still do between the return and the stop: the threshold is positive, the timer does not
  -- call before it is over, the beats before the return come in the order of their times, and the
  -- watchdog is stopped after the return.
  pub warned-reported :
      (phase : Phase) (t : ℕ) (beats : List Beat)
      → 0 < limit
      → IsTimely limit started t beats
      → warned (watch (pos limit) reminder started phase (until_return beats)) ≡ true
      → reported (watch (pos limit) reminder started phase beats) ≡ true
  unfolding watch
  warned-reported phase t [] s o e = absurd (ground arith)
  warned-reported phase t (fires now ∷ beats) s o e =
      let (phase', lines) = beat_line (pos limit) reminder started phase (fires now) in
      reported-append lines (watch (pos limit) reminder started phase' beats)
        (late-reported phase' now beats s o.1 o.2)
  warned-reported phase t (ticks now ∷ beats) s o e =
      let (phase', lines) = beat_line (pos limit) reminder started phase (ticks now) in
      reported-append lines (watch (pos limit) reminder started phase' beats) (
        warned-reported phase' now beats s o.1 (
          sym (
            tick-unwarned phase now
              (watch (pos limit) reminder started phase' (until_return beats)))
          ∙ e))
  warned-reported phase t (returns now ∷ beats) s o e = absurd (ground arith)
  warned-reported phase t (stops ∷ beats) s o e = absurd (ground arith)
