-- ===== src/Log.antt =====
-- The default logger (log/log.go).
--
-- A line is its level and its text; the time and the place of the call that it also prints are left
-- out. A level is a number, which an application may set to any.
use cloud_sdk_go.Base.{ℕ, ◌≤◌, ◌≡◌, refl, arith, String, List, [], ◌∷◌, leb, if◌then◌else◌}

pub data Call : Type 0 where
  debugf infof warnf errorf : (text : String) → Call

abbrev log_level_debug : ℕ
log_level_debug = 0

abbrev log_level_info : ℕ
log_level_info = 1

abbrev log_level_warning : ℕ
log_level_warning = 2

abbrev log_level_error : ℕ
log_level_error = 3

pub record Line : Type 0 where
  pub level : String
  pub text : String

abbrev level_of : Call → ℕ
level_of (debugf text) = log_level_debug
level_of (infof text) = log_level_info
level_of (warnf text) = log_level_warning
level_of (errorf text) = log_level_error

abbrev line : Call → Line
line (debugf text) = record { level = "DEBUG"; text = text }
line (infof text) = record { level = "INFO"; text = text }
line (warnf text) = record { level = "WARN"; text = text }
line (errorf text) = record { level = "ERROR"; text = text }

-- What a logger of a level prints.
unfoldable pub log_calls : ℕ → List Call → List Line
log_calls level [] = []
log_calls level (c ∷ calls) =
    let rest = log_calls level calls in if leb level (level_of c) then line c ∷ rest else rest

-- The calls of a level or above.
abbrev pub at_least : ℕ → List Call → List Call
at_least level [] = []
at_least level (c ∷ calls) =
    let rest = at_least level calls in if leb level (level_of c) then c ∷ rest else rest

-- A logger prints of some calls what a logger of a lower level prints of those that are above its
-- own level: raising the level leaves lines out and changes nothing else.
pub log_calls-at_least :
    (low high : ℕ) (calls : List Call)
    → low ≤ high
    → log_calls high calls ≡ log_calls low (at_least high calls)
unfolding log_calls
log_calls-at_least low high [] h = refl
log_calls-at_least low high (c ∷ calls) h =
    let rest = log_calls-at_least low high calls h in ground arith
