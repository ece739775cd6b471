-- ===== src/App/Text.antt =====
-- `strings.TrimSpace`, which app.go applies to its configuration.
use Prim.Native.Char.{Char, code}
use Prim.Native.String.{String}
use cloud_sdk_go.Base.{
  ◌≡◌, refl, Bool, false, ◌||◌, ◌&&◌, leb, ◌==◌, Bool-cases, inl, inr, is_empty, if◌then◌else◌,
}

-- `unicode.IsSpace`
unfoldable pub is_space : Char → Bool
is_space c =
    let n = code c in
    (leb 9 n && leb n 13)
    || (n == 32)
    || (n == 133)
    || (n == 160)
    || (n == 5760)
    || (leb 8192 n && leb n 8202)
    || (n == 8232)
    || (n == 8233)
    || (n == 8239)
    || (n == 8287)
    || (n == 12288)

unfoldable pub trim_left : String → String
trim_left String.[] = String.[]
trim_left (String.◌∷◌ c s) = let rest = trim_left s in if is_space c then rest else String.◌∷◌ c s

-- A character before the trimmed rest of a text.
unfoldable pub keep : Char → String → String
keep c String.[] = if is_space c then String.[] else String.◌∷◌ c String.[]
keep c (String.◌∷◌ d s) = String.◌∷◌ c (String.◌∷◌ d s)

unfoldable pub trim_right : String → String
unfolding keep
trim_right String.[] = String.[]
trim_right (String.◌∷◌ c s) = keep c (trim_right s)

unfoldable pub trim_space : String → String
unfolding trim_left trim_right
trim_space s = trim_right (trim_left s)

-- A text without white space at its ends.
abbrev pub Trims : String → Type 0
Trims String.[] = Unit
Trims (String.◌∷◌ c s) = is_space c ≡ false

trim_left-Trims : (s : String) → Trims (trim_left s)
unfolding trim_left
trim_left-Trims String.[] = tt
trim_left-Trims (String.◌∷◌ c s) = elim (Bool-cases (is_space c)) [
  | inl e ↦ rw e (trim_left-Trims s)
  | inr e ↦ rw e e
]

trim_left_self : (s : String) → Trims s → trim_left s ≡ s
unfolding trim_left
trim_left_self String.[] t = refl
trim_left_self (String.◌∷◌ c s) t = rw t

keep-keep : (c : Char) (s : String) → trim_right s ≡ s → trim_right (keep c s) ≡ keep c s
unfolding trim_right keep
keep-keep c String.[] e = elim (Bool-cases (is_space c)) [ inl p ↦ rw p | inr p ↦ rw p (rw p) ]
keep-keep c (String.◌∷◌ d s) e = rw e

trim_right_idem : (s : String) → trim_right (trim_right s) ≡ trim_right s
unfolding trim_right
trim_right_idem String.[] = refl
trim_right_idem (String.◌∷◌ c s) = keep-keep c (trim_right s) (trim_right_idem s)

keep-Trims : (c : Char) (s : String) → is_space c ≡ false → Trims (keep c s)
unfolding keep
keep-Trims c String.[] e = rw e e
keep-Trims c (String.◌∷◌ d s) e = e

trim_right-Trims : (s : String) → Trims s → Trims (trim_right s)
unfolding trim_right
trim_right-Trims String.[] t = tt
trim_right-Trims (String.◌∷◌ c s) t = keep-Trims c (trim_right s) t

-- Trimming a trimmed text changes nothing.
pub trim_space_idem : (s : String) → trim_space (trim_space s) ≡ trim_space s
unfolding trim_space
trim_space_idem s =
    rw
      (trim_left_self (trim_right (trim_left s))
        (trim_right-Trims (trim_left s) (trim_left-Trims s)))
      (trim_right_idem (trim_left s))

keep-filled : (c : Char) (s : String) → is_space c ≡ false → is_empty (keep c s) ≡ false
unfolding keep
keep-filled c String.[] e = rw e
keep-filled c (String.◌∷◌ d s) e = refl

-- A text that begins with a visible character is not blank.
pub trim_space-filled :
    (c : Char) (s : String) → is_space c ≡ false → is_empty (trim_space (String.◌∷◌ c s)) ≡ false
unfolding trim_space trim_left trim_right
trim_space-filled c s e = rw e (keep-filled c (trim_right s) e)
