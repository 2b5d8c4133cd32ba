-- ===== src/Backup/Text.antt =====
-- The functions of strings and slices that read the output of a backup: pkg/controllers/br/
-- backup_controller.go. Texts are taken by character; the code's are ASCII.
use matrixone_operator.Base.{
  ◌==◌, ◌=s◌, if◌then◌else◌, ℕ, zero, suc, String, ◌&&◌, Option, none, some,
}
use Prim.Native.Char.{Char, code}

-- strings.TrimPrefix, where the prefix is there.
unfoldable pub strip_prefix : String → String → Option String
strip_prefix String.[] s = some s
strip_prefix (String.◌∷◌ c p) String.[] = none
strip_prefix (String.◌∷◌ c p) (String.◌∷◌ d s) = if code c == code d then strip_prefix p s else none

abbrev longer : Char → Option (String × String) → Option (String × String)
longer c none = none
longer c (some (a, b)) = some (String.◌∷◌ c a, b)

abbrev or_here : Option String → Option (String × String) → Option (String × String)
or_here none later = later
or_here (some rest) later = some ("", rest)

-- The text before the first separator, and the one after it.
unfoldable pub cut : String → String → Option (String × String)
cut sep String.[] = none
cut sep (String.◌∷◌ c s) =
    let later = cut sep s in or_here (strip_prefix sep (String.◌∷◌ c s)) (longer c later)

-- `strings.SplitN(s, sep, 2)`, its two parts; the second is empty where there is none.
abbrev halves : String → Option (String × String) → String × String
halves s none = (s, "")
halves s (some p) = p

unfoldable pub split_once : String → String → String × String
split_once sep s = halves s (cut sep s)

abbrev one_more_part : String → Option (String × String) → Option String
one_more_part b none = some b
one_more_part b (some p) = none

abbrev of_first : String → Option (String × String) → Option String
of_first sep none = none
of_first sep (some (a, b)) = one_more_part b (cut sep b)

-- The second part of `strings.Split(s, sep)`, if there are exactly two.
unfoldable pub second_of_two : String → String → Option String
second_of_two sep s = of_first sep (cut sep s)

unfoldable pub trim_left : ℕ → String → String
trim_left x String.[] = ""
trim_left x (String.◌∷◌ c s) = if code c == x then trim_left x s else String.◌∷◌ c s

unfoldable pub trim_right : ℕ → String → String
trim_right x String.[] = ""
trim_right x (String.◌∷◌ c s) =
    let rest = trim_right x s in if code c == x && rest =s "" then "" else String.◌∷◌ c rest

-- `strings.Trim(s, string(x))`
abbrev pub trim : ℕ → String → String
trim x s = trim_right x (trim_left x s)

abbrev longer_prefix : Char → Option String → Option String
longer_prefix c none = none
longer_prefix c (some p) = some (String.◌∷◌ c p)

-- `s[:n]`, which panics where the text is shorter.
unfoldable pub prefix : ℕ → String → Option String
prefix zero s = some ""
prefix (suc n) String.[] = none
prefix (suc n) (String.◌∷◌ c s) = longer_prefix c (prefix n s)
