-- ===== src/Config/Text.antt =====
-- The functions of Go's `strings` and `strconv` that backend/internal/config/config.go calls, on texts. A Go
-- string that is not UTF-8 has no counterpart here.
use Prim.Native.Char.{Char, code}
use maelstromhub.Prelude.{
  ℕ, ◌+◌, ◌-◌, ◌*◌, ◌^◌, Bool, true, false, ◌&&◌, ◌||◌, Option, none, some, List, [], ◌∷◌, String,
  leb, ltb, ◌==◌, if◌then◌else◌,
}
use maelstromhub.Prelude.Int.{ℤ, pos, sub_ℕ}

abbrev pub is : Char → Char → Bool
is d c = code c == code d

-- `unicode.IsSpace`
abbrev pub is_space : Char → Bool
is_space c =
    let n = code c in
    (leb 9 n && leb n 13)
    || (n == 32
        || (n == 133
            || (n == 160
                || (n == 5760
                    || ((leb 8192 n && leb n 8202)
                        || (n == 8232
                            || (n == 8233 || (n == 8239 || (n == 8287 || n == 12288)))))))))

unfoldable pub trim_left : String → String
trim_left String.[] = ""
trim_left (String.◌∷◌ c s) = let rest = trim_left s in if is_space c then rest else String.◌∷◌ c s

-- a character in front of a text, unless it is a space at the end
abbrev pub unless_last_space : Char → String → String
unless_last_space c String.[] = if is_space c then "" else String.◌∷◌ c ""
unless_last_space c (String.◌∷◌ d s) = String.◌∷◌ c (String.◌∷◌ d s)

unfoldable pub trim_right : String → String
trim_right String.[] = ""
trim_right (String.◌∷◌ c s) = unless_last_space c (trim_right s)

-- `strings.TrimSpace`
abbrev pub trim_space : String → String
trim_space s = trim_right (trim_left s)

abbrev pub onto_first : Char → List String → List String
onto_first c [] = String.◌∷◌ c "" ∷ []
onto_first c (part ∷ parts) = String.◌∷◌ c part ∷ parts

-- `strings.Split` at one character
unfoldable pub split_at : Char → String → List String
split_at d String.[] = "" ∷ []
split_at d (String.◌∷◌ c s) =
    let parts = split_at d s in if is d c then "" ∷ parts else onto_first c parts

abbrev pub onto_before : Char → Option (String × String) → Option (String × String)
onto_before c none = none
onto_before c (some (before, after)) = some (String.◌∷◌ c before, after)

-- `strings.Cut` at one character
unfoldable pub cut : Char → String → Option (String × String)
cut d String.[] = none
cut d (String.◌∷◌ c s) = let rest = cut d s in if is d c then some ("", s) else onto_before c rest

-- `strings.ToLower` on the letters of ASCII; the texts that the results are compared with have no others
abbrev pub lower : Char → ℕ
lower c = if leb 65 (code c) && leb (code c) 90 then code c + 32 else code c

unfoldable pub lower_eq : String → String → Bool
lower_eq String.[] String.[] = true
lower_eq String.[] (String.◌∷◌ d t) = false
lower_eq (String.◌∷◌ c s) String.[] = false
lower_eq (String.◌∷◌ c s) (String.◌∷◌ d t) = lower c == code d && lower_eq s t

abbrev pub is_digit : Char → Bool
is_digit c = leb 48 (code c) && leb (code c) 57

-- the number that digits spell behind `n`
unfoldable pub scan : String → ℕ → Option ℕ
scan String.[] n = some n
scan (String.◌∷◌ c s) n =
    let rest = scan s (n * 10 + (code c - 48)) in if is_digit c then rest else none

abbrev pub magnitude : String → Option ℕ
magnitude String.[] = none
magnitude (String.◌∷◌ c s) = scan (String.◌∷◌ c s) 0

abbrev pub positive : Option ℕ → Option ℤ
positive none = none
positive (some n) = if ltb n (2 ^ 63) then some (pos n) else none

abbrev pub negative : Option ℕ → Option ℤ
negative none = none
negative (some n) = if leb n (2 ^ 63) then some (sub_ℕ 0 n) else none

-- `strconv.Atoi`, with none for an error
unfoldable pub atoi : String → Option ℤ
atoi String.[] = none
atoi (String.◌∷◌ c s) =
    if is "-" c
    then negative (magnitude s)
    else if is "+" c
    then positive (magnitude s)
    else positive (magnitude (String.◌∷◌ c s))
