-- ===== src/Config/RoundTrip.antt =====
-- A setting that is written out as `key=weight,...` and what `parseWeights` (backend/internal/config/config.go)
-- reads from it.
use Prim.Native.Char.{Char, code}
use mathlib.Core.List.{foldl}
use text.Mathlib.Text.{◌==◌ as str_eq}
use text.Mathlib.TextEquality.{eq_iff}
use text.Mathlib.TextLemmas.{cons≢nil}
use maelstromhub.Prelude.{
  ℕ, ◌+◌, ◌-◌, ◌*◌, ◌^◌, ◌<◌, ◌≡◌, refl, Bool, true, false, ◌&&◌, some, List, [], ◌∷◌, String, map,
  ltb, All, All-map, arith, Bool-cases, inl, inr,
}
use maelstromhub.Prelude.Int.{ℤ, pos, ltb_ℤ}
use maelstromhub.Prelude.Dict.{Dict, insert}
use maelstromhub.Config.Text.{is, is_digit, trim_left, trim_right, split_at, cut, scan, atoi}
use maelstromhub.Config.{trimmed_parts, split, put_pair, weights_loop, parse_weights}
use maelstromhub.Config.Parts.{
  Each, Each-imp, no_space, entry, join, trim_space-eq, free_of, split_at-join, cut-entry,
}

-- the number that digits spell behind `n`
unfoldable pub spelled : ℕ → String → ℕ
spelled n String.[] = n
spelled n (String.◌∷◌ c s) = spelled (n * 10 + (code c - 48)) s

scan-spelled : (s : String) (n : ℕ) → Each is_digit s → scan s n ≡ some (spelled n s)
unfolding scan spelled
scan-spelled String.[] n h = refl
scan-spelled (String.◌∷◌ c s) n (h, hs) = rw h (scan-spelled s (n * 10 + (code c - 48)) hs)

atoi-spelled :
    (s : String)
    → Each is_digit s
    → 0 < spelled 0 s
    → spelled 0 s < 2 ^ 63
    → atoi s ≡ some (pos (spelled 0 s))
unfolding atoi spelled
atoi-spelled String.[] h more small = absurd (omega arith)
atoi-spelled (String.◌∷◌ c s) (h, hs) more small =
    let minus : is "-" c ≡ false = ground (arith, h) in
    let plus : is "+" c ≡ false = ground (arith, h) in
    let fits : ltb (spelled 0 (String.◌∷◌ c s)) (2 ^ 63) ≡ true = ground (arith, small) in
    rw (minus, plus, scan-spelled (String.◌∷◌ c s) 0 (h, hs), fits) refl

-- a character that a key may have: no space, comma or `=`
abbrev pub is_key_char : Char → Bool
is_key_char c = no_space c && (free_of "," c && free_of "=" c)

-- a key, and the digits of a positive number that fits an `int`
abbrev pub IsEntry : String × String → Type 0
IsEntry (key, digits) =
    Each is_key_char key
    × Each is_digit digits
    × (0 < spelled 0 digits)
    × (spelled 0 digits < 2 ^ 63)

-- what is written for an entry, and what the map is to have for it
abbrev pub text_of : String × String → String
text_of (key, digits) = entry key digits

abbrev pub set_entry : Dict ℤ → String × String → Dict ℤ
set_entry weights (key, digits) = insert key (pos (spelled 0 digits)) weights

Each-entry :
    (p : Char → Bool) (key digits : String)
    → Each p key
    → p "=" ≡ true
    → Each p digits
    → Each p (entry key digits)
unfolding entry
Each-entry p String.[] digits h e k = (e, k)
Each-entry p (String.◌∷◌ c key) digits (h, hs) e k = (h, Each-entry p key digits hs e k)

cons-ne_empty : (c : Char) (s : String) → str_eq (String.◌∷◌ c s) "" ≡ false
cons-ne_empty c s = elim (Bool-cases (str_eq (String.◌∷◌ c s) "")) [
  | inl same ↦ absurd (cons≢nil ((eq_iff (String.◌∷◌ c s) "").0 same))
  | inr other ↦ other
]

entry-ne-nil : (key digits : String) → str_eq (entry key digits) "" ≡ false
unfolding entry
entry-ne-nil String.[] digits = cons-ne_empty "=" digits
entry-ne-nil (String.◌∷◌ c key) digits = cons-ne_empty c (entry key digits)

digit_no_space : (c : Char) → is_digit c ≡ true → no_space c ≡ true
digit_no_space c h = ground (arith, h)

digit_no_comma : (c : Char) → is_digit c ≡ true → free_of "," c ≡ true
digit_no_comma c h = ground (arith, h)

key_no_space : (c : Char) → is_key_char c ≡ true → no_space c ≡ true
key_no_space c h = ground (arith, h)

key_no_comma : (c : Char) → is_key_char c ≡ true → free_of "," c ≡ true
key_no_comma c h = ground (arith, h)

key_no_equals : (c : Char) → is_key_char c ≡ true → free_of "=" c ≡ true
key_no_equals c h = ground (arith, h)

entry_no_space : (e : String × String) → IsEntry e → Each no_space (text_of e)
entry_no_space (key, digits) (k, ds, more, small) =
    Each-entry no_space key digits (Each-imp is_key_char no_space key key_no_space k) refl
      (Each-imp is_digit no_space digits digit_no_space ds)

entry_no_comma : (e : String × String) → IsEntry e → Each (free_of ",") (text_of e)
entry_no_comma (key, digits) (k, ds, more, small) =
    Each-entry (free_of ",") key digits (Each-imp is_key_char (free_of ",") key key_no_comma k) refl
      (Each-imp is_digit (free_of ",") digits digit_no_comma ds)

trimmed_parts-entries :
    (entries : List (String × String))
    → All IsEntry entries
    → trimmed_parts (map text_of entries) ≡ map text_of entries
unfolding trimmed_parts
trimmed_parts-entries [] h = refl
trimmed_parts-entries ((key, digits) ∷ entries) (h, hs) =
    rw
      (
        trim_space-eq (entry key digits) (entry_no_space (key, digits) h),
        entry-ne-nil key digits,
        trimmed_parts-entries entries hs,
      )
      refl

put_pair-entry :
    (e : String × String) (weights : Dict ℤ)
    → IsEntry e
    → put_pair (cut "=" (text_of e)) weights ≡ set_entry weights e
put_pair-entry (key, digits) weights (k, ds, more, small) =
    let positive : ltb_ℤ (pos 0) (pos (spelled 0 digits)) ≡ true = ground (arith, more) in
    rw
      (
        cut-entry key digits (Each-imp is_key_char (free_of "=") key key_no_equals k),
        trim_space-eq digits (Each-imp is_digit no_space digits digit_no_space ds),
        atoi-spelled digits ds more small,
        positive,
        trim_space-eq key (Each-imp is_key_char no_space key key_no_space k),
      )
      refl

weights_loop-entries :
    (entries : List (String × String)) (weights : Dict ℤ)
    → All IsEntry entries
    → weights_loop (map text_of entries) weights ≡ foldl set_entry weights entries
unfolding weights_loop
weights_loop-entries [] weights h = refl
weights_loop-entries (e ∷ entries) weights (h, hs) =
    rw (weights_loop, put_pair-entry e weights h)
      (weights_loop-entries entries (set_entry weights e) hs)

split-empty : split "" ≡ []
unfolding split split_at trimmed_parts trim_left trim_right
split-empty = refl

split-join :
    (entries : List (String × String))
    → All IsEntry entries
    → split (join (map text_of entries)) ≡ map text_of entries
unfolding split join
split-join [] h = split-empty
split-join (e ∷ entries) (h, hs) =
    rw
      (split_at-join (text_of e) (map text_of entries) (entry_no_comma e h)
        (All-map IsEntry (Each (free_of ",")) text_of entry_no_comma entries hs))
      (trimmed_parts-entries (e ∷ entries) (h, hs))

-- Weights that are written as entries `key=digits` with commas between them are read as they are written, if no
-- key has a space, a comma or an `=` in it and the digits spell a positive number below 2^63: the map has
-- each key with its number, and of several entries with one key the last.
pub parse_weights-join :
    (entries : List (String × String))
    → All IsEntry entries
    → parse_weights (join (map text_of entries)) ≡ foldl set_entry [] entries
unfolding parse_weights
parse_weights-join entries h = rw (split-join entries h) (weights_loop-entries entries [] h)
