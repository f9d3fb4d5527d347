-- ===== src/Config/Parts.antt =====
-- The texts of a setting `key=weight,...`, and what the functions of Config/Text do to them
-- (backend/internal/config/config.go).
use Prim.Native.Char.{Char}
use maelstromhub.Prelude.{
  ◌≡◌, refl, Bool, true, false, not, some, List, [], ◌∷◌, String, All, arith, ◌∙◌, ap,
}
use maelstromhub.Config.Text.{is, is_space, trim_left, trim_right, trim_space, split_at, cut}

-- All characters of a text pass a test.
abbrev pub Each : (Char → Bool) → String → Type 0
Each p String.[] = Unit
Each p (String.◌∷◌ c s) = (p c ≡ true) × Each p s

pub Each-imp :
    (p q : Char → Bool) (s : String) → ((c : Char) → p c ≡ true → q c ≡ true) → Each p s → Each q s
Each-imp p q String.[] f h = tt
Each-imp p q (String.◌∷◌ c s) f (h, hs) = (f c h, Each-imp p q s f hs)

abbrev pub no_space : Char → Bool
no_space c = not (is_space c)

-- `key=digits`
unfoldable pub entry : String → String → String
entry String.[] digits = String.◌∷◌ "=" digits
entry (String.◌∷◌ c key) digits = String.◌∷◌ c (entry key digits)

unfoldable pub before_comma : String → String → String
before_comma String.[] rest = String.◌∷◌ "," rest
before_comma (String.◌∷◌ c s) rest = String.◌∷◌ c (before_comma s rest)

-- the entries, with commas between them
unfoldable pub join : List String → String
join [] = ""
join (part ∷ []) = part
join (part ∷ (next ∷ parts)) = let rest = join (next ∷ parts) in before_comma part rest

trim_left-eq : (s : String) → Each no_space s → trim_left s ≡ s
unfolding trim_left
trim_left-eq String.[] h = refl
trim_left-eq (String.◌∷◌ c s) (h, hs) = ground (arith, h)

trim_right-eq : (s : String) → Each no_space s → trim_right s ≡ s
unfolding trim_right
trim_right-eq String.[] h = refl
trim_right-eq (String.◌∷◌ c String.[]) (h, hs) = ground (arith, h)
trim_right-eq (String.◌∷◌ c (String.◌∷◌ d s)) (h, hs) = rw (trim_right-eq (String.◌∷◌ d s) hs) refl

pub trim_space-eq : (s : String) → Each no_space s → trim_space s ≡ s
trim_space-eq s h = rw (trim_left-eq s h) (trim_right-eq s h)

-- a character that no part of a list has
abbrev pub free_of : Char → Char → Bool
free_of d c = not (is d c)

split_at-free : (d : Char) (s : String) → Each (free_of d) s → split_at d s ≡ s ∷ []
unfolding split_at
split_at-free d String.[] h = refl
split_at-free d (String.◌∷◌ c s) (h, hs) =
    let miss : is d c ≡ false = ground (arith, h) in rw (miss, split_at-free d s hs) refl

split_at-comma :
    (s rest : String)
    → Each (free_of ",") s
    → split_at "," (before_comma s rest) ≡ s ∷ split_at "," rest
unfolding split_at before_comma
split_at-comma String.[] rest h = refl
split_at-comma (String.◌∷◌ c s) rest (h, hs) =
    let miss : is "," c ≡ false = ground (arith, h) in rw (miss, split_at-comma s rest hs) refl

pub split_at-join :
    (part : String) (parts : List String)
    → Each (free_of ",") part
    → All (Each (free_of ",")) parts
    → split_at "," (join (part ∷ parts)) ≡ part ∷ parts
unfolding join
split_at-join part [] h hs = split_at-free "," part h
split_at-join part (next ∷ parts) h (k, hs) =
    split_at-comma part (join (next ∷ parts)) h
    ∙ ap (λ ps. part ∷ ps) (split_at-join next parts k hs)

pub cut-entry :
    (key digits : String) → Each (free_of "=") key → cut "=" (entry key digits) ≡ some (key, digits)
unfolding cut entry
cut-entry String.[] digits h = refl
cut-entry (String.◌∷◌ c key) digits (h, hs) =
    let miss : is "=" c ≡ false = ground (arith, h) in rw (miss, cut-entry key digits hs) refl
