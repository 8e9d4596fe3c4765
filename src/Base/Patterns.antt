-- ===== src/Base/Patterns.antt =====
-- The regular expressions of the source, as lists of character classes, and `trim`, `toUpperCase`, `includes` and
-- `split(',')`. A character is read by its code point.
use Prim.Native.Nat.{ℕ, zero, suc, ◌-◌}
use Prim.Native.Char.{code}
use Prim.Native.String.{String}
use mathlib.Core.Bool.{Bool, true, false, ◌&&◌, ◌||◌}
use mathlib.Core.List.{List, [], ◌∷◌, ◌++◌, map}
use culturago_stellar.Base.Tests.{if◌then◌else◌, leb, nat_beq}
use culturago_stellar.Base.Lists.{codes}

abbrev pub Class : Type 0
Class = ℕ → Bool

abbrev pub between : ℕ → ℕ → Class
between lo hi c = leb lo c && leb c hi

-- `[0-9a-f]`, `[0-9a-f]` under the flag `i`, `[A-Z2-7]` and `[A-Za-z0-9+/]`
unfoldable pub is_small_hex : Class
is_small_hex c = between 48 57 c || between 97 102 c

unfoldable pub is_any_hex : Class
is_any_hex c = between 48 57 c || between 65 70 c || between 97 102 c

unfoldable pub is_base32 : Class
is_base32 c = between 65 90 c || between 50 55 c

unfoldable pub is_base64_digit : Class
is_base64_digit c =
    between 65 90 c || between 97 122 c || between 48 57 c || nat_beq c 43 || nat_beq c 47

abbrev pub is_dash : Class
is_dash c = nat_beq c 45

abbrev pub repeat : ℕ → Class → List Class
repeat zero p = []
repeat (suc n) p = p ∷ repeat n p

-- `/^…$/.test` on the codes of a text.
unfoldable pub fits : List Class → List ℕ → Bool
fits [] [] = true
fits [] (c ∷ cs) = false
fits (p ∷ ps) [] = false
fits (p ∷ ps) (c ∷ cs) = p c && fits ps cs

abbrev pub uuid_of : Class → List Class
uuid_of p =
    repeat 8 p
    ++ is_dash ∷ repeat 4 p
    ++ is_dash ∷ repeat 4 p
    ++ is_dash ∷ repeat 4 p
    ++ is_dash ∷ repeat 12 p

-- `[^A-Za-z0-9+/]*={0,2}$`
abbrev is_padding : List ℕ → Bool
is_padding [] = true
is_padding (c ∷ []) = nat_beq c 61
is_padding (c ∷ d ∷ []) = nat_beq c 61 && nat_beq d 61
is_padding (c ∷ d ∷ e ∷ cs) = false

unfoldable pub is_base64 : List ℕ → Bool
unfolding is_base64_digit
is_base64 [] = true
is_base64 (c ∷ cs) = if is_base64_digit c then is_base64 cs else is_padding (c ∷ cs)

-- White space, as `trim` takes it.
unfoldable pub is_space : Class
is_space c =
    between 9 13 c
    || nat_beq c 32
    || nat_beq c 160
    || nat_beq c 5760
    || between 8192 8202 c
    || nat_beq c 8232
    || nat_beq c 8233
    || nat_beq c 8239
    || nat_beq c 8287
    || nat_beq c 12288
    || nat_beq c 65279

unfoldable pub trim_start : String → String
unfolding is_space
trim_start String.[] = String.[]
trim_start (String.◌∷◌ c s) =
    let rest = trim_start s in if is_space (code c) then rest else String.◌∷◌ c s

unfoldable pub trim_end : String → String
unfolding is_space
trim_end String.[] = String.[]
trim_end (String.◌∷◌ c s) = elim (trim_end s) [
  | String.[] ↦ if is_space (code c) then String.[] else String.◌∷◌ c String.[]
  | String.◌∷◌ d t ↦ String.◌∷◌ c (String.◌∷◌ d t)
]

-- `s.trim()`
unfoldable pub trim : String → String
unfolding trim_start trim_end
trim s = trim_end (trim_start s)

abbrev is_prefix : List ℕ → List ℕ → Bool
is_prefix [] cs = true
is_prefix (d ∷ ds) [] = false
is_prefix (d ∷ ds) (c ∷ cs) = nat_beq d c && is_prefix ds cs

-- `s.startsWith(t)`
unfoldable pub starts_with_text : String → String → Bool
starts_with_text s t = is_prefix (codes t) (codes s)

abbrev contains_codes : List ℕ → List ℕ → Bool
contains_codes ds [] = is_prefix ds []
contains_codes ds (c ∷ cs) = is_prefix ds (c ∷ cs) || contains_codes ds cs

-- `s.includes(t)`
unfoldable pub contains_text : String → String → Bool
contains_text s t = contains_codes (codes t) (codes s)

-- `toUpperCase` on the codes of a text, for the ASCII letters.
abbrev pub upper_code : ℕ → ℕ
upper_code c = if between 97 122 c then c - 32 else c

unfoldable pub upper_contains : String → String → Bool
upper_contains s t = contains_codes (codes t) (map upper_code (codes s))

-- `s.split(',')`: the part before the first comma, and the others.
unfoldable pub split_commas : String → String × List String
split_commas String.[] = (String.[], [])
split_commas (String.◌∷◌ c s) =
    let (first, others) = split_commas s in
    if nat_beq (code c) 44 then (String.[], first ∷ others) else (String.◌∷◌ c first, others)
