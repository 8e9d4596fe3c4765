-- ===== src/Base/Texts.antt =====
-- What the source asks of JavaScript's texts: `toLowerCase`, `slice(0, n)`, `startsWith`, and numbers in a
-- template.
use Prim.Native.Nat.{ℕ, zero, suc, ◌-◌, ◌/◌, ◌%◌}
use Prim.Native.Char.{code}
use Prim.Native.String.{String, ◌++◌}
use mathlib.Core.Bool.{Bool, false}
use mathlib.Core.Option.{Option, none, some}
use mathlib.Core.List.{List, [], ◌∷◌}
use culturago_stellar.Base.Tests.{if◌then◌else◌, ltb, nat_beq}
use culturago_stellar.Base.Lists.{get_elem?}

abbrev pub small_letters : List String
small_letters =
    "a" ∷ "b" ∷ "c" ∷ "d" ∷ "e" ∷ "f" ∷ "g" ∷ "h" ∷ "i" ∷ "j" ∷ "k" ∷ "l" ∷ "m" ∷ "n" ∷ "o" ∷ "p"
    ∷ "q" ∷ "r" ∷ "s" ∷ "t" ∷ "u" ∷ "v" ∷ "w" ∷ "x" ∷ "y" ∷ "z" ∷ []

-- The small letter of a capital one, by its code point.
abbrev pub small_letter : ℕ → Option String
small_letter n = if ltb n 65 then none else get_elem? small_letters (n - 65)

-- `toLowerCase` on the ASCII letters, the only ones with case that the source's texts (digests,
-- addresses, codes) have.
unfoldable pub to_lower_case : String → String
to_lower_case String.[] = String.[]
to_lower_case (String.◌∷◌ c s) =
    let rest = to_lower_case s in
    elim (small_letter (code c)) [ some small ↦ small ++ rest | none ↦ String.◌∷◌ c rest ]

-- `s.slice(0, n)`, in characters.
unfoldable pub first_chars : ℕ → String → String
first_chars zero s = String.[]
first_chars (suc n) String.[] = String.[]
first_chars (suc n) (String.◌∷◌ c s) = String.◌∷◌ c (first_chars n s)

-- `s.startsWith(c)` for one character, by its code point.
unfoldable pub starts_with : ℕ → String → Bool
starts_with n String.[] = false
starts_with n (String.◌∷◌ c s) = nat_beq (code c) n

abbrev digits : List String
digits = "0" ∷ "1" ∷ "2" ∷ "3" ∷ "4" ∷ "5" ∷ "6" ∷ "7" ∷ "8" ∷ "9" ∷ []

abbrev digit : ℕ → String
digit n = elim (get_elem? digits n) [ some s ↦ s | none ↦ "" ]

-- `${n}`, a natural number in decimal; a number has no more digits than its value, and one.
abbrev decimal_on : ℕ → ℕ → String
decimal_on zero n = digit (n % 10)
decimal_on (suc fuel) n =
    let rest = decimal_on fuel (n / 10) in if ltb n 10 then digit n else rest ++ digit (n % 10)

abbrev pub decimal : ℕ → String
decimal n = decimal_on n n

-- `s.split(':')[0]`
unfoldable pub before_colon : String → String
before_colon String.[] = String.[]
before_colon (String.◌∷◌ c s) =
    let rest = before_colon s in if nat_beq (code c) 58 then String.[] else String.◌∷◌ c rest
