-- ===== src/Routes/Keys/Uuids.antt =====
-- The identifiers that the perimeter lets through have no colon.
use Prim.Native.Char.{code}
use Prim.Native.String.{String}
use culturago_stellar.Base.{
  ℕ, ◌≡◌, refl, true, false, List, [], ◌∷◌, ◌++◌, nat_beq, codes, arith, Class, fits, uuid_of,
  repeat, is_small_hex, is_dash, All, All-append, zero, suc,
}
use culturago_stellar.Perimeter.Body.Patterns.{is_small_uuid}
use culturago_stellar.Routes.Keys.{has_colon}

-- A class without the colon.
abbrev NotColon : Class → Type 0
NotColon p = (c : ℕ) → p c ≡ true → nat_beq c 58 ≡ false

All-repeat : (n : ℕ) (p : Class) → NotColon p → All NotColon (repeat n p)
All-repeat zero p h = tt
All-repeat (suc n) p h = (h, All-repeat n p h)

small_hex-NotColon : NotColon is_small_hex
unfolding is_small_hex
small_hex-NotColon c h = ground arith

dash-NotColon : NotColon is_dash
dash-NotColon c h = ground arith

abbrev dashed : List Class → List Class
dashed ps = ps ++ is_dash ∷ repeat 4 is_small_hex

NotColon-dashed :
    (n : ℕ) (ps : List Class)
    → All NotColon ps
    → All NotColon (ps ++ is_dash ∷ repeat n is_small_hex)
NotColon-dashed n ps h =
    All-append NotColon ps (is_dash ∷ repeat n is_small_hex) h
      (dash-NotColon, All-repeat n is_small_hex small_hex-NotColon)

uuid-NotColon : All NotColon (uuid_of is_small_hex)
uuid-NotColon =
    let eight = repeat 8 is_small_hex in
    let first = NotColon-dashed 4 eight (All-repeat 8 is_small_hex small_hex-NotColon) in
    let second = NotColon-dashed 4 (dashed eight) first in
    NotColon-dashed 12 (dashed (dashed (dashed eight)))
      (NotColon-dashed 4 (dashed (dashed eight)) second)

fits-has_colon :
    (ps : List Class) (s : String)
    → All NotColon ps
    → fits ps (codes s) ≡ true
    → has_colon s ≡ false
unfolding fits has_colon
fits-has_colon ps String.[] h k = refl
fits-has_colon [] (String.◌∷◌ c s) h k = cc
fits-has_colon (p ∷ ps) (String.◌∷◌ c s) h k = ground (arith, h.0 (code c), fits-has_colon ps s h.1)

pub small_uuid-has_colon : (s : String) → is_small_uuid s ≡ true → has_colon s ≡ false
unfolding is_small_uuid
small_uuid-has_colon s h = fits-has_colon (uuid_of is_small_hex) s uuid-NotColon h
