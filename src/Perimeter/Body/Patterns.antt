-- ===== src/Perimeter/Body/Patterns.antt =====
-- What the patterns of src/infrastructure/perimeter/perimeter.ts accept, and what lowering makes of it.
use Prim.Native.Char.{code}
use Prim.Native.String.{◌++◌ as concat}
use text.Mathlib.TextLemmas.{nil-append, cons-append}
use culturago_stellar.Base.{
  ℕ, zero, suc, ◌+◌, ◌-◌, ◌<◌, ◌≡◌, refl, sym, ap, ◌∙◌, inl, inr, Bool, true, false, none, some,
  String, List, [], ◌∷◌, ◌++◌, map, arith, length, get_elem?, get_elem?-beyond, codes, every, Class,
  between, repeat, fits, uuid_of, is_dash, is_small_hex, is_any_hex, to_lower_case, small_letter,
  small_letters, if◌then◌else◌, ltb, ◌&&◌, Bool-cases, nat_beq,
}
use culturago_stellar.Domain.Entities.{is_hex64, is_hex_digit}
use culturago_stellar.Perimeter.Body.{is_uuid, is_any_hex64}

abbrev lower_code : ℕ → ℕ
lower_code c = if between 65 90 c then c + 32 else c

-- The small letters from the code `k` on.
abbrev Letters : ℕ → List String → Type 0
Letters k [] = Unit
Letters k (s ∷ ss) = (codes s ≡ k ∷ []) × Letters (suc k) ss

small_letters-Letters : Letters 97 small_letters
small_letters-Letters = (
  refl,
  (
    refl,
    (
      refl,
      (
        refl,
        (
          refl,
          (
            refl,
            (
              refl,
              (
                refl,
                (
                  refl,
                  (
                    refl,
                    (
                      refl,
                      (
                        refl,
                        (
                          refl,
                          (
                            refl,
                            (
                              refl,
                              (
                                refl,
                                (
                                  refl,
                                  (
                                    refl,
                                    (
                                      refl,
                                      (refl, (refl, (refl, (refl, (refl, (refl, (refl, tt))))))),
                                    ),
                                  ),
                                ),
                              ),
                            ),
                          ),
                        ),
                      ),
                    ),
                  ),
                ),
              ),
            ),
          ),
        ),
      ),
    ),
  ),
)

and_true : (a b : Bool) → (a && b) ≡ true → (a ≡ true) × (b ≡ true)
and_true a b h = ground arith

get_elem?-Letters :
    (k : ℕ) (ss : List String) (i : ℕ)
    → Letters k ss
    → i < length ss
    → (s : String) × (get_elem? ss i ≡ some s) × (codes s ≡ (k + i) ∷ [])
get_elem?-Letters k [] i h lt = absurd (omega arith)
get_elem?-Letters k (s ∷ ss) zero h lt = (s, refl, h.0 ∙ ap (λ n. n ∷ []) (omega arith))
get_elem?-Letters k (s ∷ ss) (suc i) h lt =
    let (t, found, is) = get_elem?-Letters (suc k) ss i h.1 (omega arith) in
    (t, found, is ∙ ap (λ n. n ∷ []) (omega arith))

small_letter-none : (n : ℕ) → between 65 90 n ≡ false → small_letter n ≡ none
small_letter-none n h = elim (Bool-cases (ltb n 65)) [
  | inl low ↦ rw low
  | inr high ↦ rw high (get_elem?-beyond small_letters (n - 65) (ground arith))
]

small_letter-some :
    (n : ℕ)
    → between 65 90 n ≡ true
    → (s : String) × (small_letter n ≡ some s) × (codes s ≡ (n + 32) ∷ [])
small_letter-some n h =
    let (s, found, is) =
      get_elem?-Letters 97 small_letters (n - 65) small_letters-Letters (ground arith) in
    elim (Bool-cases (ltb n 65)) [
      | inl low ↦ absurd (ground arith)
      | inr high ↦ (s, rw high found, is ∙ ap (λ m. m ∷ []) (ground arith))
    ]

codes-append : (s t : String) → codes (concat s t) ≡ codes s ++ codes t
codes-append String.[] t = ap codes (nil-append t)
codes-append (String.◌∷◌ c s) t =
    ap codes (cons-append c s t) ∙ ap (λ l. code c ∷ l) (codes-append s t)

codes-lower : (s : String) → codes (to_lower_case s) ≡ map lower_code (codes s)
unfolding to_lower_case
codes-lower String.[] = refl
codes-lower (String.◌∷◌ c s) = elim (Bool-cases (between 65 90 (code c))) [
  | inl capital ↦
      let (small, found, is) = small_letter-some (code c) capital in
      rw (to_lower_case, found, capital)
        (codes-append small (to_lower_case s) ∙ rw is (ap (λ l. (code c + 32) ∷ l) (codes-lower s)))
  | inr other ↦
      rw (to_lower_case, small_letter-none (code c) other, other)
        (ap (λ l. code c ∷ l) (codes-lower s))
]

-- What holds of the classes of two patterns, place by place.
abbrev Pairwise : (Class → Class → Type 0) → List Class → List Class → Type 0
Pairwise R [] [] = Unit
Pairwise R [] (q ∷ qs) = ⊥
Pairwise R (p ∷ ps) [] = ⊥
Pairwise R (p ∷ ps) (q ∷ qs) = R p q × Pairwise R ps qs

Pairwise-repeat :
    (R : Class → Class → Type 0) (p q : Class) (n : ℕ)
    → R p q
    → Pairwise R (repeat n p) (repeat n q)
Pairwise-repeat R p q zero h = tt
Pairwise-repeat R p q (suc n) h = (h, Pairwise-repeat R p q n h)

Pairwise-uuid :
    (R : Class → Class → Type 0) (p q : Class)
    → R p q
    → R is_dash is_dash
    → Pairwise R (uuid_of p) (uuid_of q)
Pairwise-uuid R p q h d = (
  h,
  (
    h,
    (
      h,
      (
        h,
        (
          h,
          (
            h,
            (
              h,
              (
                h,
                (
                  d,
                  (
                    h,
                    (
                      h,
                      (
                        h,
                        (
                          h,
                          (
                            d,
                            (
                              h,
                              (
                                h,
                                (
                                  h,
                                  (
                                    h,
                                    (
                                      d,
                                      (
                                        h,
                                        (
                                          h,
                                          (
                                            h,
                                            (
                                              h,
                                              (
                                                d,
                                                (
                                                  h,
                                                  (
                                                    h,
                                                    (
                                                      h,
                                                      (
                                                        h,
                                                        (h, (h, (h, (h, (h, (h, (h, (h, tt)))))))),
                                                      ),
                                                    ),
                                                  ),
                                                ),
                                              ),
                                            ),
                                          ),
                                        ),
                                      ),
                                    ),
                                  ),
                                ),
                              ),
                            ),
                          ),
                        ),
                      ),
                    ),
                  ),
                ),
              ),
            ),
          ),
        ),
      ),
    ),
  ),
)

-- Where the one class has a character, the other has its image.
abbrev Image : (ℕ → ℕ) → Class → Class → Type 0
Image f p q = (c : ℕ) → p c ≡ true → q (f c) ≡ true

-- A class has no capital letter.
abbrev HasNoCapital : Class → Class → Type 0
HasNoCapital p q = (c : ℕ) → p c ≡ true → between 65 90 c ≡ false

fits-map :
    (f : ℕ → ℕ) (ps qs : List Class) (cs : List ℕ)
    → Pairwise (Image f) ps qs
    → fits ps cs ≡ true
    → fits qs (map f cs) ≡ true
unfolding fits
fits-map f [] [] [] l h = refl
fits-map f [] [] (c ∷ cs) l h = cc
fits-map f [] (q ∷ qs) cs l h = elim l [ ]
fits-map f (p ∷ ps) [] cs l h = elim l [ ]
fits-map f (p ∷ ps) (q ∷ qs) [] l h = cc
fits-map f (p ∷ ps) (q ∷ qs) (c ∷ cs) l h =
    let (here, rest) = and_true (p c) (fits ps cs) h in
    rw (l.0 c here, fits-map f ps qs cs l.1 rest)

map_same : (cs : List ℕ) → map (λ c. c) cs ≡ cs
map_same [] = refl
map_same (c ∷ cs) = ap (λ l. c ∷ l) (map_same cs)

to_lower_case-fixed :
    (ps : List Class) (s : String)
    → Pairwise HasNoCapital ps ps
    → fits ps (codes s) ≡ true
    → to_lower_case s ≡ s
unfolding to_lower_case fits
to_lower_case-fixed ps String.[] n h = refl
to_lower_case-fixed [] (String.◌∷◌ c s) n h = cc
to_lower_case-fixed (p ∷ ps) (String.◌∷◌ c s) n h =
    let (here, rest) = and_true (p (code c)) (fits ps (codes s)) h in
    rw (to_lower_case, small_letter-none (code c) (n.0 (code c) here))
      (ap (λ t. String.◌∷◌ c t) (to_lower_case-fixed ps s n.1 rest))

any_hex-small : Image lower_code is_any_hex is_small_hex
unfolding is_any_hex is_small_hex
any_hex-small c h = ground arith

small_hex-any : Image (λ c. c) is_small_hex is_any_hex
unfolding is_any_hex is_small_hex
small_hex-any c h = ground arith

small_hex-HasNoCapital : HasNoCapital is_small_hex is_small_hex
unfolding is_small_hex
small_hex-HasNoCapital c h = ground arith

dash-lower : Image lower_code is_dash is_dash
dash-lower c h = ground arith

dash-HasNoCapital : HasNoCapital is_dash is_dash
dash-HasNoCapital c h = ground arith

-- A UUID in small letters.
unfoldable pub is_small_uuid : String → Bool
is_small_uuid s = fits (uuid_of is_small_hex) (codes s)

pub lower-uuid : (s : String) → is_uuid s ≡ true → is_small_uuid (to_lower_case s) ≡ true
unfolding is_uuid is_small_uuid
lower-uuid s h =
    ap (fits (uuid_of is_small_hex)) (codes-lower s)
    ∙ fits-map lower_code (uuid_of is_any_hex) (uuid_of is_small_hex) (codes s)
        (Pairwise-uuid (Image lower_code) is_any_hex is_small_hex any_hex-small dash-lower) h

pub small_uuid-fixed : (s : String) → is_small_uuid s ≡ true → to_lower_case s ≡ s
unfolding is_small_uuid
small_uuid-fixed s h =
    to_lower_case-fixed (uuid_of is_small_hex) s
      (Pairwise-uuid HasNoCapital is_small_hex is_small_hex small_hex-HasNoCapital
        dash-HasNoCapital)
      h

pub small_uuid-uuid : (s : String) → is_small_uuid s ≡ true → is_uuid s ≡ true
unfolding is_small_uuid is_uuid
small_uuid-uuid s h =
    ap (fits (uuid_of is_any_hex)) (sym (map_same (codes s)))
    ∙ fits-map (λ c. c) (uuid_of is_small_hex) (uuid_of is_any_hex) (codes s)
        (Pairwise-uuid (Image (λ c. c)) is_small_hex is_any_hex small_hex-any (λ c d. d)) h

small_hex-digit : (c : ℕ) → is_small_hex c ≡ is_hex_digit c
unfolding is_small_hex is_hex_digit
small_hex-digit c = ground arith

fits-repeat :
    (n : ℕ) (cs : List ℕ)
    → fits (repeat n is_small_hex) cs ≡ (nat_beq (length cs) n && every is_hex_digit cs)
unfolding fits
fits-repeat zero [] = refl
fits-repeat zero (c ∷ cs) = ground arith
fits-repeat (suc n) [] = ground arith
fits-repeat (suc n) (c ∷ cs) = ground (arith, fits-repeat n cs, small_hex-digit c)

hex64_fits : (s : String) → is_hex64 s ≡ fits (repeat 64 is_small_hex) (codes s)
unfolding is_hex64
hex64_fits s = sym (fits-repeat 64 (codes s))

pub lower-hex64 : (s : String) → is_any_hex64 s ≡ true → is_hex64 (to_lower_case s) ≡ true
unfolding is_any_hex64
lower-hex64 s h =
    hex64_fits (to_lower_case s)
    ∙ ap (fits (repeat 64 is_small_hex)) (codes-lower s)
    ∙ fits-map lower_code (repeat 64 is_any_hex) (repeat 64 is_small_hex) (codes s)
        (Pairwise-repeat (Image lower_code) is_any_hex is_small_hex 64 any_hex-small) h

pub hex64-fixed : (s : String) → is_hex64 s ≡ true → to_lower_case s ≡ s
hex64-fixed s h =
    to_lower_case-fixed (repeat 64 is_small_hex) s
      (Pairwise-repeat HasNoCapital is_small_hex is_small_hex 64 small_hex-HasNoCapital)
      (sym (hex64_fits s) ∙ h)

pub hex64-any : (s : String) → is_hex64 s ≡ true → is_any_hex64 s ≡ true
unfolding is_any_hex64
hex64-any s h =
    ap (fits (repeat 64 is_any_hex)) (sym (map_same (codes s)))
    ∙ fits-map (λ c. c) (repeat 64 is_small_hex) (repeat 64 is_any_hex) (codes s)
        (Pairwise-repeat (Image (λ c. c)) is_small_hex is_any_hex 64 small_hex-any)
        (sym (hex64_fits s) ∙ h)
