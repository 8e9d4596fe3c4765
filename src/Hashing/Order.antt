-- ===== src/Hashing/Order.antt =====
-- The order of `sort()` on code units, and the insertion that sorts the fields (canonicalize.ts).
use culturago_stellar.Base.{
  ℕ, true, false, List, [], ◌∷◌, ◌≡◌, ◌≢◌, refl, sym, ◌∙◌, ◌⊎◌, inl, inr, arith, Bool-cases,
}
use culturago_stellar.Hashing.{before, Entry, insert_entry, units_of}

before_trans : (a b c : List ℕ) → before a b ≡ true → before b c ≡ true → before a c ≡ true
unfolding before
before_trans [] [] c p q = grind arith
before_trans [] (b ∷ bs) [] p q = grind arith
before_trans [] (b ∷ bs) (c ∷ cs) p q = refl
before_trans (a ∷ us) [] c p q = grind arith
before_trans (a ∷ us) (b ∷ bs) [] p q = grind arith
before_trans (a ∷ us) (b ∷ bs) (c ∷ cs) p q = let rest = before_trans us bs cs in ground arith

before_asym : (a b : List ℕ) → before a b ≡ true → before b a ≡ false
unfolding before
before_asym [] [] p = grind arith
before_asym [] (b ∷ bs) p = refl
before_asym (a ∷ us) [] p = grind arith
before_asym (a ∷ us) (b ∷ bs) p = let rest = before_asym us bs in ground arith

before-cases : (a b : List ℕ) → (a ≡ b) ⊎ ((before a b ≡ true) ⊎ (before b a ≡ true))
unfolding before
before-cases [] [] = inl refl
before-cases [] (b ∷ bs) = inr (inl refl)
before-cases (a ∷ us) [] = inr (inr refl)
before-cases (a ∷ us) (b ∷ bs) = let rest = before-cases us bs in ground arith

insert_entry-before :
    (e x : Entry)
    → (xs : List Entry) → before (units_of e.key) (units_of x.key) ≡ true
    → insert_entry e (x ∷ xs) ≡ e ∷ x ∷ xs
unfolding insert_entry
insert_entry-before e x xs p = simp p

insert_entry-after :
    (e x : Entry)
    → (xs : List Entry) → before (units_of e.key) (units_of x.key) ≡ false
    → insert_entry e (x ∷ xs) ≡ x ∷ insert_entry e xs
unfolding insert_entry
insert_entry-after e x xs p = simp p

IsBefore : Entry → Entry → Type 0
IsBefore e x = before (units_of e.key) (units_of x.key) ≡ true

-- The same, for the second of two entries that are inserted, where the first one is the smaller.
insert_entry-ordered :
    (e x : Entry)
    → (xs : List Entry) → IsBefore e x
    → insert_entry e (insert_entry x xs) ≡ insert_entry x (insert_entry e xs)
unfolding IsBefore insert_entry
insert_entry-ordered e x [] h =
    let apart = before_asym (units_of e.key) (units_of x.key) h in
    insert_entry-before e x [] h ∙ sym (insert_entry-after x e [] apart)
insert_entry-ordered e x (y ∷ ys) h =
    let apart = before_asym (units_of e.key) (units_of x.key) h in
    elim (Bool-cases (before (units_of x.key) (units_of y.key))) [
      | inl first ↦
          let both = before_trans (units_of e.key) (units_of x.key) (units_of y.key) h first in
          rw (
            insert_entry-before x y ys first,
            insert_entry-before e x (y ∷ ys) h,
            insert_entry-before e y ys both,
            insert_entry-after x e (y ∷ ys) apart,
            insert_entry-before x y ys first,
          )
      | inr later ↦ elim (Bool-cases (before (units_of e.key) (units_of y.key))) [
        | inl first ↦ rw (
          insert_entry-after x y ys later,
          insert_entry-before e y (insert_entry x ys) first,
          insert_entry-before e y ys first,
          insert_entry-after x e (y ∷ ys) apart,
          insert_entry-after x y ys later,
        )
        | inr last ↦ rw (
          insert_entry-after x y ys later,
          insert_entry-after e y (insert_entry x ys) last,
          insert_entry-after e y ys last,
          insert_entry-after x y (insert_entry e ys) later,
          insert_entry-ordered e x ys h,
        )
      ]
    ]

pub insert_entry-insert_entry :
    (e x : Entry)
    → (xs : List Entry) → units_of e.key ≢ units_of x.key
    → insert_entry e (insert_entry x xs) ≡ insert_entry x (insert_entry e xs)
unfolding IsBefore
insert_entry-insert_entry e x xs d = elim (before-cases (units_of e.key) (units_of x.key)) [
  | inl same ↦ elim (d same) [ ]
  | inr (inl first) ↦ insert_entry-ordered e x xs first
  | inr (inr later) ↦ sym (insert_entry-ordered x e xs later)
]
