-- ===== src/Base/Maps.antt =====
-- JavaScript's `Map` with text keys, as an association list in the order of insertion.
use Prim.Native.String.{String}
use mathlib.Core.Path.{◌≡◌, refl}
use mathlib.Core.Logic.{◌≢◌, ◌⊎◌, inl, inr}
use mathlib.Core.Bool.{Bool, true, false}
use mathlib.Core.Option.{Option, none, some}
use mathlib.Core.List.{List, [], ◌∷◌, map}
use native.Mathlib.Omega.{arith}
use text.Mathlib.TextEquality.{eq_iff}
use text.Mathlib.TextPositions.{eq_refl}
use culturago_stellar.Base.Tests.{if◌then◌else◌, ◌==◌, text_eq}

abbrev pub JsMap {ℓ} : Type ℓ → Type ℓ
JsMap V = List (String × V)

abbrev pub is_some {ℓ} : {A : Type ℓ} → Option A → Bool
is_some none = false
is_some (some a) = true

module _ {ℓ} {V : Type ℓ} where
  unfoldable pub get : String → JsMap V → Option V
  get k [] = none
  get k ((j, v) ∷ m) = if j == k then some v else get k m

  -- `map.set(k, v)`: a key that is there keeps its place, a new one goes last.
  unfoldable pub set : String → V → JsMap V → JsMap V
  set k v [] = (k, v) ∷ []
  set k v ((j, w) ∷ m) = if j == k then (j, v) ∷ m else (j, w) ∷ set k v m

  -- `map.delete(k)`
  unfoldable pub remove : String → JsMap V → JsMap V
  remove k [] = []
  remove k ((j, w) ∷ m) = if j == k then m else (j, w) ∷ remove k m

  abbrev pub has : String → JsMap V → Bool
  has k m = is_some (get k m)

  abbrev pub values : JsMap V → List V
  values = map λ p. p.1

  pub get-set :
      (k j : String) (v : V) (m : JsMap V)
      → get j (set k v m) ≡ (if k == j then some v else get j m)
  unfolding get set
  get-set k j v [] = refl
  get-set k j v ((i, w) ∷ m) = ground (arith, eq_iff k j, eq_iff i k, eq_iff i j, get-set k j v m)

  pub get-set_self : (k : String) (v : V) (m : JsMap V) → get k (set k v m) ≡ some v
  get-set_self k v m = simp (get-set, eq_refl)

  pub get-set_ne : (k j : String) (v : V) (m : JsMap V) → k ≢ j → get j (set k v m) ≡ get j m
  get-set_ne k j v m h = ground (arith, get-set k j v m, eq_iff k j)

  -- No key stands twice.
  abbrev pub Fresh : String → JsMap V → Type 0
  Fresh k [] = Unit
  Fresh k ((j, v) ∷ m) = (k ≢ j) × Fresh k m

  abbrev pub Keyed : JsMap V → Type 0
  Keyed [] = Unit
  Keyed ((j, v) ∷ m) = Fresh j m × Keyed m

  pub Fresh-set : (k j : String) (v : V) (m : JsMap V) → j ≢ k → Fresh j m → Fresh j (set k v m)
  unfolding set
  Fresh-set k j v [] h f = (h, tt)
  Fresh-set k j v ((i, w) ∷ m) h f = ground (arith, Fresh-set k j v m h)

  pub set-Keyed : (k : String) (v : V) (m : JsMap V) → Keyed m → Keyed (set k v m)
  unfolding set
  set-Keyed k v [] h = (tt, tt)
  set-Keyed k v ((i, w) ∷ m) h = ground (arith, eq_iff i k, set-Keyed k v m h.1, Fresh-set k i v m)

  pub get-Fresh : (k : String) (m : JsMap V) → Fresh k m → get k m ≡ none
  unfolding get
  get-Fresh k [] f = refl
  get-Fresh k ((j, v) ∷ m) f = ground (arith, eq_iff j k, get-Fresh k m f.1)

  pub Fresh-remove : (k j : String) (m : JsMap V) → Fresh j m → Fresh j (remove k m)
  unfolding remove
  Fresh-remove k j [] f = tt
  Fresh-remove k j ((i, w) ∷ m) f = ground (arith, Fresh-remove k j m f.1)

  pub remove-Keyed : (k : String) (m : JsMap V) → Keyed m → Keyed (remove k m)
  unfolding remove
  remove-Keyed k [] h = tt
  remove-Keyed k ((i, w) ∷ m) h = ground (arith, remove-Keyed k m h.1, Fresh-remove k i m h.0)

  pub get-remove_self : (k : String) (m : JsMap V) → Keyed m → get k (remove k m) ≡ none
  unfolding get remove
  get-remove_self k [] h = refl
  get-remove_self k ((i, w) ∷ m) h =
      ground (arith, eq_iff i k, get-remove_self k m h.1, get-Fresh i m h.0)

  pub get-remove_ne : (k j : String) (m : JsMap V) → k ≢ j → get j (remove k m) ≡ get j m
  unfolding get remove
  get-remove_ne k j [] h = refl
  get-remove_ne k j ((i, w) ∷ m) h = ground (arith, eq_iff i k, eq_iff i j, get-remove_ne k j m h)

  -- What holds of every value holds of a looked-up one.
  abbrev pub Values {κ} : (V → Type κ) → JsMap V → Type κ
  Values P [] = Unit
  Values P ((j, v) ∷ m) = P v × Values P m

  pub get-Values {κ} :
      (P : V → Type κ) (k : String) (m : JsMap V) {v : V} → Values P m → get k m ≡ some v → P v
  unfolding get
  get-Values P k [] h e = cc
  get-Values P k ((j, w) ∷ m) h e = elim (Bool-cases' (j == k)) [
    | inl hit ↦ rw (← some_inj (rw hit at e)) h.0
    | inr miss ↦ get-Values P k m h.1 (rw miss at e)
  ]
    where
      Bool-cases' : (b : Bool) → (b ≡ true) ⊎ (b ≡ false)
      Bool-cases' true = inl refl
      Bool-cases' false = inr refl

      some_inj : {a b : V} → some a ≡ some b → a ≡ b
      some_inj p = cc p

  pub set-Values {κ} :
      (P : V → Type κ) (k : String) (v : V) (m : JsMap V) → P v → Values P m → Values P (set k v m)
  unfolding set
  set-Values P k v [] p h = (p, tt)
  set-Values P k v ((i, w) ∷ m) p h = ground (arith, set-Values P k v m p h.1)
