-- ===== src/Stellar/TtlQueue/Entries.antt =====
-- What holds of the entries of a queue, pair by pair.
use culturago_stellar.Base.{
  ℕ, suc, ◌≡◌, ◌≢◌, sym, subst, ◌∙◌, inl, inr, true, false, some, String, [], ◌∷◌, arith, eq_iff,
  JsMap, get, set, get-set, has, All, Bool-cases, ◌==◌, text_eq, Keyed, Fresh,
}
use culturago_stellar.Stellar.Store.{Claim}
use culturago_stellar.Stellar.TtlQueue.{
  TtlEntry, DueOptions, key, is_open, is_passed, due_loop, due_claim,
}

-- What holds of each pair of the map.
abbrev pub Pairs : (String → TtlEntry → Type 0) → JsMap TtlEntry → Type 0
Pairs P [] = Unit
Pairs P ((k, e) ∷ m) = P k e × Pairs P m

pub set-Pairs :
    (P : String → TtlEntry → Type 0) (k : String) (e : TtlEntry) (m : JsMap TtlEntry)
    → P k e
    → Pairs P m
    → Pairs P (set k e m)
unfolding set
set-Pairs P k e [] p h = (p, tt)
set-Pairs P k e ((j, f) ∷ m) p h = ground (arith, eq_iff j k, set-Pairs P k e m p h.1)

pub get-Pairs :
    (P : String → TtlEntry → Type 0) (k : String) (m : JsMap TtlEntry) (e : TtlEntry)
    → Pairs P m
    → get k m ≡ some e
    → P k e
unfolding get
get-Pairs P k [] e h p = cc
get-Pairs P k ((j, f) ∷ m) e h p = ground (arith, eq_iff j k, get-Pairs P k m e h.1)

-- A pair of a queue stands under its own key, and the entry of the given key is closed.
abbrev pub Closed : String → String → TtlEntry → Type 0
Closed id k e = (key e.id ≡ k) × (k ≡ id → is_open e.status ≡ false)

abbrev pub OwnKey : String → TtlEntry → Type 0
OwnKey k e = key e.id ≡ k

pub true_ne_false : true ≢ false
true_ne_false h = cc h

Fresh-Closed :
    (id : String) (m : JsMap TtlEntry) → Fresh id m → Pairs OwnKey m → Pairs (Closed id) m
Fresh-Closed id [] f h = tt
Fresh-Closed id ((j, e) ∷ m) (ne, f) (own, h) =
    ((own, λ same. elim (ne (sym same)) [ ]), Fresh-Closed id m f h)

pub set-Closed :
    (id : String) (e : TtlEntry) (m : JsMap TtlEntry)
    → Keyed m
    → Pairs OwnKey m
    → key e.id ≡ id
    → is_open e.status ≡ false
    → Pairs (Closed id) (set id e m)
unfolding set
set-Closed id e [] ks ps own closed = ((own, λ _. closed), tt)
set-Closed id e ((j, f) ∷ m) (fresh, ks) (p, ps) own closed = elim (Bool-cases (j == id)) [
  | inl same ↦
      let here = (eq_iff j id).0 same in
      rw same
        ((own ∙ sym here, λ _. closed), Fresh-Closed id m (subst (λ k. Fresh k m) here fresh) ps)
  | inr differ ↦ rw differ (
    (p, λ here. elim (true_ne_false (sym ((eq_iff j id).1 here) ∙ differ)) [ ]),
    set-Closed id e m ks ps own closed,
  )
]

pub has-set :
    (k j : String) (e : TtlEntry) (m : JsMap TtlEntry) → has k m ≡ true → has k (set j e m) ≡ true
has-set k j e m h = ground (arith, get-set j k e m, Bool-cases (j == k))

pub due_loop-hides :
    (id : String) (options : DueOptions) (now : ℕ) (m : JsMap TtlEntry) (claims : JsMap Claim)
    (taken : ℕ)
    → Pairs (Closed id) m
    → All (λ e. key e.id ≢ id) (due_loop options now m claims taken).0
unfolding due_loop is_passed
due_loop-hides id options now [] claims taken h = tt
due_loop-hides id options now ((k, e) ∷ m) claims taken h = ground (
  arith,
  due_loop-hides id options now m claims taken h.1,
  due_loop-hides id options now m (set k (due_claim options now) claims) (suc taken) h.1,
)
