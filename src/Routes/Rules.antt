-- ===== src/Routes/Rules.antt =====
-- What a call leaves as it was, and what holds of the value that it returns: one rule for each way to build a call.
use culturago_stellar.Base.{◌≡◌, refl, subst, ap, Result, ok, err, JsMap}
use culturago_stellar.Auth.Identity.{Identities}
use culturago_stellar.Perimeter.Rate.{LimitEntry}
use culturago_stellar.Stellar.Store.{Store}
use culturago_stellar.Stellar.Transport.{Attempt, threw, done, attempt_of, HoldsOf}
use culturago_stellar.Stellar.Transport as Transport
use culturago_stellar.Routes.Server.{
  Server, Call, proceed, ◌>>=◌, return, checked, tried, identified, limited, on_world,
}

anything : {A : Type 0} (a : Attempt A) → HoldsOf (λ _. Unit) a
anything (done a) = tt
anything (threw f) = tt

module _ {Chain Db : Type 0} (start : Server Chain Db) where
  -- The operations, the chain, the database and the accounts are as they were; the limits may have moved.
  pub record Untouched (s : Server Chain Db) : Type 0 where
    pub world_same : s.world ≡ start.world
    pub db_same : s.db ≡ start.db
    pub identities_same : s.identities ≡ start.identities

  pub record Leaves {A : Type 0} (P : A → Type 0) (call : Call Chain Db A) : Type 0 where
    pub at : (s : Server Chain Db) → Untouched s → Untouched (call s).0 × HoldsOf P (call s).1

  module _ {A : Type 0} where
    pub Leaves-return : (P : A → Type 0) (a : A) → P a → Leaves P (return a)
    Leaves-return P a h = record { at = λ s u. (u, h) }

    of_result : (r : Result A) → HoldsOf (λ a. r ≡ ok a) (attempt_of r)
    of_result (ok a) = refl
    of_result (err code) = tt

    pub Leaves-checked : (r : Result A) → Leaves (λ a. r ≡ ok a) (checked r)
    Leaves-checked r = record { at = λ s u. (u, of_result r) }

    pub Leaves-tried : (a : Attempt A) → Leaves (λ _. Unit) (tried a)
    Leaves-tried a = record { at = λ s u. (u, anything a) }

    pub Leaves-identified :
        (check : Identities → Result A)
        → Leaves (λ a. check start.identities ≡ ok a) (identified check)
    Leaves-identified check = record {
      at = λ s u. (
        u,
        subst (λ i. HoldsOf (λ a. check i ≡ ok a) (attempt_of (check s.identities)))
            u.identities_same (of_result (check s.identities)),
      );
    }

    pub Leaves-query :
        (q : Store → A) → Leaves (λ a. a ≡ q start.world.store) (on_world (Transport.query q))
    Leaves-query q = record {
      at = λ s u. (
        record {
          world_same = u.world_same;
          db_same = u.db_same;
          identities_same = u.identities_same;
        },
        ap (λ w. q w.store) u.world_same,
      );
    }

  pub Leaves-limited :
      (hit : JsMap LimitEntry → JsMap LimitEntry × Result (Unit {0}))
      → Leaves (λ _. Unit) (limited hit)
  Leaves-limited hit = record {
    at = λ s u. (
      record {
        world_same = u.world_same;
        db_same = u.db_same;
        identities_same = u.identities_same;
      },
      anything (attempt_of (hit s.limits).1),
    );
  }

  module _ {A B : Type 0} {P : A → Type 0} {Q : B → Type 0} where
    rest :
        (next : A → Call Chain Db B)
        → ((a : A) → P a → Leaves Q (next a))
        → (r : Server Chain Db × Attempt A) → Untouched r.0
        → HoldsOf P r.1
        → Untouched (proceed next r).0 × HoldsOf Q (proceed next r).1
    rest next k (s, done a) u h = (k a h).at s u
    rest next k (s, threw f) u h = (u, tt)

    pub Leaves-bind :
        {call : Call Chain Db A} {next : A → Call Chain Db B}
        → Leaves P call
        → ((a : A) → P a → Leaves Q (next a))
        → Leaves Q (call >>= next)
    Leaves-bind {call} {next} c k = record {
      at = λ s u. let (v, h) = c.at s u in rest next k (call s) v h;
    }
