-- ===== src/Perimeter/Tests.antt =====
-- The limits on requests at a concrete client.
use culturago_stellar.Base.{
  ◌≡◌, ◌≤◌, ◌<◌, refl, none, String, [], ◌∷◌, ok, err, rate_limited, arith, get,
}
use culturago_stellar.Perimeter.Rate.{LimitEntry, rate, full_key, LimitOptions, assert_rate_limit}
use culturago_stellar.Perimeter.Window.{requests, assert_rate_limit-window}

abbrev client : String
client = "server-action:203.0.113.9"

abbrev defaults : LimitOptions
defaults = record { limit = none; window_ms = none }

-- The last request of a window that is not over: the third of three.
assert_rate_limit-window_example :
    (60099 < 60100
      → 3 ≤ 3
      → (assert_rate_limit 3 60099 client defaults
          (requests 3 client defaults (100 ∷ 150 ∷ []) [])).1
        ≡ ok tt)
    × (60099 < 60100
        → 3 < 3
        → (assert_rate_limit 3 60099 client defaults
            (requests 3 client defaults (100 ∷ 150 ∷ []) [])).1
          ≡ err rate_limited)
    × (60100 ≤ 60099
        → 1 ≤ 3
        → (assert_rate_limit 3 60099 client defaults
            (requests 3 client defaults (100 ∷ 150 ∷ []) [])).1
          ≡ ok tt)
unfolding get
assert_rate_limit-window_example =
    assert_rate_limit-window 3 client defaults 100 60099 (150 ∷ []) [] no_window (omega arith, tt)
  where
    no_window : get {V = LimitEntry} (full_key client rate) [] ≡ none
    no_window = refl
