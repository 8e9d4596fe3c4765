-- ===== src/Perimeter/Rate.antt =====
-- src/infrastructure/perimeter/InMemoryRateBudgetStore.ts and the two limits of
-- src/infrastructure/perimeter/perimeter.ts. The defaults that the environment sets are arguments.
use Prim.Native.String.{◌++◌}
use culturago_stellar.Base.{
  ℕ, suc, ◌+◌, Option, none, some, String, Result, require, not, rate_limited, if◌then◌else◌, leb,
  ltb, JsMap, get, set,
}
use culturago_stellar.Stellar.Operation.{or_else}

pub record LimitEntry : Type 0 where
  pub count : ℕ
  pub reset_at : ℕ

pub data WindowType : Type 0 where
  rate budget : WindowType

abbrev window_name : WindowType → String
window_name rate = "rate"
window_name budget = "budget"

abbrev pub full_key : String → WindowType → String
full_key key window = key ++ ":" ++ window_name window

abbrev pub new_entry : ℕ → ℕ → LimitEntry
new_entry now window_ms = record { count = 1; reset_at = now + window_ms }

abbrev next_entry : ℕ → ℕ → Option LimitEntry → LimitEntry
next_entry now window_ms none = new_entry now window_ms
next_entry now window_ms (some entry) =
    if leb entry.reset_at now
    then new_entry now window_ms
    else record { count = suc entry.count; reset_at = entry.reset_at }

unfoldable pub hit_limit :
    ℕ → String → WindowType → ℕ → JsMap LimitEntry → JsMap LimitEntry × LimitEntry
hit_limit now key window window_ms store =
    let next = next_entry now window_ms (get (full_key key window) store) in
    (set (full_key key window) next store, next)

unfoldable pub domain_rate_limit : ℕ → LimitEntry → Result (Unit {0})
domain_rate_limit limit result = require (not (ltb limit result.count)) rate_limited

-- `options?.limit ?? default` and `options?.windowMs ?? default`.
pub record LimitOptions : Type 0 where
  pub limit : Option ℕ
  pub window_ms : Option ℕ

-- The hit is counted before the limit is tested, so a refused request counts as well.
unfoldable pub assert_within :
    WindowType
    → ℕ
    → ℕ
    → ℕ
    → String
    → LimitOptions
    → JsMap LimitEntry
    → JsMap LimitEntry × Result (Unit {0})
unfolding hit_limit domain_rate_limit
assert_within window default_limit default_ms now key options store =
    let (store', result) = hit_limit now key window (or_else options.window_ms default_ms) store in
    (store', domain_rate_limit (or_else options.limit default_limit) result)

unfoldable pub assert_rate_limit :
    ℕ → ℕ → String → LimitOptions → JsMap LimitEntry → JsMap LimitEntry × Result (Unit {0})
unfolding assert_within
assert_rate_limit default_limit now key options store =
    assert_within rate default_limit 60000 now key options store

unfoldable pub assert_relayer_budget :
    ℕ → ℕ → String → LimitOptions → JsMap LimitEntry → JsMap LimitEntry × Result (Unit {0})
unfolding assert_within
assert_relayer_budget default_limit now key options store =
    assert_within budget default_limit 86400000 now key options store
