-- ===== src/Perimeter/Window.antt =====
-- How many requests pass in a window.
use culturago_stellar.Base.{
  ℕ, suc, ◌+◌, ◌∙◌, ap, ◌≡◌, ◌≤◌, ◌<◌, none, some, String, List, [], ◌∷◌, ok, err, rate_limited,
  arith, length, All, JsMap, get, get-set_self,
}
use culturago_stellar.Stellar.Operation.{or_else}
use culturago_stellar.Perimeter.Rate.{
  LimitEntry, rate, full_key, LimitOptions, hit_limit, domain_rate_limit, assert_within,
  assert_rate_limit,
}

-- The store after requests at the given times, in order.
abbrev pub requests : ℕ → String → LimitOptions → List ℕ → JsMap LimitEntry → JsMap LimitEntry
requests default_limit key options [] store = store
requests default_limit key options (t ∷ ts) store =
    requests default_limit key options ts (assert_rate_limit default_limit t key options store).0

abbrev entry : ℕ → ℕ → LimitEntry
entry n end = record { count = n; reset_at = end }

request-counts :
    (default_limit : ℕ) (key : String) (options : LimitOptions) (end n t : ℕ)
    (store : JsMap LimitEntry)
    → t < end
    → get (full_key key rate) store ≡ some (entry n end)
    → get (full_key key rate) (assert_rate_limit default_limit t key options store).0
      ≡ some (entry (suc n) end)
unfolding assert_rate_limit assert_within hit_limit
request-counts default_limit key options end n t store early f =
    ground (arith, get-set_self (full_key key rate) (entry (suc n) end) store)

request-first :
    (default_limit : ℕ) (key : String) (options : LimitOptions) (start : ℕ)
    (store : JsMap LimitEntry)
    → get (full_key key rate) store ≡ none
    → get (full_key key rate) (assert_rate_limit default_limit start key options store).0
      ≡ some (entry 1 (start + or_else options.window_ms 60000))
unfolding assert_rate_limit assert_within hit_limit
request-first default_limit key options start store free = ground (
  arith,
  get-set_self (full_key key rate) (entry 1 (start + or_else options.window_ms 60000)) store,
)

request-result :
    (default_limit : ℕ) (key : String) (options : LimitOptions) (end n now : ℕ)
    (store : JsMap LimitEntry)
    → get (full_key key rate) store ≡ some (entry n end)
    → let limit = or_else options.limit default_limit in
      let result = (assert_rate_limit default_limit now key options store).1 in
      (now < end → suc n ≤ limit → result ≡ ok tt)
      × (now < end → limit < suc n → result ≡ err rate_limited)
      × (end ≤ now → 1 ≤ limit → result ≡ ok tt)
unfolding assert_rate_limit assert_within hit_limit domain_rate_limit
request-result default_limit key options end n now store f =
    (λ a b. ground arith, λ a b. ground arith, λ a b. ground arith)

later_requests :
    (default_limit : ℕ) (key : String) (options : LimitOptions) (end n : ℕ) (ts : List ℕ)
    (store : JsMap LimitEntry)
    → All (λ t. t < end) ts
    → get (full_key key rate) store ≡ some (entry n end)
    → get (full_key key rate) (requests default_limit key options ts store)
      ≡ some (entry (n + length ts) end)
later_requests default_limit key options end n [] store h f =
    f ∙ ap (λ m. some (entry m end)) (omega arith)
later_requests default_limit key options end n (t ∷ ts) store (early, h) f =
    later_requests default_limit key options end (suc n) ts
      (assert_rate_limit default_limit t key options store).0 h
      (request-counts default_limit key options end n t store early f)
    ∙ ap (λ m. some (entry m end)) (omega arith)

-- In a window of a key, which starts with a request at `start` where no earlier window runs, a request
-- passes exactly when it is among the first ones up to the limit, and a refused one is told
-- `rate_limited`. From the end of the window on the count starts again.
pub assert_rate_limit-window :
    (default_limit : ℕ) (key : String) (options : LimitOptions) (start now : ℕ) (ts : List ℕ)
    (store : JsMap LimitEntry)
    → get (full_key key rate) store ≡ none
    → let end = start + or_else options.window_ms 60000 in
      let limit = or_else options.limit default_limit in
      let used = requests default_limit key options (start ∷ ts) store in
      let result = (assert_rate_limit default_limit now key options used).1 in
      All (λ t. t < end) ts
      → (now < end → length ts + 2 ≤ limit → result ≡ ok tt)
        × (now < end → limit < length ts + 2 → result ≡ err rate_limited)
        × (end ≤ now → 1 ≤ limit → result ≡ ok tt)
assert_rate_limit-window default_limit key options start now ts store free early =
    let end = start + or_else options.window_ms 60000 in
    let first = request-first default_limit key options start store free in
    let counted =
      later_requests default_limit key options end 1 ts
        (assert_rate_limit default_limit start key options store).0 early first in
    let (passes, refused, fresh) =
      request-result default_limit key options end (1 + length ts) now
        (requests default_limit key options (start ∷ ts) store) counted in
    (λ a b. passes a (omega (arith, b)), λ a b. refused a (omega (arith, b)), fresh)
