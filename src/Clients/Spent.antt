-- ===== src/Clients/Spent.antt =====
-- What the quota of a client counts (clients.py).
use native.Mathlib.Nat.{le-div_iff_mul-le}
use llm_sentinel.Prelude.{
  ℕ, ◌+◌, ◌*◌, ◌/◌, ◌≤◌, ◌<◌, ◌≡◌, refl, ap, ◌∙◌, String, true, ◌&&◌, List, [], ◌∷◌, ◌++◌, arith,
  ◌==◌, string_eq, if◌then◌else◌, select, select-append,
}
use llm_sentinel.Auth.State.{Client}
use llm_sentinel.Clients.Quota.{
  TokenUsage, is_of, sum_input, sum_output, round_div, quota_of, percent_of, get_quota_usage,
  is_exhausted, record_token_usage,
}

sum_input-append : (us vs : List TokenUsage) → sum_input (us ++ vs) ≡ sum_input us + sum_input vs
unfolding sum_input
sum_input-append [] vs = omega arith
sum_input-append (u ∷ us) vs = omega (arith, sum_input-append us vs)

sum_output-append :
    (us vs : List TokenUsage) → sum_output (us ++ vs) ≡ sum_output us + sum_output vs
unfolding sum_output
sum_output-append [] vs = omega arith
sum_output-append (u ∷ us) vs = omega (arith, sum_output-append us vs)

-- The tokens that are recorded for a client and a day are added to what the quota of that client
-- and day has counted, and to no other.
pub get_quota_usage-record_token_usage :
    (id date other day provider model : String) (input output : ℕ) (clients : List Client)
    (usage : List TokenUsage)
    → let before = get_quota_usage other day clients usage in
      let behind =
        get_quota_usage other day clients
          (record_token_usage date id provider model input output usage) in
      let counts = id == other && date == day in
      (behind.input_tokens ≡ before.input_tokens + (if counts then input else 0))
      × (behind.output_tokens ≡ before.output_tokens + (if counts then output else 0))
      × (behind.daily_quota ≡ before.daily_quota)
unfolding get_quota_usage record_token_usage sum_input sum_output
get_quota_usage-record_token_usage id date other day provider model input output clients usage =
    let row : TokenUsage = record {
      client_id = id;
      date = date;
      provider = provider;
      model = model;
      input_tokens = input;
      output_tokens = output;
    } in
    let rows = select-append (is_of other day) usage (row ∷ []) in
    let old = select (is_of other day) usage in
    let new = select (is_of other day) (row ∷ []) in
    (
      ap sum_input rows ∙ sum_input-append old new ∙ ground arith,
      ap sum_output rows ∙ sum_output-append old new ∙ ground arith,
      refl,
    )

-- A quotient that is at least 10000 before it is rounded stays so.
round_div-full :
    (used quota : ℕ) → 0 < quota → quota ≤ used → 10000 ≤ round_div (used * 10000) quota
unfolding round_div
round_div-full used quota p h =
    let full : 10000 ≤ used * 10000 / quota = (le-div_iff_mul-le p).1 (omega arith) in
    ground (arith, full)

-- A client with a quota that has used all of it is exhausted.
is_exhausted-full :
    (id date : String) (clients : List Client) (usage : List TokenUsage)
    → let q = get_quota_usage id date clients usage in
      0 < q.daily_quota → q.daily_quota ≤ q.input_tokens + q.output_tokens → is_exhausted q ≡ true
unfolding get_quota_usage percent_of
is_exhausted-full id date clients usage p h =
    let rows = select (is_of id date) usage in
    ground (arith, p, round_div-full (sum_input rows + sum_output rows) (quota_of id clients) p h)
