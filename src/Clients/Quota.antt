-- ===== src/Clients/Quota.antt =====
-- get_quota_usage, reset_quota, record_token_usage and touch_client of clients.py. The cost of a usage
-- row, a float, is left out. A day is its text.
use llm_sentinel.Prelude.{
  ℕ, ◌+◌, ◌*◌, ◌/◌, ◌%◌, String, Bool, not, ◌&&◌, List, [], ◌∷◌, ◌++◌, none, some, leb, ltb,
  nat_beq, ◌==◌, string_eq, if◌then◌else◌, select,
}
use llm_sentinel.Auth.State.{Client, first_where, update_first}

pub record TokenUsage : Type 0 where
  pub client_id : String
  pub date : String
  pub provider : String
  pub model : String
  pub input_tokens : ℕ
  pub output_tokens : ℕ

abbrev pub is_of : String → String → TokenUsage → Bool
is_of client_id date u = u.client_id == client_id && u.date == date

-- The sums of a query; no row counts as 0.
unfoldable pub sum_input : List TokenUsage → ℕ
sum_input [] = 0
sum_input (u ∷ us) = u.input_tokens + sum_input us

unfoldable pub sum_output : List TokenUsage → ℕ
sum_output [] = 0
sum_output (u ∷ us) = u.output_tokens + sum_output us

-- QuotaResponse, with the percentage in hundredths.
pub record Quota : Type 0 where
  pub input_tokens : ℕ
  pub output_tokens : ℕ
  pub daily_quota : ℕ
  pub percent_used : ℕ

-- `round` of a quotient, in exact arithmetic: to the even neighbour at a tie.
unfoldable pub round_div : ℕ → ℕ → ℕ
round_div n d =
    let q = n / d in
    let r = n % d in
    if ltb (r + r) d
    then q
    else if ltb d (r + r)
    then q + 1
    else if nat_beq (q % 2) 0
    then q
    else q + 1

abbrev has_id : String → Client → Bool
has_id client_id c = c.id == client_id

abbrev pub quota_of : String → List Client → ℕ
quota_of client_id clients = elim (first_where (has_id client_id) clients) [
  | none ↦ 0
  | some c ↦ c.daily_token_quota
]

unfoldable pub percent_of : ℕ → ℕ → ℕ
percent_of used quota = if ltb 0 quota then round_div (used * 10000) quota else 0

unfoldable pub get_quota_usage : String → String → List Client → List TokenUsage → Quota
get_quota_usage client_id date clients usage =
    let rows = select (is_of client_id date) usage in
    let quota = quota_of client_id clients in
    record {
      input_tokens = sum_input rows;
      output_tokens = sum_output rows;
      daily_quota = quota;
      percent_used = percent_of (sum_input rows + sum_output rows) quota;
    }

-- The test of `_handle_chat` in main.py.
abbrev pub is_exhausted : Quota → Bool
is_exhausted q = ltb 0 q.daily_quota && leb 10000 q.percent_used

unfoldable reset_quota : String → String → List TokenUsage → List TokenUsage
reset_quota client_id date usage = select (λ u. not (is_of client_id date u)) usage

unfoldable pub record_token_usage :
    String → String → String → String → ℕ → ℕ → List TokenUsage → List TokenUsage
record_token_usage date client_id provider model input_tokens output_tokens usage =
    usage
    ++ (record {
      client_id = client_id;
      date = date;
      provider = provider;
      model = model;
      input_tokens = input_tokens;
      output_tokens = output_tokens;
    }
        ∷ [])

unfoldable pub touch_client : ℕ → String → List Client → List Client
touch_client now client_id clients =
    update_first (has_id client_id) (λ c. record c { last_used_at = some now }) clients
