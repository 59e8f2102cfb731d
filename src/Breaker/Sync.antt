-- ===== src/Breaker/Sync.antt =====
-- sync_to_redis and sync_from_redis of circuit_breaker.py: what one worker writes for the others.
-- A written value is kept as the fields of its JSON text; `none` stands for a missing or empty
-- value, or a text that `json.loads` or the subscripts of `data` refuse.
use llm_sentinel.Prelude.{
  ℕ, ◌*◌, ◌≤◌, ◌≡◌, refl, true, String, List, [], ◌∷◌, Option, none, some, arith, map, ◌==◌,
  string_eq, if◌then◌else◌,
}
use Prim.Native.String.{◌++◌ as append}
use llm_sentinel.Breaker.State.{
  CircuitBreaker, CbState, closed, opened, half_open, is_available, seconds,
}
use llm_sentinel.Breaker.Manager.{
  Manager, on_breaker, find_breaker, find_breaker-on_breaker, get_all_states,
}

-- `to_dict`, less the two settings, which no reader of the value uses.
record Snapshot : Type 0 where
  pub provider : String
  pub key_index : ℕ
  pub state : Option String
  pub failure_count : Option ℕ

-- `CBState.value`
abbrev state_value : CbState → String
state_value closed = "closed"
state_value opened = "open"
state_value half_open = "half_open"

-- `CBState(state_str)`, which raises on any other text.
abbrev parse_state : String → Option CbState
parse_state s =
    if s == "closed"
    then some closed
    else if s == "open"
    then some opened
    else if s == "half_open"
    then some half_open
    else none

unfoldable snapshot : CircuitBreaker → Snapshot
snapshot b = record {
  provider = b.provider;
  key_index = b.key_index;
  state = some (state_value b.state);
  failure_count = some b.failure_count;
}

-- One value of `sync_from_redis`: the breaker is created before its state is read.
unfoldable load_snapshot : Option Snapshot → Manager → Manager
load_snapshot none m = m
load_snapshot (some s) m =
    let text : String = elim s.state [ none ↦ "closed" | some t ↦ t ] in
    let count : ℕ = elim s.failure_count [ none ↦ 0 | some n ↦ n ] in
    on_breaker s.provider s.key_index
      (λ b. elim (parse_state text) [
        | none ↦ b
        | some st ↦ record b { state = st; failure_count = count }
      ])
      m

unfoldable sync_from_redis : List (Option Snapshot) → Manager → Manager
unfolding load_snapshot
sync_from_redis [] m = m
sync_from_redis (s ∷ ss) m = sync_from_redis ss (load_snapshot s m)

-- The keys, values and lifetimes that `sync_to_redis` writes.
unfoldable sync_to_redis : ℕ → Manager → Manager × List (String × Snapshot × ℕ)
unfolding snapshot get_all_states
sync_to_redis now m =
    let m' = (get_all_states now m).0 in
    (m', map (λ e. (append "cb:" e.0, snapshot e.1, m'.recovery_timeout * 2)) m'.breakers)

parse_state_value : (s : CbState) → parse_state (state_value s) ≡ some s
parse_state_value closed = refl
parse_state_value opened = refl
parse_state_value half_open = refl

-- What one worker writes for a breaker, another reads back: the same state and failure count.
load_snapshot-snapshot :
    (b : CircuitBreaker) (m : Manager)
    → let c = find_breaker b.provider b.key_index (load_snapshot (some (snapshot b)) m) in
      (c.state ≡ b.state) × (c.failure_count ≡ b.failure_count)
unfolding load_snapshot snapshot
load_snapshot-snapshot b m =
    rw (find_breaker-on_breaker b.provider b.key_index _ m, parse_state_value b.state) (refl, refl)

-- A worker whose own breaker has the opening time 0, and that reads another's open breaker, lets
-- requests through from its recovery timeout after time 0 on: the opening time is not exchanged.
load_snapshot-open_available :
    (b : CircuitBreaker) (m : Manager) (now : ℕ)
    → b.state ≡ opened
    → (find_breaker b.provider b.key_index m).opened_at ≡ 0
    → seconds (find_breaker b.provider b.key_index m).recovery_timeout ≤ now
    → (is_available now
        (find_breaker b.provider b.key_index (load_snapshot (some (snapshot b)) m))).1
      ≡ true
unfolding load_snapshot snapshot is_available
load_snapshot-open_available b m now s o t =
    rw (find_breaker-on_breaker b.provider b.key_index _ m, parse_state_value b.state, s)
      (ground arith)
