-- ===== src/RateLimit/Window.antt =====
-- The sliding windows of rate_limiter.py. The text of a member, "{now}:{id(task)}" or
-- "{now}:{tokens}", is kept as the pair of its two parts, into which the code splits it again.
use llm_sentinel.Prelude.{
  ℕ, ◌+◌, ◌-◌, ◌/◌, ◌≡◌, ◌↔◌, max, String, Bool, true, false, ◌&&◌, List, [], ◌∷◌, Option, arith,
  leb, ltb, nat_beq, Keyed, if◌then◌else◌, length,
}
use llm_sentinel.Breaker.State.{seconds}
use llm_sentinel.Store.Entry.{Entry}
use llm_sentinel.Store.Ops.{
  Store, zremrangebyscore, zrangebyscore, zadd, expire, zremrangebyscore_entry, zrangebyscore_entry,
  zadd_entry, expire_entry,
}

pub record Stamp : Type 0 where
  pub time : ℕ
  pub mark : ℕ

abbrev stamp_beq : Stamp → Stamp → Bool
stamp_beq a b = nat_beq a.time b.time && nat_beq a.mark b.mark

pub stamp_beq_iff : (a b : Stamp) → (stamp_beq a b ≡ true) ↔ (a ≡ b)
stamp_beq_iff a b = ground arith

instance abbrev pub stamp_eq : Keyed Stamp
stamp_eq = record { agrees = stamp_beq; agrees_iff = stamp_beq_iff }

-- `_WINDOW`
abbrev pub window : ℕ
window = 60

-- The seconds until the oldest member has left the window, at least 1.
unfoldable pub retry_after : ℕ → List (Stamp × ℕ) → ℕ
retry_after now [] = 1
retry_after now (m ∷ ms) = max ((m.0.time + seconds window - now) / seconds 1 + 1) 1

-- `_sliding_window_check` by the task `r.mark` at the time `r.time`: whether the request is allowed,
-- when to try again, and the store.
unfoldable pub sliding_window_check : String → ℕ → Stamp → Store Stamp → (Bool × ℕ) × Store Stamp
unfolding retry_after
sliding_window_check key limit r s =
    let now = r.time in
    let window_start = now - seconds window in
    let (_, s1) = zremrangebyscore key 0 window_start s in
    let (members, s2) = zrangebyscore now key window_start now s1 in
    if leb limit (length members)
    then ((false, retry_after now members), s2)
    else (let (_, s3) = zadd now key ((r, now) ∷ []) s2 in
        ((true, 0), (expire now key (window + 10) s3).1))

-- The tokens of the members, the second part of each.
unfoldable sum_tokens : List (Stamp × ℕ) → ℕ
sum_tokens [] = 0
sum_tokens (m ∷ ms) = m.0.mark + sum_tokens ms

-- `_token_window_check` at the time `r.time` for `r.mark` tokens.
unfoldable pub token_window_check : String → ℕ → Stamp → Store Stamp → (Bool × ℕ) × Store Stamp
unfolding retry_after sum_tokens
token_window_check key limit_tpm r s =
    let now = r.time in
    let window_start = now - seconds window in
    let (_, s1) = zremrangebyscore key 0 window_start s in
    let (members, s2) = zrangebyscore now key window_start now s1 in
    if ltb limit_tpm (sum_tokens members + r.mark)
    then ((false, retry_after now members), s2)
    else (let (_, s3) = zadd now key ((r, now) ∷ []) s2 in
        ((true, 0), (expire now key (window + 10) s3).1))

-- What the check does to the entry of its key, read off from the entry alone.
unfoldable pub check_entry : ℕ → Stamp → Option (Entry Stamp) → (Bool × ℕ) × Option (Entry Stamp)
unfolding retry_after
check_entry limit r o =
    let now = r.time in
    let window_start = now - seconds window in
    let o1 = (zremrangebyscore_entry 0 window_start o).1 in
    let (members, o2) = zrangebyscore_entry now window_start now o1 in
    if leb limit (length members)
    then ((false, retry_after now members), o2)
    else ((true, 0), (expire_entry now (window + 10) (zadd_entry now ((r, now) ∷ []) o2).1).1)
