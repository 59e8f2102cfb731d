-- ===== src/Store/Entry.antt =====
-- One key of InMemoryStore (redis_client.py): what each method does to the entry of its key.
-- The members of sets and sorted sets are of a type `M` with equality: the store only compares them.
use llm_sentinel.Prelude.{
  ℕ, String, Bool, false, List, [], Option, none, some, ltb, if◌then◌else◌, Dict,
}

pub data Value (M : Type 0) : Type 0 where
  text : String → Value M
  members : List M → Value M
  sorted_set : Dict M ℕ → Value M

-- The pair (value, expires_at) of `_data`.
pub record Entry (M : Type 0) : Type 0 where
  pub value : Value M
  pub expires_at : Option ℕ

-- What `ttl_remaining` answers: None, -1, or a number of seconds.
pub data Ttl : Type 0 where
  missing forever : Ttl
  remaining : ℕ → Ttl

abbrev pub is_past : ℕ → Option ℕ → Bool
is_past now none = false
is_past now (some expires_at) = ltb expires_at now

-- `_is_expired` deletes an entry whose time has passed; what is left is what it lets be seen.
abbrev pub fresh : {M : Type 0} → ℕ → Option (Entry M) → Option (Entry M)
fresh now none = none
fresh now (some e) = if is_past now e.expires_at then none else some e

abbrev pub as_set : {M : Type 0} → Value M → List M
as_set (members ms) = ms
as_set _ = []

-- A value that is no dict counts as an empty sorted set.
abbrev pub as_sorted_set : {M : Type 0} → Value M → Dict M ℕ
as_sorted_set (sorted_set z) = z
as_sorted_set _ = []
