-- ===== src/Store/Others.antt =====
-- The methods of InMemoryStore (redis_client.py) leave the entries of all other keys as they were.
use llm_sentinel.Prelude.{ℕ, ◌≡◌, ap, String, false, List, ◌==◌, Keyed, string_eq, Dict, lookup}
use llm_sentinel.Store.Ops.{
  Store, at_key, set_with_ttl, get_value, delete_key, increment, expire, set_add, set_members,
  set_remove, zadd, zrangebyscore, zremrangebyscore, set_with_ttl_entry, get_value_entry,
  delete_key_entry, increment_entry, expire_entry, set_add_entry, set_members_entry,
  set_remove_entry, zadd_entry, zrangebyscore_entry, zremrangebyscore_entry,
}
use llm_sentinel.Store.Laws.{at_key-other}

-- What is read at a key is decided by its entry.
pub get_value-lookup :
    {M : Type 0} ⦃e : Keyed M⦄ (now : ℕ) (key : String) (s t : Store M)
    → lookup key s ≡ lookup key t
    → (get_value now key s).0 ≡ (get_value now key t).0
unfolding get_value at_key
get_value-lookup now key s t h = ap (λ o. (get_value_entry now o).0) h

module _ {M : Type 0} ⦃e : Keyed M⦄ (key j : String) (n : (key == j) ≡ false) where
  pub set_with_ttl-other :
      (now : ℕ) (value : String) (ttl : ℕ) (s : Store M)
      → lookup j (set_with_ttl now key value ttl s) ≡ lookup j s
  unfolding set_with_ttl
  set_with_ttl-other now value ttl s = at_key-other key (set_with_ttl_entry now value ttl) s j n

  pub get_value-other : (now : ℕ) (s : Store M) → lookup j (get_value now key s).1 ≡ lookup j s
  unfolding get_value
  get_value-other now s = at_key-other key (get_value_entry now) s j n

  pub delete_key-other : (s : Store M) → lookup j (delete_key key s).1 ≡ lookup j s
  unfolding delete_key
  delete_key-other s = at_key-other key delete_key_entry s j n

  pub increment-other :
      (now amount : ℕ) (s : Store M) → lookup j (increment now key amount s).1 ≡ lookup j s
  unfolding increment
  increment-other now amount s = at_key-other key (increment_entry now amount) s j n

  pub expire-other : (now ttl : ℕ) (s : Store M) → lookup j (expire now key ttl s).1 ≡ lookup j s
  unfolding expire
  expire-other now ttl s = at_key-other key (expire_entry now ttl) s j n

  pub set_add-other :
      (now : ℕ) (ms : List M) (s : Store M) → lookup j (set_add now key ms s).1 ≡ lookup j s
  unfolding set_add
  set_add-other now ms s = at_key-other key (set_add_entry now ms) s j n

  set_members-other : (now : ℕ) (s : Store M) → lookup j (set_members now key s).1 ≡ lookup j s
  unfolding set_members
  set_members-other now s = at_key-other key (set_members_entry now) s j n

  pub set_remove-other : (ms : List M) (s : Store M) → lookup j (set_remove key ms s).1 ≡ lookup j s
  unfolding set_remove
  set_remove-other ms s = at_key-other key (set_remove_entry ms) s j n

  pub zadd-other :
      (now : ℕ) (ms : Dict M ℕ) (s : Store M) → lookup j (zadd now key ms s).1 ≡ lookup j s
  unfolding zadd
  zadd-other now ms s = at_key-other key (zadd_entry now ms) s j n

  pub zrangebyscore-other :
      (now a b : ℕ) (s : Store M) → lookup j (zrangebyscore now key a b s).1 ≡ lookup j s
  unfolding zrangebyscore
  zrangebyscore-other now a b s = at_key-other key (zrangebyscore_entry now a b) s j n

  pub zremrangebyscore-other :
      (a b : ℕ) (s : Store M) → lookup j (zremrangebyscore key a b s).1 ≡ lookup j s
  unfolding zremrangebyscore
  zremrangebyscore-other a b s = at_key-other key (zremrangebyscore_entry a b) s j n
