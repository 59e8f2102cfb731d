-- ===== src/Store/Laws.antt =====
-- Laws of InMemoryStore (redis_client.py) over the entries of its keys.
use llm_sentinel.Prelude.{
  ℕ, ◌+◌, ◌<◌, ◌≡◌, refl, ap, ◌∙◌, String, false, Option, none, some, arith, ltb, ◌==◌, Keyed, Dict,
  string_eq, if◌then◌else◌, lookup, lookup-insert, lookup-erase, beq_self, Option-cases, inl, inr,
}
use llm_sentinel.Breaker.State.{seconds}
use llm_sentinel.Store.Entry.{text, Entry}
use llm_sentinel.Store.Ops.{
  Store, put, at_key, delete_key, delete_key_entry, set_with_ttl, get_value, expire,
  set_with_ttl_entry, get_value_entry, expire_entry, zremrangebyscore, zremrangebyscore_entry,
  zrangebyscore, zrangebyscore_entry, zadd, zadd_entry,
}

put_lem :
    {M : Type 0} (key j : String) (o : Option (Entry M)) (s : Store M)
    → lookup j (put key o s) ≡ (if key == j then o else lookup j s)
put_lem key j none s = lookup-erase key j s
put_lem key j (some r) s = lookup-insert key j r s

module _ {M R : Type 0} (key : String) (f : Option (Entry M) → R × Option (Entry M))
    (s : Store M) where
  -- What a method leaves at its own key is what it makes of the entry there.
  pub at_key_self : lookup key (at_key key f s).1 ≡ (f (lookup key s)).1
  unfolding at_key
  at_key_self = rw (put_lem key key (f (lookup key s)).1 s, beq_self key)

  -- A method leaves the entries of all other keys as they were.
  pub at_key-other : (j : String) → (key == j) ≡ false → lookup j (at_key key f s).1 ≡ lookup j s
  unfolding at_key
  at_key-other j h = rw (put_lem key j (f (lookup key s)).1 s, h)

module _ {M : Type 0} ⦃e : Keyed M⦄ where
  -- A value that is set with a lifetime is read back until that has passed, and then no more; with
  -- the lifetime 0 it is read back at any time.
  pub get_value-set_with_ttl :
      (now later ttl : ℕ) (key value : String) (s : Store M)
      → (get_value later key (set_with_ttl now key value ttl s)).0 ≡ (
          if ltb 0 ttl
          then if ltb (now + seconds ttl) later then none else some (text value)
          else some (text value))
  unfolding get_value set_with_ttl
  get_value-set_with_ttl now later ttl key value s =
      ap (λ (o : Option (Entry M)). (get_value_entry later o).0)
        (at_key_self key (set_with_ttl_entry now value ttl) s)
      ∙ ground arith

  -- A value whose positive lifetime has passed is not read; after `expire` with a positive lifetime
  -- at that time it is read again.
  get_value-expire_revives :
      (now later ttl more : ℕ) (key value : String) (s : Store M)
      → 0 < ttl
      → now + seconds ttl < later
      → 0 < more
      → ((get_value later key (set_with_ttl now key value ttl s)).0 ≡ none)
        × ((get_value later key (expire later key more (set_with_ttl now key value ttl s)).1).0
            ≡ some (text value))
  unfolding get_value set_with_ttl expire
  get_value-expire_revives now later ttl more key value s p l m = (
    get_value-set_with_ttl now later ttl key value s ∙ ground arith,
    ap (λ (o : Option (Entry M)). (get_value_entry later o).0)
          (at_key_self key (expire_entry later more) (set_with_ttl now key value ttl s)
            ∙ ap (λ (o : Option (Entry M)). (expire_entry later more o).1)
                (at_key_self key (set_with_ttl_entry now value ttl) s))
        ∙ ground arith,
  )

  -- The sorted-set methods at their own key.
  pub zremrangebyscore_self :
      (key : String) (a b : ℕ) (s : Store M)
      → lookup key (zremrangebyscore key a b s).1 ≡ (zremrangebyscore_entry a b (lookup key s)).1
  unfolding zremrangebyscore
  zremrangebyscore_self key a b s = at_key_self key (zremrangebyscore_entry a b) s

  pub zrangebyscore-0 :
      (now : ℕ) (key : String) (a b : ℕ) (s : Store M)
      → (zrangebyscore now key a b s).0 ≡ (zrangebyscore_entry now a b (lookup key s)).0
  unfolding zrangebyscore
  zrangebyscore-0 now key a b s = refl

  pub zrangebyscore_self :
      (now : ℕ) (key : String) (a b : ℕ) (s : Store M)
      → lookup key (zrangebyscore now key a b s).1 ≡ (zrangebyscore_entry now a b (lookup key s)).1
  unfolding zrangebyscore
  zrangebyscore_self now key a b s = at_key_self key (zrangebyscore_entry now a b) s

  pub zadd_self :
      (now : ℕ) (key : String) (m : Dict M ℕ) (s : Store M)
      → lookup key (zadd now key m s).1 ≡ (zadd_entry now m (lookup key s)).1
  unfolding zadd
  zadd_self now key m s = at_key_self key (zadd_entry now m) s

  pub expire_self :
      (now : ℕ) (key : String) (ttl : ℕ) (s : Store M)
      → lookup key (expire now key ttl s).1 ≡ (expire_entry now ttl (lookup key s)).1
  unfolding expire
  expire_self now key ttl s = at_key_self key (expire_entry now ttl) s

-- A key that is deleted has no entry, also where it had none.
pub delete_key_self :
    {M : Type 0} ⦃e : Keyed M⦄ (key : String) (s : Store M) → lookup key (delete_key key s).1 ≡ none
unfolding delete_key delete_key_entry
delete_key_self key s = elim (Option-cases (lookup key s)) [
  | inl missing ↦ at_key_self key delete_key_entry s ∙ ground (arith, missing)
  | inr (r, there) ↦ at_key_self key delete_key_entry s ∙ ground (arith, there)
]
