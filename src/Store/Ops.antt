-- ===== src/Store/Ops.antt =====
-- The methods of InMemoryStore (redis_client.py). Each reads and writes the entry of one key only:
-- it is a function on that entry, `none` where the key is missing.
use mathlib.Core.Option
use llm_sentinel.Prelude.{
  ℕ, ◌+◌, ◌-◌, ◌/◌, String, Bool, true, false, not, ◌&&◌, List, [], ◌∷◌, ◌++◌, Option, none, some,
  leb, ltb, ◌==◌, Keyed, string_eq, if◌then◌else◌, Dict, lookup, insert, erase, contains, length,
  select, map,
}
use llm_sentinel.Prelude.Text.{str}
use llm_sentinel.Prelude.Numeral.{int}
use llm_sentinel.Breaker.State.{seconds}
use llm_sentinel.Store.Entry.{
  Value, text, members, sorted_set, Entry, Ttl, missing, forever, remaining, is_past, fresh, as_set,
  as_sorted_set,
}

abbrev pub Store : Type 0 → Type 0
Store M = Dict String (Entry M)

-- `self._data[key] = …`, or `del self._data[key]`.
abbrev pub put : {M : Type 0} → String → Option (Entry M) → Store M → Store M
put key none s = erase key s
put key (some e) s = insert key e s

-- A method that works on the entry of `key`.
unfoldable pub at_key :
    {M R : Type 0} → String → (Option (Entry M) → R × Option (Entry M)) → Store M → R × Store M
at_key key f s = ((f (lookup key s)).0, put key (f (lookup key s)).1 s)

-- Insertion by score behind what is not greater: Python's `sorted` is stable.
unfoldable pub insert_scored : {M : Type 0} → M × ℕ → List (M × ℕ) → List (M × ℕ)
insert_scored x [] = x ∷ []
insert_scored x (y ∷ ys) = if ltb x.1 y.1 then x ∷ y ∷ ys else y ∷ insert_scored x ys

unfoldable pub sort_scored : {M : Type 0} → List (M × ℕ) → List (M × ℕ) → List (M × ℕ)
unfolding insert_scored
sort_scored done [] = done
sort_scored done (x ∷ xs) = sort_scored (insert_scored x done) xs

abbrev pub in_range : ℕ → ℕ → ℕ → Bool
in_range min_score max_score s = leb min_score s && leb s max_score

module _ {M : Type 0} ⦃e : Keyed M⦄ where
  unfoldable pub set_with_ttl_entry :
      ℕ → String → ℕ → Option (Entry M) → Unit {0} × Option (Entry M)
  set_with_ttl_entry now value ttl_seconds o = (
    tt,
    some (record {
      value = text value;
      expires_at = if ltb 0 ttl_seconds then some (now + seconds ttl_seconds) else none;
    }),
  )

  unfoldable pub get_value_entry : ℕ → Option (Entry M) → Option (Value M) × Option (Entry M)
  get_value_entry now o = (Option.map (λ r. r.value) (fresh now o), fresh now o)

  -- `int` raises where the value is no number: none, and the entry stays.
  unfoldable pub increment_entry : ℕ → ℕ → Option (Entry M) → Option ℕ × Option (Entry M)
  increment_entry now amount o = elim (fresh now o) [
    | none ↦ (some amount, some (record { value = text (str amount); expires_at = none }))
    | some r ↦ elim r.value [
      | text t ↦ elim (int t) [
        | none ↦ (none, some r)
        | some n ↦ (some (n + amount), some (record r { value = text (str (n + amount)) }))
      ]
      | _ ↦ (none, some r)
    ]
  ]

  -- `pop(key, None) is not None`: an entry past its time counts.
  unfoldable pub delete_key_entry : Option (Entry M) → Bool × Option (Entry M)
  delete_key_entry none = (false, none)
  delete_key_entry (some r) = (true, none)

  unfoldable exists_entry : ℕ → Option (Entry M) → Bool × Option (Entry M)
  exists_entry now o = (elim (fresh now o) [ none ↦ false | some _ ↦ true ], fresh now o)

  unfoldable ttl_remaining_entry : ℕ → Option (Entry M) → Ttl × Option (Entry M)
  ttl_remaining_entry now o = (
    elim (fresh now o) [
      | none ↦ missing
      | some r ↦ elim r.expires_at [
        | none ↦ forever
        | some expires_at ↦ remaining ((expires_at - now) / seconds 1)
      ]
    ],
    fresh now o,
  )

  abbrev pub has : M → List M → Bool
  has y [] = false
  has y (x ∷ xs) = if x == y then true else has y xs

  -- `set.update`
  abbrev union : List M → List M → List M
  union xs [] = xs
  union xs (y ∷ ys) = union (if has y xs then xs else xs ++ (y ∷ [])) ys

  unfoldable pub set_add_entry : ℕ → List M → Option (Entry M) → ℕ × Option (Entry M)
  set_add_entry now ms o = elim (fresh now o) [
    | none ↦ (length ms, some (record { value = members (union [] ms); expires_at = none }))
    | some r ↦ (length ms, some (record r { value = members (union (as_set r.value) ms) }))
  ]

  unfoldable pub set_members_entry : ℕ → Option (Entry M) → List M × Option (Entry M)
  set_members_entry now o =
      (elim (fresh now o) [ none ↦ [] | some r ↦ as_set r.value ], fresh now o)

  unfoldable set_count_entry : ℕ → Option (Entry M) → ℕ × Option (Entry M)
  unfolding set_members_entry
  set_count_entry now o = (length (set_members_entry now o).0, (set_members_entry now o).1)

  -- The members that the loop of `set_remove` finds, and what is left of the set.
  discard : List M → List M → ℕ → ℕ × List M
  discard [] xs removed = (removed, xs)
  discard (m ∷ ms) xs removed =
      discard ms (select (λ x. not (x == m)) xs) (if has m xs then removed + 1 else removed)

  unfoldable pub set_remove_entry : List M → Option (Entry M) → ℕ × Option (Entry M)
  unfolding discard
  set_remove_entry ms none = (0, none)
  set_remove_entry ms (some r) = elim r.value [
    | members xs ↦
        let (removed, left) = discard ms xs 0 in (removed, some (record r { value = members left }))
    | _ ↦ (0, some r)
  ]

  -- The loop of `zadd`: the count of new members, and the sorted set with the scores.
  add_scores : Dict M ℕ → Dict M ℕ → ℕ → ℕ × Dict M ℕ
  add_scores [] z added = (added, z)
  add_scores ((m, score) ∷ ms) z added =
      add_scores ms (insert m score z) (if contains m z then added else added + 1)

  unfoldable pub zadd_entry : ℕ → Dict M ℕ → Option (Entry M) → ℕ × Option (Entry M)
  unfolding add_scores
  zadd_entry now mapping o = elim (fresh now o) [
    | none ↦
        let (added, z) = add_scores mapping [] 0 in
        (added, some (record { value = sorted_set z; expires_at = none }))
    | some r ↦
        let (added, z) = add_scores mapping (as_sorted_set r.value) 0 in
        (added, some (record r { value = sorted_set z }))
  ]

  unfoldable pub zrangebyscore_entry :
      ℕ → ℕ → ℕ → Option (Entry M) → List (M × ℕ) × Option (Entry M)
  unfolding sort_scored
  zrangebyscore_entry now min_score max_score o = (
    elim (fresh now o) [
      | none ↦ []
      | some r ↦
          select (λ m. in_range min_score max_score m.1) (sort_scored [] (as_sorted_set r.value))
    ],
    fresh now o,
  )

  -- No check for expiry here.
  unfoldable pub zremrangebyscore_entry : ℕ → ℕ → Option (Entry M) → ℕ × Option (Entry M)
  zremrangebyscore_entry min_score max_score none = (0, none)
  zremrangebyscore_entry min_score max_score (some r) = elim r.value [
    | sorted_set z ↦ (
      length (select (λ m. in_range min_score max_score m.1) z),
      some (record r {
        value = sorted_set (select (λ m. not (in_range min_score max_score m.1)) z);
      }),
    )
    | _ ↦ (0, some r)
  ]

  -- Nor here.
  unfoldable pub expire_entry : ℕ → ℕ → Option (Entry M) → Bool × Option (Entry M)
  expire_entry now ttl_seconds none = (false, none)
  expire_entry now ttl_seconds (some r) =
      (true, some (record r { expires_at = some (now + seconds ttl_seconds) }))

  unfoldable pub set_with_ttl : ℕ → String → String → ℕ → Store M → Store M
  unfolding at_key set_with_ttl_entry
  set_with_ttl now key value ttl_seconds s =
      (at_key key (set_with_ttl_entry now value ttl_seconds) s).1

  unfoldable pub get_value : ℕ → String → Store M → Option (Value M) × Store M
  unfolding at_key get_value_entry
  get_value now key = at_key key (get_value_entry now)

  unfoldable pub delete_key : String → Store M → Bool × Store M
  unfolding at_key delete_key_entry
  delete_key key = at_key key delete_key_entry

  unfoldable pub increment : ℕ → String → ℕ → Store M → Option ℕ × Store M
  unfolding at_key increment_entry
  increment now key amount = at_key key (increment_entry now amount)

  unfoldable pub set_add : ℕ → String → List M → Store M → ℕ × Store M
  unfolding at_key set_add_entry
  set_add now key ms = at_key key (set_add_entry now ms)

  unfoldable pub set_members : ℕ → String → Store M → List M × Store M
  unfolding at_key set_members_entry
  set_members now key = at_key key (set_members_entry now)

  unfoldable pub set_remove : String → List M → Store M → ℕ × Store M
  unfolding at_key set_remove_entry
  set_remove key ms = at_key key (set_remove_entry ms)

  unfoldable pub zadd : ℕ → String → Dict M ℕ → Store M → ℕ × Store M
  unfolding at_key zadd_entry
  zadd now key mapping = at_key key (zadd_entry now mapping)

  unfoldable pub zrangebyscore : ℕ → String → ℕ → ℕ → Store M → List (M × ℕ) × Store M
  unfolding at_key zrangebyscore_entry
  zrangebyscore now key min_score max_score =
      at_key key (zrangebyscore_entry now min_score max_score)

  unfoldable pub zremrangebyscore : String → ℕ → ℕ → Store M → ℕ × Store M
  unfolding at_key zremrangebyscore_entry
  zremrangebyscore key min_score max_score = at_key key (zremrangebyscore_entry min_score max_score)

  unfoldable pub expire : ℕ → String → ℕ → Store M → Bool × Store M
  unfolding at_key expire_entry
  expire now key ttl_seconds = at_key key (expire_entry now ttl_seconds)

  -- `get_all_keys` deletes what has expired; `is_match` stands for `fnmatch` at the pattern.
  unfoldable pub get_all_keys : ℕ → (String → Bool) → Store M → List String × Store M
  get_all_keys now is_match s =
      let live = select (λ r. not (is_past now r.1.expires_at)) s in
      (select is_match (map (λ r. r.0) live), live)

  unfoldable flushdb : Store M → Store M
  flushdb s = []
