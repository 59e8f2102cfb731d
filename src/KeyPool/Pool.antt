-- ===== src/KeyPool/Pool.antt =====
-- class ApiKeyPool of key_pool.py.
use llm_sentinel.Prelude.{
  ℕ, suc, ◌+◌, ◌%◌, String, Bool, true, false, List, [], ◌∷◌, ◌++◌, Option, none, some, leb, ltb,
  ◌==◌, nat_eq, string_eq, if◌then◌else◌, Dict, lookup, insert, erase, length, get_elem?, modify,
  remove_at,
}
use mathlib.Core.Option
use llm_sentinel.Breaker.State.{seconds}

-- An entry of `_keys`.
pub record KeyEntry : Type 0 where
  pub key_plaintext : String
  pub db_id : Option String
  pub usage_count : ℕ
  pub error_count : ℕ
  pub is_healthy : Bool
  pub last_used_at : Option ℕ

pub record ApiKeyPool : Type 0 where
  pub provider : String
  pub keys : List KeyEntry
  pub counter : ℕ
  pub backoff : Dict ℕ ℕ

unfoldable pub new_pool : String → ApiKeyPool
new_pool provider = record { provider = provider; keys = []; counter = 0; backoff = [] }

abbrev pub is_empty {ℓ} : {A : Type ℓ} → List A → Bool
is_empty [] = true
is_empty (x ∷ xs) = false

-- `_is_backed_off`: an entry whose time has come is dropped on the way.
unfoldable pub is_backed_off : ℕ → ℕ → Dict ℕ ℕ → Bool × Dict ℕ ℕ
is_backed_off now index backoff = elim (lookup index backoff) [
  | none ↦ (false, backoff)
  | some until ↦ if leb until now then (false, erase index backoff) else (true, backoff)
]

-- The comprehension `healthy`, from `index` on; a key that is not healthy is not looked up.
unfoldable pub scan : ℕ → ℕ → List KeyEntry → Dict ℕ ℕ → List (ℕ × KeyEntry) × Dict ℕ ℕ
unfolding is_backed_off
scan now index [] backoff = ([], backoff)
scan now index (k ∷ ks) backoff =
    let looked_up : Bool × Dict ℕ ℕ =
      if k.is_healthy then is_backed_off now index backoff else (true, backoff) in
    let (rest, backoff') = scan now (suc index) ks looked_up.1 in
    (if looked_up.0 then rest else (index, k) ∷ rest, backoff')

-- `min(healthy, key=usage_count)`: the first of the least used.
unfoldable pub least_used : ℕ × KeyEntry → List (ℕ × KeyEntry) → ℕ × KeyEntry
least_used best [] = best
least_used best (x ∷ xs) =
    least_used (if ltb x.1.usage_count best.1.usage_count then x else best) xs

-- The entry that a strategy picks; `draw` is the random number behind `random.choice`.
unfoldable pub choose : String → ℕ → ℕ → List (ℕ × KeyEntry) → Option (ℕ × KeyEntry)
unfolding least_used
choose strategy draw counter [] = none
choose strategy draw counter (x ∷ xs) =
    if strategy == "random"
    then get_elem? (x ∷ xs) (draw % length (x ∷ xs))
    else if strategy == "least_used"
    then some (least_used x xs)
    else get_elem? (x ∷ xs) (counter % length (x ∷ xs))

unfoldable pub get_next_key : ℕ → String → ℕ → ApiKeyPool → Option (String × ℕ) × ApiKeyPool
unfolding scan choose
get_next_key now strategy draw p =
    if is_empty p.keys
    then (none, p)
    else (let (healthy, backoff') = scan now 0 p.keys p.backoff in
        let p' : ApiKeyPool = record p { backoff = backoff' } in
        if is_empty healthy then (none, p') else (
          Option.map (λ e. (e.1.key_plaintext, e.0)) (choose strategy draw p.counter healthy),
          if strategy == "random"
              then p'
              else if strategy == "least_used"
              then p'
              else record p' { counter = p.counter + 1 },
        ))

-- The body of `mark_error` on the entry of its index.
abbrev pub count_error : ℕ → KeyEntry → KeyEntry
count_error threshold k = record k {
  error_count = k.error_count + 1;
  is_healthy = if leb threshold (k.error_count + 1) then false else k.is_healthy;
}

unfoldable pub mark_error : ℕ → ℕ → ApiKeyPool → ApiKeyPool
mark_error index threshold p = record p { keys = modify p.keys index (count_error threshold) }

unfoldable pub mark_success : ℕ → ℕ → ApiKeyPool → ApiKeyPool
mark_success now index p = record p {
  keys = modify p.keys index (λ k. record k {
    usage_count = k.usage_count + 1;
    is_healthy = true;
    last_used_at = some now;
  });
}

unfoldable pub mark_rate_limited : ℕ → ℕ → ℕ → ApiKeyPool → ApiKeyPool
mark_rate_limited now index retry_after_seconds p = record p {
  backoff = insert index (now + seconds retry_after_seconds) p.backoff;
}

unfoldable pub add_key : String → Option String → ApiKeyPool → ApiKeyPool
add_key key_plaintext db_id p = record p { keys = p.keys ++ (entry ∷ []) }
  where
    entry : KeyEntry
    entry = record {
      key_plaintext = key_plaintext;
      db_id = db_id;
      usage_count = 0;
      error_count = 0;
      is_healthy = true;
      last_used_at = none;
    }

-- The pool without the key, and the database id of what was removed.
unfoldable pub remove_key : ℕ → ApiKeyPool → ApiKeyPool × Option String
remove_key index p = elim (get_elem? p.keys index) [
  | none ↦ (p, none)
  | some removed ↦
      (record p { keys = remove_at p.keys index; backoff = erase index p.backoff }, removed.db_id)
]
