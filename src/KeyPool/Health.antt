-- ===== src/KeyPool/Health.antt =====
-- Health marks and removal in key_pool.py.
use llm_sentinel.Prelude.{
  ℕ, zero, suc, ◌+◌, ◌≤◌, ◌≡◌, ◌≢◌, ◌∙◌, true, false, none, some, arith, ltb, nat_eq, lookup, erase,
  lookup-erase, get_elem?, remove_at, get_elem?-modify_self, get_elem?-modify_ne,
  get_elem?-remove_at_above,
}
use llm_sentinel.KeyPool.Pool.{KeyEntry, ApiKeyPool, count_error, mark_error, remove_key}
use llm_sentinel.KeyPool.Usable.{backed_off}

abbrev pub errors : ℕ → ℕ → ℕ → ApiKeyPool → ApiKeyPool
errors index threshold zero p = p
errors index threshold (suc n) p = errors index threshold n (mark_error index threshold p)

-- For a key that is healthy just where its error count is below the threshold, errors that are
-- marked on it add up, and afterwards it is again healthy just where its count is below the
-- threshold.
errors-is_healthy :
    (index threshold n : ℕ) (p : ApiKeyPool) (k : KeyEntry)
    → get_elem? p.keys index ≡ some k
    → k.is_healthy ≡ ltb k.error_count threshold
    → (k' : KeyEntry) × (get_elem? (errors index threshold n p).keys index ≡ some k')
      × (k'.error_count ≡ k.error_count + n)
      × (k'.is_healthy ≡ ltb (k.error_count + n) threshold)
unfolding mark_error
errors-is_healthy index threshold zero p k g h = (k, g, omega arith, ground arith)
errors-is_healthy index threshold (suc n) p k g h =
    let (k', g', c, h') =
      errors-is_healthy index threshold n (mark_error index threshold p) (count_error threshold k)
        (get_elem?-modify_self p.keys index (count_error threshold) k g) (ground arith) in
    (k', g', omega arith, ground arith)

-- An error of one key leaves every other entry as it was.
mark_error-other :
    (index threshold j : ℕ) (p : ApiKeyPool)
    → index ≢ j
    → get_elem? (mark_error index threshold p).keys j ≡ get_elem? p.keys j
unfolding mark_error
mark_error-other index threshold j p h =
    get_elem?-modify_ne p.keys index j (count_error threshold) h

remove_key_found :
    (j : ℕ) (p : ApiKeyPool) (removed : KeyEntry)
    → get_elem? p.keys j ≡ some removed
    → (remove_key j p).0 ≡ record p { keys = remove_at p.keys j; backoff = erase j p.backoff }
unfolding remove_key
remove_key_found j p removed r = ground arith

-- Removing a key moves the later keys down by one, and leaves their back-offs at the old numbers: a
-- later key that is backed off is no longer so if the number before its own had no back-off.
remove_key-loses_backoff :
    (now j i : ℕ) (p : ApiKeyPool) (removed k : KeyEntry)
    → get_elem? p.keys j ≡ some removed
    → get_elem? p.keys (suc i) ≡ some k
    → j ≤ i
    → backed_off now (suc i) p.backoff ≡ true
    → lookup i p.backoff ≡ none
    → let q = (remove_key j p).0 in
      (get_elem? q.keys i ≡ some k) × (backed_off now i q.backoff ≡ false)
remove_key-loses_backoff now j i p removed k r g l b n =
    rw (remove_key_found j p removed r)
      (get_elem?-remove_at_above p.keys i j l ∙ g, ground (arith, lookup-erase j i p.backoff))
