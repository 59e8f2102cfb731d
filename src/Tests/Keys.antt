-- ===== src/Tests/Keys.antt =====
-- The theorems on key_pool.py at a pool of three keys.
use Prim.Native.String.{◌++◌ as append, slice, len}
use text.Mathlib.Text.{starts_with}
use text.Mathlib.TextPositions.{starts_with-append, slice-append_right, len-append}
use llm_sentinel.Prelude.{
  if◌then◌else◌, ℕ, ◌<◌, ◌≡◌, refl, String, Bool, true, false, List, [], ◌∷◌, Option, none, some,
  nat_eq, length, get_elem?, map,
}
use llm_sentinel.KeyPool.Pool.{KeyEntry, ApiKeyPool, get_next_key}
use llm_sentinel.KeyPool.Usable.{backed_off, usable, get_next_key_usable}
use llm_sentinel.KeyPool.Rotation.{after_calls, round_robin_fair}
use llm_sentinel.KeyPool.Vault.{Cipher, KeyRow, re_encrypt_stale_keys}
use llm_sentinel.KeyPool.Rotated.{reading, re_encrypt_stale_keys-reading}

abbrev key : String → ℕ → Bool → KeyEntry
key text used healthy = record {
  key_plaintext = text;
  db_id = none;
  usage_count = used;
  error_count = 0;
  is_healthy = healthy;
  last_used_at = none;
}

-- The second key is not healthy, the third is backed off until microsecond 50.
abbrev pool : ApiKeyPool
pool = record {
  provider = "openai";
  keys = key "a" 4 true ∷ key "b" 1 false ∷ key "c" 2 true ∷ [];
  counter = 3;
  backoff = (2, 50) ∷ [];
}

get_next_key_usable_example :
    (k : KeyEntry) × (get_elem? pool.keys 2 ≡ some k)
    × (k.key_plaintext ≡ "c")
    × (k.is_healthy ≡ true)
    × (backed_off 60 2 pool.backoff ≡ false)
unfolding get_next_key
get_next_key_usable_example = get_next_key_usable 60 "round_robin" 0 pool "c" 2 refl

round_robin_fair_example :
    (i : ℕ) × (i < length (usable 60 0 pool.keys pool.backoff))
    × ((get_next_key 60 "round_robin" 0 (after_calls 60 0 i pool)).0 ≡ some ("a", 0))
round_robin_fair_example = round_robin_fair 60 0 0 (0, key "a" 4 true) pool refl

-- A cipher that writes the key in front of the text, and refuses a text that does not begin with it.
abbrev prefixed : String → String → Option String
prefixed ciphertext k =
    if starts_with ciphertext k then some (slice ciphertext (len k) (len ciphertext)) else none

prefixed-append : (plaintext k : String) → prefixed (append k plaintext) k ≡ some plaintext
prefixed-append plaintext k =
    rw (starts_with-append k plaintext, len-append k plaintext, slice-append_right k plaintext) refl

abbrev prefix_cipher : Cipher
prefix_cipher = record {
  encrypt = λ draw plaintext k. append k plaintext;
  decrypt = prefixed;
  decrypt_encrypt = λ draw plaintext k. prefixed-append plaintext k;
}

-- A row of the previous key, and one of the current.
abbrev rows : List KeyRow
rows =
    record { id = "1"; provider = "groq"; key_encrypted = "oldsk1" }
    ∷ record { id = "2"; provider = "groq"; key_encrypted = "newsk2" }
    ∷ []

one_is_stale : (re_encrypt_stale_keys prefix_cipher (some "new") (some "old") 0 rows).0 ≡ 1
unfolding re_encrypt_stale_keys
one_is_stale = refl

re_encrypt_stale_keys-reading_example :
    let (count, rows') = re_encrypt_stale_keys prefix_cipher (some "new") (some "old") 0 rows in
    (map (reading prefix_cipher "new" "old") rows' ≡ map (reading prefix_cipher "new" "old") rows)
    × (re_encrypt_stale_keys prefix_cipher (some "new") (some "old") 9 rows' ≡ (0, rows'))
re_encrypt_stale_keys-reading_example =
    re_encrypt_stale_keys-reading prefix_cipher "new" "old" 0 9 rows
