-- ===== src/KeyPool/Vault.antt =====
-- The encrypted rows of the api_key_pool table and KeyPoolManager's use of them (key_pool.py). The
-- cipher, encrypt_aes_gcm and decrypt_aes_gcm over the cryptography package, is an argument; a key of
-- the configuration is `none` where it is not set.
use llm_sentinel.Prelude.{
  ℕ, suc, String, Bool, true, false, List, [], ◌∷◌, ◌++◌, Option, none, some, ◌≡◌, ◌==◌, string_eq,
  if◌then◌else◌,
}
use llm_sentinel.KeyPool.Pool.{add_key, remove_key}
use llm_sentinel.KeyPool.Manager.{Pools, get_pool, set_pool}

-- `encrypt` at the random nonce of a draw, and `decrypt`, none where it raises. What is encrypted with
-- a key is decrypted with it.
pub record Cipher : Type 0 where
  pub encrypt : ℕ → String → String → String
  pub decrypt : String → String → Option String
  pub decrypt_encrypt :
      (draw : ℕ) (plaintext key : String)
      → decrypt (encrypt draw plaintext key) key ≡ some plaintext

-- A row of ApiKeyPoolDB.
pub record KeyRow : Type 0 where
  pub id : String
  pub provider : String
  pub key_encrypted : String

unfoldable pub encrypt_key : Cipher → ℕ → String → Option String → String
encrypt_key cipher draw plaintext none = plaintext
encrypt_key cipher draw plaintext (some enc_key) = cipher.encrypt draw plaintext enc_key

-- The attempt with the previous key, and what is left without it.
unfoldable pub decrypt_previous : Cipher → String → Option String → Option String
decrypt_previous cipher ciphertext none = some ciphertext
decrypt_previous cipher ciphertext (some prev_key) = elim (cipher.decrypt ciphertext prev_key) [
  | none ↦ some ciphertext
  | some plaintext ↦ some plaintext
]

unfoldable pub decrypt_key : Cipher → String → Option String → Option String → Option String
unfolding decrypt_previous
decrypt_key cipher ciphertext none prev_key = some ciphertext
decrypt_key cipher ciphertext (some enc_key) prev_key = elim (cipher.decrypt ciphertext enc_key) [
  | none ↦ decrypt_previous cipher ciphertext prev_key
  | some plaintext ↦ some plaintext
]

-- One turn of the loop of `load_from_db`: a row that cannot be decrypted is passed over.
unfoldable pub load_row : Cipher → Option String → Option String → KeyRow → Pools → Pools
unfolding decrypt_key
load_row cipher enc_key prev_key row pools =
    elim (decrypt_key cipher row.key_encrypted enc_key prev_key) [
      | none ↦ pools
      | some plaintext ↦
          set_pool row.provider (add_key plaintext (some row.id) (get_pool row.provider pools))
            pools
    ]

unfoldable load_from_db : Cipher → Option String → Option String → List KeyRow → Pools → Pools
unfolding load_row
load_from_db cipher enc_key prev_key [] pools = pools
load_from_db cipher enc_key prev_key (row ∷ rows) pools =
    load_from_db cipher enc_key prev_key rows (load_row cipher enc_key prev_key row pools)

-- `add_key_to_db`: the id of the new row is an argument.
unfoldable add_key_to_db :
    Cipher
    → Option String
    → ℕ
    → String
    → String
    → String
    → List KeyRow × Pools
    → List KeyRow × Pools
unfolding encrypt_key
add_key_to_db cipher enc_key draw id provider key_plaintext (rows, pools) = (
  rows
      ++ (record {
        id = id;
        provider = provider;
        key_encrypted = encrypt_key cipher draw key_plaintext enc_key;
      }
          ∷ []),
  set_pool provider (add_key key_plaintext (some id) (get_pool provider pools)) pools,
)

abbrev drop_row : String → List KeyRow → List KeyRow
drop_row id [] = []
drop_row id (row ∷ rows) = if row.id == id then rows else row ∷ drop_row id rows

-- The body of the loop of `re_encrypt_stale_keys`, none where the row stays as it is.
unfoldable pub re_encrypt : Cipher → String → String → ℕ → KeyRow → Option KeyRow
re_encrypt cipher enc_key prev_key draw row = elim (cipher.decrypt row.key_encrypted enc_key) [
  | some _ ↦ none
  | none ↦ elim (cipher.decrypt row.key_encrypted prev_key) [
    | none ↦ none
    | some plaintext ↦ some (record row { key_encrypted = cipher.encrypt draw plaintext enc_key })
  ]
]

abbrev pub or_row : KeyRow → Option KeyRow → KeyRow
or_row row none = row
or_row row (some new) = new

abbrev one_more : Option KeyRow → ℕ → ℕ
one_more none n = n
one_more (some new) n = suc n

-- The loop, with a fresh draw for each row.
unfoldable pub re_encrypt_rows : Cipher → String → String → ℕ → List KeyRow → ℕ × List KeyRow
unfolding re_encrypt
re_encrypt_rows cipher enc_key prev_key draw [] = (0, [])
re_encrypt_rows cipher enc_key prev_key draw (row ∷ rows) =
    let new = re_encrypt cipher enc_key prev_key draw row in
    let (count, rest) = re_encrypt_rows cipher enc_key prev_key (suc draw) rows in
    (one_more new count, or_row row new ∷ rest)

unfoldable pub re_encrypt_stale_keys :
    Cipher → Option String → Option String → ℕ → List KeyRow → ℕ × List KeyRow
unfolding re_encrypt_rows
re_encrypt_stale_keys cipher (some enc_key) (some prev_key) draw rows =
    re_encrypt_rows cipher enc_key prev_key draw rows
re_encrypt_stale_keys cipher _ _ draw rows = (0, rows)

-- `remove_key_from_db`: the pool forgets the key even where it has no row, which counts as false.
unfoldable remove_key_from_db : String → ℕ → List KeyRow × Pools → Bool × (List KeyRow × Pools)
remove_key_from_db provider index (rows, pools) =
    let (p, removed) = remove_key index (get_pool provider pools) in
    elim removed [
      | none ↦ (false, (rows, set_pool provider p pools))
      | some id ↦ (true, (drop_row id rows, set_pool provider p pools))
    ]
