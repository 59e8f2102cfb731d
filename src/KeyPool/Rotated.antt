-- ===== src/KeyPool/Rotated.antt =====
-- What encryption at rest and its rotation in key_pool.py guarantee.
use llm_sentinel.Prelude.{
  ℕ, suc, ◌≡◌, refl, String, List, [], ◌∷◌, Option, none, some, arith, map, Option-cases, inl, inr,
}
use llm_sentinel.KeyPool.Pool.{add_key}
use llm_sentinel.KeyPool.Manager.{Pools, get_pool, set_pool}
use llm_sentinel.KeyPool.Vault.{
  Cipher, KeyRow, encrypt_key, decrypt_previous, decrypt_key, load_row, re_encrypt, or_row,
  re_encrypt_rows, re_encrypt_stale_keys,
}

-- With a cipher that decrypts what it encrypts, a key that is encrypted for storage is read back,
-- whatever the previous key is; without a key in the configuration it is stored, and read back, as
-- it is.
decrypt_key-encrypt_key :
    (cipher : Cipher) (draw : ℕ) (plaintext : String) (enc_key prev_key : Option String)
    → decrypt_key cipher (encrypt_key cipher draw plaintext enc_key) enc_key prev_key
      ≡ some plaintext
unfolding decrypt_key encrypt_key
decrypt_key-encrypt_key cipher draw plaintext none prev_key = refl
decrypt_key-encrypt_key cipher draw plaintext (some enc_key) prev_key =
    ground (arith, cipher.decrypt_encrypt draw plaintext enc_key)

-- What a row is read as, with both keys.
abbrev pub reading : Cipher → String → String → KeyRow → Option String
reading cipher enc_key prev_key row =
    decrypt_key cipher row.key_encrypted (some enc_key) (some prev_key)

re_encrypt-reading :
    (cipher : Cipher) (enc_key prev_key : String) (draw : ℕ) (row : KeyRow)
    → reading cipher enc_key prev_key (or_row row (re_encrypt cipher enc_key prev_key draw row))
      ≡ reading cipher enc_key prev_key row
unfolding re_encrypt decrypt_key decrypt_previous
re_encrypt-reading cipher enc_key prev_key draw row =
    elim (Option-cases (cipher.decrypt row.key_encrypted enc_key)) [
      | inr (a, e) ↦ ground (arith, e)
      | inl e ↦ elim (Option-cases (cipher.decrypt row.key_encrypted prev_key)) [
        | inl f ↦ ground (arith, e, f)
        | inr (a, f) ↦ ground (arith, e, f, cipher.decrypt_encrypt draw a enc_key)
      ]
    ]

-- A row that was treated once is left alone from then on.
re_encrypt_twice :
    (cipher : Cipher) (enc_key prev_key : String) (draw later : ℕ) (row : KeyRow)
    → re_encrypt cipher enc_key prev_key later
        (or_row row (re_encrypt cipher enc_key prev_key draw row))
      ≡ none
unfolding re_encrypt
re_encrypt_twice cipher enc_key prev_key draw later row =
    elim (Option-cases (cipher.decrypt row.key_encrypted enc_key)) [
      | inr (a, e) ↦ ground (arith, e)
      | inl e ↦ elim (Option-cases (cipher.decrypt row.key_encrypted prev_key)) [
        | inl f ↦ ground (arith, e, f)
        | inr (a, f) ↦ ground (arith, e, f, cipher.decrypt_encrypt draw a enc_key)
      ]
    ]

rows-reading :
    (cipher : Cipher) (enc_key prev_key : String) (draw : ℕ) (rows : List KeyRow)
    → map (reading cipher enc_key prev_key) (re_encrypt_rows cipher enc_key prev_key draw rows).1
      ≡ map (reading cipher enc_key prev_key) rows
unfolding re_encrypt_rows
rows-reading cipher enc_key prev_key draw [] = refl
rows-reading cipher enc_key prev_key draw (row ∷ rows) = rw (
  re_encrypt-reading cipher enc_key prev_key draw row,
  rows-reading cipher enc_key prev_key (suc draw) rows,
)

rows_twice :
    (cipher : Cipher) (enc_key prev_key : String) (draw later : ℕ) (rows : List KeyRow)
    → re_encrypt_rows cipher enc_key prev_key later
        (re_encrypt_rows cipher enc_key prev_key draw rows).1
      ≡ (0, (re_encrypt_rows cipher enc_key prev_key draw rows).1)
unfolding re_encrypt_rows
rows_twice cipher enc_key prev_key draw later [] = refl
rows_twice cipher enc_key prev_key draw later (row ∷ rows) = rw (
  re_encrypt_twice cipher enc_key prev_key draw later row,
  rows_twice cipher enc_key prev_key (suc draw) (suc later) rows,
)

-- With both keys set, and a cipher that decrypts what it encrypts, rotation changes what no row is
-- read as, and is done after one run: a second one counts no row and changes none.
pub re_encrypt_stale_keys-reading :
    (cipher : Cipher) (enc_key prev_key : String) (draw later : ℕ) (rows : List KeyRow)
    → let (count, rows') = re_encrypt_stale_keys cipher (some enc_key) (some prev_key) draw rows in
      (map (reading cipher enc_key prev_key) rows' ≡ map (reading cipher enc_key prev_key) rows)
      × (re_encrypt_stale_keys cipher (some enc_key) (some prev_key) later rows' ≡ (0, rows'))
unfolding re_encrypt_stale_keys
re_encrypt_stale_keys-reading cipher enc_key prev_key draw later rows = (
  rows-reading cipher enc_key prev_key draw rows,
  rows_twice cipher enc_key prev_key draw later rows,
)

-- A row that neither key decrypts is not passed over when the pools are loaded: its ciphertext joins the
-- pool as a healthy key.
load_row-undecryptable :
    (cipher : Cipher) (enc_key prev_key : String) (row : KeyRow) (pools : Pools)
    → cipher.decrypt row.key_encrypted enc_key ≡ none
    → cipher.decrypt row.key_encrypted prev_key ≡ none
    → load_row cipher (some enc_key) (some prev_key) row pools
      ≡ set_pool row.provider
          (add_key row.key_encrypted (some row.id) (get_pool row.provider pools))
          pools
unfolding load_row decrypt_key decrypt_previous
load_row-undecryptable cipher enc_key prev_key row pools e f = ground arith
