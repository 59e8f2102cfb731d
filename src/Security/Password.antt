-- ===== src/Security/Password.antt =====
-- validate_password and check_password_history of security.py, over the code points of a password.
-- `is_decimal` stands for the decimal digits of Unicode, which `\d` matches, `lower` for `str.lower`,
-- and the list of common passwords is the one that was loaded.
use llm_sentinel.Prelude.{
  ℕ, zero, suc, ◌≤◌, ◌≡◌, ◌↔◌, Bool, true, false, not, ◌&&◌, ◌||◌, List, [], ◌∷◌, ◌++◌, Option,
  none, some, arith, leb, nat_beq, if◌then◌else◌, length,
}

abbrev has_char : (ℕ → Bool) → List ℕ → Bool
has_char p [] = false
has_char p (c ∷ cs) = if p c then true else has_char p cs

abbrev is_upper : ℕ → Bool
is_upper c = leb b'A' c && leb c b'Z'

abbrev is_lower : ℕ → Bool
is_lower c = leb b'a' c && leb c b'z'

-- The class of special characters: all printable ASCII but letters, digits and the space.
abbrev is_special : ℕ → Bool
is_special c =
    (leb b'!' c && leb c b'/')
    || (leb b':' c && leb c b'@')
    || (leb b'[' c && leb c b'`')
    || (leb b'{' c && leb c b'~')

abbrev pub same_text : List ℕ → List ℕ → Bool
same_text [] [] = true
same_text (x ∷ xs) (y ∷ ys) = nat_beq x y && same_text xs ys
same_text _ _ = false

abbrev is_common : List (List ℕ) → List ℕ → Bool
is_common [] text = false
is_common (c ∷ cs) text = if same_text c text then true else is_common cs text

-- The messages, in the order of the checks.
pub data PasswordError : Type 0 where
  too_short no_upper no_lower no_digit no_special too_common : PasswordError

abbrev error_unless : Bool → PasswordError → List PasswordError
error_unless true e = []
error_unless false e = e ∷ []

abbrev pub is_empty : List PasswordError → Bool
is_empty [] = true
is_empty (e ∷ es) = false

module _ (is_decimal : ℕ → Bool) (lower : List ℕ → List ℕ) (common : List (List ℕ)) where
  unfoldable pub validate_password : List ℕ → ℕ → Bool × List PasswordError
  validate_password password min_length =
      let errors =
        error_unless (leb min_length (length password)) too_short
        ++ (error_unless (has_char is_upper password) no_upper
            ++ (error_unless (has_char is_lower password) no_lower
                ++ (error_unless (has_char is_decimal password) no_digit
                    ++ (error_unless (has_char is_special password) no_special
                        ++ error_unless (not (is_common common (lower password))) too_common)))) in
      (is_empty errors, errors)

  -- A password is valid exactly where it is long enough, has an upper-case and a lower-case letter,
  -- a digit and a special character, and is not, in lower case, among the common ones.
  validate_password_iff :
      (password : List ℕ) (min_length : ℕ)
      → ((validate_password password min_length).0 ≡ true) ↔ (
          (min_length ≤ length password)
          × (has_char is_upper password ≡ true)
          × (has_char is_lower password ≡ true)
          × (has_char is_decimal password ≡ true)
          × (has_char is_special password ≡ true)
          × (is_common common (lower password) ≡ false))
  unfolding validate_password
  validate_password_iff password min_length = ground arith

-- The first entries of the history, newest first; `verify` is verify_password of password_utils.py
-- on an entry, `none` where it raises.
unfoldable pub check_password_history : ℕ → List (Option Bool) → Bool
check_password_history zero entries = false
check_password_history (suc limit) [] = false
check_password_history (suc limit) (none ∷ entries) = check_password_history limit entries
check_password_history (suc limit) (some matches ∷ entries) =
    if matches then true else check_password_history limit entries
