-- ===== src/Auth/Keys.antt =====
-- The keys of the store that auth.py forms differ where their prefixes do.
use Prim.Native.Char.{Char, code}
use Prim.Native.String.{[] as nil, ◌∷◌ as cons, ◌++◌ as append}
use package.text.Mathlib.TextLemmas.{cons-append, append_assoc, append_cancel_left}
use llm_sentinel.Prelude.{
  ℕ, ◌≡◌, ◌≢◌, sym, ap, ◌∙◌, String, false, arith, ◌==◌, string_eq, Bool-cases, inl, inr, zero,
}
use llm_sentinel.Auth.State.{
  lockout_key, fail_key, sessions_key, sessions_detail_key, session_info_key, revoked_key,
}

first_code : String → ℕ
first_code nil = zero
first_code (cons c s) = code c

not_equal : (s t : String) → (s ≢ t) → (s == t) ≡ false
not_equal s t h = elim (Bool-cases (s == t)) [
  | inl e ↦ absurd (h ((string_eq.agrees_iff s t).0 e))
  | inr e ↦ e
]

starts_ne :
    (c d : Char) (s t a b : String) → code c ≢ code d → append (cons c s) a ≢ append (cons d t) b
unfolding first_code
starts_ne c d s t a b h e =
    h (
      sym (ap first_code (cons-append c s a)) ∙ ap first_code e ∙ ap first_code (cons-append d t b))

starts_differ :
    (c d : Char) (s t a b : String)
    → code c ≢ code d
    → (append (cons c s) a == append (cons d t) b) ≡ false
starts_differ c d s t a b h = not_equal _ _ (starts_ne c d s t a b h)

pub session_info_key-ne-revoked_key : (a b : String) → (session_info_key a == revoked_key b) ≡ false
session_info_key-ne-revoked_key a b =
    starts_differ "s" "r" "ession_info:" "evoked:" a b (omega arith)

pub sessions_key-ne-revoked_key : (a b : String) → (sessions_key a == revoked_key b) ≡ false
sessions_key-ne-revoked_key a b = starts_differ "s" "r" "essions:" "evoked:" a b (omega arith)

pub sessions_detail_key-ne-revoked_key :
    (a b : String) → (sessions_detail_key a == revoked_key b) ≡ false
sessions_detail_key-ne-revoked_key a b =
    starts_differ "s" "r" "essions_detail:" "evoked:" a b (omega arith)

pub fail_key-ne-lockout_key : (a b : String) → (fail_key a == lockout_key b) ≡ false
fail_key-ne-lockout_key a b = not_equal _ _ λ e.
    starts_ne "f" "l" "ailures:" "ockout:" a b (omega arith) (
      append_cancel_left "auth_" _ _
        (sym (append_assoc "auth_" "failures:" a) ∙ e ∙ append_assoc "auth_" "lockout:" b))

pub lockout_key-ne-fail_key : (a b : String) → (lockout_key a == fail_key b) ≡ false
lockout_key-ne-fail_key a b = not_equal _ _ λ e.
    starts_ne "l" "f" "ockout:" "ailures:" a b (omega arith) (
      append_cancel_left "auth_" _ _
        (sym (append_assoc "auth_" "lockout:" a) ∙ e ∙ append_assoc "auth_" "failures:" b))

revoked_key-injective : (a b : String) → revoked_key a ≡ revoked_key b → a ≡ b
revoked_key-injective a b e = append_cancel_left "revoked:" a b e
