-- ===== src/Security/Signature.antt =====
-- verify_request_signature and RequestSizeLimitMiddleware of security.py. SHA-256 and HMAC are
-- arguments.
use Prim.Native.String.{◌++◌ as append}
use package.text.Mathlib.TextLemmas.{append_assoc}
use llm_sentinel.Prelude.{
  ℕ, ◌*◌, ◌≡◌, ap, ◌∙◌, sym, String, Bool, Option, none, some, ltb, ◌==◌, string_eq, if◌then◌else◌,
}
use llm_sentinel.Prelude.Numeral.{int}

-- A request as it is signed.
record Signed : Type 0 where
  pub method : String
  pub path : String
  pub timestamp : String
  pub nonce : String
  pub body : String

module _ (sha256 : String → String) (hmac : String → String → String) where
  abbrev message_of : Signed → String
  message_of r =
      append r.method (append r.path (append r.timestamp (append r.nonce (sha256 r.body))))

  unfoldable verify_request_signature : Signed → String → String → Bool
  verify_request_signature r api_key provided_signature =
      hmac api_key (message_of r) == provided_signature

  -- The parts are signed without separators: a signature stays good when text is moved from the start
  -- of the nonce to the end of the timestamp, whatever the key.
  verify_request_signature-shifted :
      (r : Signed) (u v api_key provided_signature : String)
      → r.nonce ≡ append u v
      → verify_request_signature
          (record r { timestamp = append r.timestamp u; nonce = v })
          api_key
          provided_signature
        ≡ verify_request_signature r api_key provided_signature
  unfolding verify_request_signature
  verify_request_signature-shifted r u v api_key provided_signature e =
      ap (λ (t : String). hmac api_key (append r.method (append r.path t)) == provided_signature)
        (append_assoc r.timestamp u (append v (sha256 r.body))
          ∙ ap (append r.timestamp) (
              sym (append_assoc u v (sha256 r.body))
              ∙ ap (λ (n : String). append n (sha256 r.body)) (sym e)))

-- Passed on, refused with 413, or a ValueError of `int`.
data Size : Type 0 where
  passed too_large not_a_number : Size

-- A request without the header is passed on, whatever its size.
unfoldable check_size : ℕ → Option String → Size
check_size max_body_kb none = passed
check_size max_body_kb (some content_length) =
    if content_length == "" then passed else elim (int content_length) [
      | none ↦ not_a_number
      | some n ↦ if ltb (max_body_kb * 1024) n then too_large else passed
    ]
