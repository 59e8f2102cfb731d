-- ===== src/Auth/Refreshed.antt =====
-- Refresh tokens of auth.py after they have been issued.
use llm_sentinel.Prelude.{
  ℕ, ◌≡◌, refl, String, Bool, true, List, [], ◌∷◌, ◌++◌, Option, some, arith, string_eq, Bool-cases,
  inl, inr, beq_self,
}
use llm_sentinel.Prelude.Handler.{ok, raises}
use llm_sentinel.Auth.State.{RefreshToken, Libraries, AuthSettings, World, first_where}
use llm_sentinel.Auth.Tokens.{TokenResponse, Fresh, create_token_pair, refresh_row}
use llm_sentinel.Auth.Endpoints.{is_live, refresh_token_endpoint}

-- Behind other rows a row that fits is found, or one before it.
first_where-behind {ℓ} :
    {A : Type ℓ} (p : A → Bool) (xs : List A) (x : A)
    → p x ≡ true
    → (y : A) × (first_where p (xs ++ (x ∷ [])) ≡ some y)
first_where-behind p [] x h = (x, ground (arith, h))
first_where-behind p (z ∷ xs) x h = elim (Bool-cases (p z)) [
  | inl fits ↦ (z, ground (arith, fits))
  | inr passes ↦ rw passes (first_where-behind p xs x h)
]

refresh-found :
    (lib : Libraries) (token : String) (rt : RefreshToken) (w : World)
    → first_where (is_live (lib.sha256 token)) w.refresh_tokens ≡ some rt
    → refresh_token_endpoint lib token w ≡ (raises 500 "TypeError", w)
unfolding refresh_token_endpoint
refresh-found lib token rt w found = rw found refl

-- A refresh token that has just been issued cannot be used: whatever the request and the rows
-- before, create_token_pair answers with a token of which the refresh fails with TypeError, and
-- changes nothing.
pub refresh_token_endpoint-create_token_pair :
    (lib : Libraries) (settings : AuthSettings) (now : ℕ) (fresh : Fresh) (subject : String)
    (roles : List String) (ip : String) (user_agent : Option String) (w : World)
    → let (result, w') = create_token_pair lib settings now fresh subject roles ip user_agent w in
      (response : TokenResponse) × (result ≡ ok response)
      × (refresh_token_endpoint lib response.refresh_token w' ≡ (raises 500 "TypeError", w'))
unfolding create_token_pair
refresh_token_endpoint-create_token_pair lib settings now fresh subject roles ip user_agent w =
    let hash = lib.sha256 fresh.refresh_value in
    let row = refresh_row lib settings now fresh subject ip user_agent in
    let (rt, found) =
      first_where-behind (is_live hash) w.refresh_tokens row (ground (arith, beq_self hash)) in
    (_, refl, refresh-found lib fresh.refresh_value rt _ found)
