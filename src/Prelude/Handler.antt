-- ===== src/Prelude/Handler.antt =====
-- The handlers of requests: what they change stays changed when they raise.
use Prim.Native.Nat.{ℕ}
use Prim.Native.String.{String}
use mathlib.Core.Bool.{Bool, true, false}

-- `HTTPException(status, detail)`; an exception that nothing catches is answered with 500.
pub data Result {ℓ} (A : Type ℓ) : Type ℓ where
  ok : A → Result A
  raises : ℕ → String → Result A

abbrev pub Handler {ℓ} : Type 0 → Type ℓ → Type ℓ
Handler S A = S → Result A × S

module _ {ℓ} {S : Type 0} {A : Type ℓ} where
  abbrev pub pure : A → Handler S A
  pure a s = (ok a, s)

  abbrev pub raise : ℕ → String → Handler S A
  raise status detail s = (raises status detail, s)

  abbrev pub gets : (S → A) → Handler S A
  gets f s = (ok (f s), s)

  abbrev pub run : (S → A × S) → Handler S A
  run f s = let (a, s') = f s in (ok a, s')

module _ {S : Type 0} where
  abbrev pub modify_state : (S → S) → Handler S (Unit {0})
  modify_state f s = (ok tt, f s)

  abbrev pub ensure : Bool → ℕ → String → Handler S (Unit {0})
  ensure true status detail s = (ok tt, s)
  ensure false status detail s = (raises status detail, s)

module _ {ℓ κ} {S : Type 0} {A : Type ℓ} {B : Type κ} where
  abbrev pub continue : (A → Handler S B) → Result A × S → Result B × S
  continue f (ok a, s) = f a s
  continue f (raises status detail, s) = (raises status detail, s)

  infixl 5 ◌>>=◌
  abbrev pub ◌>>=◌ : Handler S A → (A → Handler S B) → Handler S B
  (m >>= f) s = continue f (m s)

  infixl 5 ◌>>◌
  abbrev pub ◌>>◌ : Handler S A → Handler S B → Handler S B
  m >> n = m >>= λ _. n
