-- ===== src/Prelude/Numeral.antt =====
-- Python's `int` of a text.
use Prim.Native.Nat.{ℕ, zero, suc, ◌+◌, ◌-◌, ◌*◌, ◌<◌}
use Prim.Native.Char.{code}
use Prim.Native.String.{String, [], ◌∷◌}
use mathlib.Core.Path.{◌≡◌, refl}
use mathlib.Core.Bool.{◌&&◌}
use mathlib.Core.Option.{Option, none, some}
use native.Mathlib.Omega.{arith}
use llm_sentinel.Prelude.Tests.{leb, if◌then◌else◌}
use llm_sentinel.Prelude.Text.{str}

-- `int(text)` on a row of ASCII digits, as `str` writes them; any other text counts as a ValueError.
digits_value : ℕ → String → Option ℕ
digits_value n [] = some n
digits_value n (c ∷ s) =
    let rest = digits_value (n * 10 + (code c - 48)) s in
    if leb 48 (code c) && leb (code c) 57 then rest else none

unfoldable pub int : String → Option ℕ
unfolding digits_value
int [] = none
int (c ∷ s) = digits_value 0 (c ∷ s)

-- The counters of the store stay small.
pub int-str : (n : ℕ) → n < 6 → int (str n) ≡ some n
unfolding int str
int-str zero h = refl
int-str (suc zero) h = refl
int-str (suc (suc zero)) h = refl
int-str (suc (suc (suc zero))) h = refl
int-str (suc (suc (suc (suc zero)))) h = refl
int-str (suc (suc (suc (suc (suc zero))))) h = refl
int-str (suc (suc (suc (suc (suc (suc n)))))) h = absurd (omega arith)
