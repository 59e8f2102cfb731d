-- ===== src/Prelude/Text.antt =====
-- Python's `str` of a number that is not negative, and its tests and joins of texts.
use Prim.Native.Nat.{ℕ, zero, suc, ◌/◌, ◌%◌}
use Prim.Native.String.{String, ◌++◌ as append}
use mathlib.Core.Path.{◌≡◌, refl}
use mathlib.Core.Bool.{Bool, true, false}
use mathlib.Core.Option.{none, some}
use mathlib.Core.List.{List, [], ◌∷◌}
use text.Mathlib.Text.{find?}
use llm_sentinel.Prelude.Tests.{nat_beq, if◌then◌else◌}

digit : ℕ → String
digit zero = "0"
digit (suc zero) = "1"
digit (suc (suc zero)) = "2"
digit (suc (suc (suc zero))) = "3"
digit (suc (suc (suc (suc zero)))) = "4"
digit (suc (suc (suc (suc (suc zero))))) = "5"
digit (suc (suc (suc (suc (suc (suc zero)))))) = "6"
digit (suc (suc (suc (suc (suc (suc (suc zero))))))) = "7"
digit (suc (suc (suc (suc (suc (suc (suc (suc zero)))))))) = "8"
digit _ = "9"

-- The digits of `n` in front of `rest`; a number has no more digits than the fuel `n + 1`.
digits_onto : ℕ → ℕ → String → String
digits_onto zero n rest = rest
digits_onto (suc fuel) n rest =
    let longer = digits_onto fuel (n / 10) (append (digit (n % 10)) rest) in
    if nat_beq (n / 10) 0 then append (digit (n % 10)) rest else longer

unfoldable pub str : ℕ → String
unfolding digits_onto digit
str n = digits_onto (suc n) n ""

str_runs : str 407 ≡ "407"
unfolding str
str_runs = refl

-- `part in text`
abbrev pub has_part : String → String → Bool
has_part part text = elim (find? text part) [ none ↦ false | some _ ↦ true ]

-- `separator.join(texts)`
abbrev pub join : String → List String → String
join separator [] = ""
join separator (t ∷ []) = t
join separator (t ∷ u ∷ ts) = append t (append separator (join separator (u ∷ ts)))
