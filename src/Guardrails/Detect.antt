-- ===== src/Guardrails/Detect.antt =====
-- The detectors of guardrails.py. What Python's `re`, `str`, `base64` and `fnmatch` do is an argument.
use Prim.Native.String.{count as char_count}
use llm_sentinel.Prelude.{
  ℕ, String, Bool, true, false, ◌&&◌, List, [], ◌∷◌, ◌++◌, Option, none, some, ltb, if◌then◌else◌,
  map,
}
use llm_sentinel.Prelude.Text.{has_part}
use llm_sentinel.Guardrails.Tables.{
  prompt_injection_patterns, jailbreak_patterns, data_leakage_patterns,
}

-- `search` and `sub` are told whether IGNORECASE is given, and answer none for `re.error`; `findall`
-- lists what matches. `decoded` is the text behind a base64 word, in lower case, or none where
-- decoding raises.
pub record TextTools : Type 0 where
  pub search : Bool → String → String → Option Bool
  pub sub : Bool → String → String → String → Option String
  pub subn : String → String → String → String × ℕ
  pub findall : String → String → Option (List String)
  pub escape : String → String
  pub lower : String → String
  pub words : String → List String
  pub decoded : String → Option String
  pub fnmatch : String → String → Bool

-- `re.search`, where an expression that is refused does not match.
abbrev pub matches : TextTools → Bool → String → String → Bool
matches tools ignore_case pattern text = elim (tools.search ignore_case pattern text) [
  | none ↦ false
  | some found ↦ found
]

-- The categories of the patterns that match, in the order of the table.
unfoldable detect : TextTools → List (String × String) → String → List String
detect tools [] text = []
detect tools ((pattern, category) ∷ patterns) text =
    if matches tools false pattern text
    then category ∷ detect tools patterns text
    else detect tools patterns text

unfoldable pub check_prompt_injection : TextTools → String → List String
unfolding detect
check_prompt_injection tools text = detect tools prompt_injection_patterns text

abbrev pub any : (String → Bool) → List String → Bool
any p [] = false
any p (x ∷ xs) = if p x then true else any p xs

-- A long word of base64 that hides one of the keywords.
abbrev is_encoded_injection : TextTools → String → Bool
is_encoded_injection tools word =
    ltb 20 (char_count word)
    && matches tools false "^[A-Za-z0-9+/=]{20,}$" word
    && elim (tools.decoded word) [
      | none ↦ false
      | some text ↦
          any (λ keyword. has_part keyword text)
            ("ignore" ∷ "override" ∷ "system" ∷ "instruction" ∷ "jailbreak" ∷ "bypass" ∷ [])
    ]

unfoldable encoded_injections : TextTools → List String → List String
encoded_injections tools [] = []
encoded_injections tools (word ∷ words) =
    if is_encoded_injection tools word
    then "base64_encoded_injection" ∷ encoded_injections tools words
    else encoded_injections tools words

unfoldable pub check_jailbreak : TextTools → String → List String
unfolding detect encoded_injections
check_jailbreak tools text =
    detect tools jailbreak_patterns text ++ encoded_injections tools (tools.words text)

-- The loop of `_check_data_leakage`: a category for each match, and the text with the matches
-- replaced; a pattern that is refused, at either call, is passed over.
unfoldable redact_leaks :
    TextTools → List (String × String × String) → String → List String → String × List String
redact_leaks tools [] text found = (text, found)
redact_leaks tools ((pattern, replacement, category) ∷ patterns) text found =
    elim (tools.findall pattern text) [
      | none ↦ redact_leaks tools patterns text found
      | some [] ↦ redact_leaks tools patterns text found
      | some (m ∷ ms) ↦
          redact_leaks tools patterns
            (elim (tools.sub false pattern replacement text) [ none ↦ text | some t ↦ t ])
            (found ++ map (λ x. category) (m ∷ ms))
    ]

unfoldable pub check_data_leakage : TextTools → String → String × List String
unfolding redact_leaks
check_data_leakage tools text = redact_leaks tools data_leakage_patterns text []
