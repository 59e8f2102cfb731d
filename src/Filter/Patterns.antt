-- ===== src/Filter/Patterns.antt =====
-- data_filter.py. The regular expressions are Python's `re`, an argument: `subn` and `search` take the
-- flags of a pattern as they are written, its expression (and a replacement) and a text, and answer
-- none where `re.error` is raised.
use llm_sentinel.Prelude.{
  ℕ, ◌+◌, String, Bool, true, false, List, [], ◌∷◌, ◌++◌, Option, none, some, ◌==◌, string_eq,
  if◌then◌else◌, select, ltb,
}
use llm_sentinel.Proxy.Tokens.{
  Part, text_part, other_part, Content, plain_text, part_list, other_value, Message,
}

-- The dict of a pattern, with the keys that may be missing.
pub record Pattern : Type 0 where
  pub name : Option String
  pub pattern : String
  pub flags : Option String
  pub replacement : Option String
  pub is_active : Option Bool

-- `d.get(key, default)` at one key.
abbrev pub get_or {ℓ} : {A : Type ℓ} → A → Option A → A
get_or default none = default
get_or default (some a) = a

-- The new `_patterns`.
unfoldable reload_patterns : List Pattern → List Pattern
reload_patterns patterns = select (λ p. get_or true p.is_active) patterns

abbrev pub Subn : Type 0
Subn = String → String → String → String → Option (String × ℕ)

abbrev pub Search : Type 0
Search = String → String → String → Option Bool

-- `regex.subn(replacement, text)` for one pattern.
abbrev pub sub_pattern : Subn → Pattern → String → Option (String × ℕ)
sub_pattern subn p text =
    subn (get_or "IGNORECASE" p.flags) p.pattern (get_or "[REDACTED]" p.replacement) text

abbrev pub search_pattern : Search → Pattern → String → Option Bool
search_pattern search p text = search (get_or "IGNORECASE" p.flags) p.pattern text

-- One turn of the loop of `_apply_patterns`.
unfoldable pub apply_pattern : Subn → Pattern → String → ℕ → String × ℕ
apply_pattern subn p text total = elim (sub_pattern subn p text) [
  | none ↦ (text, total)
  | some (new_text, count) ↦ if ltb 0 count then (new_text, total + count) else (text, total)
]

-- The loop, with the matches counted so far.
unfoldable pub apply_patterns : Subn → List Pattern → String → ℕ → String × ℕ
unfolding apply_pattern
apply_patterns subn [] text total = (text, total)
apply_patterns subn (p ∷ ps) text total =
    let (next, count) = apply_pattern subn p text total in apply_patterns subn ps next count

-- The loop over the parts of a content list.
unfoldable pub sanitize_parts : Subn → List Pattern → List Part → ℕ → List Part × ℕ
unfolding apply_patterns
sanitize_parts subn ps [] total = ([], total)
sanitize_parts subn ps (text_part t ∷ parts) total =
    let (filtered, count) = apply_patterns subn ps t 0 in
    let (rest, sum) = sanitize_parts subn ps parts (total + count) in
    (text_part filtered ∷ rest, sum)
sanitize_parts subn ps (other_part ∷ parts) total =
    let (rest, sum) = sanitize_parts subn ps parts total in (other_part ∷ rest, sum)

unfoldable pub sanitize_content : Subn → List Pattern → Content → ℕ → Content × ℕ
unfolding apply_patterns sanitize_parts
sanitize_content subn ps (plain_text t) total =
    let (filtered, count) = apply_patterns subn ps t 0 in
    if t == "" then (plain_text t, total) else (plain_text filtered, total + count)
sanitize_content subn ps (part_list parts) total =
    let (rest, sum) = sanitize_parts subn ps parts total in (part_list rest, sum)
sanitize_content subn ps other_value total = (other_value, total)

-- The loop over the messages, with the matches counted so far.
unfoldable pub sanitize_all : Subn → List Pattern → List Message → ℕ → List Message × ℕ
unfolding sanitize_content
sanitize_all subn ps [] total = ([], total)
sanitize_all subn ps (m ∷ ms) total =
    let (content, sum) = sanitize_content subn ps m.content total in
    let (rest, all) = sanitize_all subn ps ms sum in (record m { content = content } ∷ rest, all)

unfoldable pub sanitize_messages : Subn → List Pattern → List Message → List Message × ℕ
unfolding sanitize_all
sanitize_messages subn ps messages = sanitize_all subn ps messages 0

-- `regex.sub(replacement, text)`, where the text stays if that raises.
abbrev pub replaced : Subn → Pattern → String → String
replaced subn p text = elim (sub_pattern subn p text) [
  | none ↦ text
  | some (new_text, n) ↦ new_text
]

-- The loop of `sanitize_ssh_output`, with the names found so far.
unfoldable pub sanitize_ssh_output :
    Subn → Search → List Pattern → String → List String → String × List String
sanitize_ssh_output subn search [] text names = (text, names)
sanitize_ssh_output subn search (p ∷ ps) text names = elim (search_pattern search p text) [
  | none ↦ sanitize_ssh_output subn search ps text names
  | some false ↦ sanitize_ssh_output subn search ps (replaced subn p text) names
  | some true ↦
      sanitize_ssh_output subn search ps (replaced subn p text)
        (names ++ (get_or "unknown" p.name ∷ []))
]

-- The matches of `test_text`: all patterns are tried on the text as it came.
unfoldable test_matches : Search → List Pattern → String → List (String × String)
test_matches search [] text = []
test_matches search (p ∷ ps) text = elim (search_pattern search p text) [
  | some true ↦ (get_or "" p.name, p.pattern) ∷ test_matches search ps text
  | _ ↦ test_matches search ps text
]

-- The result of `test_text`.
record TextTest : Type 0 where
  pub original : String
  pub filtered : String
  pub masked_count : ℕ
  pub matches : List (String × String)

unfoldable test_text : Subn → Search → List Pattern → String → TextTest
test_text subn search ps text =
    let (filtered, count) = apply_patterns subn ps text 0 in
    record {
      original = text;
      filtered = filtered;
      masked_count = count;
      matches = test_matches search ps text;
    }
