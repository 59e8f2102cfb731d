-- ===== src/Catalog/Patterns.antt =====
-- filter_db.py: the table of filter patterns, without its listing. An id that the database makes is an
-- argument.
use llm_sentinel.Prelude.{
  ℕ, ◌+◌, String, Bool, true, false, List, [], ◌∷◌, ◌++◌, Option, none, some, ◌==◌, string_eq,
  if◌then◌else◌,
}
use llm_sentinel.Auth.State.{first_where, update_first}
use llm_sentinel.Catalog.Rows.{remove_first}

pub record PatternRow : Type 0 where
  pub id : String
  pub name : String
  pub pattern : String
  pub replacement : String
  pub flags : String
  pub is_active : Bool
  pub is_builtin : Bool

-- An entry of BUILTIN_PATTERNS as a row, whose id is its name.
abbrev builtin : String → String → String → PatternRow
builtin name pattern replacement = record {
  id = name;
  name = name;
  pattern = pattern;
  replacement = replacement;
  flags = "IGNORECASE";
  is_active = true;
  is_builtin = true;
}

abbrev builtin_patterns : List PatternRow
builtin_patterns =
    builtin "Password (key=value)" "(?i)(password|passwd|pwd)\\s*[:=]\\s*\\S+" "[PASSWORD]"
    ∷ builtin "Password (quoted)" "(?i)(password|passwd|pwd)\\s*[:=]\\s*[\"\\'][^\"\\']+[\"\\']"
        "[PASSWORD]"
    ∷ builtin "Bearer Token" "Bearer\\s+[A-Za-z0-9\\-._~+/]+=*" "Bearer [TOKEN]"
    ∷ builtin "Anthropic API Key" "sk-ant-[a-zA-Z0-9\\-]{20,}" "[ANTHROPIC_KEY]"
    ∷ builtin "OpenAI API Key" "sk-[a-zA-Z0-9]{20,}" "[OPENAI_KEY]"
    ∷ builtin "AWS Access Key" "AKIA[0-9A-Z]{16}" "[AWS_KEY]"
    ∷ builtin "AWS Secret Key" "(?i)aws_secret_access_key\\s*[:=]\\s*\\S+" "[AWS_SECRET]"
    ∷ builtin "GitHub Token" "gh[pousr]_[A-Za-z0-9_]{36,}" "[GITHUB_TOKEN]"
    ∷ builtin "Slack Token" "xox[baprs]-[A-Za-z0-9\\-]+" "[SLACK_TOKEN]"
    ∷ builtin "Generic API Key Header" "(?i)(api[_-]?key|apikey|x-api-key)\\s*[:=]\\s*\\S+"
        "[API_KEY]"
    ∷ builtin "JWT Token" "eyJ[A-Za-z0-9\\-_]+\\.eyJ[A-Za-z0-9\\-_]+\\.[A-Za-z0-9\\-_.+/=]+" "[JWT]"
    ∷ builtin "Credit Card (Visa/MC/Amex)"
        "\\b(?:4[0-9]{12}(?:[0-9]{3})?|5[1-5][0-9]{14}|3[47][0-9]{13})\\b" "[CREDIT_CARD]"
    ∷ builtin "SSN (US)" "\\b\\d{3}-\\d{2}-\\d{4}\\b" "[SSN]"
    ∷ builtin "Private Key Block"
        "-----BEGIN\\s+(RSA\\s+)?PRIVATE KEY-----[\\s\\S]*?-----END\\s+(RSA\\s+)?PRIVATE KEY-----"
        "[PRIVATE_KEY]"
    ∷ builtin "Connection String" "(?i)(mongodb|postgresql|mysql|redis|amqp)://[^\\s\\\"']+"
        "[CONNECTION_STRING]"
    ∷ builtin "Email Address" "\\b[A-Za-z0-9._%+-]+@[A-Za-z0-9.-]+\\.[A-Za-z]{2,}\\b" "[EMAIL]"
    ∷ builtin "IP Address (Private)"
        "\\b(?:10\\.\\d{1,3}\\.\\d{1,3}\\.\\d{1,3}|172\\.(?:1[6-9]|2\\d|3[01])\\.\\d{1,3}\\.\\d{1,3}|192\\.168\\.\\d{1,3}\\.\\d{1,3})\\b"
        "[PRIVATE_IP]"
    ∷ builtin "Google API Key" "AIza[0-9A-Za-z\\-_]{35}" "[GOOGLE_KEY]"
    ∷ builtin "Heroku API Key"
        "(?i)heroku.*[0-9a-f]{8}-[0-9a-f]{4}-[0-9a-f]{4}-[0-9a-f]{4}-[0-9a-f]{12}" "[HEROKU_KEY]"
    ∷ builtin "Generic Secret"
        "(?i)(secret|token|auth)\\s*[:=]\\s*[\"\\']?[A-Za-z0-9\\-._]{16,}[\"\\']?" "[SECRET]"
    ∷ []

abbrev has_pattern_name : String → PatternRow → Bool
has_pattern_name name r = r.name == name

abbrev pub has_pattern_id : String → PatternRow → Bool
has_pattern_id pattern_id r = r.id == pattern_id

-- The loop of `seed_builtin_patterns`; `new_id` gives the id of a row by its name.
unfoldable seed_rows :
    (String → String) → List PatternRow → ℕ → List PatternRow → ℕ × List PatternRow
seed_rows new_id [] count table = (count, table)
seed_rows new_id (p ∷ ps) count table = elim (first_where (has_pattern_name p.name) table) [
  | some found ↦ seed_rows new_id ps count table
  | none ↦ seed_rows new_id ps (count + 1) (table ++ (record p { id = new_id p.name } ∷ []))
]

unfoldable seed_builtin_patterns : (String → String) → List PatternRow → ℕ × List PatternRow
unfolding seed_rows
seed_builtin_patterns new_id table = seed_rows new_id builtin_patterns 0 table

unfoldable get_pattern_by_id : String → List PatternRow → Option PatternRow
get_pattern_by_id pattern_id table = first_where (has_pattern_id pattern_id) table

unfoldable pub create_pattern :
    String → String → String → String → String → List PatternRow → PatternRow × List PatternRow
create_pattern id name pattern replacement flags table =
    let row : PatternRow = record {
      id = id;
      name = name;
      pattern = pattern;
      replacement = replacement;
      flags = flags;
      is_active = true;
      is_builtin = false;
    } in
    (row, table ++ (row ∷ []))

abbrev pub set_active : Bool → PatternRow → PatternRow
set_active is_active r = record r { is_active = is_active }

unfoldable pub toggle_pattern : String → Bool → List PatternRow → Bool × List PatternRow
toggle_pattern pattern_id is_active table = elim (first_where (has_pattern_id pattern_id) table) [
  | none ↦ (false, table)
  | some r ↦ (true, update_first (has_pattern_id pattern_id) (set_active is_active) table)
]

-- A built-in pattern is not deleted.
unfoldable pub delete_pattern : String → List PatternRow → Bool × List PatternRow
delete_pattern pattern_id table = elim (first_where (has_pattern_id pattern_id) table) [
  | none ↦ (false, table)
  | some r ↦
      if r.is_builtin
      then (false, table)
      else (true, remove_first (has_pattern_id pattern_id) table)
]
