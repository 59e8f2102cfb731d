-- ===== src/Filter/Masked.antt =====
-- What the masking of data_filter.py changes, and what it leaves.
use llm_sentinel.Prelude.{
  ℕ, zero, suc, ◌+◌, ◌≤◌, ◌≡◌, refl, ap, String, true, false, List, [], ◌∷◌, ◌++◌, Option, none,
  some, string_eq, arith, map, Option-cases, inl, inr,
}
use llm_sentinel.Proxy.Tokens.{
  Part, text_part, other_part, Content, plain_text, part_list, other_value, Message,
}
use llm_sentinel.Filter.Patterns.{
  Pattern, get_or, Subn, Search, sub_pattern, search_pattern, apply_pattern, apply_patterns,
  sanitize_parts, sanitize_content, sanitize_all, sanitize_messages, replaced, sanitize_ssh_output,
}

-- The count never falls; where it stays, the text stays.
apply_pattern-kept :
    (subn : Subn) (p : Pattern) (text : String) (total : ℕ)
    → (total ≤ (apply_pattern subn p text total).1)
      × ((apply_pattern subn p text total).1 ≡ total → (apply_pattern subn p text total).0 ≡ text)
unfolding apply_pattern
apply_pattern-kept subn p text total = ground arith

apply_patterns-kept :
    (subn : Subn) (ps : List Pattern) (text : String) (total : ℕ)
    → (total ≤ (apply_patterns subn ps text total).1)
      × ((apply_patterns subn ps text total).1 ≡ total
          → (apply_patterns subn ps text total).0 ≡ text)
unfolding apply_patterns
apply_patterns-kept subn [] text total = (omega arith, λ h. refl)
apply_patterns-kept subn (p ∷ ps) text total =
    let (next, count) = apply_pattern subn p text total in
    ground (arith, apply_pattern-kept subn p text total, apply_patterns-kept subn ps next count)

sanitize_parts-kept :
    (subn : Subn) (ps : List Pattern) (parts : List Part) (total : ℕ)
    → (total ≤ (sanitize_parts subn ps parts total).1)
      × ((sanitize_parts subn ps parts total).1 ≡ total
          → (sanitize_parts subn ps parts total).0 ≡ parts)
unfolding sanitize_parts
sanitize_parts-kept subn ps [] total = (omega arith, λ h. refl)
sanitize_parts-kept subn ps (text_part t ∷ parts) total =
    let count = (apply_patterns subn ps t 0).1 in
    ground
      (arith, apply_patterns-kept subn ps t 0, sanitize_parts-kept subn ps parts (total + count))
sanitize_parts-kept subn ps (other_part ∷ parts) total =
    ground (arith, sanitize_parts-kept subn ps parts total)

sanitize_content-kept :
    (subn : Subn) (ps : List Pattern) (content : Content) (total : ℕ)
    → (total ≤ (sanitize_content subn ps content total).1)
      × ((sanitize_content subn ps content total).1 ≡ total
          → (sanitize_content subn ps content total).0 ≡ content)
unfolding sanitize_content
sanitize_content-kept subn ps (plain_text t) total = ground (arith, apply_patterns-kept subn ps t 0)
sanitize_content-kept subn ps (part_list parts) total =
    ground (arith, sanitize_parts-kept subn ps parts total)
sanitize_content-kept subn ps other_value total = (omega arith, λ h. refl)

sanitize_all-kept :
    (subn : Subn) (ps : List Pattern) (ms : List Message) (total : ℕ)
    → (total ≤ (sanitize_all subn ps ms total).1)
      × ((sanitize_all subn ps ms total).1 ≡ total → (sanitize_all subn ps ms total).0 ≡ ms)
unfolding sanitize_all
sanitize_all-kept subn ps [] total = (omega arith, λ h. refl)
sanitize_all-kept subn ps (m ∷ ms) total =
    let (content, sum) = sanitize_content subn ps m.content total in
    ground (arith, sanitize_content-kept subn ps m.content total, sanitize_all-kept subn ps ms sum)

-- Where no match is counted, the messages come back as they were.
sanitize_messages-kept :
    (subn : Subn) (ps : List Pattern) (ms : List Message)
    → (sanitize_messages subn ps ms).1 ≡ 0
    → (sanitize_messages subn ps ms).0 ≡ ms
unfolding sanitize_messages
sanitize_messages-kept subn ps ms h = (sanitize_all-kept subn ps ms 0).1 h

sanitize_all-roles :
    (subn : Subn) (ps : List Pattern) (ms : List Message) (total : ℕ)
    → map (λ m. m.role) (sanitize_all subn ps ms total).0 ≡ map (λ m. m.role) ms
unfolding sanitize_all
sanitize_all-roles subn ps [] total = refl
sanitize_all-roles subn ps (m ∷ ms) total =
    ap (λ (l : List (Option String)). m.role ∷ l)
      (sanitize_all-roles subn ps ms (sanitize_content subn ps m.content total).1)

-- Masking keeps the number of the messages, their order and their roles.
sanitize_messages-roles :
    (subn : Subn) (ps : List Pattern) (ms : List Message)
    → map (λ m. m.role) (sanitize_messages subn ps ms).0 ≡ map (λ m. m.role) ms
unfolding sanitize_messages
sanitize_messages-roles subn ps ms = sanitize_all-roles subn ps ms 0

-- What the two loops rely on in `re`: a text in which nothing is replaced comes back as it was, and an
-- expression that `search` refuses to compile is refused by `subn` too.
abbrev pub Sound : Subn → Search → Type 0
Sound subn search =
    ((f p r t t' : String) → subn f p r t ≡ some (t', 0) → t' ≡ t)
    × ((f p r t : String) → search f p t ≡ none → subn f p r t ≡ none)

one_replaced :
    (subn : Subn) (search : Search) (p : Pattern) (text : String) (total : ℕ)
    → Sound subn search
    → (apply_pattern subn p text total).0 ≡ replaced subn p text
unfolding apply_pattern
one_replaced subn search p text total s = elim (Option-cases (sub_pattern subn p text)) [
  | inl e ↦ ground (arith, e)
  | inr ((t, zero), e) ↦ ground (
    arith,
    e,
    s.0 (get_or "IGNORECASE" p.flags) p.pattern (get_or "[REDACTED]" p.replacement) text t e,
  )
  | inr ((t, suc n), e) ↦ ground (arith, e)
]

-- Where `subn` returns the text as it was if it replaces nothing, and refuses the expressions that
-- `search` refuses, the two loops over the patterns, one for messages and one for terminal output,
-- leave the same text.
pub sanitize_ssh_output-apply_patterns :
    (subn : Subn) (search : Search) (ps : List Pattern) (text : String) (names : List String)
    (total : ℕ)
    → Sound subn search
    → (sanitize_ssh_output subn search ps text names).0 ≡ (apply_patterns subn ps text total).0
unfolding sanitize_ssh_output apply_patterns
sanitize_ssh_output-apply_patterns subn search [] text names total s = refl
sanitize_ssh_output-apply_patterns subn search (p ∷ ps) text names total s =
    let text' = (apply_pattern subn p text total).0 in
    let total' = (apply_pattern subn p text total).1 in
    let same = one_replaced subn search p text total s in
    elim (Option-cases (search_pattern search p text)) [
      | inl e ↦
          let refused =
            s.1 (get_or "IGNORECASE" p.flags) p.pattern (get_or "[REDACTED]" p.replacement) text
              e in
          ground (
            arith,
            e,
            same,
            refused,
            sanitize_ssh_output-apply_patterns subn search ps text' names total' s,
          )
      | inr (true, e) ↦
          let names' = names ++ (get_or "unknown" p.name ∷ []) in
          ground (
            arith,
            e,
            same,
            sanitize_ssh_output-apply_patterns subn search ps text' names' total' s,
          )
      | inr (false, e) ↦
          ground
            (arith, e, same, sanitize_ssh_output-apply_patterns subn search ps text' names total' s)
    ]
