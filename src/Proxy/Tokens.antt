-- ===== src/Proxy/Tokens.antt =====
-- Token estimates and truncate_messages of llm_proxy.py. The encoder of tiktoken is an argument:
-- `none` where the package is missing, and a text maps to `none` where encoding it raises.
use Prim.Native.String.{count as char_count}
use llm_sentinel.Prelude.{
  ℕ, ◌+◌, ◌-◌, ◌/◌, max, String, Bool, true, false, not, List, [], ◌∷◌, ◌++◌, Option, none, some,
  leb, ltb, ◌==◌, string_eq, if◌then◌else◌, length, select, reverse,
}

-- A part of a content list: a dict with a text, or anything else.
pub data Part : Type 0 where
  text_part : String → Part
  other_part : Part

-- `m.get("content", "")`: a text, a list, or anything else.
pub data Content : Type 0 where
  plain_text : String → Content
  part_list : List Part → Content
  other_value : Content

pub record Message : Type 0 where
  pub role : Option String
  pub content : Content

abbrev pub Encoder : Type 0
Encoder = Option (String → Option ℕ)

-- `max(len(text) // 4, 1)`
abbrev quarter : String → ℕ
quarter text = max (char_count text / 4) 1

unfoldable pub estimate_tokens : Encoder → String → ℕ
estimate_tokens enc text = if text == "" then 0 else elim enc [
  | none ↦ quarter text
  | some encode ↦ elim (encode text) [ none ↦ quarter text | some n ↦ n ]
]

unfoldable pub part_tokens : Encoder → List Part → ℕ
part_tokens enc [] = 0
part_tokens enc (text_part t ∷ ps) = estimate_tokens enc t + part_tokens enc ps
part_tokens enc (other_part ∷ ps) = part_tokens enc ps

-- What one message adds to either count, with its overhead of 4.
unfoldable pub message_tokens : Encoder → Content → ℕ
message_tokens enc (plain_text t) = estimate_tokens enc t + 4
message_tokens enc (part_list ps) = part_tokens enc ps + 4
message_tokens enc other_value = 4

unfoldable pub estimate_messages_tokens : Encoder → List Message → ℕ
estimate_messages_tokens enc [] = 0
estimate_messages_tokens enc (m ∷ ms) =
    message_tokens enc m.content + estimate_messages_tokens enc ms

-- `m.get("role") == "system"`
abbrev pub is_system : Message → Bool
is_system m = elim m.role [ none ↦ false | some r ↦ r == "system" ]

-- The loop from the newest message to the oldest, which ends at the first that does not fit.
unfoldable pub keep_newest : Encoder → ℕ → ℕ → List Message → List Message → List Message
keep_newest enc budget used [] kept = kept
keep_newest enc budget used (m ∷ older) kept =
    let rest = keep_newest enc budget (used + message_tokens enc m.content) older (m ∷ kept) in
    if ltb budget (used + message_tokens enc m.content) then kept else rest

-- The truncated messages and whether any were dropped.
unfoldable pub truncate_messages : Encoder → ℕ → List Message → List Message × Bool
truncate_messages enc max_tokens messages =
    let system_msgs = select is_system messages in
    let other_msgs = select (λ m. not (is_system m)) messages in
    let system_tokens = estimate_messages_tokens enc system_msgs in
    if leb (estimate_messages_tokens enc messages) max_tokens
    then (messages, false)
    else if leb max_tokens system_tokens
    then (system_msgs, true)
    else (let kept = keep_newest enc (max_tokens - system_tokens) 0 (reverse other_msgs) [] in
        (system_msgs ++ kept, ltb (length (system_msgs ++ kept)) (length messages)))
