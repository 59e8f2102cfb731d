-- ===== src/Adapters/Base.antt =====
-- BaseLLMProvider of providers/base.py, with the answers of models.py that it builds. The time of a
-- chunk and the fields that never vary are left out.
use llm_sentinel.Prelude.{
  ℕ, ◌+◌, String, Bool, true, false, List, [], ◌∷◌, Option, none, some, ◌==◌, string_eq,
  if◌then◌else◌,
}

pub record ToolCall : Type 0 where
  pub id : String
  pub name : String
  pub arguments : String

-- A call in a chunk, with the index by which clients tell calls apart.
pub record StreamedCall : Type 0 where
  pub index : ℕ
  pub call : ToolCall

-- OAIChatResponse with its one choice and OAIUsage.
pub record OaiChatResponse : Type 0 where
  pub id : String
  pub created : ℕ
  pub model : String
  pub content : Option String
  pub tool_calls : Option (List ToolCall)
  pub finish_reason : String
  pub prompt_tokens : ℕ
  pub completion_tokens : ℕ
  pub total_tokens : ℕ

-- A chunk of a stream with its one choice: `delta` has the keys whose values are not None.
pub record Chunk : Type 0 where
  pub id : String
  pub model : String
  pub role : Option String
  pub content : Option String
  pub tool_calls : Option (List StreamedCall)
  pub finish_reason : Option String

-- `if tool_calls:`
abbrev pub any_calls : Option (List ToolCall) → Bool
any_calls none = false
any_calls (some []) = false
any_calls (some (c ∷ cs)) = true

unfoldable pub make_oai_response :
    String → ℕ → String → String → ℕ → ℕ → String → Option (List ToolCall) → OaiChatResponse
make_oai_response id created content model input_tokens output_tokens finish_reason tool_calls =
    record {
      id = id;
      created = created;
      model = model;
      content = if any_calls tool_calls then none else some content;
      tool_calls = tool_calls;
      finish_reason = finish_reason;
      prompt_tokens = input_tokens;
      completion_tokens = output_tokens;
      total_tokens = input_tokens + output_tokens;
    }

-- `_make_stream_chunk` with the arguments that a call gives.
abbrev make_stream_chunk :
    Option String
    → Option String
    → Option (List StreamedCall)
    → Option String
    → String
    → String
    → Chunk
make_stream_chunk role content tool_calls finish_reason model chunk_id = record {
  id = if chunk_id == "" then "chatcmpl-stream" else chunk_id;
  model = model;
  role = role;
  content = content;
  tool_calls = tool_calls;
  finish_reason = finish_reason;
}

abbrev pub role_chunk : String → String → Chunk
role_chunk = make_stream_chunk (some "assistant") none none none

abbrev pub content_chunk : String → String → String → Chunk
content_chunk content = make_stream_chunk none (some content) none none

abbrev pub calls_chunk : List StreamedCall → String → String → Chunk
calls_chunk calls = make_stream_chunk none none (some calls) none

abbrev pub finish_chunk : String → String → String → Chunk
finish_chunk finish_reason = make_stream_chunk none none none (some finish_reason)
