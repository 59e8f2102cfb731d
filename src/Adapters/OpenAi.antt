-- ===== src/Adapters/OpenAi.antt =====
-- OpenAIProvider and AzureOpenAIProvider of providers/, which differ in the stream's parameters. JSON
-- values are their texts, `none` where they are null or empty.
use llm_sentinel.Prelude.{
  ℕ, String, Bool, List, [], ◌∷◌, Option, none, some, ◌==◌, string_eq, if◌then◌else◌,
}
use llm_sentinel.Guardrails.Request.{or_default}
use llm_sentinel.Proxy.Tokens.{Message}
use llm_sentinel.Adapters.Base.{ToolCall, StreamedCall, OaiChatResponse, Chunk, make_oai_response}

record OpenAiParams : Type 0 where
  pub model : String
  pub messages : List Message
  pub stream : Bool
  pub temperature : Option String
  pub max_tokens : Option ℕ
  pub tools : Option String
  pub tool_choice : Option String
  pub stop : Option String

-- What `chat` sends.
abbrev chat_params :
    List Message
    → String
    → Option String
    → Option ℕ
    → Option String
    → Option String
    → Option String
    → OpenAiParams
chat_params messages model temperature max_tokens tools tool_choice stop = record {
  model = model;
  messages = messages;
  stream = Bool.false;
  temperature = temperature;
  max_tokens = max_tokens;
  tools = tools;
  tool_choice = tool_choice;
  stop = stop;
}

-- What `stream_chat` sends; the Azure adapter leaves out `stop` too.
abbrev stream_params :
    List Message
    → String
    → Option String
    → Option ℕ
    → Option String
    → Option String
    → Option String
    → OpenAiParams
stream_params messages model temperature max_tokens tools tool_choice stop = record {
  model = model;
  messages = messages;
  stream = Bool.true;
  temperature = temperature;
  max_tokens = max_tokens;
  tools = tools;
  tool_choice = none;
  stop = stop;
}

abbrev azure_stream_params :
    List Message
    → String
    → Option String
    → Option ℕ
    → Option String
    → Option String
    → Option String
    → OpenAiParams
azure_stream_params messages model temperature max_tokens tools tool_choice stop =
    stream_params messages model temperature max_tokens tools tool_choice none

-- A choice of an answer with its message.
record Choice : Type 0 where
  pub content : Option String
  pub tool_calls : List ToolCall
  pub finish_reason : Option String

record Completion : Type 0 where
  pub model : String
  pub choices : List Choice
  pub usage : Option (ℕ × ℕ)

abbrev calls_or_none : {A : Type 0} → List A → Option (List A)
calls_or_none [] = none
calls_or_none (c ∷ cs) = some (c ∷ cs)

-- `finish or "stop"`
abbrev finish_or_stop : Option String → String
finish_or_stop none = "stop"
finish_or_stop (some t) = if t == "" then "stop" else t

abbrev usage_of : Option (ℕ × ℕ) → ℕ × ℕ
usage_of none = (0, 0)
usage_of (some usage) = usage

unfoldable completion_answer : String → ℕ → Completion → OaiChatResponse
unfolding make_oai_response
completion_answer id created c =
    let (input_tokens, output_tokens) = usage_of c.usage in
    elim c.choices [
      | [] ↦ make_oai_response id created "" c.model input_tokens output_tokens "stop" none
      | choice ∷ others ↦
          make_oai_response id created (or_default "" choice.content) c.model input_tokens
            output_tokens (finish_or_stop choice.finish_reason) (calls_or_none choice.tool_calls)
    ]

-- A chunk of the service with its first choice, if it has one. A call of a chunk that is sent without
-- its name or its id has the empty text there.
record Part : Type 0 where
  pub id : String
  pub model : String
  pub choice : Option (Option String × Option String × List StreamedCall × Option String)

-- An empty role counts as none.
abbrev role_of : Option String → Option String
role_of none = none
role_of (some t) = if t == "" then none else some t

-- The loop of `stream_chat`, which passes over chunks without a choice.
unfoldable pass_on : List Part → List Chunk
pass_on [] = []
pass_on (p ∷ ps) = elim p.choice [
  | none ↦ pass_on ps
  | some (role, content, tool_calls, finish_reason) ↦
      record {
        id = p.id;
        model = p.model;
        role = role_of role;
        content = content;
        tool_calls = calls_or_none tool_calls;
        finish_reason = finish_reason;
      }
      ∷ pass_on ps
]
