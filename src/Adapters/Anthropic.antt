-- ===== src/Adapters/Anthropic.antt =====
-- AnthropicProvider of providers/anthropic_provider.py, and `_prepare_body` of the Bedrock adapter. JSON
-- values are their texts, and numbers that are not whole are texts; a content that is neither a text
-- nor a list counts as null.
use Prim.Native.String.{◌++◌ as append}
use llm_sentinel.Prelude.{
  ℕ, String, Bool, false, not, ◌&&◌, List, [], ◌∷◌, ◌++◌, Option, none, some, ◌==◌, string_eq,
  nat_beq, if◌then◌else◌,
}
use llm_sentinel.Proxy.Tokens.{Content, plain_text, part_list, other_value, Message, is_system}
use llm_sentinel.Guardrails.Request.{or_default}
use llm_sentinel.Adapters.Base.{
  ToolCall, OaiChatResponse, Chunk, make_oai_response, role_chunk, content_chunk, calls_chunk,
  finish_chunk,
}

-- `{"role": m.get("role", "user"), "content": m.get("content", "")}`
abbrev pub sent : Message → Message
sent m = record { role = some (or_default "user" m.role); content = m.content }

-- The loop of `_prepare_messages` over what it has so far.
unfoldable pub prepare_onto :
    Option Content → List Message → List Message → Option Content × List Message
prepare_onto system converted [] = (system, converted)
prepare_onto system converted (m ∷ ms) =
    prepare_onto (if is_system m then some m.content else system)
      (if is_system m then converted else converted ++ (sent m ∷ [])) ms

unfoldable pub prepare_messages : List Message → Option Content × List Message
prepare_messages ms = prepare_onto none [] ms

-- A tool as OpenAI or Anthropic writes it. A schema is its JSON text, and none where it is empty.
record Tool : Type 0 where
  pub kind : Option String
  pub function_name : Option String
  pub function_description : Option String
  pub function_parameters : Option String
  pub name : Option String
  pub input_schema : Option String

data AnthropicTool : Type 0 where
  converted_tool : String → String → String → AnthropicTool
  same_tool : Tool → AnthropicTool

abbrev given : Option String → Bool
given none = false
given (some t) = not (t == "")

unfoldable convert_each : List Tool → List AnthropicTool
convert_each [] = []
convert_each (t ∷ ts) =
    let rest = convert_each ts in
    if or_default "" t.kind == "function"
    then converted_tool (or_default "" t.function_name) (or_default "" t.function_description)
        (or_default "{}" t.function_parameters)
      ∷ rest
    else if given t.name && given t.input_schema
    then same_tool t ∷ rest
    else rest

-- `result or None`
abbrev or_none : List AnthropicTool → Option (List AnthropicTool)
or_none [] = none
or_none (t ∷ ts) = some (t ∷ ts)

unfoldable convert_tools : Option (List Tool) → Option (List AnthropicTool)
unfolding convert_each
convert_tools none = none
convert_tools (some tools) = or_none (convert_each tools)

data Stop : Type 0 where
  one_stop : String → Stop
  stop_list : List String → Stop

-- `stop if isinstance(stop, list) else [stop]`, where `stop` is given and not empty.
abbrev stop_sequences_of : Option Stop → Option (List String)
stop_sequences_of none = none
stop_sequences_of (some (one_stop t)) = if t == "" then none else some (t ∷ [])
stop_sequences_of (some (stop_list [])) = none
stop_sequences_of (some (stop_list (t ∷ ts))) = some (t ∷ ts)

-- `if system:`
abbrev pub system_of : Option Content → Option Content
system_of none = none
system_of (some (plain_text t)) = if t == "" then none else some (plain_text t)
system_of (some (part_list [])) = none
system_of (some (part_list (p ∷ ps))) = some (part_list (p ∷ ps))
system_of (some other_value) = none

-- `max_tokens or 4096`
abbrev max_tokens_of : Option ℕ → ℕ
max_tokens_of none = 4096
max_tokens_of (some n) = if nat_beq n 0 then 4096 else n

record AnthropicParams : Type 0 where
  pub model : String
  pub messages : List Message
  pub max_tokens : ℕ
  pub system : Option Content
  pub temperature : Option String
  pub stop_sequences : Option (List String)
  pub tools : Option (List AnthropicTool)

unfoldable params_of :
    List Message
    → String
    → Option String
    → Option ℕ
    → Option (List Tool)
    → Option Stop
    → AnthropicParams
unfolding convert_tools
params_of messages model temperature max_tokens tools stop =
    let (system, converted) = prepare_messages messages in
    record {
      model = model;
      messages = converted;
      max_tokens = max_tokens_of max_tokens;
      system = system_of system;
      temperature = temperature;
      stop_sequences = stop_sequences_of stop;
      tools = convert_tools tools;
    }

-- The body that the Bedrock adapter sends, without its fixed version.
unfoldable prepare_body : List Message → String → Option String → Option ℕ → AnthropicParams
prepare_body messages model temperature max_tokens =
    let (system, msgs) = prepare_messages messages in
    record {
      model = model;
      messages = msgs;
      max_tokens = max_tokens_of max_tokens;
      system = system_of system;
      temperature = temperature;
      stop_sequences = none;
      tools = none;
    }

-- A block of an answer; `input` of a tool is the JSON text that the service writes.
pub data Block : Type 0 where
  text_block : String → Block
  tool_use : String → String → String → Block
  other_block : Block

pub record AnthropicResponse : Type 0 where
  pub content : List Block
  pub stop_reason : String
  pub model : String
  pub input_tokens : ℕ
  pub output_tokens : ℕ

abbrev pub content_onto : String → List Block → String
content_onto text [] = text
content_onto text (text_block t ∷ bs) = content_onto (append text t) bs
content_onto text (tool_use id name input ∷ bs) = content_onto text bs
content_onto text (other_block ∷ bs) = content_onto text bs

-- `dumps` is what `json.dumps` writes of a value that is read from a text.
abbrev pub calls_onto :
    (String → String) → Option (List ToolCall) → List Block → Option (List ToolCall)
calls_onto dumps calls [] = calls
calls_onto dumps calls (text_block t ∷ bs) = calls_onto dumps calls bs
calls_onto dumps calls (tool_use id name input ∷ bs) =
    calls_onto dumps
      (some
        (or_default [] calls ++ (record { id = id; name = name; arguments = dumps input } ∷ [])))
      bs
calls_onto dumps calls (other_block ∷ bs) = calls_onto dumps calls bs

abbrev pub finish_of : String → String
finish_of stop_reason =
    if stop_reason == "tool_use"
    then "tool_calls"
    else if stop_reason == "end_turn"
    then "stop"
    else if stop_reason == "max_tokens"
    then "length"
    else "stop"

-- What `chat` makes of the answer.
unfoldable pub chat_answer : (String → String) → String → ℕ → AnthropicResponse → OaiChatResponse
unfolding make_oai_response
chat_answer dumps id created response =
    make_oai_response id created (content_onto "" response.content) response.model
      response.input_tokens response.output_tokens (finish_of response.stop_reason)
      (calls_onto dumps none response.content)

-- An event of a stream, by the tests that the loop makes of it; `message_delta` has a stop reason
-- or none.
pub data Event : Type 0 where
  tool_start : String → String → Event
  other_start : Event
  text_delta : String → Event
  input_json_delta : String → Event
  other_delta : Event
  block_stop : Event
  message_delta : Option String → Event
  plain_event : String → Event
  other_event : Event

-- The local variables of the loop.
pub record Loop : Type 0 where
  pub current_tool_id : String
  pub current_tool_name : String
  pub tool_args_buffer : String
  pub finish_reason : String

-- None and the empty text are alike for the tests of the loop.
abbrev pub loop_start : Loop
loop_start = record {
  current_tool_id = "";
  current_tool_name = "";
  tool_args_buffer = "";
  finish_reason = "stop";
}

abbrev pub stopped : Option String → String → String
stopped none finish_reason = finish_reason
stopped (some stop_reason) finish_reason =
    if stop_reason == "tool_use"
    then "tool_calls"
    else if stop_reason == "max_tokens"
    then "length"
    else finish_reason

unfoldable pub on_event : String → String → Loop → Event → Loop × List Chunk
on_event model chunk_id l (tool_start id name) =
    (record l { current_tool_id = id; current_tool_name = name; tool_args_buffer = "" }, [])
on_event model chunk_id l other_start = (l, [])
on_event model chunk_id l (text_delta t) = (l, content_chunk t model chunk_id ∷ [])
on_event model chunk_id l (input_json_delta part) =
    if l.current_tool_id == ""
    then (l, [])
    else (record l { tool_args_buffer = append l.tool_args_buffer part }, [])
on_event model chunk_id l other_delta = (l, [])
on_event model chunk_id l block_stop = if l.current_tool_id == "" then (l, []) else (
  record {
    current_tool_id = "";
    current_tool_name = "";
    tool_args_buffer = "";
    finish_reason = "tool_calls";
  },
  calls_chunk
        (record {
          index = 0;
          call = record {
            id = l.current_tool_id;
            name = l.current_tool_name;
            arguments = l.tool_args_buffer;
          };
        }
          ∷ [])
        model chunk_id
      ∷ [],
)
on_event model chunk_id l (message_delta stop_reason) =
    (record l { finish_reason = stopped stop_reason l.finish_reason }, [])
on_event model chunk_id l (plain_event t) = (l, content_chunk t model chunk_id ∷ [])
on_event model chunk_id l other_event = (l, [])

unfoldable pub on_events : String → String → Loop → List Event → Loop × List Chunk
on_events model chunk_id l [] = (l, [])
on_events model chunk_id l (e ∷ es) =
    let (l', now) = on_event model chunk_id l e in
    let (l'', later) = on_events model chunk_id l' es in (l'', now ++ later)

-- What `stream_chat` yields over the events of an answer.
unfoldable pub stream_chat : String → String → List Event → List Chunk
stream_chat model chunk_id es =
    let (l, chunks) = on_events model chunk_id loop_start es in
    role_chunk model chunk_id ∷ (chunks ++ (finish_chunk l.finish_reason model chunk_id ∷ []))
