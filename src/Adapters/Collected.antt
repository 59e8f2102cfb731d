-- ===== src/Adapters/Collected.antt =====
-- An answer of Anthropic in parts, the events that stream it, and what a client collects from the
-- chunks of a stream.
use Prim.Native.String.{◌++◌ as append}
use package.text.Mathlib.TextLemmas.{append-nil, append_assoc, nil-append}
use llm_sentinel.Prelude.{
  ◌≡◌, refl, sym, ap, ◌∙◌, String, false, List, [], ◌∷◌, ◌++◌, none, some, ◌==◌, string_eq, map,
}
use mathlib.Core.List.{append_assoc as append_assoc_list, append-nil as append-nil_list}
use llm_sentinel.Guardrails.Request.{or_default}
use llm_sentinel.Adapters.Base.{ToolCall, StreamedCall, Chunk}
use llm_sentinel.Adapters.Anthropic.{
  Block, text_block, tool_use, other_block, content_onto, calls_onto, Event, tool_start,
  other_start, text_delta, input_json_delta, block_stop, message_delta,
}

-- A block as the service streams it: its text, or the JSON text of its input, in parts.
pub data Parts : Type 0 where
  text_parts : List String → Parts
  tool_parts : String → String → List String → Parts
  no_parts : Parts

abbrev pub whole : List String → String
whole [] = ""
whole (t ∷ ts) = append t (whole ts)

abbrev pub block_of : Parts → Block
block_of (text_parts ts) = text_block (whole ts)
block_of (tool_parts id name ts) = tool_use id name (whole ts)
block_of no_parts = other_block

-- The events of a block, and of an answer with its stop reason.
abbrev pub events_of : Parts → List Event
events_of (text_parts ts) = other_start ∷ (map text_delta ts ++ (block_stop ∷ []))
events_of (tool_parts id name ts) =
    tool_start id name ∷ (map input_json_delta ts ++ (block_stop ∷ []))
events_of no_parts = other_start ∷ block_stop ∷ []

abbrev pub answer_events : List Parts → String → List Event
answer_events [] stop_reason = message_delta (some stop_reason) ∷ []
answer_events (p ∷ ps) stop_reason = events_of p ++ answer_events ps stop_reason

-- What a client collects from the chunks.
abbrev pub text_of : List Chunk → String
text_of [] = ""
text_of (c ∷ cs) = append (or_default "" c.content) (text_of cs)

abbrev pub calls_of : List Chunk → List StreamedCall
calls_of [] = []
calls_of (c ∷ cs) = or_default [] c.tool_calls ++ calls_of cs

-- The texts and the calls of an answer.
abbrev pub texts : List Parts → String
texts [] = ""
texts (text_parts ts ∷ ps) = append (whole ts) (texts ps)
texts (tool_parts id name ts ∷ ps) = texts ps
texts (no_parts ∷ ps) = texts ps

abbrev pub calls : (String → String) → List Parts → List ToolCall
calls dumps [] = []
calls dumps (text_parts ts ∷ ps) = calls dumps ps
calls dumps (tool_parts id name ts ∷ ps) =
    record { id = id; name = name; arguments = dumps (whole ts) } ∷ calls dumps ps
calls dumps (no_parts ∷ ps) = calls dumps ps

-- The calls as the loop sends them, with the arguments as the service writes them: each has the index 0.
abbrev pub sent_calls : List Parts → List StreamedCall
sent_calls [] = []
sent_calls (text_parts ts ∷ ps) = sent_calls ps
sent_calls (tool_parts id name ts ∷ ps) =
    record { index = 0; call = record { id = id; name = name; arguments = whole ts } }
    ∷ sent_calls ps
sent_calls (no_parts ∷ ps) = sent_calls ps

-- The service gives each call of a tool an id.
abbrev pub Named : Parts → Type 0
Named (text_parts ts) = Unit {0}
Named (tool_parts id name ts) = (id == "") ≡ false
Named no_parts = Unit {0}

pub content_onto-texts :
    (t : String) (ps : List Parts) → content_onto t (map block_of ps) ≡ append t (texts ps)
content_onto-texts t [] = sym (append-nil t)
content_onto-texts t (text_parts ts ∷ ps) =
    content_onto-texts (append t (whole ts)) ps ∙ append_assoc t (whole ts) (texts ps)
content_onto-texts t (tool_parts id name ts ∷ ps) = content_onto-texts t ps
content_onto-texts t (no_parts ∷ ps) = content_onto-texts t ps

pub text_of-append : (cs ds : List Chunk) → text_of (cs ++ ds) ≡ append (text_of cs) (text_of ds)
text_of-append [] ds = sym (nil-append (text_of ds))
text_of-append (c ∷ cs) ds =
    ap (append (or_default "" c.content)) (text_of-append cs ds)
    ∙ sym (append_assoc (or_default "" c.content) (text_of cs) (text_of ds))

pub calls_of-append : (cs ds : List Chunk) → calls_of (cs ++ ds) ≡ calls_of cs ++ calls_of ds
calls_of-append [] ds = refl
calls_of-append (c ∷ cs) ds =
    ap (λ (later : List StreamedCall). or_default [] c.tool_calls ++ later) (calls_of-append cs ds)
    ∙ sym (append_assoc_list (or_default [] c.tool_calls) (calls_of cs) (calls_of ds))

calls_onto-calls :
    (dumps : String → String) (cs : List ToolCall) (ps : List Parts)
    → or_default [] (calls_onto dumps (some cs) (map block_of ps)) ≡ cs ++ calls dumps ps
calls_onto-calls dumps cs [] = sym (append-nil_list cs)
calls_onto-calls dumps cs (text_parts ts ∷ ps) = calls_onto-calls dumps cs ps
calls_onto-calls dumps cs (tool_parts id name ts ∷ ps) =
    calls_onto-calls dumps
      (cs ++ (record { id = id; name = name; arguments = dumps (whole ts) } ∷ [])) ps
    ∙ append_assoc_list cs (record { id = id; name = name; arguments = dumps (whole ts) } ∷ [])
        (calls dumps ps)
calls_onto-calls dumps cs (no_parts ∷ ps) = calls_onto-calls dumps cs ps

pub calls_onto-none :
    (dumps : String → String) (ps : List Parts)
    → or_default [] (calls_onto dumps none (map block_of ps)) ≡ calls dumps ps
calls_onto-none dumps [] = refl
calls_onto-none dumps (text_parts ts ∷ ps) = calls_onto-none dumps ps
calls_onto-none dumps (tool_parts id name ts ∷ ps) =
    calls_onto-calls dumps (record { id = id; name = name; arguments = dumps (whole ts) } ∷ []) ps
calls_onto-none dumps (no_parts ∷ ps) = calls_onto-none dumps ps
