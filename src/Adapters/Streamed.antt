-- ===== src/Adapters/Streamed.antt =====
-- A streamed answer of Anthropic and the same answer at once: what a client collects is the same.
use package.text.Mathlib.TextLemmas.{append-nil, nil-append}
use llm_sentinel.Prelude.{
  ◌⊎◌, ℕ, ◌≡◌, refl, sym, ap, ◌∙◌, subst, String, true, ◌||◌, List, [], ◌∷◌, ◌++◌, Option, none,
  some, arith, ◌==◌, string_eq, if◌then◌else◌, map, All, Bool-cases, inl, inr,
}
use mathlib.Core.List.{append-nil as append-nil_list}
use llm_sentinel.Guardrails.Request.{or_default}
use llm_sentinel.Adapters.Collected.{
  Parts, text_parts, tool_parts, no_parts, whole, block_of, answer_events, text_of, calls_of, texts,
  calls, sent_calls, Named, content_onto-texts, text_of-append, calls_of-append, calls_onto-none,
}
use llm_sentinel.Adapters.Base.{ToolCall, StreamedCall, Chunk, role_chunk, finish_chunk, any_calls}
use llm_sentinel.Adapters.Anthropic.{
  content_onto, calls_onto, finish_of, chat_answer, Loop, loop_start, on_events, stream_chat,
  stopped,
}
use llm_sentinel.Adapters.Yielded.{answer-Yields, finish_behind}

-- The call of a chunk with its arguments as `json.dumps` writes them.
abbrev pub dumped : (String → String) → StreamedCall → ToolCall
dumped dumps c = record c.call { arguments = dumps c.call.arguments }

abbrev pub last_finish : List Chunk → Option String
last_finish [] = none
last_finish (c ∷ []) = c.finish_reason
last_finish (c ∷ d ∷ cs) = last_finish (d ∷ cs)

map-sent_calls :
    (dumps : String → String) (ps : List Parts)
    → map (dumped dumps) (sent_calls ps) ≡ calls dumps ps
map-sent_calls dumps [] = refl
map-sent_calls dumps (text_parts ts ∷ ps) = map-sent_calls dumps ps
map-sent_calls dumps (tool_parts id name ts ∷ ps) =
    ap (λ (cs : List ToolCall). record { id = id; name = name; arguments = dumps (whole ts) } ∷ cs)
      (map-sent_calls dumps ps)
map-sent_calls dumps (no_parts ∷ ps) = map-sent_calls dumps ps

sent_calls-index : (ps : List Parts) → All (λ c. c.index ≡ 0) (sent_calls ps)
sent_calls-index [] = tt
sent_calls-index (text_parts ts ∷ ps) = sent_calls-index ps
sent_calls-index (tool_parts id name ts ∷ ps) = (refl, sent_calls-index ps)
sent_calls-index (no_parts ∷ ps) = sent_calls-index ps

last_finish-append : (cs : List Chunk) (c : Chunk) → last_finish (cs ++ (c ∷ [])) ≡ c.finish_reason
last_finish-append [] c = refl
last_finish-append (d ∷ []) c = refl
last_finish-append (d ∷ e ∷ cs) c = last_finish-append (e ∷ cs) c

last_finish-role :
    (model chunk_id : String) (cs : List Chunk) (finish_reason : String)
    → last_finish
        (role_chunk model chunk_id ∷ (cs ++ (finish_chunk finish_reason model chunk_id ∷ [])))
      ≡ some finish_reason
last_finish-role model chunk_id cs finish_reason =
    last_finish-append (role_chunk model chunk_id ∷ cs) (finish_chunk finish_reason model chunk_id)

-- The stop reasons with which the service ends an answer that calls a tool.
abbrev Announced : String → List Parts → Type 0
Announced stop_reason ps =
    (sent_calls ps ≡ []) ⊎ ((stop_reason == "tool_use" || stop_reason == "max_tokens") ≡ true)

finish_behind-none : (f : String) (ps : List Parts) → sent_calls ps ≡ [] → finish_behind f ps ≡ f
finish_behind-none f [] h = refl
finish_behind-none f (text_parts ts ∷ ps) h = finish_behind-none f ps h
finish_behind-none f (tool_parts id name ts ∷ ps) h = absurd (cc)
finish_behind-none f (no_parts ∷ ps) h = finish_behind-none f ps h

stopped-finish_of :
    (stop_reason : String) (ps : List Parts)
    → Announced stop_reason ps
    → stopped (some stop_reason) (finish_behind "stop" ps) ≡ finish_of stop_reason
stopped-finish_of stop_reason ps announced = elim (Bool-cases (stop_reason == "end_turn")) [
  | inl e ↦
      subst
        (λ (t : String). Announced t ps → stopped (some t) (finish_behind "stop" ps) ≡ finish_of t)
        (sym ((string_eq.agrees_iff stop_reason "end_turn").0 e))
        (λ told. elim told [
          | inl none_called ↦ finish_behind-none "stop" ps none_called
          | inr h ↦ cc
        ])
        announced
  | inr e ↦ elim announced [
    | inl none_called ↦ rw (finish_behind-none "stop" ps none_called) (ground (arith, e))
    | inr h ↦ ground (arith, e, h)
  ]
]

-- However an answer is cut into parts, where its calls have ids and its stop reason tells of them,
-- the chunks of the stream, put together in order, have what the answer at once has: the texts,
-- unless the latter drops them because of a call; the calls one after the other, whose arguments
-- the latter writes anew; and the finish reason. Each call of a chunk has the index 0.
pub stream_chat-chat_answer :
    (dumps : String → String) (id model chunk_id stop_reason : String)
    (created input_tokens output_tokens : ℕ) (ps : List Parts)
    → All Named ps
    → Announced stop_reason ps
    → let chunks = stream_chat model chunk_id (answer_events ps stop_reason) in
      let answer = chat_answer dumps id created (record {
        content = map block_of ps;
        stop_reason = stop_reason;
        model = model;
        input_tokens = input_tokens;
        output_tokens = output_tokens;
      }) in
      (answer.content ≡ (if any_calls answer.tool_calls then none else some (text_of chunks)))
      × (or_default [] answer.tool_calls ≡ map (dumped dumps) (calls_of chunks))
      × All (λ c. c.index ≡ 0) (calls_of chunks)
      × (some answer.finish_reason ≡ last_finish chunks)
unfolding stream_chat chat_answer
stream_chat-chat_answer dumps id model chunk_id stop_reason created input_tokens output_tokens ps
      named announced =
    let y = answer-Yields model chunk_id "stop" stop_reason ps named in
    let run = on_events model chunk_id loop_start (answer_events ps stop_reason) in
    let end = finish_chunk run.0.finish_reason model chunk_id ∷ [] in
    let text : text_of (role_chunk model chunk_id ∷ (run.1 ++ end)) ≡ texts ps =
      nil-append (text_of (run.1 ++ end))
      ∙ text_of-append run.1 end
      ∙ append-nil (text_of run.1)
      ∙ y.collected_text in
    let called : calls_of (role_chunk model chunk_id ∷ (run.1 ++ end)) ≡ sent_calls ps =
      calls_of-append run.1 end ∙ append-nil_list (calls_of run.1) ∙ y.collected_calls in
    let whole_text : content_onto "" (map block_of ps)
        ≡ text_of (role_chunk model chunk_id ∷ (run.1 ++ end)) =
      content_onto-texts "" ps ∙ nil-append (texts ps) ∙ sym text in
    (
      ap
          (λ (t : String).
            if any_calls (calls_onto dumps none (map block_of ps)) then none else some t)
          whole_text,
      calls_onto-none dumps ps
          ∙ sym (map-sent_calls dumps ps)
          ∙ ap (map (dumped dumps)) (sym called),
      subst (All (λ c. c.index ≡ 0)) (sym called) (sent_calls-index ps),
      ap some (
            sym (stopped-finish_of stop_reason ps announced)
            ∙ ap (λ (l : Loop). l.finish_reason) (sym y.state))
          ∙ sym (last_finish-role model chunk_id run.1 run.0.finish_reason),
    )
