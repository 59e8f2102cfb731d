-- ===== src/Tests/Adapted.antt =====
-- The theorems on the adapters at small answers.
use llm_sentinel.Prelude.{◌≡◌, refl, List, [], ◌∷◌, none, some, if◌then◌else◌, map, All, inr}
use llm_sentinel.Guardrails.Request.{or_default, inject_prompt, system_message}
use llm_sentinel.Adapters.Base.{any_calls}
use llm_sentinel.Adapters.Anthropic.{chat_answer, stream_chat, prepare_messages}
use llm_sentinel.Adapters.Collected.{
  Parts, text_parts, tool_parts, no_parts, block_of, answer_events, text_of, calls_of,
}
use llm_sentinel.Adapters.Streamed.{dumped, last_finish, stream_chat-chat_answer}
use llm_sentinel.Adapters.Prompted.{without, prepare_messages-inject_prompt}
use llm_sentinel.Tests.Policies.{talk, injecting}

-- A text in two parts, and a call whose input comes in two parts.
abbrev answer_parts : List Parts
answer_parts =
    text_parts ("Let me " ∷ "look." ∷ [])
    ∷ no_parts
    ∷ tool_parts "t1" "search" ("{\"q\":" ∷ "1}" ∷ [])
    ∷ []

stream_chat-chat_answer_example :
    let chunks = stream_chat "claude" "c1" (answer_events answer_parts "tool_use") in
    let answer =
      chat_answer
        (λ t. t)
        "r1"
        7
        (record {
          content = map block_of answer_parts;
          stop_reason = "tool_use";
          model = "claude";
          input_tokens = 3;
          output_tokens = 5;
        }) in
    (answer.content ≡ (if any_calls answer.tool_calls then none else some (text_of chunks)))
    × (or_default [] answer.tool_calls ≡ map (dumped (λ t. t)) (calls_of chunks))
    × All (λ c. c.index ≡ 0) (calls_of chunks)
    × (some answer.finish_reason ≡ last_finish chunks)
stream_chat-chat_answer_example =
    stream_chat-chat_answer (λ t. t) "r1" "claude" "c1" "tool_use" 7 3 5 answer_parts
      (tt, (tt, (refl, tt))) (inr refl)

-- The system message of the client is sent, and the prompt of the policy is not.
prepare_messages-inject_prompt_example :
    prepare_messages (system_message "Be kind." ∷ talk) ≡ prepare_messages (without "Be kind." talk)
unfolding inject_prompt
prepare_messages-inject_prompt_example =
    prepare_messages-inject_prompt injecting talk (system_message "Be kind." ∷ talk) []
      ("system_prompt_inject:system_prompt_inject" ∷ []) refl refl refl
