-- ===== src/Gateway/Asked.antt =====
-- What LLMProxy is asked to send for a chat request, plain or streamed (`_handle_chat` of main.py).
use llm_sentinel.Prelude.{
  ℕ, ◌≡◌, ◌⊎◌, refl, ap, Bool, true, false, ◌||◌, Bool-cases, Option-cases, sym, List, [], ◌∷◌,
  ◌++◌, none, some, ◌==◌, string_eq, if◌then◌else◌, inl, inr,
}
use llm_sentinel.Prelude.Handler.{Result, continue}
use llm_sentinel.Proxy.Tokens.{Message}
use llm_sentinel.Guardrails.Request.{system_message}
use llm_sentinel.Gateway.State.{Call, World, Config, ChatRequest, Answer}
use llm_sentinel.Gateway.Chat.{verdict_of, call_of}
use llm_sentinel.Gateway.Body.{sse_generator, send_body, respond}
use llm_sentinel.Gateway.Paths.{Outcome, refused, hit, ran, checked_messages, handle_chat-Outcome}
use llm_sentinel.Gateway.Runs.{Run, streamed, answered, failed, run_request-Run}

-- The `system` of a native request that is not streamed, as it was sent.
abbrev pub own_system : Bool → ChatRequest → List Message
own_system openai_format request =
    if openai_format || request.stream
    then []
    else elim request.system [ none ↦ [] | some s ↦ if s == "" then [] else system_message s ∷ [] ]

-- The calls that a request adds: none, or one, and then the policies allow the request.
abbrev pub AsksChecked : Config → Bool → ChatRequest → World → World → Type 0
AsksChecked config openai_format request w w' =
    (w'.calls ≡ w.calls)
    ⊎ (((verdict_of config request w).allowed ≡ true)
        × ((call : Call) × (w'.calls ≡ w.calls ++ (call ∷ []))
            × (call.messages
                ≡ own_system openai_format request ++ checked_messages config request w)))

call_of-messages :
    (config : Config) (openai_format : Bool) (request : ChatRequest) (messages : List Message)
    → request.stream ≡ false
    → (call_of config openai_format request messages).messages
      ≡ own_system openai_format request ++ messages
call_of-messages config true request messages plain = refl
call_of-messages config false request messages plain = elim (Option-cases request.system) [
  | inl none_given ↦ rw (plain, none_given) refl
  | inr (s, given) ↦ elim (Bool-cases (s == "")) [
    | inl empty ↦ rw (plain, given, empty) refl
    | inr full ↦ rw (plain, given, full) refl
  ]
]

own_system-stream :
    (openai_format : Bool) (request : ChatRequest)
    → request.stream ≡ true
    → own_system openai_format request ≡ []
own_system-stream true request h = refl
own_system-stream false request h = rw h refl

Run-asks :
    {config : Config} {openai_format : Bool} {start : ℕ} {request : ChatRequest} (now : ℕ)
    (w : World) {v : World} {p : Result Answer × World}
    → (verdict_of config request w).allowed ≡ true
    → v.calls ≡ w.calls
    → Run config openai_format start request (checked_messages config request w) v p
    → AsksChecked config openai_format request w (continue (send_body config start now request) p).1
unfolding sse_generator
Run-asks {config} {openai_format} {start} {request} now w allowed same (streamed h) =
    let messages = checked_messages config request w in
    inr (
      allowed,
      (
        call_of config true request messages,
        ap (λ (calls : List Call). calls ++ (call_of config true request messages ∷ [])) same,
        ap (λ (front : List Message). front ++ messages)
            (sym (own_system-stream openai_format request h)),
      ),
    )
Run-asks {config} {openai_format} {start} {request} now w allowed same
      (answered h c proxy cache usage clients) =
    let messages = checked_messages config request w in
    inr (
      allowed,
      (
        call_of config openai_format request messages,
        ap (λ (calls : List Call). calls ++ (call_of config openai_format request messages ∷ []))
            same,
        call_of-messages config openai_format request messages h,
      ),
    )
Run-asks {config} {openai_format} {start} {request} now w allowed same (failed h status proxy) =
    let messages = checked_messages config request w in
    inr (
      allowed,
      (
        call_of config openai_format request messages,
        ap (λ (calls : List Call). calls ++ (call_of config openai_format request messages ∷ []))
            same,
        call_of-messages config openai_format request messages h,
      ),
    )

Outcome-asks :
    {config : Config} {openai_format : Bool} {start : ℕ} {request : ChatRequest} {w : World}
    {p : Result Answer × World} (now : ℕ)
    → Outcome config openai_format start request w p
    → AsksChecked config openai_format request w (continue (send_body config start now request) p).1
Outcome-asks now (refused status detail x) = inl refl
Outcome-asks now (hit c x y allowed) = inl refl
Outcome-asks {config} {openai_format} {start} {request} {w} now (ran x y allowed) =
    Run-asks now w allowed refl (
      run_request-Run config openai_format start request (checked_messages config request w)
        (record w { limits = x; cache = y }))

-- From the request to the end of its response, streamed or not, LLMProxy is asked for nothing, or
-- once: the policies then allow the request, and what it is given to send is what they leave of the
-- masked messages, truncated, behind the `system` of a native request that is not streamed, which
-- neither masking nor policies have seen.
pub respond-calls :
    (config : Config) (openai_format : Bool) (start now : ℕ) (request : ChatRequest) (w : World)
    → AsksChecked config openai_format request w
        (respond config openai_format start now request w).1
unfolding respond
respond-calls config openai_format start now request w =
    Outcome-asks now (handle_chat-Outcome config openai_format start request w)
