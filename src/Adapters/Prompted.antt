-- ===== src/Adapters/Prompted.antt =====
-- What the policies' prompts become of in the adapters of Anthropic and Bedrock, which take a system
-- prompt apart from the messages.
use llm_sentinel.Prelude.{
  ◌≡◌, refl, sym, ap, ◌∙◌, String, Bool, true, false, not, ◌||◌, List, [], ◌∷◌, ◌++◌, Option, none,
  some, arith, ◌==◌, string_eq, if◌then◌else◌, map, All, select, Bool-cases, inl, inr,
}
use mathlib.Core.List.{append_assoc, append-nil}
use llm_sentinel.Proxy.Tokens.{Content, plain_text, Message, is_system}
use llm_sentinel.Guardrails.Policy.{Policy, config_of}
use llm_sentinel.Guardrails.Request.{
  continues, or_default, is_prompt, inject_prompt, system_message,
}
use llm_sentinel.Guardrails.Prompts.{OneFirst, systems}
use llm_sentinel.Adapters.Anthropic.{sent, prepare_onto, prepare_messages}

-- The content of the last system message, or what there was.
abbrev last_system : Option Content → List Message → Option Content
last_system system [] = system
last_system system (m ∷ ms) = last_system (if is_system m then some m.content else system) ms

abbrev any_system : List Message → Bool
any_system [] = false
any_system (m ∷ ms) = is_system m || any_system ms

prepare_onto_lem :
    (system : Option Content) (converted ms : List Message)
    → prepare_onto system converted ms
      ≡ (last_system system ms, converted ++ map sent (select (λ m. not (is_system m)) ms))
unfolding prepare_onto
prepare_onto_lem system converted [] =
    ap (λ (cs : List Message). (system, cs)) (sym (append-nil converted))
prepare_onto_lem system converted (m ∷ ms) = elim (Bool-cases (is_system m)) [
  | inl h ↦ rw h (prepare_onto_lem (some m.content) converted ms)
  | inr h ↦ rw h (
      prepare_onto_lem system (converted ++ (sent m ∷ [])) ms
      ∙ ap (λ (cs : List Message). (last_system system ms, cs))
          (append_assoc converted (sent m ∷ []) (map sent (select (λ n. not (is_system n)) ms))))
]

-- The messages that are sent are those that are no system messages, in their order, and the system
-- prompt that is sent is the content of the last system message, if there is one: no other is sent.
prepare_messages_lem :
    (ms : List Message)
    → prepare_messages ms ≡ (last_system none ms, map sent (select (λ m. not (is_system m)) ms))
unfolding prepare_messages
prepare_messages_lem ms = prepare_onto_lem none [] ms

last_system-any :
    (a b : Option Content) (ms : List Message)
    → any_system ms ≡ true
    → last_system a ms ≡ last_system b ms
last_system-any a b [] h = cc
last_system-any a b (m ∷ ms) h = elim (Bool-cases (is_system m)) [
  | inl e ↦ rw e refl
  | inr e ↦ rw e (last_system-any a b ms (ground (arith, e, h)))
]

-- The messages without the system messages that have the prompt's text.
abbrev pub without : String → List Message → List Message
without prompt ms = select (λ m. not (is_prompt prompt m)) ms

-- Where a policy injects a prompt and the messages hold a system message with another text, Anthropic
-- and Bedrock are sent what they would be sent without the prompt.
pub prepare_messages-inject_prompt :
    (p : Policy) (ms ms' : List Message) (applied applied' : List String)
    → (or_default "" (config_of p).prompt == "") ≡ false
    → any_system (without (or_default "" (config_of p).prompt) ms) ≡ true
    → inject_prompt p ms applied ≡ continues ms' applied'
    → prepare_messages ms' ≡ prepare_messages (without (or_default "" (config_of p).prompt) ms)
unfolding inject_prompt
prepare_messages-inject_prompt p ms ms' applied applied' given other e =
    let prompt = or_default "" (config_of p).prompt in
    let kept = without prompt ms in
    let same : system_message prompt ∷ kept ≡ ms' = ground (arith, given, e) in
    ap prepare_messages (sym same)
    ∙ prepare_messages_lem (system_message prompt ∷ kept)
    ∙ ap (λ (system : Option Content). (system, map sent (select (λ m. not (is_system m)) kept)))
        (last_system-any (some (plain_text prompt)) none kept other)
    ∙ sym (prepare_messages_lem kept)

last_system-none :
    (system : Option Content) (ms : List Message)
    → All (λ b. b ≡ false) (systems ms)
    → last_system system ms ≡ system
last_system-none system [] h = refl
last_system-none system (m ∷ ms) h = rw h.0 (last_system-none system ms h.1)

select-none :
    (ms : List Message)
    → All (λ b. b ≡ false) (systems ms)
    → select (λ m. not (is_system m)) ms ≡ ms
select-none [] h = refl
select-none (m ∷ ms) h = rw h.0 (ap (λ (ns : List Message). m ∷ ns) (select-none ms h.1))

prepare_messages-OneFirst :
    (ms : List Message)
    → OneFirst (systems ms)
    → (m : Message) × (rest : List Message) × (ms ≡ m ∷ rest)
      × (prepare_messages ms ≡ (some m.content, map sent rest))
prepare_messages-OneFirst [] h = absurd h
prepare_messages-OneFirst (m ∷ ms) h = (
  m,
  ms,
  refl,
  prepare_messages_lem (m ∷ ms)
      ∙ rw h.0 (
          ap (λ (r : Option Content × List Message). (r.0, map sent r.1))
            (ground (arith, last_system-none (some m.content) ms h.1, select-none ms h.1))),
)
