-- ===== src/Gateway/Guarded.antt =====
-- What a chat request leaves behind (`_handle_chat` of main.py).
use llm_sentinel.Prelude.{
  ℕ, ◌-◌, ◌/◌, ◌≡◌, ◌⊎◌, refl, sym, ap, ◌∙◌, String, Bool, false, none, some, arith, if◌then◌else◌,
  inl, inr, lookup, lookup-insert_self, lookup-erase, beq_self, string_eq, insert,
}
use llm_sentinel.Prelude.Handler.{Result, ok, raises}
use llm_sentinel.RateLimit.Slots.{register_active_request, unregister_active_request}
use llm_sentinel.Session.Manager.{LiveSession, Manager, register, update, close, broadcast}
use llm_sentinel.Gateway.State.{World, Config, ChatRequest, Answer, cached, completed, streaming}
use llm_sentinel.Gateway.Chat.{verdict_of, handle_chat}
use llm_sentinel.Gateway.Paths.{Outcome, refused, hit, ran, checked_messages, handle_chat-Outcome}
use llm_sentinel.Gateway.Runs.{Run, streamed, answered, failed, run_request-Run, running_sessions}

-- Refused with a status and a detail, with nothing changed but the windows of the limits.
abbrev pub Untouched : World → Result Answer × World → Type 0
Untouched w p =
    (status : ℕ) × (detail : String) × (p.0 ≡ raises status detail)
    × (p.1 ≡ record w { limits = p.1.limits })

Outcome-Untouched :
    {config : Config} {openai_format : Bool} {now : ℕ} {request : ChatRequest} {w : World}
    {p : Result Answer × World}
    → (verdict_of config request w).allowed ≡ false
    → Outcome config openai_format now request w p
    → Untouched w p
Outcome-Untouched no_good (refused status detail x) = (status, detail, refl, refl)
Outcome-Untouched no_good (hit c x y allowed) = absurd (ground (arith, sym no_good ∙ allowed))
Outcome-Untouched no_good (ran x y allowed) = absurd (ground (arith, sym no_good ∙ allowed))

-- A request that the policies reject is refused, and nothing but the windows of the limits has
-- changed: no session, no call, no usage.
pub handle_chat-Untouched :
    (config : Config) (openai_format : Bool) (now : ℕ) (request : ChatRequest) (w : World)
    → (verdict_of config request w).allowed ≡ false
    → Untouched w (handle_chat config openai_format now request w)
handle_chat-Untouched config openai_format now request w no_good =
    Outcome-Untouched no_good (handle_chat-Outcome config openai_format now request w)

-- What is left of a request, by its answer.
abbrev EndedAs : ℕ → ChatRequest → World → World → Result Answer → Type 0
EndedAs now request w w' (ok (cached c)) = (w'.active ≡ w.active) × (w'.sessions ≡ w.sessions)
EndedAs now request w w' (ok (completed c)) =
    (lookup request.request_id w'.active ≡ some now)
    × ((s : LiveSession) × (lookup request.session_id w'.sessions.sessions ≡ some s)
        × (s.status ≡ "done"))
EndedAs now request w w' (ok (streaming call)) = lookup request.request_id w'.active ≡ some now
EndedAs now request w w' (raises status detail) =
    (w'.active ≡ w.active) ⊎ (lookup request.request_id w'.active ≡ none)

abbrev pub Ended : ℕ → ChatRequest → World → Result Answer × World → Type 0
Ended now request w p = (p.1.held ≡ w.held) × EndedAs now request w p.1 p.0

registered :
    (now : ℕ) (request : ChatRequest) (w : World)
    → lookup request.request_id (register_active_request now request.request_id w.active) ≡ some now
unfolding register_active_request
registered now request w = lookup-insert_self request.request_id now w.active

unregistered :
    (now : ℕ) (request : ChatRequest) (w : World)
    → lookup request.request_id (
        unregister_active_request request.request_id
          (register_active_request now request.request_id w.active))
      ≡ none
unfolding unregister_active_request
unregistered now request w =
    let active = register_active_request now request.request_id w.active in
    lookup-erase request.request_id request.request_id active
    ∙ ap (λ b. if b then none else lookup request.request_id active) (beq_self request.request_id)

-- A session that is there has its status after `close`.
close-status :
    (config : Config) (now : ℕ) (sid status : String) (old : LiveSession) (m : Manager)
    → lookup sid m.sessions ≡ some old
    → (s : LiveSession) × (lookup sid (close config.sends now sid status m).sessions ≡ some s)
      × (s.status ≡ status)
unfolding close broadcast
close-status config now sid status old m h =
    let new : LiveSession = record old {
      status = status;
      elapsed_ms = (now - old.started_at) / 1000;
    } in
    (new, ground (arith, h, lookup-insert_self sid new m.sessions), refl)

running_sessions-there :
    (config : Config) (now : ℕ) (request : ChatRequest) (m : Manager)
    → (s : LiveSession) × (lookup request.session_id
          (running_sessions config now request m).sessions
        ≡ some s)
unfolding register update broadcast
running_sessions-there config now request m =
    let sid = request.session_id in
    let old : LiveSession = record {
      session_id = sid;
      status = "queued";
      started_at = now;
      output_tokens_so_far = 0;
      elapsed_ms = 0;
    } in
    let new : LiveSession = record old { status = "running" } in
    let there = lookup-insert_self sid old m.sessions in
    (new, ground (arith, there, lookup-insert_self sid new (insert sid old m.sessions)))

Run-Ended :
    {config : Config} {openai_format : Bool} {now : ℕ} {request : ChatRequest} {v : World}
    (w : World) {p : Result Answer × World}
    → v.held ≡ w.held
    → Run config openai_format now request (checked_messages config request w) v p
    → Ended now request w p
Run-Ended {config} {openai_format} {now} {request} {v} w same (streamed h) =
    (omega (arith, same), registered now request v)
Run-Ended {config} {openai_format} {now} {request} {v} w same
      (answered h c proxy cache usage clients) =
    let (s, there) = running_sessions-there config now request v.sessions in
    (
      omega (arith, same),
      (
        registered now request v,
        close-status config now request.session_id "done" s
            (running_sessions config now request v.sessions) there,
      ),
    )
Run-Ended {config} {openai_format} {now} {request} {v} w same (failed h status proxy) =
    (omega (arith, same), inr (unregistered now request v))

Outcome-Ended :
    {config : Config} {openai_format : Bool} {now : ℕ} {request : ChatRequest} {w : World}
    {p : Result Answer × World}
    → Outcome config openai_format now request w p
    → Ended now request w p
Outcome-Ended (refused status detail x) = (refl, inl refl)
Outcome-Ended (hit c x y allowed) = (refl, (refl, refl))
Outcome-Ended {config} {openai_format} {now} {request} {w} (ran x y allowed) = Run-Ended w refl (
    run_request-Run config openai_format now request (checked_messages config request w)
      (record w { limits = x; cache = y }))

-- When a request is answered it has taken no slot that it has not given back. One that the cache
-- answers has left active requests and sessions as they were; one that ends in an error has left
-- the active requests as they were, or is none of them; one that is streamed is an active request;
-- one that is completed has its session done, and is still registered as an active request.
pub handle_chat-Ended :
    (config : Config) (openai_format : Bool) (now : ℕ) (request : ChatRequest) (w : World)
    → Ended now request w (handle_chat config openai_format now request w)
handle_chat-Ended config openai_format now request w =
    Outcome-Ended (handle_chat-Outcome config openai_format now request w)
