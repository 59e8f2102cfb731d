-- ===== src/Gateway/Body.antt =====
-- The body of a streamed response: `sse_generator` in `_handle_chat` of main.py. What it yields is left
-- out, and the clock is read once.
use llm_sentinel.Prelude.{
  ℕ, ◌+◌, ◌-◌, ◌/◌, String, Bool, List, [], ◌∷◌, ◌++◌, none, some, ◌==◌, string_eq, if◌then◌else◌,
}
use Prim.Native.String.{len}
use llm_sentinel.Prelude.Handler.{ok, Handler, pure, ◌>>=◌, ◌>>◌}
use llm_sentinel.RateLimit.Slots.{unregister_active_request}
use llm_sentinel.Session.Manager.{Manager, update, close}
use llm_sentinel.Proxy.Stream.{stream_with_retry}
use llm_sentinel.Gateway.State.{
  Call, World, Config, ChatRequest, Answer, cached, completed, streaming, on_sessions, change,
}
use llm_sentinel.Gateway.Chat.{handle_chat}

-- The output tokens of the chunks that have a content, as the session shows them.
unfoldable pub count_chunks : Config → ℕ → ℕ → String → ℕ → List String → Manager → Manager
count_chunks config start now sid total_output [] m = m
count_chunks config start now sid total_output (chunk ∷ chunks) m =
    let content = config.content_of chunk in
    let silent = content == "" in
    let total = if silent then total_output else total_output + len content / 4 + 1 in
    let shown =
      if silent
      then m
      else update config.dump_session config.sends now sid none (some total)
          (some ((now - start) / 1000)) m in
    count_chunks config start now sid total chunks shown

-- The call of `stream_chat_completions`, with its record.
unfoldable call_stream : Config → Call → Handler World (List String)
call_stream config call w =
    let s = stream_with_retry config.streams config.retry call.provider w.proxy in
    (ok s.passed, record w { proxy = s.world; calls = w.calls ++ (call ∷ []) })

-- The `finally`, however the stream ends.
unfoldable finish_stream : Config → ℕ → ChatRequest → Handler World (Unit {0})
finish_stream config now request = do
  on_sessions (close config.sends now request.session_id "done")
  change (λ w. record w { active = unregister_active_request request.request_id w.active })
  change (λ w. record w { stats = record w.stats { total_requests = w.stats.total_requests + 1 } })

-- An exception of the stream is caught, and told to the client.
unfoldable pub sse_generator : Config → ℕ → ℕ → ChatRequest → Call → Handler World (Unit {0})
unfolding call_stream finish_stream
sse_generator config start now request call = do
  passed ← call_stream config call
  on_sessions (count_chunks config start now request.session_id 0 passed)
  finish_stream config now request

-- A streamed response is sent after the handler has returned it.
abbrev pub send_body : Config → ℕ → ℕ → ChatRequest → Answer → Handler World Answer
send_body config start now request (cached c) = pure (cached c)
send_body config start now request (completed c) = pure (completed c)
send_body config start now request (streaming call) = do
  sse_generator config start now request call
  pure (streaming call)

unfoldable pub respond : Config → Bool → ℕ → ℕ → ChatRequest → Handler World Answer
respond config openai_format start now request = do
  answer ← handle_chat config openai_format start request
  send_body config start now request answer
