-- ===== src/Session/Manager.antt =====
-- class SessionManager of session_manager.py. The text of a session in the store is made and read by
-- pydantic: `dump` and `parse` are arguments. Only the fields that the class itself reads or changes
-- are kept. Times are whole microseconds.
use Prim.Native.String.{◌++◌ as append}
use llm_sentinel.Prelude.{
  ℕ, ◌+◌, ◌-◌, ◌/◌, String, Bool, not, ◌&&◌, ◌||◌, List, [], ◌∷◌, ◌++◌, Option, none, some, leb,
  ltb, nat_beq, ◌==◌, string_eq, nat_eq, if◌then◌else◌, Dict, lookup, insert, erase, contains,
  length, select, map,
}
use llm_sentinel.Breaker.State.{seconds}
use llm_sentinel.Store.Ops.{Store, set_with_ttl, delete_key}

pub record LiveSession : Type 0 where
  pub session_id : String
  pub status : String
  pub started_at : ℕ
  pub output_tokens_so_far : ℕ
  pub elapsed_ms : ℕ

-- `_sessions`, `_ws_clients`, the shared store, and the removals that tasks are asleep over: each the
-- time at which it is due and its session.
pub record Manager : Type 0 where
  pub sessions : Dict String LiveSession
  pub ws_clients : List ℕ
  pub store : Store ℕ
  pub removals : List (ℕ × String)

-- `f"session:{sid}"`
abbrev pub session_key : String → String
session_key sid = append "session:" sid

-- `_broadcast`: a socket whose `send_json` raises is dropped; `sends` says which do not.
unfoldable pub broadcast : (ℕ → Bool) → Manager → Manager
broadcast sends m = record m { ws_clients = select sends m.ws_clients }

abbrev given {ℓ} : {A : Type ℓ} → Option A → A → A
given none old = old
given (some new) old = new

-- A stored text of a session, for ten minutes.
abbrev mirror : (LiveSession → String) → ℕ → String → LiveSession → Store ℕ → Store ℕ
mirror dump now sid session store = set_with_ttl now (session_key sid) (dump session) 600 store

unfoldable pub register : (LiveSession → String) → (ℕ → Bool) → ℕ → String → Manager → Manager
register dump sends now sid m =
    let session : LiveSession = record {
      session_id = sid;
      status = "queued";
      started_at = now;
      output_tokens_so_far = 0;
      elapsed_ms = 0;
    } in
    broadcast sends (record m {
      sessions = insert sid session m.sessions;
      store = mirror dump now sid session m.store;
    })

unfoldable pub update :
    (LiveSession → String)
    → (ℕ → Bool)
    → ℕ
    → String
    → Option String
    → Option ℕ
    → Option ℕ
    → Manager
    → Manager
update dump sends now sid status output_tokens elapsed_ms m = elim (lookup sid m.sessions) [
  | none ↦ m
  | some old ↦
      let session : LiveSession = record old {
        status = given status old.status;
        output_tokens_so_far = given output_tokens old.output_tokens_so_far;
        elapsed_ms = given elapsed_ms old.elapsed_ms;
      } in
      broadcast sends (record m {
        sessions = insert sid session m.sessions;
        store = mirror dump now sid session m.store;
      })
]

-- `close` marks the session, and starts a task that removes it in 30 seconds.
unfoldable pub close : (ℕ → Bool) → ℕ → String → String → Manager → Manager
close sends now sid final_status m = elim (lookup sid m.sessions) [
  | none ↦ m
  | some old ↦
      let session : LiveSession = record old {
        status = final_status;
        elapsed_ms = (now - old.started_at) / 1000;
      } in
      let told = broadcast sends (record m { sessions = insert sid session m.sessions }) in
      record told { removals = (now + seconds 30, sid) ∷ told.removals }
]

-- The end of `_delayed_remove`.
unfoldable remove : String → Manager → Manager
remove sid m = record m {
  sessions = erase sid m.sessions;
  store = (delete_key (session_key sid) m.store).1;
}

-- The tasks whose time has come.
unfoldable run_removals : ℕ → List (ℕ × String) → Manager → Manager
run_removals now [] m = record m { removals = [] }
run_removals now ((due, sid) ∷ tasks) m =
    let rest = run_removals now tasks (if leb due now then remove sid m else m) in
    if leb due now then rest else record rest { removals = (due, sid) ∷ rest.removals }

-- `age > max_age_seconds and session.status not in ("running", "streaming")`
abbrev pub is_stale : ℕ → ℕ → LiveSession → Bool
is_stale now max_age s =
    ltb (s.started_at + seconds max_age) now
    && not (s.status == "running" || s.status == "streaming")

-- The loop that removes the stale sessions, and their texts.
unfoldable pub forget : Dict String LiveSession → Store ℕ → Store ℕ
forget [] store = store
forget ((sid, s) ∷ stale) store = forget stale (delete_key (session_key sid) store).1

unfoldable pub cleanup_stale : ℕ → ℕ → Manager → ℕ × Manager
cleanup_stale now max_age m =
    let stale = select (λ e. is_stale now max_age e.1) m.sessions in
    (
      length stale,
      record m {
        sessions = select (λ e. not (is_stale now max_age e.1)) m.sessions;
        store = forget stale m.store;
      },
    )

-- `subscribe`: the socket stays only if the snapshot reaches it.
unfoldable subscribe : (ℕ → Bool) → ℕ → Manager → Manager
subscribe sends ws m =
    let others = select (λ c. not (nat_beq c ws)) m.ws_clients in
    record m { ws_clients = if sends ws then others ++ (ws ∷ []) else others }

unfoldable unsubscribe : ℕ → Manager → Manager
unsubscribe ws m = record m { ws_clients = select (λ c. not (nat_beq c ws)) m.ws_clients }

-- Newest first: insertion behind what is not older, since `sorted(reverse=True)` is stable too.
unfoldable insert_newest : LiveSession → List LiveSession → List LiveSession
insert_newest s [] = s ∷ []
insert_newest s (t ∷ ts) =
    if ltb t.started_at s.started_at then s ∷ t ∷ ts else t ∷ insert_newest s ts

unfoldable newest_first : List LiveSession → List LiveSession → List LiveSession
newest_first done [] = done
newest_first done (s ∷ ss) = newest_first (insert_newest s done) ss

-- `get_all`: the local sessions, and those of other workers, given by the ids and the texts that the
-- store has for them; a text that `parse` refuses is passed over.
unfoldable merge :
    (String → Option LiveSession)
    → List (String × Option String)
    → Dict String LiveSession
    → Dict String LiveSession
merge parse [] sessions = sessions
merge parse ((sid, raw) ∷ remote) sessions =
    let found : Option LiveSession = elim raw [ none ↦ none | some t ↦ parse t ] in
    merge parse remote (
      if contains sid sessions
      then sessions
      else elim found [ none ↦ sessions | some s ↦ insert sid s sessions ])

unfoldable get_all :
    (String → Option LiveSession) → List (String × Option String) → Manager → List LiveSession
get_all parse remote m = newest_first [] (map (λ e. e.1) (merge parse remote m.sessions))
