-- ===== src/Session/Laws.antt =====
-- What the cleanup of session_manager.py leaves.
use package.text.Mathlib.TextLemmas.{append_cancel_left}
use llm_sentinel.Prelude.{
  ℕ, ◌+◌, ◌≤◌, ◌<◌, ◌≡◌, ◌≢◌, ◌⊎◌, inl, inr, refl, ◌∙◌, subst, String, Bool, true, false, not, [],
  ◌∷◌, none, some, ◌==◌, string_eq, Dict, lookup, length, select, Bool-cases, nat_eq, arith,
}
use llm_sentinel.Breaker.State.{seconds}
use llm_sentinel.Store.Ops.{Store, delete_key}
use llm_sentinel.Store.Laws.{delete_key_self}
use llm_sentinel.Store.Others.{delete_key-other}
use llm_sentinel.Session.Manager.{
  LiveSession, Manager, session_key, is_stale, forget, cleanup_stale,
}

-- The id stands in the dict no more than once, as it does in any dict of Python.
abbrev pub Once : String → Dict String LiveSession → Type 0
Once sid d = length (select (λ e. e.0 == sid) d) ≤ 1

-- Selection by the value leaves an entry that passes.
lookup-select :
    (p : LiveSession → Bool) (sid : String) (v : LiveSession) (d : Dict String LiveSession)
    → lookup sid d ≡ some v
    → p v ≡ true
    → lookup sid (select (λ e. p e.1) d) ≡ some v
lookup-select p sid v [] h q = cc
lookup-select p sid v ((k, w) ∷ d) h q = ground (arith, lookup-select p sid v d)

lookup-select-absent :
    (p : LiveSession → Bool) (sid : String) (d : Dict String LiveSession)
    → length (select (λ e. e.0 == sid) d) ≤ 0
    → lookup sid (select (λ e. p e.1) d) ≡ none
lookup-select-absent p sid [] h = refl
lookup-select-absent p sid ((k, w) ∷ d) h = ground (arith, h, lookup-select-absent p sid d)

-- It leaves no entry of an id whose value does not pass.
lookup-select-none :
    (p : LiveSession → Bool) (sid : String) (v : LiveSession) (d : Dict String LiveSession)
    → lookup sid d ≡ some v
    → p v ≡ false
    → Once sid d
    → lookup sid (select (λ e. p e.1) d) ≡ none
lookup-select-none p sid v [] h q once = refl
lookup-select-none p sid v ((k, w) ∷ d) h q once =
    ground (arith, h, q, once, lookup-select-none p sid v d, lookup-select-absent p sid d)

length-split :
    (p : LiveSession → Bool) (d : Dict String LiveSession)
    → length d ≡ length (select (λ e. p e.1) d) + length (select (λ e. not (p e.1)) d)
length-split p [] = omega arith
length-split p ((k, w) ∷ d) = ground (arith, length-split p d)

session_key-ne : (k sid : String) → (k == sid) ≡ false → (session_key k == session_key sid) ≡ false
session_key-ne k sid h = elim (Bool-cases (session_key k == session_key sid)) [
  | inl e ↦
      let same : k ≡ sid = append_cancel_left "session:" k sid ((string_eq.agrees_iff _ _).0 e) in
      absurd (ground (arith, h, (string_eq.agrees_iff k sid).1 same))
  | inr e ↦ e
]

module _ (sid : String) where
  forget-none :
      (d : Dict String LiveSession) (store : Store ℕ)
      → lookup (session_key sid) store ≡ none
      → lookup (session_key sid) (forget d store) ≡ none
  unfolding forget
  forget-none [] store h = h
  forget-none ((k, w) ∷ d) store h = elim (Bool-cases (k == sid)) [
    | inl e ↦
        let gone : lookup (session_key sid) (delete_key (session_key k) store).1 ≡ none =
          subst (λ (j : String). lookup (session_key j) (delete_key (session_key k) store).1 ≡ none)
            ((string_eq.agrees_iff k sid).0 e) (delete_key_self (session_key k) store) in
        forget-none d (delete_key (session_key k) store).1 gone
    | inr e ↦
        forget-none d (delete_key (session_key k) store).1
          (delete_key-other (session_key k) (session_key sid) (session_key-ne k sid e) store ∙ h)
  ]

  -- The text of a session that is forgotten is removed, and that of another one stays.
  forget-there :
      (v : LiveSession) (d : Dict String LiveSession) (store : Store ℕ)
      → lookup sid d ≡ some v
      → lookup (session_key sid) (forget d store) ≡ none
  unfolding forget
  forget-there v [] store h = absurd (cc)
  forget-there v ((k, w) ∷ d) store h = elim (Bool-cases (k == sid)) [
    | inl e ↦
        let gone : lookup (session_key sid) (delete_key (session_key k) store).1 ≡ none =
          subst (λ (j : String). lookup (session_key j) (delete_key (session_key k) store).1 ≡ none)
            ((string_eq.agrees_iff k sid).0 e) (delete_key_self (session_key k) store) in
        forget-none d (delete_key (session_key k) store).1 gone
    | inr e ↦ forget-there v d (delete_key (session_key k) store).1 (rw e at h)
  ]

  forget-absent :
      (d : Dict String LiveSession) (store : Store ℕ)
      → lookup sid d ≡ none
      → lookup (session_key sid) (forget d store) ≡ lookup (session_key sid) store
  unfolding forget
  forget-absent [] store h = refl
  forget-absent ((k, w) ∷ d) store h = elim (Bool-cases (k == sid)) [
    | inl e ↦ absurd (ground (arith, h, e))
    | inr e ↦
        forget-absent d (delete_key (session_key k) store).1 (rw e at h)
        ∙ delete_key-other (session_key k) (session_key sid) (session_key-ne k sid e) store
  ]

-- A session that the cleanup spares, with the text that the store has of it, and one that it removes.
abbrev pub Spared : ℕ → ℕ → String → LiveSession → Manager → Manager → Type 0
Spared now max_age sid s m m' =
    ((s.status ≡ "running") ⊎ (s.status ≡ "streaming") ⊎ (now ≤ s.started_at + seconds max_age))
    × (lookup sid m'.sessions ≡ some s)
    × (lookup (session_key sid) m'.store ≡ lookup (session_key sid) m.store)

abbrev pub Removed : ℕ → ℕ → String → LiveSession → Manager → Type 0
Removed now max_age sid s m' =
    ((s.status ≢ "running") × (s.status ≢ "streaming") × (s.started_at + seconds max_age < now))
    × (lookup sid m'.sessions ≡ none)
    × (lookup (session_key sid) m'.store ≡ none)

-- Cleanup keeps a session, and its text in the store, where that is running, streaming or not older
-- than the limit, and otherwise removes both; it reports the number of sessions that it removed.
pub cleanup_stale-keeps :
    (now max_age : ℕ) (sid : String) (s : LiveSession) (m : Manager)
    → lookup sid m.sessions ≡ some s
    → Once sid m.sessions
    → let (dropped, m') = cleanup_stale now max_age m in
      (Spared now max_age sid s m m' ⊎ Removed now max_age sid s m')
      × (length m.sessions ≡ dropped + length m'.sessions)
unfolding cleanup_stale
cleanup_stale-keeps now max_age sid s m there once =
    let stale : LiveSession → Bool = is_stale now max_age in
    let old = select (λ e. stale e.1) m.sessions in
    let running = string_eq.agrees_iff s.status "running" in
    let streaming = string_eq.agrees_iff s.status "streaming" in
    (
      elim (Bool-cases (is_stale now max_age s)) [
        | inl is_old ↦ inr (
          (
            λ r. absurd (ground (arith, is_old, running.1 r)),
            λ t. absurd (ground (arith, is_old, streaming.1 t)),
            ground (arith, is_old),
          ),
          lookup-select-none (λ t. not (stale t)) sid s m.sessions there (ground (arith, is_old))
              once,
          forget-there sid s old m.store (lookup-select stale sid s m.sessions there is_old),
        )
        | inr is_kept ↦ inl (
          elim (Bool-cases (s.status == "running")) [
            | inl r ↦ inl (running.0 r)
            | inr not_running ↦ elim (Bool-cases (s.status == "streaming")) [
              | inl t ↦ inr (inl (streaming.0 t))
              | inr not_streaming ↦ inr (inr (ground (arith, is_kept, not_running, not_streaming)))
            ]
          ],
          lookup-select (λ t. not (stale t)) sid s m.sessions there (ground (arith, is_kept)),
          forget-absent sid old m.store
              (lookup-select-none stale sid s m.sessions there is_kept once),
        )
      ],
      length-split stale m.sessions,
    )
