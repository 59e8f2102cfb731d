-- ===== src/Proxy/Truncate.antt =====
-- What truncate_messages of llm_proxy.py keeps.
use mathlib.Core.List.{append_assoc, append-nil, reverse-cons, reverse-append, reverse-reverse}
use llm_sentinel.Prelude.{
  ℕ, ◌+◌, ◌-◌, ◌≤◌, ◌<◌, ◌≡◌, ◌⊎◌, inl, inr, refl, sym, ap, ◌∙◌, subst, true, not, List, [], ◌∷◌,
  ◌++◌, arith, leb, ltb, if◌then◌else◌, select, reverse, Bool-cases,
}
use llm_sentinel.Proxy.Tokens.{
  Encoder, Message, message_tokens, estimate_messages_tokens, is_system, keep_newest,
  truncate_messages,
}

estimate-append :
    (enc : Encoder) (xs ys : List Message)
    → estimate_messages_tokens enc (xs ++ ys)
      ≡ estimate_messages_tokens enc xs + estimate_messages_tokens enc ys
unfolding estimate_messages_tokens
estimate-append enc [] ys = omega arith
estimate-append enc (x ∷ xs) ys = omega (arith, estimate-append enc xs ys)

-- A split of the messages of the loop, newest first: those it keeps, and those it drops, the newest
-- of which would not have fitted.
abbrev Splits : Encoder → ℕ → ℕ → List Message → List Message → List Message → Type 0
Splits enc budget used newest kept result =
    (taken : List Message) × (dropped : List Message) × (newest ≡ taken ++ dropped)
    × (result ≡ reverse taken ++ kept)
    × (used + estimate_messages_tokens enc taken ≤ budget)
    × ((dropped ≡ [])
        ⊎ ((m : Message) × (ms : List Message) × (dropped ≡ m ∷ ms)
            × (budget < used + estimate_messages_tokens enc taken + message_tokens enc m.content)))

keep_newest-Splits :
    (enc : Encoder) (budget used : ℕ) (newest kept : List Message)
    → used ≤ budget
    → Splits enc budget used newest kept (keep_newest enc budget used newest kept)
unfolding keep_newest estimate_messages_tokens
keep_newest-Splits enc budget used [] kept h = ([], [], refl, refl, omega arith, inl refl)
keep_newest-Splits enc budget used (m ∷ older) kept h =
    let cost = message_tokens enc m.content in
    let rest = keep_newest enc budget (used + cost) older (m ∷ kept) in
    elim (Bool-cases (ltb budget (used + cost))) [
      | inl t ↦
          subst (λ b. Splits enc budget used (m ∷ older) kept (if b then kept else rest)) (sym t)
            ([], m ∷ older, refl, refl, omega arith, inr (m, older, refl, ground arith))
      | inr t ↦
          let (taken, dropped, e, r, fits, next) =
            keep_newest-Splits enc budget (used + cost) older (m ∷ kept) (ground arith) in
          subst (λ b. Splits enc budget used (m ∷ older) kept (if b then kept else rest)) (sym t)
            (
              m ∷ taken,
              dropped,
              ap (◌∷◌ m) e,
              r
                  ∙ sym (
                      ap (λ (l : List Message). l ++ kept) (reverse-cons m taken)
                      ∙ append_assoc (reverse taken) (m ∷ []) kept),
              omega arith,
              elim next [ inl n ↦ inl n | inr (x, xs, d, over) ↦ inr (x, xs, d, omega arith) ],
            )
    ]

estimate-reverse :
    (enc : Encoder) (xs : List Message)
    → estimate_messages_tokens enc (reverse xs) ≡ estimate_messages_tokens enc xs
unfolding estimate_messages_tokens
estimate-reverse enc [] = refl
estimate-reverse enc (x ∷ xs) =
    ap (estimate_messages_tokens enc) (reverse-cons x xs)
    ∙ omega (arith, estimate-append enc (reverse xs) (x ∷ []), estimate-reverse enc xs)

abbrev pub system_of : List Message → List Message
system_of = select is_system

abbrev pub others_of : List Message → List Message
others_of = select (λ m. not (is_system m))

truncated :
    (enc : Encoder) (max_tokens : ℕ) (messages : List Message)
    → max_tokens < estimate_messages_tokens enc messages
    → estimate_messages_tokens enc (system_of messages) < max_tokens
    → (truncate_messages enc max_tokens messages).0
      ≡ system_of messages
        ++ keep_newest enc
            (max_tokens - estimate_messages_tokens enc (system_of messages))
            0
            (reverse (others_of messages))
            []
unfolding truncate_messages
truncated enc max_tokens messages big room = ground arith

-- Messages over the limit, whose system messages leave room, keep all system messages and the newest
-- of the others: what is kept fits, what is dropped is older, and the next older one did not fit.
pub truncate_messages_newest :
    (enc : Encoder) (max_tokens : ℕ) (messages : List Message)
    → max_tokens < estimate_messages_tokens enc messages
    → estimate_messages_tokens enc (system_of messages) < max_tokens
    → (dropped : List Message) × (kept : List Message) × (others_of messages ≡ dropped ++ kept)
      × ((truncate_messages enc max_tokens messages).0 ≡ system_of messages ++ kept)
      × (estimate_messages_tokens enc (system_of messages ++ kept) ≤ max_tokens)
      × ((dropped ≡ [])
          ⊎ ((older : List Message) × (m : Message) × (dropped ≡ older ++ (m ∷ []))
              × (max_tokens
                  < estimate_messages_tokens enc (system_of messages ++ kept)
                    + message_tokens enc m.content)))
truncate_messages_newest enc max_tokens messages big room =
    let system_tokens = estimate_messages_tokens enc (system_of messages) in
    let (taken, left, e, r, fits, next) =
      keep_newest-Splits enc (max_tokens - system_tokens) 0 (reverse (others_of messages)) []
        (omega arith) in
    let total : estimate_messages_tokens enc (system_of messages ++ reverse taken)
        ≡ system_tokens + estimate_messages_tokens enc taken =
      estimate-append enc (system_of messages) (reverse taken)
      ∙ ap (◌+◌ system_tokens) (estimate-reverse enc taken) in
    (
      reverse left,
      reverse taken,
      sym (reverse-reverse (others_of messages)) ∙ ap reverse e ∙ reverse-append taken left,
      truncated enc max_tokens messages big room
          ∙ ap (◌++◌ (system_of messages)) (r ∙ append-nil (reverse taken)),
      omega arith,
      elim next [
        | inl n ↦ inl (ap reverse n)
        | inr (m, ms, d, over) ↦ inr (reverse ms, m, ap reverse d ∙ reverse-cons m ms, omega arith)
      ],
    )

fits_lem :
    (enc : Encoder) (max_tokens : ℕ) (messages : List Message)
    → estimate_messages_tokens enc messages ≤ max_tokens
    → estimate_messages_tokens enc (truncate_messages enc max_tokens messages).0 ≤ max_tokens
unfolding truncate_messages
fits_lem enc max_tokens messages h =
    let t : leb (estimate_messages_tokens enc messages) max_tokens ≡ true = ground arith in
    subst (λ (l : List Message). estimate_messages_tokens enc l ≤ max_tokens) (ground arith) h

over_lem :
    (enc : Encoder) (max_tokens : ℕ) (messages : List Message)
    → max_tokens < estimate_messages_tokens enc messages
    → max_tokens ≤ estimate_messages_tokens enc (system_of messages)
    → (truncate_messages enc max_tokens messages).0 ≡ system_of messages
unfolding truncate_messages
over_lem enc max_tokens messages big over = ground arith

-- Truncation leaves no more tokens than the limit, or it leaves exactly the system messages.
truncate_messages_bound :
    (enc : Encoder) (max_tokens : ℕ) (messages : List Message)
    → let r = (truncate_messages enc max_tokens messages).0 in
      (estimate_messages_tokens enc r ≤ max_tokens) ⊎ (r ≡ system_of messages)
truncate_messages_bound enc max_tokens messages =
    elim (Bool-cases (leb (estimate_messages_tokens enc messages) max_tokens)) [
      | inl fits ↦ inl (fits_lem enc max_tokens messages (ground arith))
      | inr big ↦
          elim (Bool-cases (leb max_tokens (estimate_messages_tokens enc (system_of messages)))) [
            | inl over ↦ inr (over_lem enc max_tokens messages (ground arith) (ground arith))
            | inr room ↦
                let (dropped, kept, e, r, fits, next) =
                  truncate_messages_newest enc max_tokens messages (ground arith) (ground arith) in
                inl (subst (λ l. estimate_messages_tokens enc l ≤ max_tokens) (sym r) fits)
          ]
    ]
