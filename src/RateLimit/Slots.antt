-- ===== src/RateLimit/Slots.antt =====
-- The concurrency slots of a client (`acquire_client_slot` of rate_limiter.py), the active requests
-- and the queue times of its dashboard.
use text.Mathlib.TextEquality.{eq_iff}
use llm_sentinel.Prelude.{
  ℕ, suc, ◌+◌, ◌-◌, ◌≤◌, ◌<◌, ◌≡◌, ap, subst, max, String, false, List, [], ◌∷◌, ◌++◌, Option, none,
  some, arith, leb, ltb, ◌==◌, string_eq, beq_self, if◌then◌else◌, Dict, Bool-cases, inl, inr,
  insert, erase, lookup_or, lookup-insert, length,
}

-- The body under the lock before the `yield`; `none` is RateLimitExceeded.
unfoldable pub acquire_client_slot : String → ℕ → Dict String ℕ → Option (Dict String ℕ)
acquire_client_slot client_id max_concurrent counters =
    let current : ℕ = lookup_or client_id 0 counters in
    if leb max_concurrent current then none else some (insert client_id (current + 1) counters)

-- The body of its `finally`.
unfoldable pub release_client_slot : String → Dict String ℕ → Dict String ℕ
release_client_slot client_id counters =
    insert client_id (max (lookup_or client_id 1 counters - 1) 0) counters

-- The counters, with the clients of the requests that run between `yield` and `finally`.
pub record Slots : Type 0 where
  pub counters : Dict String ℕ
  pub running : List String

abbrev pub count : String → List String → ℕ
count c [] = 0
count c (x ∷ xs) = if x == c then suc (count c xs) else count c xs

-- Requests of any clients take and give back slots in any interleaving.
pub data Step (limit : String → ℕ) (s : Slots) : Slots → Type 0 where
  enter :
      (client : String) {counters : Dict String ℕ}
      → acquire_client_slot client (limit client) s.counters ≡ some counters
      → Step limit s (record { counters = counters; running = client ∷ s.running })
  leave :
      (client : String) (before behind : List String)
      → s.running ≡ before ++ (client ∷ behind)
      → Step limit s
          (record { counters = release_client_slot client s.counters; running = before ++ behind })

pub data Reach (limit : String → ℕ) (s : Slots) : Slots → Type 0 where
  here : Reach limit s s
  next : {t u : Slots} → Reach limit s t → Step limit t u → Reach limit s u

-- Every client's counter is the number of its running requests, and that is within its limit.
abbrev pub Exact : (String → ℕ) → Slots → Type 0
Exact limit s =
    (c : String) → (lookup_or c 0 s.counters ≡ count c s.running) × (count c s.running ≤ limit c)

count-append : (c : String) (xs ys : List String) → count c (xs ++ ys) ≡ count c xs + count c ys
count-append c [] ys = omega arith
count-append c (x ∷ xs) ys = ground (arith, count-append c xs ys)

acquire_client_slot_lem :
    (client : String) (n : ℕ) (counters cs : Dict String ℕ)
    → acquire_client_slot client n counters ≡ some cs
    → (cs ≡ insert client (lookup_or client 0 counters + 1) counters)
      × (lookup_or client 0 counters < n)
unfolding acquire_client_slot
acquire_client_slot_lem client n counters cs e = ground arith

abbrev ExactAt : (String → ℕ) → Slots → String → Type 0
ExactAt limit s c = (lookup_or c 0 s.counters ≡ count c s.running) × (count c s.running ≤ limit c)

-- To show the counts of all clients, show those of the one that acts and those of any other.
by_client :
    (limit : String → ℕ) (s : Slots) (client : String)
    → ExactAt limit s client
    → ((c : String) → (client == c) ≡ false → ExactAt limit s c)
    → Exact limit s
by_client limit s client own other c = elim (Bool-cases (client == c)) [
  | inl t ↦ subst (ExactAt limit s) ((eq_iff client c).0 t) own
  | inr t ↦ other c t
]

Step-Exact : {limit : String → ℕ} {s t : Slots} → Step limit s t → Exact limit s → Exact limit t
unfolding release_client_slot
Step-Exact {limit} {s} (enter client {counters = cs} e) x =
    let (same, room) = acquire_client_slot_lem client (limit client) s.counters cs e in
    let v : ℕ = lookup_or client 0 s.counters + 1 in
    by_client limit (record { counters = cs; running = client ∷ s.running }) client
      (ground (arith, x client, beq_self client, lookup-insert client client v s.counters))
      (λ c n. ground (arith, x c, n, lookup-insert client c v s.counters))
Step-Exact {limit} {s} (leave client before behind e) x =
    let v : ℕ = max (lookup_or client 1 s.counters - 1) 0 in
    by_client limit
      (record { counters = release_client_slot client s.counters; running = before ++ behind })
      client
      (ground (
        arith,
        x client,
        ap (count client) e,
        count-append client before (client ∷ behind),
        count-append client before behind,
        beq_self client,
        lookup-insert client client v s.counters,
      ))
      (λ c n. ground (
        arith,
        x c,
        n,
        ap (count c) e,
        count-append c before (client ∷ behind),
        count-append c before behind,
        lookup-insert client c v s.counters,
      ))

-- Start where each client's counter is the number of its running requests, within the client's
-- limit. However requests then take and give back slots, this stays so for every client.
pub Reach-Exact :
    {limit : String → ℕ} {s t : Slots} → Reach limit s t → Exact limit s → Exact limit t
Reach-Exact here x = x
Reach-Exact (next r st) x = Step-Exact st (Reach-Exact r x)

-- A list of more than a thousand loses its first item.
abbrev drop_oldest : List ℕ → List ℕ
drop_oldest [] = []
drop_oldest (t ∷ ts) = if ltb 1000 (length (t ∷ ts)) then ts else t ∷ ts

-- `record_queue_wait` keeps the last thousand times.
unfoldable record_queue_wait : ℕ → List ℕ → List ℕ
record_queue_wait wait_ms times = drop_oldest (times ++ (wait_ms ∷ []))

-- `_active_requests`, of which only the start times matter here.
unfoldable pub register_active_request : ℕ → String → Dict String ℕ → Dict String ℕ
register_active_request now request_id active = insert request_id now active

unfoldable pub unregister_active_request : String → Dict String ℕ → Dict String ℕ
unregister_active_request request_id active = erase request_id active
