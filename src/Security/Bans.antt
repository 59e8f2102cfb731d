-- ===== src/Security/Bans.antt =====
-- What the brute-force protection of security.py guarantees.
use llm_sentinel.Prelude.{
  ℕ, ◌+◌, ◌-◌, ◌/◌, ◌≤◌, ◌<◌, ◌≡◌, sym, ap, subst, String, Bool, true, false, List, [], ◌∷◌, ◌++◌,
  none, some, arith, leb, ltb, string_eq, if◌then◌else◌, lookup, lookup_or, length, select, All,
  All-map, All-append, lookup-erase, lookup-insert_self, beq_self, select-All_eq, length-append,
}
use llm_sentinel.Breaker.State.{seconds}
use llm_sentinel.Security.BruteForce.{
  Guard, BanSettings, too_many, other_status, is_auth_path, track_failure, check_ban, dispatch,
  unban_ip,
}

-- While an address is banned, each of its requests is refused with 429 before it reaches the
-- application, whatever path it asks for, and changes nothing.
dispatch-banned :
    (settings : BanSettings) (now answered until : ℕ) (ip path : String) (rejects : Bool)
    (g : Guard)
    → lookup ip g.bans ≡ some until
    → now < until
    → dispatch settings now answered ip path rejects g ≡ (too_many ((until - now) / seconds 1), g)
unfolding dispatch check_ban
dispatch-banned settings now answered until ip path rejects g b l = ground arith

-- Login failures of one address, each answered with 401 at its time.
abbrev pub fail_all : BanSettings → String → String → List ℕ → Guard → Guard
fail_all settings ip path [] g = g
fail_all settings ip path (t ∷ ts) g =
    fail_all settings ip path ts (dispatch settings t t ip path true g).1

-- Times within one ban duration of a first one.
abbrev Near : ℕ → ℕ → ℕ → Type 0
Near duration first t = (first ≤ t) × (t < first + seconds duration)

dispatch_fails :
    (settings : BanSettings) (t : ℕ) (ip path : String) (g : Guard)
    → is_auth_path path ≡ true
    → lookup ip g.bans ≡ none
    → (dispatch settings t t ip path true g).1 ≡ track_failure settings t ip g
unfolding dispatch check_ban
dispatch_fails settings t ip path g p b = ground arith

recent-All :
    (duration first t : ℕ) (xs : List ℕ)
    → t < first + seconds duration
    → All (λ x. first ≤ x) xs
    → select (λ x. ltb t (x + seconds duration)) xs ≡ xs
recent-All duration first t xs l a =
    select-All_eq (λ x. ltb t (x + seconds duration)) xs
      (All-map (λ x. first ≤ x) (λ x. ltb t (x + seconds duration) ≡ true) (λ x h. ground arith) xs
        a)

-- A failure whose predecessors on record are all recent joins them, and bans at the threshold.
one_failure :
    (settings : BanSettings) (first t : ℕ) (ip path : String) (g : Guard)
    → is_auth_path path ≡ true
    → lookup ip g.bans ≡ none
    → t < first + seconds settings.duration
    → All (λ x. first ≤ x) (lookup_or ip [] g.failures)
    → let old = lookup_or ip [] g.failures in
      let q = (dispatch settings t t ip path true g).1 in
      (lookup_or ip [] q.failures ≡ old ++ (t ∷ []))
      × (lookup ip q.bans ≡ (
          if leb settings.threshold (length old + 1)
          then some (t + seconds settings.duration)
          else none))
unfolding track_failure
one_failure settings first t ip path g p b l a =
    let old = lookup_or ip [] g.failures in
    ground (
      arith,
      dispatch_fails settings t ip path g p b,
      recent-All settings.duration first t old l a,
      lookup-insert_self ip (old ++ (t ∷ [])) g.failures,
      lookup-insert_self ip (t + seconds settings.duration) g.bans,
      length-append old (t ∷ []),
    )

-- Take an address that is not banned, and failed logins of it that all fall within one ban duration
-- of a first time, which no failure on record precedes. Before the one that brings their number to
-- the threshold the address is not banned, and that one bans it for the whole duration.
pub fail_all-bans :
    (settings : BanSettings) (first t : ℕ) (ts : List ℕ) (ip path : String) (g : Guard)
    → is_auth_path path ≡ true
    → lookup ip g.bans ≡ none
    → All (λ x. first ≤ x) (lookup_or ip [] g.failures)
    → All (Near settings.duration first) ts
    → Near settings.duration first t
    → length (lookup_or ip [] g.failures) + length ts + 1 ≡ settings.threshold
    → (lookup ip (fail_all settings ip path ts g).bans ≡ none)
      × (lookup ip (dispatch settings t t ip path true (fail_all settings ip path ts g)).1.bans
          ≡ some (t + seconds settings.duration))
fail_all-bans settings first t [] ip path g p b a near l n =
    (b, ground (arith, one_failure settings first t ip path g p b l.1 a))
fail_all-bans settings first t (x ∷ ts) ip path g p b a near l n =
    let q = (dispatch settings x x ip path true g).1 in
    let old = lookup_or ip [] g.failures in
    let (recorded, banned) = one_failure settings first x ip path g p b near.0.1 a in
    fail_all-bans settings first t ts ip path q p (ground (arith, banned))
      (subst (All (λ y. first ≤ y)) (sym recorded)
        (All-append (λ y. first ≤ y) old (x ∷ []) a (near.0.0, tt)))
      near.1 l (omega (arith, ap (λ (l : List ℕ). length l) recorded, length-append old (x ∷ [])))

-- An unbanned address is let through again at once, with no failures on record.
unban_ip-dispatch :
    (settings : BanSettings) (now answered : ℕ) (ip path : String) (g : Guard)
    → let g' = (unban_ip ip g).1 in
      ((dispatch settings now answered ip path false g').0 ≡ other_status)
      × (lookup ip g'.failures ≡ none)
unfolding unban_ip dispatch check_ban
unban_ip-dispatch settings now answered ip path g =
    ground (arith, lookup-erase ip ip g.bans, lookup-erase ip ip g.failures, beq_self ip)
