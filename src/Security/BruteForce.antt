-- ===== src/Security/BruteForce.antt =====
-- BruteForceProtectionMiddleware, get_banned_ips and unban_ip of security.py. The rest of the
-- application is an argument: whether it answers the request with status 401.
use llm_sentinel.Prelude.{
  ℕ, ◌+◌, ◌-◌, ◌/◌, String, Bool, true, not, ◌&&◌, List, [], ◌∷◌, ◌++◌, Option, none, some, leb,
  ltb, ◌==◌, string_eq, if◌then◌else◌, Dict, lookup, lookup_or, insert, erase, contains, length,
  select,
}
use llm_sentinel.Breaker.State.{seconds}

-- The module's `_ip_failures` and `_ip_bans`, and the two settings.
pub record Guard : Type 0 where
  pub failures : Dict String (List ℕ)
  pub bans : Dict String ℕ

pub record BanSettings : Type 0 where
  pub threshold : ℕ
  pub duration : ℕ

-- A refusal with status 429 and its Retry-After, or the application's own response, 401 or another.
pub data Response : Type 0 where
  too_many : ℕ → Response
  unauthorized : Response
  other_status : Response

-- `request.url.path in auth_paths`
abbrev pub is_auth_path : String → Bool
is_auth_path path =
    if path == "/v1/auth/token"
    then true
    else if path == "/v1/auth/ldap-login"
    then true
    else path == "/admin/login"

-- The last part of `dispatch`, after a 401 on an auth path.
unfoldable pub track_failure : BanSettings → ℕ → String → Guard → Guard
track_failure settings now ip g =
    let recent =
      select (λ t. ltb now (t + seconds settings.duration)) (lookup_or ip [] g.failures) in
    let failed : List ℕ = recent ++ (now ∷ []) in
    record g {
      failures = insert ip failed g.failures;
      bans =
          if leb settings.threshold (length failed)
          then insert ip (now + seconds settings.duration) g.bans
          else g.bans;
    }

-- The first part: the seconds left of a ban, or the tables without what has run out. A ban until 0
-- counts as none.
unfoldable pub check_ban : ℕ → String → Guard → Option ℕ × Guard
check_ban now ip g = elim (lookup ip g.bans) [
  | none ↦ (none, g)
  | some until ↦
      if not (ltb 0 until)
      then (none, g)
      else if ltb now until
      then (some ((until - now) / seconds 1), g)
      else (none, record { failures = erase ip g.failures; bans = erase ip g.bans })
]

-- `dispatch` at the time `now`; `answered` is the time at which the application has answered.
unfoldable pub dispatch : BanSettings → ℕ → ℕ → String → String → Bool → Guard → Response × Guard
dispatch settings now answered ip path rejects g =
    let (banned, g') = check_ban now ip g in
    elim banned [
      | some retry_after ↦ (too_many retry_after, g')
      | none ↦
          if is_auth_path path && rejects
          then (unauthorized, track_failure settings answered ip g')
          else (if rejects then unauthorized else other_status, g')
    ]

-- The addresses that `get_banned_ips` lists, with the seconds left.
unfoldable get_banned_ips : ℕ → Dict String ℕ → List (String × ℕ)
get_banned_ips now [] = []
get_banned_ips now ((ip, until) ∷ bans) =
    if ltb now until
    then (ip, (until - now) / seconds 1) ∷ get_banned_ips now bans
    else get_banned_ips now bans

unfoldable pub unban_ip : String → Guard → Bool × Guard
unban_ip ip g =
    (contains ip g.bans, record { failures = erase ip g.failures; bans = erase ip g.bans })
