-- ===== src/Examples/Auth.antt =====
-- A caller with a token, whom the API server knows and lets execute.
use k8s_dencer.Base.{
  ◌<◌, ◌≡◌, ◌↔◌, ◌⊎◌, ℕ, String, true, false, Option, none, some, [], ◌∷◌, ◌==◌, string_eq, refl,
  lookup, insert,
}
use k8s_dencer.Auth.Identity.{Source, Identity, Resource, Config, execute_consolidations}
use k8s_dencer.Auth.Middleware.{AccessStatus, authorize, served, require}
use k8s_dencer.Auth.Tokens.{
  TokenStatus, reviewed, TokenCall, get_cached, put_cached, ask_server, authenticate_token,
}
use k8s_dencer.Auth.Permitted.{Permits, require_iff}
use k8s_dencer.Auth.Recent.{Confirms, cache_after, Backed, authenticate_token-Backed}

abbrev ada_status : TokenStatus
ada_status = record {
  authenticated = true;
  error = "";
  username = "ada";
  uid = "1";
  groups = "sre" ∷ [];
  extra = [];
}

abbrev ada : Identity
ada = record { username = "ada"; uid = "1"; groups = "sre" ∷ []; extra = []; source = Source.token }

abbrev guarded : Config
guarded = record { enabled = true; allow_anonymous_read = true; namespace = "dencer" }

-- RBAC that lets ada do anything, and nobody else.
abbrev rbac : String → Identity → Resource → Option AccessStatus
rbac _ id _ =
    some (record {
      allowed = id.username == "ada";
      denies = false;
      reason = "";
      evaluation_error = "";
    })

require_iff_example :
    (require guarded (authorize rbac "dencer") execute_consolidations (ada, none)
      ≡ served (some ada))
    ↔ Permits guarded rbac execute_consolidations (ada, none) (some ada)
require_iff_example = require_iff guarded rbac execute_consolidations (ada, none) (some ada)

abbrev first_call : TokenCall
first_call = record { token = "t"; asked_at = 100; review = some ada_status; answered_at = 101 }

-- The API server cannot be reached any more; the cache still answers.
abbrev second_call : TokenCall
second_call = record { token = "t"; asked_at = 120; review = none; answered_at = 121 }

second_call_answer :
    (authenticate_token (λ t. t) 30 second_call (cache_after (λ t. t) 30 (first_call ∷ []))).0
    ≡ (ada, none)
unfolding authenticate_token cache_after get_cached put_cached ask_server reviewed lookup insert
second_call_answer = refl

authenticate_token-Backed_example :
    Confirms second_call ada
    ⊎ ((until : ℕ) × Backed (λ t. t) 30 "t" ada until (first_call ∷ []) × (120 < until))
authenticate_token-Backed_example =
    authenticate_token-Backed (λ t. t) 30 (first_call ∷ []) second_call ada second_call_answer
