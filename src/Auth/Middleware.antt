-- ===== src/Auth/Middleware.antt =====
-- internal/auth/authorizer.go and middleware.go: the authorizer that asks the API server, and the guard of a
-- handler. The API server's review of an access is a parameter: it answers none for an error.
use k8s_dencer.Base.{
  String, Bool, not, ◌&&◌, ◌||◌, Option, none, some, ◌==◌, string_eq, if◌then◌else◌,
}
use k8s_dencer.Auth.Identity.{
  Identity, Resource, Config, AuthnError, no_credentials, invalid_token, undecided, DeniedError,
  AuthzError, denied, unchecked, is_anonymous, read_plans, same_resource,
}

-- The status of a `SubjectAccessReview`.
pub record AccessStatus : Type 0 where
  pub allowed : Bool
  pub denies : Bool
  pub reason : String
  pub evaluation_error : String

-- What the authorizer makes of the status.
unfoldable pub judge : Identity → Resource → AccessStatus → Option AuthzError
judge id res status =
    if status.denies || not status.allowed
    then some (denied (record { identity = id; resource = res; reason = status.reason }))
    else if not (status.evaluation_error == "")
    then some (denied (record { identity = id; resource = res; reason = status.evaluation_error }))
    else none

unfoldable pub authorize :
    (review : String → Identity → Resource → Option AccessStatus) (namespace : String)
    → Identity
    → Resource
    → Option AuthzError
authorize review namespace id res =
    if is_anonymous id
    then some
        (denied (record { identity = id; resource = res; reason = "no credentials presented" }))
    else elim (review namespace id res) [
      | none ↦ some unchecked
      | some status ↦ judge id res status
    ]

-- `AllowAll`.
unfoldable pub allow_all : Identity → Resource → Option AuthzError
allow_all _ _ = none

-- What the client gets: the handler's response, with the identity on its context if there is one,
-- or one of the middleware's own, with the status 401, 403 or 500.
pub data Response : Type 0 where
  served : (caller : Option Identity) → Response
  unauthorized : (message : String) → Response
  forbidden : (error : DeniedError) → Response
  unavailable : (message : String) → Response

-- The second half of `Require`, for an authenticated caller.
unfoldable pub permit :
    (authz : Identity → Resource → Option AuthzError) → Resource → Identity → Response
permit authz res id = elim (authz id res) [
  | none ↦ served (some id)
  | some (denied error) ↦ forbidden error
  | some unchecked ↦ unavailable "could not check permissions"
]

-- `Require`, on what the authenticator answers to the request.
unfoldable pub require :
    Config
    → (authz : Identity → Resource → Option AuthzError) → Resource
    → Identity × Option AuthnError
    → Response
require cfg authz res (id, error) = if not cfg.enabled then served none else elim error [
  | none ↦ permit authz res id
  | some no_credentials ↦
      if not (cfg.allow_anonymous_read && same_resource res read_plans)
      then unauthorized "authentication required"
      else served (some id)
  | some (invalid_token _) ↦ unauthorized "invalid or expired credentials"
  | some undecided ↦ unavailable "could not verify credentials"
]
