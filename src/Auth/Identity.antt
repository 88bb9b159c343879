-- ===== src/Auth/Identity.antt =====
-- internal/auth/auth.go: identities, permissions, the configuration and the errors.
use k8s_dencer.Base.{String, Bool, true, false, ◌&&◌, List, [], ◌==◌, string_eq}

pub data Source : Type 0 where
  token proxy anonymous : Source

pub record Identity : Type 0 where
  pub username : String
  pub uid : String
  pub groups : List String
  pub extra : List (String × List String)
  pub source : Source

-- `Anonymous`, the identity of a caller without credentials.
unfoldable pub nobody : Identity
nobody = record {
  username = "system:anonymous";
  uid = "";
  groups = [];
  extra = [];
  source = anonymous;
}

unfoldable pub is_anonymous : Identity → Bool
is_anonymous id = elim id.source [ anonymous ↦ true | _ ↦ false ]

pub record Resource : Type 0 where
  pub group : String
  pub resource : String
  pub verb : String

unfoldable pub read_plans : Resource
read_plans = record { group = "dencer.io"; resource = "plans"; verb = "get" }

unfoldable pub execute_consolidations : Resource
execute_consolidations = record {
  group = "dencer.io";
  resource = "consolidations";
  verb = "create";
}

-- Go's `==` on the struct.
unfoldable pub same_resource : Resource → Resource → Bool
same_resource a b = a.group == b.group && (a.resource == b.resource && a.verb == b.verb)

-- The part of `Config` that the middleware and the authorizer read.
pub record Config : Type 0 where
  pub enabled : Bool
  pub allow_anonymous_read : Bool
  pub namespace : String

-- The errors of an authenticator. Any error of another type is a failure to decide.
pub data AuthnError : Type 0 where
  no_credentials : AuthnError
  invalid_token : (reason : String) → AuthnError
  undecided : AuthnError

pub record DeniedError : Type 0 where
  pub identity : Identity
  pub resource : Resource
  pub reason : String

-- The errors of an authorizer.
pub data AuthzError : Type 0 where
  denied : (error : DeniedError) → AuthzError
  unchecked : AuthzError
