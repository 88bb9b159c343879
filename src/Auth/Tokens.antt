-- ===== src/Auth/Tokens.antt =====
-- internal/auth/authenticator.go: the cache of reviewed tokens and `authenticateToken`. The digest of a
-- token (SHA-256) and the API server's review are parameters. An instant is its nanoseconds since Go's
-- zero time.
use k8s_dencer.Base.{
  ℕ, ◌+◌, ◌*◌, ◌^◌, String, Bool, not, ◌||◌, Option, none, some, List, ◌==◌, string_eq,
  if◌then◌else◌, ltb, leb, length, keep, lookup, insert,
}
use k8s_dencer.Auth.Identity.{Source, Identity, nobody, AuthnError, invalid_token, undecided}

pub record CacheEntry : Type 0 where
  pub identity : Identity
  pub expires_at : ℕ

abbrev pub max_cached_tokens : ℕ
max_cached_tokens = 1024

abbrev pub default_token_cache_ttl : ℕ
default_token_cache_ttl = 30 * 1000000000

-- The lifetime that `NewAuthenticator` gives the cache, for a signed duration that is not positive too.
unfoldable pub cache_ttl : ℕ → ℕ
cache_ttl ttl = if leb ttl 0 || leb (2 ^ 63) ttl then default_token_cache_ttl else ttl

unfoldable pub get_cached :
    String → ℕ → List (String × CacheEntry) → Option Identity × List (String × CacheEntry)
get_cached key now entries = elim (lookup key entries) [
  | none ↦ (none, entries)
  | some e ↦
      if not (ltb now e.expires_at)
      then (none, keep (λ entry. not (entry.0 == key)) entries)
      else (some e.identity, entries)
]

-- The entries that a full cache keeps.
unfoldable pub unexpired : ℕ → List (String × CacheEntry) → List (String × CacheEntry)
unexpired now entries = keep (λ entry. ltb now entry.1.expires_at) entries

unfoldable pub put_cached :
    (ttl : ℕ) → String → Identity → ℕ → List (String × CacheEntry) → List (String × CacheEntry)
put_cached ttl key id now entries =
    let kept : List (String × CacheEntry) =
      if leb max_cached_tokens (length entries) then unexpired now entries else entries in
    if leb max_cached_tokens (length kept)
    then kept
    else insert key (record { identity = id; expires_at = now + ttl }) kept

-- The status of a `TokenReview`.
pub record TokenStatus : Type 0 where
  pub authenticated : Bool
  pub error : String
  pub username : String
  pub uid : String
  pub groups : List String
  pub extra : List (String × List String)

-- The identity of a reviewed user.
unfoldable pub reviewed : TokenStatus → Identity
reviewed status = record {
  username = status.username;
  uid = status.uid;
  groups = status.groups;
  extra = status.extra;
  source = Source.token;
}

-- A call of `authenticateToken`: the token, the two readings of the clock, and what the API server answers
-- if it is asked, none for an error.
pub record TokenCall : Type 0 where
  pub token : String
  pub asked_at : ℕ
  pub review : Option TokenStatus
  pub answered_at : ℕ

-- The rest of `authenticateToken`, when the cache has no answer.
unfoldable pub ask_server :
    (ttl : ℕ)
    → String
    → TokenCall
    → List (String × CacheEntry)
    → (Identity × Option AuthnError) × List (String × CacheEntry)
ask_server ttl key call entries = elim call.review [
  | none ↦ ((nobody, some undecided), entries)
  | some status ↦
      if not status.authenticated
      then (
        (
          nobody,
          some (invalid_token (if status.error == "" then "not authenticated" else status.error)),
        ),
        entries,
      )
      else ((reviewed status, none), put_cached ttl key (reviewed status) call.answered_at entries)
]

unfoldable pub authenticate_token :
    (hash_token : String → String) (ttl : ℕ)
    → TokenCall
    → List (String × CacheEntry)
    → (Identity × Option AuthnError) × List (String × CacheEntry)
authenticate_token hash_token ttl call entries =
    let found : Option Identity × List (String × CacheEntry) =
      get_cached (hash_token call.token) call.asked_at entries in
    elim (found.0) [
      | some id ↦ ((id, none), found.1)
      | none ↦ ask_server ttl (hash_token call.token) call (found.1)
    ]
