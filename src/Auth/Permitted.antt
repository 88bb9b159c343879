-- ===== src/Auth/Permitted.antt =====
-- internal/auth/middleware.go and authorizer.go: when a guarded handler runs.
use mathlib.Core.Path.{subst}
use k8s_dencer.Base.{
  sym, ◌≡◌, ◌↔◌, inl, inr, refl, String, true, false, ◌&&◌, Option, none, some, string_eq,
  Bool-cases, Option-cases, arith,
}
use k8s_dencer.Auth.Identity.{
  Identity, Resource, Config, AuthnError, no_credentials, invalid_token, undecided, AuthzError,
  denied, unchecked, is_anonymous, read_plans, same_resource,
}
use k8s_dencer.Auth.Middleware.{AccessStatus, judge, authorize, served, permit, require}

same_resource→eq : (a b : Resource) → same_resource a b ≡ true → a ≡ b
unfolding same_resource
same_resource→eq a b h =
    let all : (a.group ≡ b.group) × (a.resource ≡ b.resource) × (a.verb ≡ b.verb) = ground (
      arith,
      string_eq.equals_iff a.group b.group,
      string_eq.equals_iff a.resource b.resource,
      string_eq.equals_iff a.verb b.verb,
    ) in
    λ i. record { group = all.0 i; resource = all.1 i; verb = all.2 i }

-- A clean consent: allowed, not denied, and evaluated without an error.
abbrev pub Consents : AccessStatus → Type 0
Consents status = (status.allowed ≡ true) × (status.denies ≡ false) × (status.evaluation_error ≡ "")

judge_iff :
    (id : Identity) (res : Resource) (status : AccessStatus)
    → (judge id res status ≡ none) ↔ Consents status
unfolding judge
judge_iff id res status = ground (arith, string_eq.equals_iff status.evaluation_error "")

module _ (review : String → Identity → Resource → Option AccessStatus) (ns : String)
    (res : Resource) (id : Identity) where
  -- A caller with credentials whom the API server consents to.
  abbrev pub Vouched : Type 0
  Vouched =
      (is_anonymous id ≡ false)
      × ((status : AccessStatus) × (review ns id res ≡ some status) × Consents status)

  authorize_iff : (authorize review ns id res ≡ none) ↔ Vouched
  unfolding authorize
  authorize_iff = elim (Bool-cases (is_anonymous id)) [
    | inl e ↦ rw e (λ h. cc, λ v. cc)
    | inr e ↦ elim (Option-cases (review ns id res)) [
      | inl none_ ↦ rw (e, none_) (λ h. cc, λ v. let h = v.1.1 in cc)
      | inr (status, asked) ↦
          rw (e, asked)
            (
              λ h. (refl, (status, refl, (judge_iff id res status).0 h)),
              λ v.
                  let same : status ≡ v.1.0 = let h = v.1.1 in cc in
                  subst (λ s. judge id res s ≡ none) (sym same) ((judge_iff id res v.1.0).1 v.1.2),
            )
    ]
  ]

-- The three ways in: authentication is off; nothing was presented, and the configuration lets anyone
-- read plans; or the caller is known and vouched for.
pub data Permits (cfg : Config) (review : String → Identity → Resource → Option AccessStatus)
    (res : Resource) (answer : Identity × Option AuthnError) : Option Identity → Type 0 where
  open_to_all : (cfg.enabled ≡ false) → Permits cfg review res answer none
  open_to_read :
      (cfg.enabled ≡ true)
      → (answer.1 ≡ some no_credentials)
      → (cfg.allow_anonymous_read ≡ true)
      → (res ≡ read_plans)
      → Permits cfg review res answer (some (answer.0))
  vouched_for :
      (cfg.enabled ≡ true)
      → (answer.1 ≡ none)
      → Vouched review cfg.namespace res (answer.0)
      → Permits cfg review res answer (some (answer.0))

permit-served :
    (authz : Identity → Resource → Option AuthzError) (res : Resource) (id : Identity)
    (caller : Option Identity)
    → permit authz res id ≡ served caller
    → (authz id res ≡ none) × (caller ≡ some id)
unfolding permit
permit-served authz res id caller h = elim (Option-cases (authz id res)) [
  | inl consent ↦ (consent, (let h' = (rw (permit, consent) at h) in cc))
  | inr (denied error, refused) ↦ absurd (let h' = (rw (permit, refused) at h) in cc)
  | inr (unchecked, refused) ↦ absurd (let h' = (rw (permit, refused) at h) in cc)
]

answered-Permits :
    (cfg : Config) (review : String → Identity → Resource → Option AccessStatus) (res : Resource)
    (id : Identity) (error : Option AuthnError) (caller : Option Identity)
    → cfg.enabled ≡ true
    → require cfg (authorize review cfg.namespace) res (id, error) ≡ served caller
    → Permits cfg review res (id, error) caller
unfolding require
answered-Permits cfg review res id none caller on h =
    let passed : (authorize review cfg.namespace id res ≡ none) × (caller ≡ some id) =
      permit-served (authorize review cfg.namespace) res id caller (rw on at h) in
    subst (λ c. Permits cfg review res (id, none) c) (sym passed.1)
      (vouched_for on refl ((authorize_iff review cfg.namespace res id).0 passed.0))
answered-Permits cfg review res id (some no_credentials) caller on h =
    elim (Bool-cases (cfg.allow_anonymous_read && same_resource res read_plans)) [
      | inl e ↦
          let same : some id ≡ caller = let h' = (rw (on, e) at h) in cc in
          let both : (cfg.allow_anonymous_read ≡ true) × (same_resource res read_plans ≡ true) =
            ground arith in
          subst (λ c. Permits cfg review res (id, some no_credentials) c) same
            (open_to_read on refl both.0 (same_resource→eq res read_plans both.1))
      | inr e ↦ absurd (let h' = (rw (on, e) at h) in cc)
    ]
answered-Permits cfg review res id (some (invalid_token r)) caller on h =
    absurd (let h' = (rw on at h) in cc)
answered-Permits cfg review res id (some undecided) caller on h =
    absurd (let h' = (rw on at h) in cc)

require-Permits :
    (cfg : Config) (review : String → Identity → Resource → Option AccessStatus) (res : Resource)
    (answer : Identity × Option AuthnError) (caller : Option Identity)
    → require cfg (authorize review cfg.namespace) res answer ≡ served caller
    → Permits cfg review res answer caller
unfolding require
require-Permits cfg review res (id, error) caller h = elim (Bool-cases cfg.enabled) [
  | inl on ↦ answered-Permits cfg review res id error caller on h
  | inr off ↦
      let same : none ≡ caller = let h' = (rw off at h) in cc in
      subst (λ c. Permits cfg review res (id, error) c) same (open_to_all off)
]

permit-none :
    (authz : Identity → Resource → Option AuthzError) (res : Resource) (id : Identity)
    → authz id res ≡ none
    → permit authz res id ≡ served (some id)
unfolding permit
permit-none authz res id h = rw (permit, h) refl

same_resource_self : (a : Resource) → same_resource a a ≡ true
unfolding same_resource
same_resource_self a = ground (
  arith,
  string_eq.equals_iff a.group a.group,
  string_eq.equals_iff a.resource a.resource,
  string_eq.equals_iff a.verb a.verb,
)

Permits-require :
    (cfg : Config) (review : String → Identity → Resource → Option AccessStatus) (res : Resource)
    (answer : Identity × Option AuthnError) (caller : Option Identity)
    → Permits cfg review res answer caller
    → require cfg (authorize review cfg.namespace) res answer ≡ served caller
unfolding require
Permits-require cfg review res (id, error) _ (open_to_all off) = rw off refl
Permits-require cfg review res (id, error) _ (open_to_read on nothing reads plans) =
    let same : same_resource res read_plans ≡ true =
      subst (λ r. same_resource res r ≡ true) plans (same_resource_self res) in
    rw (on, nothing, reads, same) refl
Permits-require cfg review res (id, error) _ (vouched_for on known v) =
    let consent : authorize review cfg.namespace id res ≡ none =
      (authorize_iff review cfg.namespace res id).1 v in
    rw (on, known) (permit-none (authorize review cfg.namespace) res id consent)

-- `Require` lets a request through to the handler exactly by one of the three ways, and with the caller
-- that this way knows.
pub require_iff :
    (cfg : Config) (review : String → Identity → Resource → Option AccessStatus) (res : Resource)
    (answer : Identity × Option AuthnError) (caller : Option Identity)
    → (require cfg (authorize review cfg.namespace) res answer ≡ served caller)
      ↔ Permits cfg review res answer caller
require_iff cfg review res answer caller =
    (require-Permits cfg review res answer caller, Permits-require cfg review res answer caller)
