-- ===== src/Auth/Recent.antt =====
-- internal/auth/authenticator.go: what an answer of `authenticateToken` rests on.
use mathlib.Core.Path.{subst}
use k8s_dencer.Base.{
  ℕ, ◌+◌, ◌<◌, ◌≡◌, ◌∙◌, ap, ◌⊎◌, inl, inr, refl, sym, String, true, false, not, if◌then◌else◌,
  Option, none, some, List, [], ◌∷◌, ◌==◌, string_eq, ltb, leb, length, keep, lookup, insert, All,
  All-map, All-kept, All-insert, All-lookup, Bool-cases, Option-cases, ltb→lt,
}
use k8s_dencer.Auth.Identity.{Identity, AuthnError}
use k8s_dencer.Auth.Tokens.{
  CacheEntry, max_cached_tokens, get_cached, unexpired, put_cached, TokenStatus, reviewed,
  TokenCall, ask_server, authenticate_token,
}

-- The API server has reviewed the call's token, as the token of the identity.
abbrev pub Confirms : TokenCall → Identity → Type 0
Confirms call id =
    (status : TokenStatus) × (call.review ≡ some status)
    × (status.authenticated ≡ true)
    × (reviewed status ≡ id)

unexpired-All :
    (P : String × CacheEntry → Type 0) (now : ℕ) (entries : List (String × CacheEntry))
    → All P entries
    → All P (unexpired now entries)
unfolding unexpired
unexpired-All P now entries a = All-kept P (λ x. ltb now x.1.expires_at) entries a

module _ (hash_token : String → String) (ttl : ℕ) where
  -- The cache after calls, the last one first.
  unfoldable pub cache_after : List TokenCall → List (String × CacheEntry)
  cache_after [] = []
  cache_after (call ∷ earlier) = (authenticate_token hash_token ttl call (cache_after earlier)).1

  -- One of the calls, of a token with the digest, confirmed the identity, and its entry lives until the
  -- instant.
  pub data Backed (key : String) (id : Identity) (until : ℕ) : List TokenCall → Type 0 where
    by_last :
        (call : TokenCall) (calls : List TokenCall)
        → (hash_token call.token ≡ key)
        → Confirms call id
        → (until ≡ call.answered_at + ttl)
        → Backed key id until (call ∷ calls)
    by_earlier :
        (call : TokenCall) (calls : List TokenCall)
        → Backed key id until calls
        → Backed key id until (call ∷ calls)

  abbrev EntryBacked : List TokenCall → String × CacheEntry → Type 0
  EntryBacked calls entry = Backed (entry.0) entry.1.identity entry.1.expires_at calls

  EntryBacked-later :
      (call : TokenCall) (calls : List TokenCall) (entries : List (String × CacheEntry))
      → All (EntryBacked calls) entries
      → All (EntryBacked (call ∷ calls)) entries
  EntryBacked-later call calls entries a =
      All-map (EntryBacked calls) (EntryBacked (call ∷ calls)) entries
        (λ _ b. by_earlier call calls b) a

  -- A read leaves the cache, or drops the entries of the key.
  get_cached_cases :
      (key : String) (now : ℕ) (entries : List (String × CacheEntry))
      → ((get_cached key now entries).1 ≡ entries)
        ⊎ ((get_cached key now entries).1 ≡ keep (λ x. not (x.0 == key)) entries)
  unfolding get_cached
  get_cached_cases key now entries = elim (Option-cases (lookup key entries)) [
    | inl e ↦ inl (rw (get_cached, e) refl)
    | inr (entry, e) ↦ elim (Bool-cases (ltb now entry.expires_at)) [
      | inl fresh ↦ inl (rw (get_cached, e, fresh) refl)
      | inr stale ↦ inr (rw (get_cached, e, stale) refl)
    ]
  ]

  get_cached-All :
      (P : String × CacheEntry → Type 0) (key : String) (now : ℕ)
      (entries : List (String × CacheEntry))
      → All P entries
      → All P ((get_cached key now entries).1)
  get_cached-All P key now entries a = elim (get_cached_cases key now entries) [
    | inl same ↦ subst (λ m. All P m) (sym same) a
    | inr less ↦ subst (λ m. All P m) (sym less) (All-kept P (λ x. not (x.0 == key)) entries a)
  ]

  -- What a read answers is an entry that has not expired.
  get_cached-some :
      (key : String) (now : ℕ) (entries : List (String × CacheEntry)) (id : Identity)
      → (get_cached key now entries).0 ≡ some id
      → (entry : CacheEntry) × (lookup key entries ≡ some entry)
        × (entry.identity ≡ id)
        × (now < entry.expires_at)
  unfolding get_cached
  get_cached-some key now entries id h = elim (Option-cases (lookup key entries)) [
    | inl e ↦ absurd (let h' = (rw (get_cached, e) at h) in cc)
    | inr (entry, e) ↦ elim (Bool-cases (ltb now entry.expires_at)) [
      | inl fresh ↦
          let same : entry.identity ≡ id = let h' = (rw (get_cached, e, fresh) at h) in cc in
          (entry, e, same, ltb→lt now entry.expires_at fresh)
      | inr stale ↦ absurd (let h' = (rw (get_cached, e, stale) at h) in cc)
    ]
  ]

  put_cached-All :
      (P : String × CacheEntry → Type 0) (key : String) (id : Identity) (now : ℕ)
      (entries : List (String × CacheEntry))
      → P (key, record { identity = id; expires_at = now + ttl })
      → All P entries
      → All P (put_cached ttl key id now entries)
  unfolding put_cached
  put_cached-All P key id now entries p a =
      let kept : List (String × CacheEntry) =
        if leb max_cached_tokens (length entries) then unexpired now entries else entries in
      let all : All P kept =
        elim (leb max_cached_tokens (length entries))
          as (λ b. All P (if b then unexpired now entries else entries)) [
            | true ↦ unexpired-All P now entries a
            | false ↦ a
          ] in
      elim (leb max_cached_tokens (length kept))
        as (λ b. All P (
          if b then kept else insert key (record { identity = id; expires_at = now + ttl }) kept)) [
            | true ↦ all
            | false ↦ All-insert P key (record { identity = id; expires_at = now + ttl }) kept p all
          ]

  -- A call that is passed on leaves the cache, or puts the identity that the API server confirms.
  ask_server_cases :
      (call : TokenCall) (key : String) (entries : List (String × CacheEntry))
      → ((ask_server ttl key call entries).1 ≡ entries)
        ⊎ ((id : Identity) × Confirms call id
            × ((ask_server ttl key call entries).1
                ≡ put_cached ttl key id call.answered_at entries))
  unfolding ask_server
  ask_server_cases call key entries = elim (Option-cases call.review) [
    | inl e ↦ inl (rw (ask_server, e) refl)
    | inr (status, e) ↦ elim (Bool-cases status.authenticated) [
      | inl known ↦ inr (reviewed status, (status, e, known, refl), rw (ask_server, e, known) refl)
      | inr unknown ↦ inl (rw (ask_server, e, unknown) refl)
    ]
  ]

  ask_server-none :
      (call : TokenCall) (key : String) (entries : List (String × CacheEntry)) (id : Identity)
      → (ask_server ttl key call entries).0 ≡ (id, none)
      → Confirms call id
  unfolding ask_server
  ask_server-none call key entries id h = elim (Option-cases call.review) [
    | inl e ↦ absurd (let h' = (rw (ask_server, e) at h) in cc)
    | inr (status, e) ↦ elim (Bool-cases status.authenticated) [
      | inl known ↦
          let same : reviewed status ≡ id = let h' = (rw (ask_server, e, known) at h) in cc in
          (status, e, known, same)
      | inr unknown ↦ absurd (let h' = (rw (ask_server, e, unknown) at h) in cc)
    ]
  ]

  -- What is left of the cache when it has no answer.
  abbrev read_of :
      TokenCall → List (String × CacheEntry) → Option Identity × List (String × CacheEntry)
  read_of call entries = get_cached (hash_token call.token) call.asked_at entries

  authenticate_token_cases :
      (call : TokenCall) (entries : List (String × CacheEntry))
      → ((id : Identity) × ((read_of call entries).0 ≡ some id)
          × (authenticate_token hash_token ttl call entries
              ≡ ((id, none), (read_of call entries).1)))
        ⊎ (authenticate_token hash_token ttl call entries
            ≡ ask_server ttl (hash_token call.token) call ((read_of call entries).1))
  unfolding authenticate_token
  authenticate_token_cases call entries = elim (Option-cases ((read_of call entries).0)) [
    | inl e ↦ inr (rw (authenticate_token, e) refl)
    | inr (id, e) ↦ inl (id, e, rw (authenticate_token, e) refl)
  ]

  -- Every entry of the cache is backed by a review of an earlier call.
  cache_after-EntryBacked : (calls : List TokenCall) → All (EntryBacked calls) (cache_after calls)
  unfolding cache_after
  cache_after-EntryBacked [] = tt
  cache_after-EntryBacked (call ∷ calls) =
      let P : String × CacheEntry → Type 0 = EntryBacked (call ∷ calls) in
      let before : All P (cache_after calls) =
        EntryBacked-later call calls (cache_after calls) (cache_after-EntryBacked calls) in
      let key : String = hash_token call.token in
      let left : List (String × CacheEntry) = (read_of call (cache_after calls)).1 in
      let read : All P left = get_cached-All P key call.asked_at (cache_after calls) before in
      elim (authenticate_token_cases call (cache_after calls)) [
        | inl (id, hit, e) ↦ subst (λ r. All P (r.1)) (sym e) read
        | inr e ↦
            subst (λ r. All P (r.1)) (sym e)
              (elim (ask_server_cases call key left) [
                | inl same ↦ subst (λ m. All P m) (sym same) read
                | inr (id, confirmed, put) ↦
                    subst (λ m. All P m) (sym put)
                      (put_cached-All P key id call.answered_at left
                        (by_last call calls refl confirmed refl) read)
              ])
      ]

  -- After any calls, a token is answered with an identity only if the API server has now confirmed the
  -- identity for it, or has for an earlier call of a token with the same digest, whose answer is less
  -- than the cache's lifetime old.
  pub authenticate_token-Backed :
      (calls : List TokenCall) (call : TokenCall) (id : Identity)
      → (authenticate_token hash_token ttl call (cache_after calls)).0 ≡ (id, none)
      → Confirms call id
        ⊎ ((until : ℕ) × Backed (hash_token call.token) id until calls × (call.asked_at < until))
  authenticate_token-Backed calls call id h =
      let key : String = hash_token call.token in
      elim (authenticate_token_cases call (cache_after calls)) [
        | inl (other, hit, e) ↦
            let stored : Identity × Option AuthnError = (other, none) in
            let answer : Identity × Option AuthnError = (id, none) in
            let equal : stored ≡ answer = ap (λ r. r.0) (sym e) ∙ h in
            let same : other ≡ id = ap (λ r. r.0) equal in
            let (entry, found, its, fresh) =
              get_cached-some key call.asked_at (cache_after calls) other hit in
            let backed : Backed key entry.identity entry.expires_at calls =
              All-lookup (EntryBacked calls) key entry (cache_after calls) found
                (cache_after-EntryBacked calls) in
            let owner : entry.identity ≡ id = its ∙ same in
            inr (
              entry.expires_at,
              subst (λ i. Backed key i entry.expires_at calls) owner backed,
              fresh,
            )
        | inr e ↦
            let left : List (String × CacheEntry) = (read_of call (cache_after calls)).1 in
            let asked : (ask_server ttl key call left).0 ≡ (id, none) = cc in
            inl (ask_server-none call key left id asked)
      ]
