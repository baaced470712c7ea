-- ===== src/Server/Middleware/Access.antt =====
-- internal/server/middleware.go: `withHostCheck` and `withTokenAuth` in the chain of `New`.
use owlwatch.Prelude.{
  ◌≡◌, ◌↔◌, ◌⊎◌, inl, inr, refl, sym, ap, ◌∙◌, Bool, true, false, [], ◌++◌, Option, none, some,
  Bytes, bytes, same, same→eq, same_refl, cut_prefix, cut_prefix-append, append_of_cut_prefix,
  Bool-cases, Option-cases,
}
use owlwatch.Server.Middleware.{
  Request, host_allowed, is_api_path, token_matches, Slots, answer, Config, with_request_limits,
  with_token_auth, with_host_check, with_defaults, chain, Handler,
}

-- The request presents the token in its header.
abbrev pub Presents : Request → Bytes → Type 0
Presents r token = r.authorization ≡ bytes "Bearer " ++ token

-- The request needs no token, or it presents the configured one.
abbrev pub IsAuthorized : Bytes → Request → Type 0
IsAuthorized token r = (token ≡ []) ⊎ ((is_api_path r.path ≡ false) ⊎ Presents r token)

after_scheme : Bytes → Option Bytes → Bool
after_scheme token none = false
after_scheme token (some bearer) = same bearer token

token_matches_lem :
    (r : Request) (token : Bytes)
    → token_matches r token ≡ after_scheme token (cut_prefix r.authorization (bytes "Bearer "))
unfolding token_matches after_scheme
token_matches_lem r token = elim (Option-cases (cut_prefix r.authorization (bytes "Bearer "))) [
  | inl e ↦ rw (e, token_matches) refl
  | inr (b, e) ↦ rw (e, token_matches) refl
]

no_scheme :
    (r : Request) (token : Bytes)
    → cut_prefix r.authorization (bytes "Bearer ") ≡ none
    → after_scheme token (cut_prefix r.authorization (bytes "Bearer ")) ≡ true
    → ⊥
unfolding after_scheme
no_scheme r token e h = let h' : false ≡ true = sym (ap (after_scheme token) e) ∙ h in absurd cc

matches→Presents : (r : Request) (token : Bytes) → token_matches r token ≡ true → Presents r token
unfolding after_scheme
matches→Presents r token h =
    let h' = sym (token_matches_lem r token) ∙ h in
    elim (Option-cases (cut_prefix r.authorization (bytes "Bearer "))) [
      | inl e ↦ absurd (no_scheme r token e h')
      | inr (b, e) ↦
          append_of_cut_prefix r.authorization (bytes "Bearer ") b e
          ∙ ap (λ t. bytes "Bearer " ++ t) (same→eq b token (sym (ap (after_scheme token) e) ∙ h'))
    ]

-- The bearer test is exactly equality of the header with the scheme and the token.
token_matches_iff :
    (r : Request) (token : Bytes) → (token_matches r token ≡ true) ↔ Presents r token
unfolding after_scheme
token_matches_iff r token = (
  matches→Presents r token,
  λ e.
      token_matches_lem r token
      ∙ ap (λ a. after_scheme token (cut_prefix a (bytes "Bearer "))) e
      ∙ ap (after_scheme token) (cut_prefix-append (bytes "Bearer ") token)
      ∙ same_refl token,
)

false≢true : false ≡ true → ⊥
false≢true e = absurd cc

unauthorized :
    (token : Bytes) (r : Request)
    → same token [] ≡ false
    → is_api_path r.path ≡ true
    → token_matches r token ≡ false
    → IsAuthorized token r
    → ⊥
unauthorized token r e a m (inl n) = false≢true (sym e ∙ (ap (λ t. same t []) n ∙ same_refl []))
unauthorized token r e a m (inr (inl a')) = false≢true (sym a' ∙ a)
unauthorized token r e a m (inr (inr pr)) = false≢true (sym m ∙ (token_matches_iff r token).1 pr)

module _ (token : Bytes) (next : Handler) (r : Request) (s : Slots) where
  -- The token check passes a request on unchanged, or it answers 401 and takes no slot.
  with_token_auth-cases :
      (IsAuthorized token r × (with_token_auth token next r s ≡ next r s))
      ⊎ ((IsAuthorized token r → ⊥) × (with_token_auth token next r s ≡ (answer 401, s)))
  unfolding with_token_auth
  with_token_auth-cases = elim (Bool-cases (same token [])) [
    | inl e ↦ inl (inl (same→eq token [] e), rw (e, with_token_auth) refl)
    | inr e ↦ elim (Bool-cases (is_api_path r.path)) [
      | inr a ↦ inl (inr (inl a), rw (e, a, with_token_auth) refl)
      | inl a ↦ elim (Bool-cases (token_matches r token)) [
        | inl m ↦ inl (inr (inr (matches→Presents r token m)), rw (e, a, m, with_token_auth) refl)
        | inr m ↦ inr (unauthorized token r e a m, rw (e, a, m, with_token_auth) refl)
      ]
    ]
  ]

module _ (split_host_port : Bytes → Option Bytes) (parse_ip : Bytes → Bool) where
  -- The whole chain. A request whose Host header is not accepted is answered 421, whatever its token
  -- is; one that the host check accepts, but that asks for an /api path without presenting the
  -- configured token, is answered 401; neither takes a slot. Every other request reaches the limits.
  pub chain_lem :
      (cfg : Config) (r : Request) (s : Slots)
      → ((host_allowed split_host_port parse_ip r.host cfg.allowed_hosts ≡ false)
          × (chain split_host_port parse_ip cfg r s ≡ (answer 421, s)))
        ⊎ ((host_allowed split_host_port parse_ip r.host cfg.allowed_hosts ≡ true)
            × (((IsAuthorized cfg.token r → ⊥)
                  × (chain split_host_port parse_ip cfg r s ≡ (answer 401, s)))
                ⊎ (IsAuthorized cfg.token r
                    × (chain split_host_port parse_ip cfg r s
                        ≡ with_request_limits (with_defaults cfg.limits) r s))))
  unfolding chain with_host_check
  chain_lem cfg r s =
      elim (Bool-cases (host_allowed split_host_port parse_ip r.host cfg.allowed_hosts)) [
        | inr e ↦ inl (e, rw (e, chain, with_host_check) refl)
        | inl e ↦
            let passed : chain split_host_port parse_ip cfg r s
                ≡ with_token_auth cfg.token (with_request_limits (with_defaults cfg.limits)) r s =
              rw (e, chain, with_host_check) refl in
            inr (
              e,
              elim (with_token_auth-cases cfg.token (with_request_limits (with_defaults cfg.limits))
                  r s) [
                    | inl (ok, same_as) ↦ inr (ok, passed ∙ same_as)
                    | inr (bad, refused) ↦ inl (bad, passed ∙ refused)
                  ],
            )
      ]
