-- ===== src/Server/Federation/Actions.antt =====
-- internal/server/actions.go: `requireToken` behind the middleware chain.
use owlwatch.Prelude.{
  ℕ, ◌≡◌, ◌⊎◌, inl, inr, refl, sym, ap, ◌∙◌, Bool, true, false, [], Option, Bytes, bytes, same_refl,
}
use owlwatch.Server.Middleware.{Request, Slots, answer, serve, Class, Config, is_api_path, chain}
use owlwatch.Server.Middleware.Access.{Presents, chain_lem}
use owlwatch.Server.Federation.Routes.{Reply, error, require_token}

true≢false : true ≡ false → ⊥
true≢false e = absurd cc

-- An answer serves no request.
not_served : (st : ℕ) (o : Option Class) → answer st ≡ serve o → ⊥
not_served st o e = absurd cc

module _ (split_host_port : Bytes → Option Bytes) (parse_ip : Bytes → Bool) {A : Type 0} where
  -- A request under /api that the chain lets through to a mutating handler either presents the
  -- token that the server is configured with, or the server has none and the handler is not run:
  -- the answer is 403.
  pub require_token-chain :
      (cfg : Config) (r : Request) (s s' : Slots) (c : Option Class) (next : Reply A)
      → is_api_path r.path ≡ true
      → chain split_host_port parse_ip cfg r s ≡ (serve c, s')
      → Presents r cfg.token
        ⊎ ((cfg.token ≡ [])
            × (require_token cfg.token next
                ≡ error 403 (bytes "this action requires OWLWATCH_TOKEN to be set on the server")))
  unfolding require_token
  require_token-chain cfg r s s' c next api served =
      elim (chain_lem split_host_port parse_ip cfg r s) [
        | inl (h, e) ↦ absurd (not_served 421 c (ap (λ o. o.0) (sym e ∙ served)))
        | inr (h, inl (u, e)) ↦ absurd (not_served 401 c (ap (λ o. o.0) (sym e ∙ served)))
        | inr (h, inr (inl empty, e)) ↦ inr (empty, rw (empty, same_refl [], require_token) refl)
        | inr (h, inr (inr (inl ungated), e)) ↦ absurd (true≢false (sym api ∙ ungated))
        | inr (h, inr (inr (inr shown), e)) ↦ inl shown
      ]
