-- ===== src/Server/Federation/Reboot.antt =====
-- internal/server/reboot.go and federation.go: restarts, of this server and of a peer.
use owlwatch.Prelude.{
  ℕ, zero, suc, ◌<◌, ◌≡◌, ◌↔◌, inl, inr, refl, sym, ap, ◌∙◌, arith, Bool, true, false, ◌==◌, ==_iff,
  List, ◌++◌, Option, some, Bytes, bytes, same, lookup, ltb, leb, ◌&&◌, if◌then◌else◌, Bool-cases,
  length,
}
use owlwatch.Metrics.{ServerSummary}
use owlwatch.Peers.{Peer}
use owlwatch.Peers.Requests.{
  failed, peer_unavailable, refused, Exchange, not_built, no_response, response, Sent, bearer,
  reason_of, reboot_result, reboot,
}
use owlwatch.Server.Federation.{View, peer_summary}
use owlwatch.Server.Federation.Routes.{
  Reply, status_of, handle_reboot, rebooted, handle_server_reboot,
}

-- The state after `k` requests for a restart.
pub requests : Bool → ℕ → Bool × ℕ → Bool × ℕ
requests available zero s = s
requests available (suc k) s = requests available k (handle_reboot available s).1

again : (k : ℕ) (n : ℕ) → requests true k (true, n) ≡ (true, n)
unfolding requests handle_reboot
again zero n = refl
again (suc k) n = again k n

-- However many requests for a restart a server that can restart accepts, at least one, it begins
-- one.
pub handle_reboot_once : (k : ℕ) → 0 < k → (requests true k (false, 0)).1 ≡ 1
unfolding requests handle_reboot
handle_reboot_once zero h = absurd (omega arith)
handle_reboot_once (suc k) h = ap (λ s. s.1) (again k 1)

refused_502 :
    (c d : Bool) (r x : Bytes)
    → status_of (
        rebooted (
          if c
          then failed (refused r)
          else if d
          then failed (refused x)
          else failed peer_unavailable))
      ≡ 502
unfolding status_of rebooted
refused_502 true d r x = refl
refused_502 false true r x = refl
refused_502 false false r x = refl

not_accepted : (n : ℕ) → n ≡ 502 → n ≡ 202 → ⊥
not_accepted n e h = omega (arith, e, h)

-- A reply of 202 to a proxied restart comes from a peer's 202.
accepted :
    (e : Exchange Bytes)
    → status_of (rebooted (reboot_result e)) ≡ 202
    → (b : Option Bytes) × (e ≡ response 202 b)
unfolding rebooted reboot_result status_of
accepted not_built h = absurd (omega arith)
accepted no_response h = absurd (omega arith)
accepted (response status b) h = elim (Bool-cases (status == 202)) [
  | inl e ↦ (b, ap (λ s. response s b) ((==_iff status 202).0 e))
  | inr e ↦
      let refusal : status_of (rebooted (reboot_result (response status b))) ≡ 502 =
        rw (e, reboot_result)
          (refused_502 (leb 400 status && ltb status 500 && ltb 0 (length (reason_of b)))
            (status == 401) (reason_of b) _) in
      absurd (not_accepted _ refusal h)
]

ok_202 : (b : Option Bytes) → status_of (rebooted (reboot_result (response 202 b))) ≡ 202
unfolding rebooted reboot_result status_of
ok_202 b = refl

-- The request that a restart of the peer sends.
abbrev pub restart_request : Peer → Sent
restart_request p = record {
  post = true;
  url = p.url ++ bytes "/api/reboot";
  authorization = bearer p;
}

module _ {F S : Type 0} (peer_of : S → Peer) (http : Sent → Exchange Bytes) where
  -- A restart of a peer that is in the fleet, asked of the hub, is answered 202 exactly when the
  -- peer itself answers 202 to the hub's authorized POST.
  pub handle_server_reboot_iff :
      (own : Reply Unit) (v : Option (View F)) (id : Bytes) (sum : ServerSummary F)
      (states : List (Bytes × S)) (st : S)
      → same id (bytes "local") ≡ false
      → peer_summary v id ≡ some sum
      → lookup id states ≡ some st
      → (status_of (handle_server_reboot own v id (reboot peer_of http id states)) ≡ 202)
        ↔ ((b : Option Bytes) × (http (restart_request (peer_of st)) ≡ response 202 b))
  unfolding handle_server_reboot reboot
  handle_server_reboot_iff own v id sum states st ne known found =
      let proxied : handle_server_reboot own v id (reboot peer_of http id states)
          ≡ rebooted (reboot_result (http (restart_request (peer_of st)))) =
        rw (ne, known, found, handle_server_reboot, reboot) refl in
      (
        λ h. accepted (http (restart_request (peer_of st))) (sym (ap status_of proxied) ∙ h),
        λ h.
            ap status_of proxied
            ∙ ap (λ e. status_of (rebooted (reboot_result e))) h.1
            ∙ ok_202 h.0,
      )
