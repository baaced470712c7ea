-- ===== src/Server/Federation/Fleet.antt =====
-- internal/server/federation.go: `allServers` and `localAliasedBy`.
use owlwatch.Prelude.{
  ◌≡◌, ◌≢◌, ◌⊎◌, inl, inr, refl, true, false, List, [], ◌∷◌, Option, none, some, Bytes, same,
  same→eq, same_refl, Bool-cases, Option-cases, All, All-map, Member, Bool, not, ◌&&◌, ◌==◌, ==_iff,
  arith, sym, subst, ◌∙◌,
}
use owlwatch.Metrics.{ServerSummary, HostInfo}
use owlwatch.Server.Federation.{
  Local, View, local_summary, aliases, aliased_in, local_aliased_by, peers_of, all_servers,
}

named : (s : Bytes) → s ≢ [] → same s [] ≡ false
named s ne = elim (Bool-cases (same s [])) [ inl e ↦ absurd (ne (same→eq s [] e)) | inr e ↦ e ]

-- The test of `localAliasedBy` on what a peer has reported of its host.
matches : HostInfo → HostInfo → Bool
matches host h =
    not (h.boot_time == 0) && same h.hostname host.hostname && (h.boot_time == host.boot_time)

module _ {F : Type 0} where
  -- The peer has reported the hostname and the boot time of this machine, and a boot time at all.
  pub record SameMachine (host : HostInfo) (s : ServerSummary F) : Type 0 where
    pub info : HostInfo
    pub reported : s.host ≡ some info
    pub hostname : info.hostname ≡ host.hostname
    pub boot_time : info.boot_time ≡ host.boot_time
    pub booted : info.boot_time ≢ 0

  -- No peer of the list is this machine.
  abbrev pub Unaliased : HostInfo → List (ServerSummary F) → Type 0
  Unaliased host sums = All (λ s. SameMachine host s → ⊥) sums

  aliases_lem :
      (host h : HostInfo) (s : ServerSummary F) → s.host ≡ some h → aliases host s ≡ matches host h
  unfolding aliases matches
  aliases_lem host h s is = rw (is, aliases) refl

  aliases-SameMachine :
      (host : HostInfo) (s : ServerSummary F) → aliases host s ≡ true → SameMachine host s
  unfolding aliases matches
  aliases-SameMachine host s e = elim (Option-cases s.host) [
    | inl absent ↦
        let off : aliases host s ≡ false = rw (absent, aliases) refl in
        absurd (let no : ⊥ = cc in no)
    | inr (h, is) ↦
        let test : matches host h ≡ true = sym (aliases_lem host h s is) ∙ e in
        record {
          info = h;
          reported = is;
          hostname = same→eq h.hostname host.hostname (ground arith);
          boot_time = (==_iff h.boot_time host.boot_time).0 (ground arith);
          booted = λ z. absurd (let no : ⊥ = ground arith in no);
        }
  ]

  SameMachine-aliases :
      (host : HostInfo) (s : ServerSummary F) → SameMachine host s → aliases host s ≡ true
  unfolding matches
  SameMachine-aliases host s m =
      aliases_lem host m.info s m.reported
      ∙ (let named : same m.info.hostname host.hostname ≡ true =
            subst (λ n. same m.info.hostname n ≡ true) m.hostname (same_refl m.info.hostname) in
          let up : (m.info.boot_time == 0) ≡ false = elim (Bool-cases (m.info.boot_time == 0)) [
            | inl e ↦ absurd (m.booted ((==_iff m.info.boot_time 0).0 e))
            | inr e ↦ e
          ] in
          rw (up, named) ((==_iff m.info.boot_time host.boot_time).1 m.boot_time))

  unaliased :
      (host : HostInfo) (s : ServerSummary F) → aliases host s ≡ false → SameMachine host s → ⊥
  unaliased host s e m = let on = SameMachine-aliases host s m in let no : ⊥ = cc in no

  aliased_in-cases :
      (host : HostInfo) (sums : List (ServerSummary F))
      → All (λ s. s.id ≢ []) sums
      → (All (λ s. aliases host s ≡ false) sums × (same (aliased_in host sums) [] ≡ true))
        ⊎ ((sum : ServerSummary F) × Member sum sums
            × (aliases host sum ≡ true)
            × (same (aliased_in host sums) [] ≡ false))
  unfolding aliased_in
  aliased_in-cases host [] ids = inl (tt, same_refl [])
  aliased_in-cases host (sum ∷ sums) (ne, ids) = elim (Bool-cases (aliases host sum)) [
    | inl e ↦ inr (sum, inl refl, e, rw (e, aliased_in) (named sum.id ne))
    | inr e ↦ elim (aliased_in-cases host sums ids) [
      | inl (all, none_of) ↦ inl ((e, all), rw (e, aliased_in) none_of)
      | inr (other, m, is, name) ↦ inr (other, inr m, is, rw (e, aliased_in) name)
    ]
  ]

  -- Where every peer has an id and the local summary is `sum`, the fleet is the peers as the second read
  -- answers them, in their configured order, with the local server before them unless, at the first
  -- read, one of them had reported the hostname and the boot time of this same machine, and a boot
  -- time that is not 0.
  pub all_servers_lem :
      (l : Local F) (asked v : Option (View F)) (sum : ServerSummary F)
      → local_summary l ≡ some sum
      → All (λ s. s.id ≢ []) (peers_of asked)
      → (Unaliased l.host (peers_of asked) × (all_servers l asked v ≡ some (sum ∷ peers_of v)))
        ⊎ ((same_machine : ServerSummary F) × Member same_machine (peers_of asked)
            × SameMachine l.host same_machine
            × (all_servers l asked v ≡ some (peers_of v)))
  unfolding all_servers local_aliased_by peers_of
  all_servers_lem l none v sum e ids =
      inl (tt, rw (same_refl [], e, all_servers, local_aliased_by, peers_of) refl)
  all_servers_lem l (some asked) v sum e ids = elim (aliased_in-cases l.host asked.fleet ids) [
    | inl (all, none_of) ↦
        inl (All-map (λ s off. unaliased l.host s off) _ all, rw (none_of, e, all_servers) refl)
    | inr (other, m, is, name) ↦
        inr (other, m, aliases-SameMachine l.host other is, rw (name, all_servers) refl)
  ]
