-- ===== src/Init/Drop.antt =====
-- cmd/owlwatch-init/main.go: the state in which owlwatch is started.
use owlwatch.Prelude.{
  ℕ, ◌≡◌, ◌⊎◌, inl, inr, refl, sym, ap, ap₂, subst, ◌∙◌, arith, true, false, List, [], ◌∷◌, ◌++◌,
  Option, none, some, ◌==◌, ==_iff, All, Bytes, bytes, Bool-cases, Option-cases, some-inj,
  none-some,
}
use owlwatch.Init.{
  Kernel, execs, fatal, owned_by, chown_if_needed, chown_entries, prepare_data, drop_privileges,
  main, data_dir, run_uid, run_gid,
}

-- What POSIX says of the calls, and of the owners that the data volume has.
pub record IsPosix (kernel : Kernel) : Type 0 where
  pub groups : kernel.State → List ℕ
  pub gid : kernel.State → ℕ
  pub uid : kernel.State → ℕ
  pub owner : kernel.State → Bytes → Option (ℕ × ℕ)
  pub clears :
      (s s' : kernel.State)
      → kernel.clear_groups s ≡ some s'
      → (groups s' ≡ []) × (owner s' ≡ owner s)
  pub sets_gid :
      (g : ℕ) (s s' : kernel.State)
      → kernel.setgid g s ≡ some s'
      → (gid s' ≡ g) × (groups s' ≡ groups s) × (owner s' ≡ owner s)
  pub sets_uid :
      (u : ℕ) (s s' : kernel.State)
      → kernel.setuid u s ≡ some s'
      → (uid s' ≡ u) × (gid s' ≡ gid s) × (groups s' ≡ groups s) × (owner s' ≡ owner s)
  pub stats :
      (path : Bytes) (s : kernel.State) (u g : ℕ)
      → kernel.lstat path s ≡ some (some (u, g))
      → owner s path ≡ some (u, g)
  pub chowns :
      (path : Bytes) (u g : ℕ) (s s' : kernel.State)
      → kernel.lchown path u g s ≡ some s'
      → (owner s' path ≡ some (u, g))
        × ((other : Bytes) → owner s other ≡ some (u, g) → owner s' other ≡ some (u, g))

execs-inj : {S : Type 0} {a b : S} → execs a ≡ execs b → a ≡ b
execs-inj e = cc

fatal_execs : {S : Type 0} {s : S} → fatal ≡ execs s → ⊥
fatal_execs e = cc

module _ (kernel : Kernel) (posix : IsPosix kernel) where
  open kernel use {State, euid, mkdir_all, lstat, lchown, walk, clear_groups, setgid, setuid}
  open posix use {groups, gid, uid, owner}

  owned_by_lem :
      (u g : ℕ) (stat : Option (ℕ × ℕ)) → owned_by kernel u g stat ≡ true → stat ≡ some (u, g)
  unfolding owned_by
  owned_by_lem u g none h = cc
  owned_by_lem u g (some (u', g')) h =
      let both : (u' ≡ u) × (g' ≡ g) =
        (ground (arith, ==_iff u' u, ==_iff g' g), ground (arith, ==_iff u' u, ==_iff g' g)) in
      ap₂ (λ a b. some (a, b)) both.0 both.1

  chown_if_needed_lem :
      (path : Bytes) (u g : ℕ) (s s' : State)
      → chown_if_needed kernel path u g s ≡ some s'
      → (owner s' path ≡ some (u, g))
        × ((other : Bytes) → owner s other ≡ some (u, g) → owner s' other ≡ some (u, g))
  unfolding chown_if_needed
  chown_if_needed_lem path u g s s' h = elim (Option-cases (lstat path s)) [
    | inl e ↦ absurd (none-some {a = s'} (simp (e, chown_if_needed) at h))
    | inr (stat, e) ↦ elim (Bool-cases (owned_by kernel u g stat)) [
      | inl own ↦
          let is = some-inj (simp (e, own, chown_if_needed) at h) in
          subst
            (λ t.
              (owner t path ≡ some (u, g))
              × ((other : Bytes) → owner s other ≡ some (u, g) → owner t other ≡ some (u, g)))
            is (posix.stats path s u g (e ∙ ap some (owned_by_lem u g stat own)), λ other k. k)
      | inr other_own ↦ posix.chowns path u g s s' (simp (e, other_own, chown_if_needed) at h)
    ]
  ]

  -- Each entry that the walk gives, and no walk error.
  abbrev pub Owned : Bytes → State → List (Option Bytes) → Type 0
  Owned dir s entries =
      All
        (λ e.
          (path : Bytes) × (e ≡ some path)
          × (owner s (dir ++ bytes "/" ++ path) ≡ some (run_uid, run_gid)))
        entries

  chown_entries_lem :
      (dir : Bytes) (entries : List (Option Bytes)) (s s' : State)
      → chown_entries kernel dir run_uid run_gid entries s ≡ some s'
      → Owned dir s' entries
        × ((other : Bytes)
            → owner s other ≡ some (run_uid, run_gid)
            → owner s' other ≡ some (run_uid, run_gid))
  unfolding chown_entries
  chown_entries_lem dir [] s s' h = (tt, λ other k. ap (λ t. owner t other) (sym (some-inj h)) ∙ k)
  chown_entries_lem dir (none ∷ entries) s s' h = absurd (none-some h)
  chown_entries_lem dir (some path ∷ entries) s s' h =
      elim (Option-cases (chown_if_needed kernel (dir ++ bytes "/" ++ path) run_uid run_gid s)) [
        | inl e ↦ absurd (none-some {a = s'} (simp (e, chown_entries) at h))
        | inr (s1, e) ↦
            let (here, kept) =
              chown_if_needed_lem (dir ++ bytes "/" ++ path) run_uid run_gid s s1 e in
            let (rest, later) =
              chown_entries_lem dir entries s1 s' (simp (e, chown_entries) at h) in
            (
              ((path, refl, later (dir ++ bytes "/" ++ path) here), rest),
              λ other k. later other (kept other k),
            )
      ]

  -- The process runs as nonroot: no supplementary group, and the user and group of the image.
  abbrev pub Unprivileged : State → Type 0
  Unprivileged s = (groups s ≡ []) × (gid s ≡ run_gid) × (uid s ≡ run_uid)

  drop_privileges_lem :
      (s s' : State)
      → drop_privileges kernel run_uid run_gid s ≡ some s'
      → Unprivileged s' × (owner s' ≡ owner s)
  unfolding drop_privileges
  drop_privileges_lem s s' h = elim (Option-cases (clear_groups s)) [
    | inl e ↦ absurd (none-some {a = s'} (simp (e, drop_privileges) at h))
    | inr (s1, e1) ↦ elim (Option-cases (setgid run_gid s1)) [
      | inl e ↦ absurd (none-some {a = s'} (simp (e1, e, drop_privileges) at h))
      | inr (s2, e2) ↦
          let (cleared, owner1) = posix.clears s s1 e1 in
          let (in_group, kept1, owner2) = posix.sets_gid run_gid s1 s2 e2 in
          let (as_user, kept_gid, kept2, owner3) =
            posix.sets_uid run_uid s2 s' (simp (e1, e2, drop_privileges) at h) in
          ((kept2 ∙ kept1 ∙ cleared, kept_gid ∙ in_group, as_user), owner3 ∙ owner2 ∙ owner1)
    ]
  ]

  -- The volume is prepared: the directory and each entry of a walk of it belong to nonroot.
  pub Prepared : State → Type 0
  Prepared s =
      (before : State) × (owner s data_dir ≡ some (run_uid, run_gid))
      × Owned data_dir s (walk data_dir before)

  prepare_data_lem :
      (s s' : State) → prepare_data kernel data_dir run_uid run_gid s ≡ some s' → Prepared s'
  unfolding prepare_data Prepared
  prepare_data_lem s s' h = elim (Option-cases (mkdir_all data_dir s)) [
    | inl e ↦ absurd (none-some {a = s'} (simp (e, prepare_data) at h))
    | inr (s1, e1) ↦ elim (Option-cases (chown_if_needed kernel data_dir run_uid run_gid s1)) [
      | inl e ↦ absurd (none-some {a = s'} (simp (e1, e, prepare_data) at h))
      | inr (s2, e2) ↦
          let own = (chown_if_needed_lem data_dir run_uid run_gid s1 s2 e2).0 in
          let (entries, kept) =
            chown_entries_lem data_dir (walk data_dir s2) s2 s'
              (simp (e1, e2, prepare_data) at h) in
          (s2, kept data_dir own, entries)
    ]
  ]

  Prepared-owner : (s s' : State) → owner s' ≡ owner s → Prepared s → Prepared s'
  unfolding Prepared
  Prepared-owner s s' e (before, dir, entries) = (
    before,
    ap (λ f. f data_dir) e ∙ dir,
    subst
        (λ (f : Bytes → Option (ℕ × ℕ)).
          All
            (λ entry.
              (path : Bytes) × (entry ≡ some path)
              × (f (data_dir ++ bytes "/" ++ path) ≡ some (run_uid, run_gid)))
            (walk data_dir before))
        (sym e) entries,
  )

  -- Whenever owlwatch is started by a privileged entrypoint, the process has no supplementary group
  -- and runs as the nonroot user and group, and the data directory with all that a walk of it found is
  -- theirs: no failed call leads to a start. An unprivileged entrypoint starts it as things are. The
  -- calls are taken to do what POSIX says.
  pub main_lem :
      (s s' : State)
      → main kernel s ≡ execs s'
      → (((euid s == 0) ≡ true) × Unprivileged s' × Prepared s')
        ⊎ (((euid s == 0) ≡ false) × (s' ≡ s))
  unfolding main
  main_lem s s' h = elim (Bool-cases (euid s == 0)) [
    | inr user ↦ inr (user, sym (execs-inj (simp (user, main) at h)))
    | inl root ↦ elim (Option-cases (prepare_data kernel data_dir run_uid run_gid s)) [
      | inl e ↦ absurd (fatal_execs {s = s'} (simp (root, e, main) at h))
      | inr (s1, e1) ↦ elim (Option-cases (drop_privileges kernel run_uid run_gid s1)) [
        | inl e ↦ absurd (fatal_execs {s = s'} (simp (root, e1, e, main) at h))
        | inr (s2, e2) ↦
            let is = execs-inj (simp (root, e1, e2, main) at h) in
            let (dropped, owners) = drop_privileges_lem s1 s2 e2 in
            inl (
              root,
              subst Unprivileged is dropped,
              subst Prepared is (Prepared-owner s1 s2 owners (prepare_data_lem s s1 e1)),
            )
      ]
    ]
  ]
