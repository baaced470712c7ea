-- ===== src/Init/Examples.antt =====
-- cmd/owlwatch-init/main.go as root, over a data volume that root owns.
use owlwatch.Prelude.{
  ℕ, ◌≡◌, ◌⊎◌, inl, inr, refl, sym, ap, ◌∙◌, true, false, List, [], ◌∷◌, Option, some, ◌==◌,
  if◌then◌else◌, Bytes, bytes, same, same_refl, Bool-cases,
}
use owlwatch.Init.{
  Kernel, execs, main, prepare_data, drop_privileges, chown_entries, chown_if_needed, owned_by,
  run_uid, run_gid,
}
use owlwatch.Init.Drop.{IsPosix, Unprivileged, Prepared, main_lem}

record Process : Type 0 where
  groups : List ℕ
  gid : ℕ
  uid : ℕ
  owner : Bytes → Option (ℕ × ℕ)

some_is {ℓ} : {A : Type ℓ} {a b : A} → some a ≡ some b → b ≡ a
some_is e = cc

-- The volume has one file; no call fails.
abbrev linux : Kernel
linux = record {
  State = Process;
  euid = λ s. s.uid;
  mkdir_all = λ path s. some s;
  lstat = λ path s. some (s.owner path);
  lchown = λ path u g s.
      some (record s { owner = λ other. if same path other then some (u, g) else s.owner other });
  walk = λ dir s. some (bytes "owlwatch.db") ∷ [];
  clear_groups = λ s. some (record s { groups = [] });
  setgid = λ g s. some (record s { gid = g });
  setuid = λ u s. some (record s { uid = u });
}

chown_keeps :
    (path other : Bytes) (x : ℕ × ℕ) (owner : Bytes → Option (ℕ × ℕ))
    → owner other ≡ some x
    → (if same path other then some x else owner other) ≡ some x
chown_keeps path other x owner e = elim (Bool-cases (same path other)) [
  | inl is ↦ rw is refl
  | inr ne ↦ rw ne e
]

abbrev linux_posix : IsPosix linux
linux_posix = record {
  groups = λ s. s.groups;
  gid = λ s. s.gid;
  uid = λ s. s.uid;
  owner = λ s. s.owner;
  clears = λ s s' e. (ap (λ t. t.groups) (some_is e), ap (λ t. t.owner) (some_is e));
  sets_gid = λ g s s' e.
      (ap (λ t. t.gid) (some_is e), ap (λ t. t.groups) (some_is e), ap (λ t. t.owner) (some_is e));
  sets_uid = λ u s s' e. (
    ap (λ t. t.uid) (some_is e),
    ap (λ t. t.gid) (some_is e),
    ap (λ t. t.groups) (some_is e),
    ap (λ t. t.owner) (some_is e),
  );
  stats = λ path s u g e. sym (some_is e);
  chowns = λ path u g s s' e. (
    ap (λ t. t.owner path) (some_is e) ∙ rw (same_refl path) refl,
    λ other k. ap (λ t. t.owner other) (some_is e) ∙ chown_keeps path other (u, g) s.owner k,
  );
}

abbrev as_root : Process
as_root = record { groups = 0 ∷ 10 ∷ []; gid = 0; uid = 0; owner = λ _. some (0, 0) }

abbrev dropped : Process
dropped = record {
  groups = [];
  gid = run_gid;
  uid = run_uid;
  owner = λ path.
      if same (bytes "/data/owlwatch.db") path
      then some (run_uid, run_gid)
      else if same (bytes "/data") path
      then some (run_uid, run_gid)
      else some (0, 0);
}

root-execs : main linux as_root ≡ execs dropped
unfolding main prepare_data drop_privileges chown_entries chown_if_needed owned_by same
root-execs = refl

main_lem_example :
    (((as_root.uid == 0) ≡ true)
      × Unprivileged linux linux_posix dropped
      × Prepared linux linux_posix dropped)
    ⊎ (((as_root.uid == 0) ≡ false) × (dropped ≡ as_root))
main_lem_example = main_lem linux linux_posix as_root dropped root-execs
