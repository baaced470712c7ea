-- ===== src/Init.antt =====
-- cmd/owlwatch-init/main.go: the entrypoint of the container, up to the exec of owlwatch. The kernel
-- is an argument: its state, as far as the program can change it, and the calls of the code; `none` is
-- an error.
pub mod Drop
mod Examples
use owlwatch.Prelude.{
  ℕ, Bool, true, false, ◌&&◌, List, [], ◌∷◌, ◌++◌, Option, none, some, ◌==◌, if◌then◌else◌, Bytes,
  bytes,
}

pub record Kernel : Type 1 where
  pub State : Type 0
  pub euid : State → ℕ
  pub mkdir_all : Bytes → State → Option State
  -- The owner of a file: `none` where the platform does not tell.
  pub lstat : Bytes → State → Option (Option (ℕ × ℕ))
  pub lchown : Bytes → ℕ → ℕ → State → Option State
  -- What fs.WalkDir gives below a directory, in order; `none` is a walk error.
  pub walk : Bytes → State → List (Option Bytes)
  pub clear_groups : State → Option State
  pub setgid : ℕ → State → Option State
  pub setuid : ℕ → State → Option State

abbrev pub data_dir : Bytes
data_dir = bytes "/data"

abbrev pub run_uid : ℕ
run_uid = 65532

abbrev pub run_gid : ℕ
run_gid = 65532

-- The program replaces itself with owlwatch in the state given, or exits with an error.
pub data Outcome (S : Type 0) : Type 0 where
  execs : S → Outcome S
  fatal : Outcome S

module _ (kernel : Kernel) where
  open kernel use {State, euid, mkdir_all, lstat, lchown, walk, clear_groups, setgid, setuid}

  unfoldable pub owned_by : ℕ → ℕ → Option (ℕ × ℕ) → Bool
  owned_by uid gid none = false
  owned_by uid gid (some (u, g)) = (u == uid) && (g == gid)

  unfoldable pub chown_if_needed : Bytes → ℕ → ℕ → State → Option State
  unfolding owned_by
  chown_if_needed path uid gid s = elim (lstat path s) [
    | none ↦ none
    | some stat ↦ if owned_by uid gid stat then some s else lchown path uid gid s
  ]

  -- The walk below the directory.
  unfoldable pub chown_entries : Bytes → ℕ → ℕ → List (Option Bytes) → State → Option State
  unfolding chown_if_needed
  chown_entries dir uid gid [] s = some s
  chown_entries dir uid gid (none ∷ entries) s = none
  chown_entries dir uid gid (some path ∷ entries) s =
      elim (chown_if_needed (dir ++ bytes "/" ++ path) uid gid s) [
        | none ↦ none
        | some s' ↦ chown_entries dir uid gid entries s'
      ]

  unfoldable pub prepare_data : Bytes → ℕ → ℕ → State → Option State
  unfolding chown_entries
  prepare_data dir uid gid s = elim (mkdir_all dir s) [
    | none ↦ none
    | some s1 ↦ elim (chown_if_needed dir uid gid s1) [
      | none ↦ none
      | some s2 ↦ chown_entries dir uid gid (walk dir s2) s2
    ]
  ]

  unfoldable pub drop_privileges : ℕ → ℕ → State → Option State
  drop_privileges uid gid s = elim (clear_groups s) [
    | none ↦ none
    | some s1 ↦ elim (setgid gid s1) [ none ↦ none | some s2 ↦ setuid uid s2 ]
  ]

  unfoldable pub main : State → Outcome State
  unfolding prepare_data drop_privileges
  main s =
      if euid s == 0
      then elim (prepare_data data_dir run_uid run_gid s) [
        | none ↦ fatal
        | some s1 ↦ elim (drop_privileges run_uid run_gid s1) [ none ↦ fatal | some s2 ↦ execs s2 ]
      ]
      else execs s
