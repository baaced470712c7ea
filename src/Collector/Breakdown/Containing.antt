-- ===== src/Collector/Breakdown/Containing.antt =====
-- internal/collector/disk_usage.go: which disk a path belongs to.
use owlwatch.Prelude.{
  ◌≡◌, ◌⊎◌, inl, inr, refl, sym, subst, arith, Bool, true, false, ◌&&◌, List, [], ◌∷◌, Option, none,
  some, some-inj, none-some, All, Member, Bytes, Bool-cases,
}
use owlwatch.Metrics.{DiskMetrics}
use owlwatch.Collector.Breakdown.{Paths, path_within, longer, best_disk, containing_disk}

shut : (a b : Bool) → b ≡ false → (a && b) ≡ false
shut true b e = e
shut false b e = refl

closed_by : (a b : Bool) → a ≡ false → (a && b) ≡ false
closed_by a b e = rw e refl

open_not : (a : Bool) → (a && true) ≡ false → a ≡ false
open_not true e = e
open_not false e = refl

no_longer :
    {F : Type 0} (a : Bool) (d b q : DiskMetrics F)
    → (a && longer (some b) d) ≡ false
    → longer (some q) b ≡ false
    → (a && longer (some q) d) ≡ false
unfolding longer
no_longer true d b q out below = ground arith
no_longer false d b q out below = refl

module _ {F : Type 0} (paths : Paths) (path : Bytes) where
  open paths use {clean}

  -- The path lies within the disk's mount.
  unfoldable pub holds : DiskMetrics F → Bool
  unfolding path_within
  holds d = path_within paths path (clean d.mount)

  -- No disk of the list holds the path, with a longer mount than `d`.
  Longest : DiskMetrics F → List (DiskMetrics F) → Type 0
  Longest d disks = All (λ e. (holds e && longer (some d) e) ≡ false) disks

  Bounded : DiskMetrics F → Option (DiskMetrics F) → Type 0
  Bounded d none = Unit
  Bounded d (some b) = longer (some d) b ≡ false

  -- The answer of the loop, from `best`.
  Best : Option (DiskMetrics F) → List (DiskMetrics F) → Option (DiskMetrics F) → Type 0
  Best best disks none = (best ≡ none) × All (λ d. holds d ≡ false) disks
  Best best disks (some d) =
      ((best ≡ some d) ⊎ (Member d disks × (holds d ≡ true))) × Bounded d best × Longest d disks

  among :
      (d : DiskMetrics F) (disks : List (DiskMetrics F)) (q : DiskMetrics F)
      → holds d ≡ true
      → (some d ≡ some q) ⊎ (Member q disks × (holds q ≡ true))
      → Member q (d ∷ disks) × (holds q ≡ true)
  among d disks q in_it (inl is) =
      (inl (sym (some-inj is)), subst (λ e. holds e ≡ true) (some-inj is) in_it)
  among d disks q in_it (inr (m, q_in)) = (inr m, q_in)

  further :
      (best : Option (DiskMetrics F)) (d : DiskMetrics F) (disks : List (DiskMetrics F))
      (q : DiskMetrics F)
      → (best ≡ some q) ⊎ (Member q disks × (holds q ≡ true))
      → (best ≡ some q) ⊎ (Member q (d ∷ disks) × (holds q ≡ true))
  further best d disks q (inl is) = inl is
  further best d disks q (inr (m, q_in)) = inr (inr m, q_in)

  takes :
      (best : Option (DiskMetrics F)) (d : DiskMetrics F) (disks : List (DiskMetrics F))
      (r : Option (DiskMetrics F))
      → holds d ≡ true
      → longer best d ≡ true
      → Best (some d) disks r
      → Best best (d ∷ disks) r
  unfolding Best Bounded Longest longer
  takes best d disks none in_it more (is, all) = absurd (none-some (sym is))
  takes none d disks (some q) in_it more (from, below, all) =
      (inr (among d disks q in_it from), tt, (shut (holds d) _ below, all))
  takes (some b) d disks (some q) in_it more (from, below, all) =
      (inr (among d disks q in_it from), ground arith, (shut (holds d) _ below, all))

  leaves :
      (best : Option (DiskMetrics F)) (d : DiskMetrics F) (disks : List (DiskMetrics F))
      (r : Option (DiskMetrics F))
      → (holds d && longer best d) ≡ false
      → Best best disks r
      → Best best (d ∷ disks) r
  unfolding Best Bounded Longest longer
  leaves none d disks none out (is, all) = (is, (open_not (holds d) out, all))
  leaves (some b) d disks none out (is, all) = cc
  leaves none d disks (some q) out (from, below, all) =
      (further _ d disks q from, tt, (closed_by (holds d) _ (open_not (holds d) out), all))
  leaves (some b) d disks (some q) out (from, below, all) =
      (further _ d disks q from, below, (no_longer (holds d) d b q out below, all))

  best_disk-Best :
      (best : Option (DiskMetrics F)) (disks : List (DiskMetrics F))
      → Best best disks (best_disk paths path best disks)
  unfolding best_disk Best Bounded Longest longer holds
  best_disk-Best none [] = (refl, tt)
  best_disk-Best (some b) [] = (inl refl, ground arith, tt)
  best_disk-Best best (d ∷ disks) =
      elim (Bool-cases (path_within paths path (clean d.mount) && longer best d)) [
        | inl e ↦
            rw (e, best_disk)
              (takes best d disks (best_disk paths path (some d) disks) (ground arith)
                (ground arith) (best_disk-Best (some d) disks))
        | inr e ↦
            rw (e, best_disk)
              (leaves best d disks (best_disk paths path best disks) e (best_disk-Best best disks))
      ]

  -- What `containingDisk` answers: no disk, and none holds the path; or a disk of the list that holds
  -- it, and none that does so has a longer mount.
  unfoldable pub Containing : List (DiskMetrics F) → Option (DiskMetrics F) → Type 0
  unfolding holds longer
  Containing disks none = All (λ d. holds d ≡ false) disks
  Containing disks (some d) =
      Member d disks × (holds d ≡ true) × All (λ e. (holds e && longer (some d) e) ≡ false) disks

  Best-Containing :
      (disks : List (DiskMetrics F)) (r : Option (DiskMetrics F))
      → Best none disks r
      → Containing disks r
  unfolding Best Containing Longest
  Best-Containing disks none (is, all) = all
  Best-Containing disks (some d) (inl is, below, all) = absurd (none-some is)
  Best-Containing disks (some d) (inr (m, d_in), below, all) = (m, d_in, all)

  -- A path belongs to the reported disk that is mounted nearest above it: the answer is a disk whose
  -- mount the path lies within, and no disk that holds the path has a longer mount; it is none
  -- only where no disk holds the path.
  pub containing_disk-Containing :
      (disks : List (DiskMetrics F)) → Containing disks (containing_disk paths path disks)
  unfolding containing_disk
  containing_disk-Containing disks =
      Best-Containing disks (best_disk paths path none disks) (best_disk-Best none disks)
