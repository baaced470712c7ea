-- ===== src/Store/Effects.antt =====
-- internal/store/store.go: `Insert` and `Prune`, row by row.
use owlwatch.Prelude.{ℕ, ◌-◌, ◌/◌, ◌≡◌, ap, ◌∙◌, none, some, ltb, ◌==◌, if◌then◌else◌, Bytes}
use owlwatch.Metrics.{Snapshot}
use owlwatch.Store.{Arithmetic, Database, written, sample_row, insert, prune}
use owlwatch.Store.Writes.{
  IsTransactional, with_sample, without, meets, reading, with_disks-samples, with_disks-disks,
  insert-view, prune-view,
}

module _ {F : Type 0} (db : Database F) (sql : IsTransactional db) (floats : Arithmetic F) where
  open db use {State}
  open sql use {view}

  -- An insert that succeeds leaves the row of the snapshot at its timestamp, in place of a row that was
  -- there, and all other samples as they were; of the disk samples it replaces those at its
  -- timestamp of the mounts that it reports, by the last reading of each, and no other.
  pub insert_lem :
      (snap : Snapshot F) (s s' : State)
      → insert db floats snap s ≡ written s'
      → (ts : ℕ) (m : Bytes)
      → ((view s').samples ts
          ≡ (if ts == snap.ts then some (sample_row floats snap) else (view s).samples ts))
        × ((view s').disks ts m ≡ (
            if ts == snap.ts
            then reading m snap.disks ((view s).disks ts m)
            else (view s).disks ts m))
  unfolding sample_row with_sample
  insert_lem snap s s' h ts m =
      let t = with_sample (sample_row floats snap) (view s) in
      let new = insert-view db sql floats snap s s' h in
      (
        ap (λ u. u.samples ts) new ∙ ap (λ f. f ts) (with_disks-samples snap.ts snap.disks t),
        ap (λ u. u.disks ts m) new ∙ with_disks-disks snap.ts snap.disks t ts m,
      )

  -- A prune that succeeds removes the rows from before its cutoff, from both tables, and no other.
  pub prune_lem :
      (now older_than : ℕ) (s s' : State)
      → prune db now older_than s ≡ written s'
      → (ts : ℕ) (m : Bytes)
      → let old = ltb ts ((now - older_than) / 1000000) in
        ((view s').samples ts ≡ (if old then none else (view s).samples ts))
        × ((view s').disks ts m ≡ (if old then none else (view s).disks ts m))
  unfolding without meets
  prune_lem now older_than s s' h ts m =
      let new = prune-view db sql now older_than s s' h in
      (ap (λ u. u.samples ts) new, ap (λ u. u.disks ts m) new)
