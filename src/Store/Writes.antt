-- ===== src/Store/Writes.antt =====
-- internal/store/store.go: what the tables hold after `Insert` and `Prune`, for a database whose
-- transactions do what SQL says.
use owlwatch.Prelude.{
  ℕ, ◌-◌, ◌/◌, ◌≡◌, inl, inr, refl, sym, ap, ◌∙◌, arith, List, [], ◌∷◌, Option, none, some, ltb,
  leb, Bool, ◌==◌, if◌then◌else◌, Bytes, same, Bool-cases, Option-cases,
}
use owlwatch.Metrics.{Snapshot, DiskMetrics}
use owlwatch.Store.{
  Arithmetic, SampleRow, Database, Error, begin_insert, insert_sample, commit_insert, insert_disk,
  begin_prune, prune_samples, prune_disks, commit_prune, written, failed, sample_row, Table,
  samples, disk_samples, Comparison, is_less, is_at_most, is_equal, is_at_least, is_greater,
  put_disks, insert, prune,
}

-- The tables as maps: samples by their timestamp, disk samples by timestamp and mount.
pub record Tables (F : Type 0) : Type 0 where
  pub samples : ℕ → Option (SampleRow F)
  pub disks : ℕ → Bytes → Option F

-- What a comparison with a bound parameter means.
unfoldable pub meets : Comparison → ℕ → ℕ → Bool
meets is_less ts n = ltb ts n
meets is_at_most ts n = leb ts n
meets is_equal ts n = ts == n
meets is_at_least ts n = leb n ts
meets is_greater ts n = ltb n ts

module _ {F : Type 0} where
  -- INSERT OR REPLACE
  unfoldable pub with_sample : SampleRow F → Tables F → Tables F
  with_sample row t = record t { samples = λ ts. if ts == row.ts then some row else t.samples ts }

  unfoldable pub with_disk : ℕ → Bytes → F → Tables F → Tables F
  with_disk at mount pct t = record t {
    disks = λ ts m.
        if ts == at then (if same mount m then some pct else t.disks ts m) else t.disks ts m;
  }

  -- DELETE FROM ... WHERE ts op ?
  unfoldable pub without : Table → Comparison → ℕ → Tables F → Tables F
  unfolding meets
  without samples op n t = record t { samples = λ ts. if meets op ts n then none else t.samples ts }
  without disk_samples op n t = record t {
    disks = λ ts m. if meets op ts n then none else t.disks ts m;
  }

-- What SQL promises of a transaction whose steps succeed: `view` and `within` read the tables of a
-- state, and as an open transaction sees them.
pub record IsTransactional {F : Type 0} (db : Database F) : Type 0 where
  pub view : db.State → Tables F
  pub within : db.Tx → Tables F
  pub begins : (s : db.State) (tx : db.Tx) → db.begin s ≡ some tx → within tx ≡ view s
  pub puts_sample :
      (row : SampleRow F) (tx tx' : db.Tx)
      → db.put_sample row tx ≡ some tx'
      → within tx' ≡ with_sample row (within tx)
  pub puts_disk :
      (ts : ℕ) (mount : Bytes) (pct : F) (tx tx' : db.Tx)
      → db.put_disk ts mount pct tx ≡ some tx'
      → within tx' ≡ with_disk ts mount pct (within tx)
  pub deletes :
      (table : Table) (op : Comparison) (n : ℕ) (tx tx' : db.Tx)
      → db.delete_where table op n tx ≡ some tx'
      → within tx' ≡ without table op n (within tx)
  pub commits : (tx : db.Tx) (s : db.State) → db.commit tx ≡ some s → view s ≡ within tx

written-inj : {S : Type 0} {a b : S} → written a ≡ written b → a ≡ b
written-inj e = cc

failed_written : {S : Type 0} {e : Error} {s : S} → failed e ≡ written s → ⊥
failed_written e = cc

module _ {F : Type 0} where
  -- The tables after the disks of one snapshot.
  unfoldable pub with_disks : ℕ → List (DiskMetrics F) → Tables F → Tables F
  unfolding with_disk
  with_disks ts [] t = t
  with_disks ts (d ∷ ds) t = with_disks ts ds (with_disk ts d.mount d.used_pct t)

  -- The reading of mount `m` in a snapshot's disks, or else what was there.
  unfoldable pub reading : Bytes → List (DiskMetrics F) → Option F → Option F
  reading m [] old = old
  reading m (d ∷ ds) old = reading m ds (if same d.mount m then some d.used_pct else old)

  pub with_disks-samples :
      (at : ℕ) (ds : List (DiskMetrics F)) (t : Tables F) → (with_disks at ds t).samples ≡ t.samples
  unfolding with_disks with_disk
  with_disks-samples at [] t = refl
  with_disks-samples at (d ∷ ds) t = with_disks-samples at ds (with_disk at d.mount d.used_pct t)

  pub with_disks-disks :
      (at : ℕ) (ds : List (DiskMetrics F)) (t : Tables F) (ts : ℕ) (m : Bytes)
      → (with_disks at ds t).disks ts m
        ≡ (if ts == at then reading m ds (t.disks ts m) else t.disks ts m)
  unfolding with_disks with_disk reading
  with_disks-disks at [] t ts m = ground arith
  with_disks-disks at (d ∷ ds) t ts m =
      with_disks-disks at ds (with_disk at d.mount d.used_pct t) ts m
      ∙ elim (Bool-cases (ts == at)) [ inl e ↦ rw e refl | inr e ↦ rw e refl ]

module _ {F : Type 0} (db : Database F) (sql : IsTransactional db) where
  open db use {State, Tx, begin, put_sample, put_disk, delete_where, commit}
  open sql use {view, within}

  put_disks-view :
      (ts : ℕ) (ds : List (DiskMetrics F)) (tx : Tx) (s' : State)
      → put_disks db ts ds tx ≡ written s'
      → view s' ≡ with_disks ts ds (within tx)
  unfolding put_disks with_disks
  put_disks-view ts [] tx s' h = elim (Option-cases (commit tx)) [
    | inl e ↦ absurd (failed_written {e = commit_insert} {s = s'} (simp (e, put_disks) at h))
    | inr (s, e) ↦ ap view (sym (written-inj (simp (e, put_disks) at h))) ∙ sql.commits tx s e
  ]
  put_disks-view ts (d ∷ ds) tx s' h = elim (Option-cases (put_disk ts d.mount d.used_pct tx)) [
    | inl e ↦ absurd (failed_written {e = insert_disk d.mount} {s = s'} (simp (e, put_disks) at h))
    | inr (tx', e) ↦
        put_disks-view ts ds tx' s' (simp (e, put_disks) at h)
        ∙ ap (with_disks ts ds) (sql.puts_disk ts d.mount d.used_pct tx tx' e)
  ]

  pub insert-view :
      (floats : Arithmetic F) (snap : Snapshot F) (s s' : State)
      → insert db floats snap s ≡ written s'
      → view s' ≡ with_disks snap.ts snap.disks (with_sample (sample_row floats snap) (view s))
  unfolding insert
  insert-view floats snap s s' h = elim (Option-cases (begin s)) [
    | inl e ↦ absurd (failed_written {e = begin_insert} {s = s'} (simp (e, insert) at h))
    | inr (tx, e) ↦ elim (Option-cases (put_sample (sample_row floats snap) tx)) [
      | inl e' ↦ absurd (failed_written {e = insert_sample} {s = s'} (simp (e, e', insert) at h))
      | inr (tx', e') ↦
          put_disks-view snap.ts snap.disks tx' s' (simp (e, e', insert) at h)
          ∙ ap (with_disks snap.ts snap.disks) (
              sql.puts_sample (sample_row floats snap) tx tx' e'
              ∙ ap (with_sample _) (sql.begins s tx e))
    ]
  ]

  pub prune-view :
      (now older_than : ℕ) (s s' : State)
      → prune db now older_than s ≡ written s'
      → let cutoff = (now - older_than) / 1000000 in
        view s' ≡ without disk_samples is_less cutoff (without samples is_less cutoff (view s))
  unfolding prune
  prune-view now older_than s s' h =
      let cutoff = (now - older_than) / 1000000 in
      elim (Option-cases (begin s)) [
        | inl e ↦ absurd (failed_written {e = begin_prune} {s = s'} (simp (e, prune) at h))
        | inr (tx, e) ↦ elim (Option-cases (delete_where samples is_less cutoff tx)) [
          | inl e1 ↦ absurd (failed_written {e = prune_samples} {s = s'} (simp (e, e1, prune) at h))
          | inr (tx1, e1) ↦ elim (Option-cases (delete_where disk_samples is_less cutoff tx1)) [
            | inl e2 ↦
                absurd (failed_written {e = prune_disks} {s = s'} (simp (e, e1, e2, prune) at h))
            | inr (tx2, e2) ↦ elim (Option-cases (commit tx2)) [
              | inl e3 ↦
                  absurd
                    (failed_written {e = commit_prune} {s = s'} (simp (e, e1, e2, e3, prune) at h))
              | inr (s3, e3) ↦
                  ap view (sym (written-inj (simp (e, e1, e2, e3, prune) at h)))
                  ∙ sql.commits tx2 s3 e3
                  ∙ sql.deletes disk_samples is_less cutoff tx1 tx2 e2
                  ∙ ap (without disk_samples is_less cutoff) (
                      sql.deletes samples is_less cutoff tx tx1 e1
                      ∙ ap (without samples is_less cutoff) (sql.begins s tx e))
            ]
          ]
        ]
      ]
