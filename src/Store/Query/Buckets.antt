-- ===== src/Store/Query/Buckets.antt =====
-- internal/store/store.go: the points of `QueryContext` against the rows of each bucket.
use owlwatch.Prelude.{
  ℕ, ◌-◌, ◌/◌, ◌≡◌, ◌≤◌, inl, inr, refl, sym, ap, ap₂, subst, ◌∙◌, arith, Bool, true, false, List,
  [], ◌∷◌, some, ◌==◌, ==_iff, if◌then◌else◌, map, All, Bytes, insert, Bool-cases,
}
use owlwatch.Metrics.{HistoryPoint}
use owlwatch.Store.Query.{
  SampleBucket, DiskBucket, Queries, answer, Range, point, scan_points, has_bucket, set_disk, fill,
  filled, merge_disks, points_of, query,
}

later_is_not : {b : Bool} → b ≡ false → b ≡ true → ⊥
later_is_not e h = cc

module _ {A : Type 0} where
  map-id_of : (f : A → A) → ((a : A) → f a ≡ a) → (xs : List A) → map f xs ≡ xs
  map-id_of f h [] = refl
  map-id_of f h (x ∷ xs) = ap₂ (λ y ys. y ∷ ys) (h x) (map-id_of f h xs)

  map-map :
      (f g k : A → A) → ((a : A) → f (g a) ≡ k a) → (xs : List A) → map f (map g xs) ≡ map k xs
  map-map f g k h [] = refl
  map-map f g k h (x ∷ xs) = ap₂ (λ y ys. y ∷ ys) (h x) (map-map f g k h xs)

map-fusion :
    {A B : Type 0} (f : B → B) (g : A → B) (xs : List A) → map f (map g xs) ≡ map (λ x. f (g x)) xs
map-fusion f g [] = refl
map-fusion f g (x ∷ xs) = ap (λ ys. f (g x) ∷ ys) (map-fusion f g xs)

module _ {F : Type 0} where
  -- The mounts of a bucket with their shares; a later row of a mount replaces an earlier one.
  unfoldable pub disks_of : ℕ → List (DiskBucket F) → List (Bytes × F) → List (Bytes × F)
  disks_of b [] m = m
  disks_of b (d ∷ ds) m =
      if b == d.bucket then disks_of b ds (insert d.mount d.pct m) else disks_of b ds m

  -- GROUP BY: one row a bucket.
  unfoldable pub DistinctBuckets : List (SampleBucket F) → Type 0
  DistinctBuckets [] = Unit
  DistinctBuckets (r ∷ rs) = All (λ q. (q.bucket == r.bucket) ≡ false) rs × DistinctBuckets rs

  DistinctTimes : List (HistoryPoint F) → Type 0
  DistinctTimes [] = Unit
  DistinctTimes (p ∷ ps) = All (λ q. (q.ts == p.ts) ≡ false) ps × DistinctTimes ps

  with_row : DiskBucket F → HistoryPoint F → HistoryPoint F
  with_row d p = if p.ts == d.bucket then record p { disks = insert d.mount d.pct p.disks } else p

  with_row-ts : (d : DiskBucket F) (p : HistoryPoint F) → (with_row d p).ts ≡ p.ts
  unfolding with_row
  with_row-ts d p = elim (Bool-cases (p.ts == d.bucket)) [
    | inl e ↦ rw (e, with_row) refl
    | inr e ↦ rw (e, with_row) refl
  ]

  has_bucket-none :
      (b : ℕ) (ps : List (HistoryPoint F))
      → All (λ q. (q.ts == b) ≡ false) ps
      → has_bucket b ps ≡ false
  unfolding has_bucket
  has_bucket-none b [] all = refl
  has_bucket-none b (p ∷ ps) (e, all) = rw e (has_bucket-none b ps all)

  with_row-absent :
      (d : DiskBucket F) (ps : List (HistoryPoint F))
      → has_bucket d.bucket ps ≡ false
      → map (with_row d) ps ≡ ps
  unfolding has_bucket with_row
  with_row-absent d [] e = refl
  with_row-absent d (p ∷ ps) e = elim (Bool-cases (p.ts == d.bucket)) [
    | inl is ↦ absurd (ground arith)
    | inr ne ↦ ap₂ (λ q qs. q ∷ qs) (rw (ne, with_row) refl) (with_row-absent d ps (ground arith))
  ]

  stays : (d : DiskBucket F) (p : HistoryPoint F) → (p.ts == d.bucket) ≡ false → with_row d p ≡ p
  unfolding with_row
  stays d p ne = ground arith

  takes :
      (d : DiskBucket F) (p : HistoryPoint F)
      → (p.ts == d.bucket) ≡ true
      → with_row d p ≡ record p { disks = insert d.mount d.pct p.disks }
  unfolding with_row
  takes d p is = ground arith

  set_disk-eq-map :
      (d : DiskBucket F) (ps : List (HistoryPoint F))
      → DistinctTimes ps
      → set_disk d ps ≡ map (with_row d) ps
  unfolding set_disk DistinctTimes
  set_disk-eq-map d [] distinct = refl
  set_disk-eq-map d (p ∷ ps) (all, distinct) = elim (Bool-cases (has_bucket d.bucket ps)) [
    | inl later ↦ elim (Bool-cases (p.ts == d.bucket)) [
      | inl is ↦ absurd (
          later_is_not
            (has_bucket-none d.bucket ps
              (subst (λ b. All (λ q. (q.ts == b) ≡ false) ps) ((==_iff p.ts d.bucket).0 is) all))
            later)
      | inr ne ↦
          rw (later, set_disk)
            (ap₂ (λ q qs. q ∷ qs) (sym (stays d p ne)) (set_disk-eq-map d ps distinct))
    ]
    | inr last ↦ elim (Bool-cases (p.ts == d.bucket)) [
      | inl is ↦
          rw (last, is, set_disk)
            (ap₂ (λ q qs. q ∷ qs) (sym (takes d p is)) (sym (with_row-absent d ps last)))
      | inr ne ↦
          rw (last, ne, set_disk)
            (ap₂ (λ q qs. q ∷ qs) (sym (stays d p ne)) (sym (with_row-absent d ps last)))
    ]
  ]

  -- A point with the rows of its bucket.
  unfoldable pub with_rows : List (DiskBucket F) → HistoryPoint F → HistoryPoint F
  unfolding disks_of
  with_rows ds p = record p { disks = disks_of p.ts ds p.disks }

  disks_of_self :
      (b : ℕ) (d : DiskBucket F) (ds : List (DiskBucket F)) (m : List (Bytes × F))
      → (b == d.bucket) ≡ true
      → disks_of b (d ∷ ds) m ≡ disks_of b ds (insert d.mount d.pct m)
  unfolding disks_of
  disks_of_self b d ds m e = rw e refl

  disks_of_other :
      (b : ℕ) (d : DiskBucket F) (ds : List (DiskBucket F)) (m : List (Bytes × F))
      → (b == d.bucket) ≡ false
      → disks_of b (d ∷ ds) m ≡ disks_of b ds m
  unfolding disks_of
  disks_of_other b d ds m e = rw e refl

  with_rows-cons :
      (d : DiskBucket F) (ds : List (DiskBucket F)) (p : HistoryPoint F)
      → with_rows ds (with_row d p) ≡ with_rows (d ∷ ds) p
  unfolding with_rows with_row disks_of
  with_rows-cons d ds p = elim (Bool-cases (p.ts == d.bucket)) [
    | inl e ↦
        ap (with_rows ds) (takes d p e)
        ∙ ap (λ m. record p { disks = m }) (sym (disks_of_self p.ts d ds p.disks e))
    | inr e ↦
        ap (with_rows ds) (stays d p e)
        ∙ ap (λ m. record p { disks = m }) (sym (disks_of_other p.ts d ds p.disks e))
  ]

  times_kept :
      (d : DiskBucket F) (p : HistoryPoint F) (ps : List (HistoryPoint F))
      → All (λ q. (q.ts == p.ts) ≡ false) ps
      → All (λ q. (q.ts == p.ts) ≡ false) (map (with_row d) ps)
  times_kept d p [] all = tt
  times_kept d p (q ∷ ps) (e, all) =
      (subst (λ b. (b == p.ts) ≡ false) (sym (with_row-ts d q)) e, times_kept d p ps all)

  map-DistinctTimes :
      (d : DiskBucket F) (ps : List (HistoryPoint F))
      → DistinctTimes ps
      → DistinctTimes (map (with_row d) ps)
  unfolding DistinctTimes
  map-DistinctTimes d [] distinct = tt
  map-DistinctTimes d (p ∷ ps) (all, distinct) = (
    times_kept d (with_row d p) ps
        (subst (λ b. All (λ q. (q.ts == b) ≡ false) ps) (sym (with_row-ts d p)) all),
    map-DistinctTimes d ps distinct,
  )

  fill-eq-map :
      (ds : List (DiskBucket F)) (ps : List (HistoryPoint F))
      → DistinctTimes ps
      → fill (map some ds) ps ≡ answer (map (with_rows ds) ps)
  unfolding fill with_rows disks_of
  fill-eq-map [] ps distinct = ap answer (sym (map-id_of (with_rows []) (λ p. refl) ps))
  fill-eq-map (d ∷ ds) ps distinct =
      ap (fill (map some ds)) (set_disk-eq-map d ps distinct)
      ∙ fill-eq-map ds (map (with_row d) ps) (map-DistinctTimes d ps distinct)
      ∙ ap answer
          (map-map (with_rows ds) (with_row d) (with_rows (d ∷ ds)) (with_rows-cons d ds) ps)

  scan_points-eq-map :
      (round : F → ℕ) (rs : List (SampleBucket F))
      → scan_points round (map some rs) ≡ answer (map (point round) rs)
  unfolding scan_points
  scan_points-eq-map round [] = refl
  scan_points-eq-map round (r ∷ rs) = rw (scan_points-eq-map round rs, scan_points) refl

  others :
      (round : F → ℕ) (b : ℕ) (rs : List (SampleBucket F))
      → All (λ q. (q.bucket == b) ≡ false) rs
      → All (λ q. (q.ts == b) ≡ false) (map (point round) rs)
  unfolding point
  others round b [] all = tt
  others round b (r ∷ rs) (e, all) = (e, others round b rs all)

  points-DistinctTimes :
      (round : F → ℕ) (rs : List (SampleBucket F))
      → DistinctBuckets rs
      → DistinctTimes (map (point round) rs)
  unfolding DistinctBuckets DistinctTimes point
  points-DistinctTimes round [] distinct = tt
  points-DistinctTimes round (r ∷ rs) (all, distinct) =
      (others round r.bucket rs all, points-DistinctTimes round rs distinct)

  merge_disks-eq-map :
      (ds : List (DiskBucket F)) (ps : List (HistoryPoint F))
      → DistinctTimes ps
      → merge_disks (some (map some ds, false)) ps ≡ answer (map (with_rows ds) ps)
  unfolding merge_disks filled
  merge_disks-eq-map ds [] distinct = refl
  merge_disks-eq-map ds (p ∷ ps) distinct = rw (fill-eq-map ds (p ∷ ps) distinct, filled) refl

  points_of-eq-map :
      (round : F → ℕ) (rs : List (SampleBucket F)) (ds : List (DiskBucket F))
      → DistinctBuckets rs
      → points_of round (some (map some rs, false)) (some (map some ds, false))
        ≡ answer (map (λ r. with_rows ds (point round r)) rs)
  unfolding points_of
  points_of-eq-map round rs ds distinct =
      rw (scan_points-eq-map round rs, points_of)
        (merge_disks-eq-map ds (map (point round) rs) (points-DistinctTimes round rs distinct)
          ∙ ap answer (map-fusion (with_rows ds) (point round) rs))

  -- Where the two statements answer rows that scan, one a bucket for the samples, a history query
  -- answers one point a bucket, in the order of the rows: it has the aggregates of that row, and just
  -- the mounts that the other statement has for the same bucket.
  pub query-eq-map :
      (round : F → ℕ) (db : Queries F) (r : Range) (now : ℕ) (rs : List (SampleBucket F))
      (ds : List (DiskBucket F))
      → 1000000 ≤ r.bucket
      → db.samples (r.bucket / 1000000) ((now - r.dur) / 1000000) (now / 1000000)
        ≡ some (map some rs, false)
      → db.disks (r.bucket / 1000000) ((now - r.dur) / 1000000) (now / 1000000)
        ≡ some (map some ds, false)
      → DistinctBuckets rs
      → query round db r now ≡ answer (map (λ row. with_rows ds (point round row)) rs)
  unfolding query
  query-eq-map round db r now rs ds wide samples disks distinct =
      let positive : ((r.bucket / 1000000) == 0) ≡ false = ground arith in
      rw (positive, samples, disks, query) (points_of-eq-map round rs ds distinct)
