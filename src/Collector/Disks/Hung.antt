-- ===== src/Collector/Disks/Hung.antt =====
-- internal/collector/collector.go: how often a mount that hangs is probed.
use owlwatch.Prelude.{
  ℕ, ◌+◌, ◌<◌, ◌≡◌, ◌⊎◌, inl, inr, refl, sym, subst, ◌∙◌, arith, true, false, List, [], ◌∷◌, ◌++◌,
  Option, none, some, lt→ltb, All, All-append, Member, Bytes, same, same→eq, same_iff, lookup,
  insert, delete, lookup-insert, lookup-insert_self, Bool-cases,
}
use owlwatch.Collector.Partitions.{Partition, filter_partitions}
use owlwatch.Collector.Disks.{
  Answer, answers, fails, times_out, HungMounts, waits, settle, local_path, visit, disk_usages,
  sample_disks, disk_reprobe_interval,
}

lookup-delete_ne :
    (k j : Bytes) (hung : HungMounts) → same k j ≡ false → lookup j (delete k hung) ≡ lookup j hung
unfolding lookup delete
lookup-delete_ne k j [] ne = refl
lookup-delete_ne k j ((i, t) ∷ hung) ne =
    ground (arith, same_iff k j, same_iff i k, same_iff i j, lookup-delete_ne k j hung ne)

Member-append :
    (m : Bytes) (xs ys : List Bytes)
    → All (λ k. same k m ≡ false) xs
    → Member m (xs ++ ys)
    → Member m ys
Member-append m [] ys none_there is = is
Member-append m (x ∷ xs) ys (ne, none_there) (inl is) = absurd (ground (arith, same_iff x m, is))
Member-append m (x ∷ xs) ys (ne, none_there) (inr is) = Member-append m xs ys none_there is

-- No entry of the list is the mount `m`.
abbrev pub Without : Bytes → List Bytes → Type 0
Without m probed = All (λ k. same k m ≡ false) probed

module _ {F : Type 0} where
  settle-other :
      (m : Bytes) (now : ℕ) (p : Partition) (hung : HungMounts) (a : Answer F)
      → same p.mountpoint m ≡ false
      → (lookup m (settle now p hung a).hung ≡ lookup m hung)
        × Without m (settle now p hung a).probed
  unfolding settle
  settle-other m now p hung times_out ne =
      (lookup-insert p.mountpoint m _ hung ∙ rw ne refl, (ne, tt))
  settle-other m now p hung fails ne = (refl, (ne, tt))
  settle-other m now p hung (answers u) ne = (refl, (ne, tt))

  module _ (join : Bytes → Bytes → Bytes) (rootfs : Bytes) where
    visit-other :
        (m : Bytes) (now : ℕ) (read : Bytes → Answer F) (p : Partition) (hung : HungMounts)
        → same p.mountpoint m ≡ false
        → (lookup m (visit join rootfs now read p hung).hung ≡ lookup m hung)
          × Without m (visit join rootfs now read p hung).probed
    unfolding visit
    visit-other m now read p hung ne = elim (Bool-cases (waits now p.mountpoint hung)) [
      | inl e ↦ rw (e, visit) (refl, tt)
      | inr e ↦
          let (kept, without) =
            settle-other m now p (delete p.mountpoint hung)
              (read (local_path join rootfs p.mountpoint)) ne in
          rw (e, visit) (kept ∙ lookup-delete_ne p.mountpoint m hung ne, without)
    ]

    -- A mount that waits is left alone by a round before its time.
    visit-Without :
        (m : Bytes) (next now : ℕ) (read : Bytes → Answer F) (p : Partition) (hung : HungMounts)
        → lookup m hung ≡ some next
        → now < next
        → (lookup m (visit join rootfs now read p hung).hung ≡ some next)
          × Without m (visit join rootfs now read p hung).probed
    unfolding visit waits
    visit-Without m next now read p hung e lt = elim (Bool-cases (same p.mountpoint m)) [
      | inl is ↦
          let waiting : waits now p.mountpoint hung ≡ true =
            subst (λ k. waits now k hung ≡ true) (sym (same→eq p.mountpoint m is))
              (rw (e, waits) (lt→ltb now next lt)) in
          rw (waiting, visit) (e, tt)
      | inr ne ↦ let (kept, without) = visit-other m now read p hung ne in (kept ∙ e, without)
    ]

    disk_usages-Without :
        (m : Bytes) (next now : ℕ) (read : Bytes → Answer F) (ps : List Partition)
        (hung : HungMounts)
        → lookup m hung ≡ some next
        → now < next
        → (lookup m (disk_usages join rootfs now read ps hung).hung ≡ some next)
          × Without m (disk_usages join rootfs now read ps hung).probed
    unfolding disk_usages
    disk_usages-Without m next now read [] hung e lt = (e, tt)
    disk_usages-Without m next now read (p ∷ ps) hung e lt =
        let (kept, without) = visit-Without m next now read p hung e lt in
        let (later, others) =
          disk_usages-Without m next now read ps (visit join rootfs now read p hung).hung kept lt in
        (later, All-append (λ k. same k m ≡ false) _ _ without others)

    pub sample_disks-Without :
        (m : Bytes) (next now : ℕ) (read : Bytes → Answer F) (parts : Option (List Partition))
        (hung : HungMounts)
        → lookup m hung ≡ some next
        → now < next
        → (lookup m (sample_disks join rootfs now read parts hung).hung ≡ some next)
          × Without m (sample_disks join rootfs now read parts hung).probed
    unfolding sample_disks
    sample_disks-Without m next now read none hung e lt = (e, tt)
    sample_disks-Without m next now read (some parts) hung e lt =
        disk_usages-Without m next now read (filter_partitions parts) hung e lt

    visit_hangs :
        (m : Bytes) (now : ℕ) (read : Bytes → Answer F) (p : Partition) (hung : HungMounts)
        → same p.mountpoint m ≡ true
        → read (local_path join rootfs m) ≡ times_out
        → (visit join rootfs now read p hung).probed ≡ []
          ⊎ (lookup m (visit join rootfs now read p hung).hung ≡ some (now + disk_reprobe_interval))
    unfolding visit settle
    visit_hangs m now read p hung is hangs = elim (Bool-cases (waits now p.mountpoint hung)) [
      | inl e ↦ inl (rw (e, visit) refl)
      | inr e ↦
          let mount = same→eq p.mountpoint m is in
          let next = now + disk_reprobe_interval in
          let rest = delete p.mountpoint hung in
          let answer : read (local_path join rootfs p.mountpoint) ≡ times_out =
            subst (λ k. read (local_path join rootfs k) ≡ times_out) (sym mount) hangs in
          inr (
            rw (e, visit, answer)
              (subst (λ k. lookup k (insert p.mountpoint next rest) ≡ some next) mount
                (lookup-insert_self p.mountpoint next rest)))
    ]

    disk_usages_hangs :
        (m : Bytes) (now : ℕ) (read : Bytes → Answer F) (ps : List Partition) (hung : HungMounts)
        → read (local_path join rootfs m) ≡ times_out
        → Member m (disk_usages join rootfs now read ps hung).probed
        → lookup m (disk_usages join rootfs now read ps hung).hung
          ≡ some (now + disk_reprobe_interval)
    unfolding disk_usages
    disk_usages_hangs m now read [] hung hangs probed = absurd probed
    disk_usages_hangs m now read (p ∷ ps) hung hangs probed =
        let v = visit join rootfs now read p hung in
        elim (Bool-cases (same p.mountpoint m)) [
          | inl is ↦ elim (visit_hangs m now read p hung is hangs) [
            | inl unread ↦
                disk_usages_hangs m now read ps v.hung hangs
                  (Member-append m v.probed _ (subst (Without m) (sym unread) tt) probed)
            | inr next ↦
                (disk_usages-Without m (now + disk_reprobe_interval) now read ps v.hung next
                  (omega arith)).0
          ]
          | inr ne ↦
              disk_usages_hangs m now read ps v.hung hangs
                (Member-append m v.probed _ (visit-other m now read p hung ne).1 probed)
        ]

    pub sample_disks_hangs :
        (m : Bytes) (now : ℕ) (read : Bytes → Answer F) (parts : Option (List Partition))
        (hung : HungMounts)
        → read (local_path join rootfs m) ≡ times_out
        → Member m (sample_disks join rootfs now read parts hung).probed
        → lookup m (sample_disks join rootfs now read parts hung).hung
          ≡ some (now + disk_reprobe_interval)
    unfolding sample_disks
    sample_disks_hangs m now read none hung hangs probed = absurd probed
    sample_disks_hangs m now read (some parts) hung hangs probed =
        disk_usages_hangs m now read (filter_partitions parts) hung hangs probed
