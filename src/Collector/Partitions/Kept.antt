-- ===== src/Collector/Partitions/Kept.antt =====
-- internal/collector/collector.go: which partitions `filterPartitions` keeps.
use owlwatch.Prelude.{
  ◌≡◌, inl, inr, refl, sym, ap, subst, ◌∙◌, arith, true, false, List, [], ◌∷◌, map, some, All,
  Member, Bytes, same, same→eq, same_iff, lookup, insert, lookup-insert, lookup-insert_self,
  Bool-cases, Option-cases, All-insert, insert-DistinctKeys, DistinctKeys, lookup-Member,
  All-Member, IsOrder, IsSorted, Pairwise, sort-IsSorted, All-sort, Pairwise-sort, Member-sort,
  bytes_less-IsOrder, some-inj, none-some,
}
use owlwatch.Collector.Partitions.{
  Partition, is_real, better_mount, represent, by_device, mount_less, filter_partitions,
}

mount_less-IsOrder : IsOrder mount_less
mount_less-IsOrder = record {
  asym = λ a b. bytes_less-IsOrder.asym a.mountpoint b.mountpoint;
  trans = λ a b c. bytes_less-IsOrder.trans a.mountpoint b.mountpoint c.mountpoint;
}

better_mount-IsOrder : IsOrder better_mount
unfolding better_mount
better_mount-IsOrder = record {
  asym = λ a b h. ground (arith, bytes_less-IsOrder.asym a b);
  trans = λ a b c h k. ground (arith, bytes_less-IsOrder.trans a b c);
}

better_mount_irrefl : (a : Bytes) → better_mount a a ≡ false
better_mount_irrefl a = elim (Bool-cases (better_mount a a)) [
  | inl e ↦ better_mount-IsOrder.asym a a e
  | inr e ↦ e
]

-- The map holds real partitions, each under its own device.
abbrev Entry : Bytes × Partition → Type 0
Entry e = (e.0 ≡ e.1.device) × (is_real e.1 ≡ true)

abbrev OtherKey : Bytes × Partition → Bytes × Partition → Type 0
OtherKey e f = same e.0 f.0 ≡ false

abbrev pub OtherDevice : Partition → Partition → Type 0
OtherDevice p q = same p.device q.device ≡ false

-- The map answers at least as good a mount for `d` as `mount`.
Holds : Bytes → Bytes → List (Bytes × Partition) → Type 0
Holds d mount m =
    (q : Partition) × (lookup d m ≡ some q) × (better_mount mount q.mountpoint ≡ false)

represent_self :
    (p : Partition) (m : List (Bytes × Partition)) → Holds p.device p.mountpoint (represent p m)
unfolding Holds represent
represent_self p m = elim (Option-cases (lookup p.device m)) [
  | inl e ↦
      (p, rw (e, represent) (lookup-insert_self p.device p m), better_mount_irrefl p.mountpoint)
  | inr (cur, e) ↦ elim (Bool-cases (better_mount p.mountpoint cur.mountpoint)) [
    | inl b ↦ (
      p,
      rw (e, b, represent) (lookup-insert_self p.device p m),
      better_mount_irrefl p.mountpoint,
    )
    | inr b ↦ (cur, rw (e, b, represent) e, b)
  ]
]

insert-Holds :
    (d mount : Bytes) (p : Partition) (m : List (Bytes × Partition))
    → Holds d mount m
    → ((q : Partition) → lookup p.device m ≡ some q → better_mount p.mountpoint q.mountpoint ≡ true)
    → Holds d mount (insert p.device p m)
unfolding Holds
insert-Holds d mount p m (q, found, ok) better = elim (Bool-cases (same p.device d)) [
  | inl e ↦ (
    p,
    lookup-insert p.device d p m ∙ rw e refl,
    better_mount-IsOrder.trans p.mountpoint q.mountpoint mount
        (better_mount-IsOrder.asym p.mountpoint q.mountpoint
          (better q (ap (λ k. lookup k m) (same→eq p.device d e) ∙ found)))
        ok,
  )
  | inr e ↦ (q, lookup-insert p.device d p m ∙ rw e found, ok)
]

represent-Holds :
    (d mount : Bytes) (p : Partition) (m : List (Bytes × Partition))
    → Holds d mount m
    → Holds d mount (represent p m)
unfolding represent
represent-Holds d mount p m h = elim (Option-cases (lookup p.device m)) [
  | inl e ↦ rw (e, represent) (insert-Holds d mount p m h (λ q f. absurd (none-some (sym e ∙ f))))
  | inr (cur, e) ↦ elim (Bool-cases (better_mount p.mountpoint cur.mountpoint)) [
    | inl b ↦
        rw (e, b, represent)
          (insert-Holds d mount p m h (λ q f.
            subst (λ r. better_mount p.mountpoint r.mountpoint ≡ true) (some-inj (sym e ∙ f)) b))
    | inr b ↦ rw (e, b, represent) h
  ]
]

by_device-Holds :
    (d mount : Bytes) (ps : List Partition) (m : List (Bytes × Partition))
    → Holds d mount m
    → Holds d mount (by_device ps m)
unfolding by_device
by_device-Holds d mount [] m h = h
by_device-Holds d mount (p ∷ ps) m h = elim (Bool-cases (is_real p)) [
  | inl e ↦
      rw (e, by_device) (by_device-Holds d mount ps (represent p m) (represent-Holds d mount p m h))
  | inr e ↦ rw (e, by_device) (by_device-Holds d mount ps m h)
]

by_device-Member :
    (p : Partition) (ps : List Partition) (m : List (Bytes × Partition))
    → Member p ps
    → is_real p ≡ true
    → Holds p.device p.mountpoint (by_device ps m)
unfolding by_device
by_device-Member p [] m listed real = absurd listed
by_device-Member p (p' ∷ ps) m (inl is) real =
    subst (λ r. Holds p.device p.mountpoint (by_device (r ∷ ps) m)) is
      (rw (real, by_device)
        (by_device-Holds p.device p.mountpoint ps (represent p m) (represent_self p m)))
by_device-Member p (p' ∷ ps) m (inr later) real = elim (Bool-cases (is_real p')) [
  | inl e ↦ rw (e, by_device) (by_device-Member p ps (represent p' m) later real)
  | inr e ↦ rw (e, by_device) (by_device-Member p ps m later real)
]

-- What the map satisfies before and after each round.
record IsValid (m : List (Bytes × Partition)) : Type 0 where
  entries : All Entry m
  distinct : DistinctKeys m

insert-IsValid :
    (p : Partition) (m : List (Bytes × Partition))
    → is_real p ≡ true
    → IsValid m
    → IsValid (insert p.device p m)
insert-IsValid p m real v = record {
  entries = All-insert Entry p.device p m (refl, real) v.entries;
  distinct = insert-DistinctKeys p.device p m v.distinct;
}

represent-IsValid :
    (p : Partition) (m : List (Bytes × Partition))
    → is_real p ≡ true
    → IsValid m
    → IsValid (represent p m)
unfolding represent
represent-IsValid p m real v = elim (Option-cases (lookup p.device m)) [
  | inl e ↦ rw (e, represent) (insert-IsValid p m real v)
  | inr (cur, e) ↦ elim (Bool-cases (better_mount p.mountpoint cur.mountpoint)) [
    | inl b ↦ rw (e, b, represent) (insert-IsValid p m real v)
    | inr b ↦ rw (e, b, represent) v
  ]
]

by_device-IsValid :
    (ps : List Partition) (m : List (Bytes × Partition)) → IsValid m → IsValid (by_device ps m)
unfolding by_device
by_device-IsValid [] m v = v
by_device-IsValid (p ∷ ps) m v = elim (Bool-cases (is_real p)) [
  | inl e ↦ rw (e, by_device) (by_device-IsValid ps (represent p m) (represent-IsValid p m e v))
  | inr e ↦ rw (e, by_device) (by_device-IsValid ps m v)
]

others :
    (d : Bytes) (m : List (Bytes × Partition))
    → All Entry m
    → All (λ f. same d f.0 ≡ false) m
    → All (λ p. same d p.device ≡ false) (map (λ e. e.1) m)
others d [] entries all = tt
others d ((k, p) ∷ m) ((key, real), entries) (h, all) =
    (subst (λ i. same d i ≡ false) key h, others d m entries all)

values_real :
    (m : List (Bytes × Partition)) → All Entry m → All (λ p. is_real p ≡ true) (map (λ e. e.1) m)
values_real [] entries = tt
values_real ((k, p) ∷ m) ((key, real), entries) = (real, values_real m entries)

values-Member :
    (k : Bytes) (p : Partition) (m : List (Bytes × Partition))
    → Member (k, p) m
    → Member p (map (λ e. e.1) m)
values-Member k p [] is = absurd is
values-Member k p (e ∷ m) (inl is) = inl (ap (λ f. f.1) is)
values-Member k p (e ∷ m) (inr later) = inr (values-Member k p m later)

values-Pairwise :
    (m : List (Bytes × Partition)) → IsValid m → Pairwise OtherDevice (map (λ e. e.1) m)
values-Pairwise [] v = tt
values-Pairwise ((k, p) ∷ m) v =
    let (key, real) = v.entries.0 in
    (
      others p.device m v.entries.1 (subst (λ i. All (λ f. same i f.0 ≡ false) m) key v.distinct.0),
      values-Pairwise m (record { entries = v.entries.1; distinct = v.distinct.1 }),
    )

same_sym : (s t : Bytes) → same s t ≡ false → same t s ≡ false
same_sym s t h = ground (arith, same_iff s t, same_iff t s)

-- Every real file system is represented: for each listed partition that passes the tests, the
-- answer holds one of the same device whose mountpoint is no worse, that is, not longer, and not
-- later in the order of strings where it is as long.
pub filter_partitions-best :
    (parts : List Partition) (p : Partition)
    → Member p parts
    → is_real p ≡ true
    → (q : Partition) × Member q (filter_partitions parts)
      × (q.device ≡ p.device)
      × (better_mount p.mountpoint q.mountpoint ≡ false)
unfolding filter_partitions Holds
filter_partitions-best parts p listed real =
    let m = by_device parts [] in
    let (q, found, ok) = by_device-Member p parts [] listed real in
    let is = lookup-Member p.device q m found in
    let valid = by_device-IsValid parts [] (record { entries = tt; distinct = tt }) in
    (
      q,
      Member-sort mount_less q (map (λ e. e.1) m) (values-Member p.device q m is),
      sym (All-Member Entry (p.device, q) m valid.entries is).0,
      ok,
    )

-- What the answer holds is a real file system, no two entries are of one device, and the entries
-- stand in the order of their mountpoints.
pub filter_partitions-IsSorted :
    (parts : List Partition)
    → IsSorted mount_less (filter_partitions parts)
      × Pairwise OtherDevice (filter_partitions parts)
      × All (λ p. is_real p ≡ true) (filter_partitions parts)
unfolding filter_partitions
filter_partitions-IsSorted parts =
    let m = by_device parts [] in
    let ps = map (λ e. e.1) m in
    let valid = by_device-IsValid parts [] (record { entries = tt; distinct = tt }) in
    (
      sort-IsSorted mount_less ps mount_less-IsOrder,
      Pairwise-sort mount_less OtherDevice (λ p q. same_sym p.device q.device) ps
          (values-Pairwise m valid),
      All-sort mount_less (λ p. is_real p ≡ true) ps (values_real m valid.entries),
    )
