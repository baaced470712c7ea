-- ===== src/Ring/Series.antt =====
-- internal/peers/client.go and internal/server/federation.go: `peerState.recentCPU` over the ring
-- and `recentCPU` over a slice.
use owlwatch.Prelude.{
  ℕ, ◌+◌, ◌-◌, ◌*◌, ◌/◌, ◌≤◌, ◌<◌, ◌≡◌, inl, inr, refl, sym, ap, ◌∙◌, arith, true, false, List, [],
  ◌∷◌, Option, some, leb, ◌==◌, if◌then◌else◌, length, get_elem?, gather, gather-ext, gather-total,
  length-gather, get_elem?-gather, Bool-cases, leb→le, min,
}
use native.Mathlib.Nat.{mul-le-mul_right}
use owlwatch.Ring.{Ring, at, snapshots, recent_cpu, recent_cpu_of, recent_cpu_points, usage_at}
use mathlib.Core.Option.{get_or}
use owlwatch.Ring.Contents.{IsValid, at-snapshots, snapshots-total, get_elem?-total}

-- The k-th of the 60 sampled indices of `n` entries stays in range.
sample_in_range : (n k : ℕ) → 60 < n → k < 60 → k * (n - 1) / 59 < n
sample_in_range n k h lt = omega (arith, mul-le-mul_right {m = k} {n = 59} (n - 1) (omega arith))

nonzero : (n : ℕ) → 0 < n → (n == 0) ≡ false
nonzero n h = ground arith

leb→gt : (a b : ℕ) → leb a b ≡ false → b < a
leb→gt a b h = ground arith

-- Which of `n` entries the i-th value of a series is: all in turn, or 60 that are evenly spread.
unfoldable pub sample_index : ℕ → ℕ → ℕ
sample_index n i = if leb n 60 then i else i * (n - 1) / 59

module _ {ℓ} {F : Type ℓ} where
  -- The loop of both functions, over `n` entries read by `f`.
  sampled : ℕ → (ℕ → Option F) → Option (List F)
  sampled n f =
      if n == 0
      then some []
      else if leb n recent_cpu_points
      then gather f 0 n
      else gather (λ k. f (k * (n - 1) / (recent_cpu_points - 1))) 0 recent_cpu_points

  sampled-ext :
      (n : ℕ) (f g : ℕ → Option F) → ((i : ℕ) → i < n → f i ≡ g i) → sampled n f ≡ sampled n g
  unfolding sampled
  sampled-ext n f g h = elim (Bool-cases (n == 0)) [
    | inl e ↦ rw e
    | inr e ↦ elim (Bool-cases (leb n recent_cpu_points)) [
      | inl few ↦ rw (e, few) (gather-ext f g 0 0 n (λ k lt. h (0 + k) (omega arith)))
      | inr many ↦
          rw (e, many)
            (gather-ext _ _ 0 0 60
              (λ k lt. h _ (sample_in_range n (0 + k) (leb→gt _ _ many) (omega arith))))
    ]
  ]

  -- What a series over `n` entries keeps of them.
  record IsSeries (n : ℕ) (f : ℕ → Option F) (out : List F) : Type ℓ where
    pub size : length out ≡ min n 60
    pub oldest : get_elem? out 0 ≡ f 0
    pub newest : get_elem? out (length out - 1) ≡ f (n - 1)
    pub spread : (i : ℕ) → i < length out → get_elem? out i ≡ f (sample_index n i)

  -- All `n` entries, or 60 of them that begin with the first and end with the last.
  few_lem :
      (n : ℕ) (f : ℕ → Option F)
      → 0 < n
      → n ≤ 60
      → leb n 60 ≡ true
      → ((i : ℕ) → i < n → (x : F) × (f i ≡ some x))
      → (out : List F) × (gather f 0 n ≡ some out) × IsSeries n f out
  unfolding sample_index
  few_lem n f pos few short h =
      let (out, e) = gather-total f 0 n (λ k lt. h (0 + k) (omega arith)) in
      let len : length out ≡ n = length-gather f 0 n e in
      (
        out,
        e,
        record {
          size = omega (arith, len);
          oldest = sym (get_elem?-gather f 0 n 0 e pos);
          newest =
              ap (λ k. get_elem? out (k - 1)) len
              ∙ sym (get_elem?-gather f 0 n (n - 1) e (omega arith))
              ∙ ap f (omega arith);
          spread = λ i lt.
              sym (get_elem?-gather f 0 n i e (omega (arith, len, lt)))
              ∙ ap f (sym (rw (short, sample_index) (omega arith)));
        },
      )

  many_lem :
      (n : ℕ) (f : ℕ → Option F)
      → 60 < n
      → leb n 60 ≡ false
      → ((i : ℕ) → i < n → (x : F) × (f i ≡ some x))
      → (out : List F) × (gather (λ k. f (k * (n - 1) / 59)) 0 60 ≡ some out) × IsSeries n f out
  unfolding sample_index
  many_lem n f many long h =
      let g : ℕ → Option F = λ k. f (k * (n - 1) / 59) in
      let (out, e) =
        gather-total g 0 60 (λ k lt. h _ (sample_in_range n (0 + k) many (omega arith))) in
      let len : length out ≡ 60 = length-gather g 0 60 e in
      (
        out,
        e,
        record {
          size = omega (arith, len);
          oldest = sym (get_elem?-gather g 0 60 0 e (omega arith)) ∙ ap f (omega arith);
          newest =
              ap (λ k. get_elem? out (k - 1)) len
              ∙ sym (get_elem?-gather g 0 60 59 e (omega arith))
              ∙ ap f (omega arith);
          spread = λ i lt.
              sym (get_elem?-gather g 0 60 i e (omega (arith, len, lt)))
              ∙ ap f (rw (long, sample_index) (omega arith));
        },
      )

  sampled_lem :
      (n : ℕ) (f : ℕ → Option F)
      → 0 < n
      → ((i : ℕ) → i < n → (x : F) × (f i ≡ some x))
      → (out : List F) × (sampled n f ≡ some out) × IsSeries n f out
  unfolding sampled
  sampled_lem n f pos h = rw (nonzero n pos) (elim (Bool-cases (leb n recent_cpu_points)) [
    | inl few ↦ rw few (few_lem n f pos (leb→le _ _ few) few h)
    | inr many ↦ rw many (many_lem n f (leb→gt _ _ many) many h)
  ])

module _ {ℓ κ} {A : Type ℓ} {F : Type κ} (usage_pct : A → F) where
  -- Over a valid ring that reads as `xs`, the ring's series is the slice's series of `xs`.
  pub recent_cpu-eq-recent_cpu_of :
      (r : Ring A) (xs : List A)
      → IsValid r
      → snapshots r ≡ some xs
      → recent_cpu usage_pct r ≡ recent_cpu_of usage_pct xs
  unfolding recent_cpu recent_cpu_of sampled
  recent_cpu-eq-recent_cpu_of r xs v h =
      let (ys, e, len) = snapshots-total r v in
      let n : length xs ≡ r.count = ap (λ o. length (get_or o [])) (sym h ∙ e) ∙ len in
      let same =
        sampled-ext r.count (λ i. usage_at usage_pct (at r i))
          (λ i. usage_at usage_pct (get_elem? xs i))
          (λ i lt. ap (usage_at usage_pct) (at-snapshots r i h lt)) in
      rw n same

  -- The series of a slice that is not empty is computed without a panic. It has one value for each
  -- snapshot, at most 60; its values are, in order, the usage of all snapshots where there are at most
  -- 60, and else of the 60 whose places are i * (n - 1) / 59; it begins with the oldest snapshot's usage
  -- and ends with the newest's.
  pub recent_cpu_of_lem :
      (xs : List A)
      → 0 < length xs
      → (out : List F) × (recent_cpu_of usage_pct xs ≡ some out)
        × (length out ≡ min (length xs) 60)
        × (get_elem? out 0 ≡ usage_at usage_pct (get_elem? xs 0))
        × (get_elem? out (length out - 1) ≡ usage_at usage_pct (get_elem? xs (length xs - 1)))
        × ((i : ℕ)
            → i < length out
            → get_elem? out i ≡ usage_at usage_pct (get_elem? xs (sample_index (length xs) i)))
  unfolding recent_cpu_of sampled
  recent_cpu_of_lem xs pos =
      let (out, e, s) =
        sampled_lem (length xs) (λ i. usage_at usage_pct (get_elem? xs i)) pos
          (λ i lt.
            let (x, at_i) = get_elem?-total xs i lt in
            (usage_pct x, ap (usage_at usage_pct) at_i)) in
      (out, e, s.size, s.oldest, s.newest, s.spread)

  -- The series of any slice exists and has at most 60 values.
  pub recent_cpu_of-total :
      (xs : List A) → (out : List F) × (recent_cpu_of usage_pct xs ≡ some out) × (length out ≤ 60)
  unfolding recent_cpu_of
  recent_cpu_of-total [] = ([], refl, omega arith)
  recent_cpu_of-total (x ∷ xs) =
      let (out, e, size, oldest, newest, spread) = recent_cpu_of_lem (x ∷ xs) (omega arith) in
      (out, unfold recent_cpu_of in e, omega (arith, size))
