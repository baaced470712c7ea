-- ===== src/Collector/Processes/Ranking.antt =====
-- internal/collector/processes.go: what `rankTop` keeps.
use owlwatch.Prelude.{
  ℕ, zero, suc, ◌≤◌, ◌≡◌, arith, Bool, false, List, [], ◌∷◌, length, take, All, IsOrder, IsSorted,
  sort, sort-IsSorted, All-sort, sort-perm, drop, subst, sym, ◌++◌, length-sort, min, Pairwise,
  All-map, All-of_Member, ap, ◌∙◌, refl,
}
use mathlib.Core.List.{Perm}
use owlwatch.Collector.Processes.{before, rank_top}

module _ {ℓ} {T : Type ℓ} where
  length-take : (n : ℕ) (xs : List T) → length (take n xs) ≡ min n (length xs)
  length-take zero xs = ground arith
  length-take (suc n) [] = ground arith
  length-take (suc n) (x ∷ xs) = ground (arith, length-take n xs)

  pub All-take {κ} : (P : T → Type κ) (n : ℕ) (xs : List T) → All P xs → All P (take n xs)
  All-take P zero xs all = tt
  All-take P (suc n) [] all = tt
  All-take P (suc n) (x ∷ xs) (here, there) = (here, All-take P n xs there)

  take-IsSorted :
      (less : T → T → Bool) (n : ℕ) (xs : List T) → IsSorted less xs → IsSorted less (take n xs)
  take-IsSorted less zero xs s = tt
  take-IsSorted less (suc n) [] s = tt
  take-IsSorted less (suc n) (x ∷ xs) (first, s) =
      (All-take (λ y. less y x ≡ false) n xs first, take-IsSorted less n xs s)

module _ {T : Type 0} where
  take-append-drop : (n : ℕ) (xs : List T) → take n xs ++ drop n xs ≡ xs
  take-append-drop zero xs = refl
  take-append-drop (suc n) [] = refl
  take-append-drop (suc n) (x ∷ xs) = ap (λ ys. x ∷ ys) (take-append-drop n xs)

  All-drop : (P : T → Type 0) (n : ℕ) (xs : List T) → All P xs → All P (drop n xs)
  All-drop P zero xs all = all
  All-drop P (suc n) [] all = tt
  All-drop P (suc n) (x ∷ xs) (here, there) = All-drop P n xs there

  All-both : (P Q : T → Type 0) (xs : List T) → All P xs → All Q xs → All (λ a. P a × Q a) xs
  All-both P Q [] ps qs = tt
  All-both P Q (x ∷ xs) (p, ps) (q, qs) = ((p, q), All-both P Q xs ps qs)

  -- No entry of a sorted list after the first `n` comes before one of them.
  drop-take :
      (less : T → T → Bool) (n : ℕ) (xs : List T)
      → IsSorted less xs
      → All (λ out. All (λ kept. less out kept ≡ false) (take n xs)) (drop n xs)
  drop-take less zero xs s = All-of_Member _ xs (λ a m. tt)
  drop-take less (suc n) [] s = tt
  drop-take less (suc n) (x ∷ xs) (first, s) =
      All-both (λ out. less out x ≡ false) (λ out. All (λ kept. less out kept ≡ false) (take n xs))
        (drop n xs) (All-drop (λ out. less out x ≡ false) n xs first) (drop-take less n xs s)

module _ {K T : Type 0} (less : K → K → Bool) (key : T → K) (pid : T → ℕ) where
  before-IsOrder : IsOrder less → IsOrder (before less key pid)
  unfolding before
  before-IsOrder o = record {
    asym = λ a b h. ground (arith, o.asym (key b) (key a), o.asym (key a) (key b));
    trans = λ a b c h k. ground (
      arith,
      o.trans (key c) (key b) (key a),
      o.trans (key a) (key c) (key b),
      o.trans (key b) (key a) (key c),
    );
  }

  -- `a` ranks with `b` or above it: its key is not smaller, and the lower PID decides among equals.
  pub record RanksAbove (a b : T) : Type 0 where
    pub larger : less (key a) (key b) ≡ false
    pub lower_pid : less (key b) (key a) ≡ false → pid a ≤ pid b

  above : (a b : T) → before less key pid b a ≡ false → RanksAbove a b
  unfolding before
  above a b h = record { larger = ground arith; lower_pid = λ e. ground arith }

  IsSorted→Pairwise :
      (rows : List T) → IsSorted (before less key pid) rows → Pairwise RanksAbove rows
  IsSorted→Pairwise [] s = tt
  IsSorted→Pairwise (a ∷ rows) (first, s) =
      (All-map (λ b h. above a b h) rows first, IsSorted→Pairwise rows s)

  pub All-rank_top {κ} :
      (P : T → Type κ) (limit : ℕ) (rows : List T)
      → All P rows
      → All P (rank_top less key pid limit rows)
  unfolding rank_top
  All-rank_top P limit rows all = All-take P limit _ (All-sort (before less key pid) P rows all)

  -- Where the keys are in a strict order, a ranking is a part of the rows, all of them or as many as
  -- its limit. Every row of it ranks above those after it: no key is smaller than a later one,
  -- and among equal keys the lower PID comes first. All its rows rank above all the others.
  pub rank_top-best :
      (limit : ℕ) (rows : List T)
      → IsOrder less
      → let ranking = rank_top less key pid limit rows in
        (length ranking ≡ min limit (length rows))
        × Pairwise RanksAbove ranking
        × ((others : List T) × Perm (ranking ++ others) rows
            × All (λ other. All (λ kept. RanksAbove kept other) ranking) others)
  unfolding rank_top
  rank_top-best limit rows o =
      let all = sort (before less key pid) rows in
      let sorted = sort-IsSorted (before less key pid) rows (before-IsOrder o) in
      (
        length-take limit all ∙ ap (min limit) (length-sort (before less key pid) rows),
        IsSorted→Pairwise _ (take-IsSorted (before less key pid) limit all sorted),
        (
          drop limit all,
          subst (λ xs. Perm xs rows) (sym (take-append-drop limit all))
              (sort-perm (before less key pid) rows),
          All-map (λ other h. All-map (λ kept out. above kept other out) (take limit all) h)
              (drop limit all) (drop-take (before less key pid) limit all sorted),
        ),
      )
