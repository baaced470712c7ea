-- ===== src/Prelude/Sort.antt =====
-- sort.Slice and slices.SortFunc as an insertion sort by a strict order: the package promises a sorted
-- permutation, and no order of items that compare as equal.
use mathlib.Core.Path.{◌≡◌, refl}
use mathlib.Core.Logic.{◌⊎◌, inl, inr}
use mathlib.Core.Bool.{Bool, true, false}
use mathlib.Core.List.{List, [], ◌∷◌, Perm}
use mathlib.Core.List.Perm
use native.Mathlib.Omega.{arith}
use owlwatch.Prelude.Tests.{ltb, if◌then◌else◌, Bool-cases}
use owlwatch.Prelude.Lists.{All, All-map, Member, length}
use Prim.Native.Nat.{◌+◌}
use owlwatch.Prelude.Text.{Bytes}

-- The laws of a strict order in which "not before" is transitive.
pub record IsOrder {ℓ} {A : Type ℓ} (less : A → A → Bool) : Type ℓ where
  pub asym : (a b : A) → less a b ≡ true → less b a ≡ false
  pub trans : (a b c : A) → less b a ≡ false → less c b ≡ false → less c a ≡ false

module _ {ℓ} {A : Type ℓ} (less : A → A → Bool) where
  unfoldable pub insert_sorted : A → List A → List A
  insert_sorted x [] = x ∷ []
  insert_sorted x (y ∷ ys) = elim (less x y) [ true ↦ x ∷ y ∷ ys | false ↦ y ∷ insert_sorted x ys ]

  unfoldable pub sort : List A → List A
  unfolding insert_sorted
  sort [] = []
  sort (x ∷ xs) = insert_sorted x (sort xs)

  -- Nothing comes before an earlier entry.
  abbrev pub IsSorted : List A → Type ℓ
  IsSorted [] = Unit
  IsSorted (x ∷ xs) = All (λ y. less y x ≡ false) xs × IsSorted xs

  insert_sorted-perm : (x : A) (ys : List A) → Perm (insert_sorted x ys) (x ∷ ys)
  unfolding insert_sorted
  insert_sorted-perm x [] = Perm.refl (x ∷ [])
  insert_sorted-perm x (y ∷ ys) = elim (Bool-cases (less x y)) [
    | inl e ↦ rw (e, insert_sorted) (Perm.refl (x ∷ y ∷ ys))
    | inr e ↦
        rw (e, insert_sorted)
          (Perm.trans (Perm.cons y (insert_sorted-perm x ys)) (Perm.swap x y ys))
  ]

  pub sort-perm : (xs : List A) → Perm (sort xs) xs
  unfolding sort
  sort-perm [] = Perm.nil
  sort-perm (x ∷ xs) = Perm.trans (insert_sorted-perm x (sort xs)) (Perm.cons x (sort-perm xs))

  pub All-insert_sorted {κ} :
      (P : A → Type κ) (x : A) (ys : List A) → P x → All P ys → All P (insert_sorted x ys)
  unfolding insert_sorted
  All-insert_sorted P x [] px all = (px, tt)
  All-insert_sorted P x (y ∷ ys) px (py, all) = elim (Bool-cases (less x y)) [
    | inl e ↦ rw (e, insert_sorted) (px, (py, all))
    | inr e ↦ rw (e, insert_sorted) (py, All-insert_sorted P x ys px all)
  ]

  pub All-sort {κ} : (P : A → Type κ) (xs : List A) → All P xs → All P (sort xs)
  unfolding sort
  All-sort P [] all = tt
  All-sort P (x ∷ xs) (px, all) = All-insert_sorted P x (sort xs) px (All-sort P xs all)

  length-insert_sorted : (x : A) (ys : List A) → length (insert_sorted x ys) ≡ length ys + 1
  unfolding insert_sorted
  length-insert_sorted x [] = refl
  length-insert_sorted x (y ∷ ys) = elim (Bool-cases (less x y)) [
    | inl e ↦ rw (e, insert_sorted) (omega arith)
    | inr e ↦ rw (e, insert_sorted) (omega (arith, length-insert_sorted x ys))
  ]

  pub length-sort : (xs : List A) → length (sort xs) ≡ length xs
  unfolding sort
  length-sort [] = refl
  length-sort (x ∷ xs) = omega (arith, length-insert_sorted x (sort xs), length-sort xs)

  insert_sorted-IsSorted :
      (x : A) (ys : List A) → IsOrder less → IsSorted ys → IsSorted (insert_sorted x ys)
  unfolding insert_sorted
  insert_sorted-IsSorted x [] o s = (tt, tt)
  insert_sorted-IsSorted x (y ∷ ys) o (all, s) = elim (Bool-cases (less x y)) [
    | inl e ↦
        rw (e, insert_sorted)
          ((o.asym x y e, All-map (λ z h. o.trans x y z (o.asym x y e) h) ys all), (all, s))
    | inr e ↦
        rw (e, insert_sorted)
          (All-insert_sorted (λ z. less z y ≡ false) x ys e all, insert_sorted-IsSorted x ys o s)
  ]

  pub sort-IsSorted : (xs : List A) → IsOrder less → IsSorted (sort xs)
  unfolding sort
  sort-IsSorted [] o = tt
  sort-IsSorted (x ∷ xs) o = insert_sorted-IsSorted x (sort xs) o (sort-IsSorted xs o)

-- Every entry is related to all later ones.
abbrev pub Pairwise {ℓ κ} : {A : Type ℓ} → (A → A → Type κ) → List A → Type κ
Pairwise R [] = Unit
Pairwise R (x ∷ xs) = All (R x) xs × Pairwise R xs

module _ {ℓ κ} {A : Type ℓ} (less : A → A → Bool) (R : A → A → Type κ)
    (flip : (a b : A) → R a b → R b a) where
  Pairwise-insert_sorted :
      (x : A) (ys : List A) → All (R x) ys → Pairwise R ys → Pairwise R (insert_sorted less x ys)
  unfolding insert_sorted
  Pairwise-insert_sorted x [] all p = (tt, tt)
  Pairwise-insert_sorted x (y ∷ ys) (xy, all) (ally, p) = elim (Bool-cases (less x y)) [
    | inl e ↦ rw (e, insert_sorted) ((xy, all), (ally, p))
    | inr e ↦
        rw (e, insert_sorted)
          (All-insert_sorted less (R y) x ys (flip x y xy) ally, Pairwise-insert_sorted x ys all p)
  ]

  -- A symmetric relation holds between the entries in any order.
  pub Pairwise-sort : (xs : List A) → Pairwise R xs → Pairwise R (sort less xs)
  unfolding sort
  Pairwise-sort [] p = tt
  Pairwise-sort (x ∷ xs) (all, p) =
      Pairwise-insert_sorted x (sort less xs) (All-sort less (R x) xs all) (Pairwise-sort xs p)

module _ {A : Type 0} (less : A → A → Bool) where
  Member-insert_sorted :
      (a x : A) (ys : List A) → (a ≡ x) ⊎ Member a ys → Member a (insert_sorted less x ys)
  unfolding insert_sorted
  Member-insert_sorted a x [] m = m
  Member-insert_sorted a x (y ∷ ys) m = elim (Bool-cases (less x y)) [
    | inl e ↦ rw (e, insert_sorted) m
    | inr e ↦
        rw (e, insert_sorted)
          (elim m [
            | inl here ↦ inr (Member-insert_sorted a x ys (inl here))
            | inr (inl is) ↦ inl is
            | inr (inr later) ↦ inr (Member-insert_sorted a x ys (inr later))
          ])
  ]

  pub Member-sort : (a : A) (xs : List A) → Member a xs → Member a (sort less xs)
  unfolding sort
  Member-sort a [] m = m
  Member-sort a (x ∷ xs) (inl is) = Member-insert_sorted a x (sort less xs) (inl is)
  Member-sort a (x ∷ xs) (inr m) =
      Member-insert_sorted a x (sort less xs) (inr (Member-sort a xs m))

-- `s < t` on strings
unfoldable pub bytes_less : Bytes → Bytes → Bool
bytes_less [] [] = false
bytes_less [] (b ∷ t) = true
bytes_less (a ∷ s) [] = false
bytes_less (a ∷ s) (b ∷ t) =
    let rest = bytes_less s t in if ltb a b then true else if ltb b a then false else rest

bytes_less-asym : (s t : Bytes) → bytes_less s t ≡ true → bytes_less t s ≡ false
unfolding bytes_less
bytes_less-asym [] [] h = refl
bytes_less-asym [] (b ∷ t) h = refl
bytes_less-asym (a ∷ s) [] h = cc
bytes_less-asym (a ∷ s) (b ∷ t) h = ground (arith, bytes_less-asym s t)

bytes_less_trans :
    (s t u : Bytes) → bytes_less t s ≡ false → bytes_less u t ≡ false → bytes_less u s ≡ false
unfolding bytes_less
bytes_less_trans [] t [] h k = refl
bytes_less_trans [] [] (c ∷ u) h k = refl
bytes_less_trans [] (b ∷ t) (c ∷ u) h k = refl
bytes_less_trans (a ∷ s) [] u h k = cc
bytes_less_trans (a ∷ s) (b ∷ t) [] h k = cc
bytes_less_trans (a ∷ s) (b ∷ t) (c ∷ u) h k = ground (arith, bytes_less_trans s t u)

-- Two strings of which neither is less are one.
pub bytes_less-eq : (s t : Bytes) → bytes_less s t ≡ false → bytes_less t s ≡ false → s ≡ t
unfolding bytes_less
bytes_less-eq [] [] h k = refl
bytes_less-eq [] (b ∷ t) h k = cc
bytes_less-eq (a ∷ s) [] h k = cc
bytes_less-eq (a ∷ s) (b ∷ t) h k = ground (arith, bytes_less-eq s t)

pub bytes_less-IsOrder : IsOrder bytes_less
bytes_less-IsOrder = record { asym = bytes_less-asym; trans = bytes_less_trans }
