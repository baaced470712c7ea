-- ===== src/Prelude/Maps.antt =====
-- A Go map as an association list with one entry a key.
use mathlib.Core.Path.{◌≡◌, refl, sym, ap₂, subst}
use mathlib.Core.Logic.{inl, inr}
use mathlib.Core.Bool.{false}
use mathlib.Core.List.{List, [], ◌∷◌}
use mathlib.Core.Option.{Option, none, some}
use native.Mathlib.Omega.{arith}
use owlwatch.Prelude.Tests.{if◌then◌else◌, Bool-cases}
use owlwatch.Prelude.Lists.{All, Member}
use owlwatch.Prelude.Loops.{some-inj}
use owlwatch.Prelude.Text.{Bytes, same, same_refl, same_iff, same→eq}

module _ {ℓ} {V : Type ℓ} where
  -- `v, ok := m[k]`
  unfoldable pub lookup : Bytes → List (Bytes × V) → Option V
  lookup k [] = none
  lookup k ((j, v) ∷ m) = if same j k then some v else lookup k m

  -- `m[k] = v`
  unfoldable pub insert : Bytes → V → List (Bytes × V) → List (Bytes × V)
  insert k v [] = (k, v) ∷ []
  insert k v ((j, w) ∷ m) = if same j k then (k, v) ∷ m else (j, w) ∷ insert k v m

  pub lookup-insert :
      (k j : Bytes) (v : V) (m : List (Bytes × V))
      → lookup j (insert k v m) ≡ (if same k j then some v else lookup j m)
  unfolding lookup insert
  lookup-insert k j v [] = refl
  lookup-insert k j v ((i, w) ∷ m) =
      ground (arith, same_iff k j, same_iff i k, same_iff i j, lookup-insert k j v m)

  pub lookup-insert_self :
      (k : Bytes) (v : V) (m : List (Bytes × V)) → lookup k (insert k v m) ≡ some v
  lookup-insert_self k v m = simp (lookup-insert, same_refl)

  -- `delete(m, k)`
  unfoldable pub delete : Bytes → List (Bytes × V) → List (Bytes × V)
  delete k [] = []
  delete k ((j, w) ∷ m) = if same j k then m else (j, w) ∷ delete k m

  pub lookup-delete :
      (k j : Bytes) (m : List (Bytes × V)) → same k j ≡ false → lookup j (delete k m) ≡ lookup j m
  unfolding lookup delete
  lookup-delete k j [] ne = refl
  lookup-delete k j ((i, w) ∷ m) ne =
      ground (arith, same_iff k j, same_iff i k, same_iff i j, lookup-delete k j m ne)

  -- No two entries have the same key.
  abbrev pub DistinctKeys : List (Bytes × V) → Type 0
  DistinctKeys [] = Unit
  DistinctKeys (e ∷ m) = All (λ f. same e.0 f.0 ≡ false) m × DistinctKeys m

  pub All-insert {κ} :
      (P : Bytes × V → Type κ) (k : Bytes) (v : V) (m : List (Bytes × V))
      → P (k, v)
      → All P m
      → All P (insert k v m)
  unfolding insert
  All-insert P k v [] h all = (h, tt)
  All-insert P k v ((j, w) ∷ m) h (hj, all) = elim (Bool-cases (same j k)) [
    | inl e ↦ rw (e, insert) (h, all)
    | inr e ↦ rw (e, insert) (hj, All-insert P k v m h all)
  ]

  pub All-delete {κ} :
      (P : Bytes × V → Type κ) (k : Bytes) (m : List (Bytes × V)) → All P m → All P (delete k m)
  unfolding delete
  All-delete P k [] all = tt
  All-delete P k ((j, w) ∷ m) (hj, all) = elim (Bool-cases (same j k)) [
    | inl e ↦ rw (e, delete) all
    | inr e ↦ rw (e, delete) (hj, All-delete P k m all)
  ]

  pub insert-DistinctKeys :
      (k : Bytes) (v : V) (m : List (Bytes × V)) → DistinctKeys m → DistinctKeys (insert k v m)
  unfolding insert
  insert-DistinctKeys k v [] d = (tt, tt)
  insert-DistinctKeys k v ((j, w) ∷ m) (all, d) = elim (Bool-cases (same j k)) [
    | inl e ↦ rw (e, insert) (subst (λ i. All (λ f. same i f.0 ≡ false) m) (same→eq j k e) all, d)
    | inr e ↦
        rw (e, insert)
          (All-insert (λ f. same j f.0 ≡ false) k v m e all, insert-DistinctKeys k v m d)
  ]

  pub delete-DistinctKeys :
      (k : Bytes) (m : List (Bytes × V)) → DistinctKeys m → DistinctKeys (delete k m)
  unfolding delete
  delete-DistinctKeys k [] d = tt
  delete-DistinctKeys k ((j, w) ∷ m) (all, d) = elim (Bool-cases (same j k)) [
    | inl e ↦ rw (e, delete) d
    | inr e ↦
        rw (e, delete) (All-delete (λ f. same j f.0 ≡ false) k m all, delete-DistinctKeys k m d)
  ]

-- What a lookup finds is in the map.
pub lookup-Member :
    {V : Type 0} (k : Bytes) (v : V) (m : List (Bytes × V)) → lookup k m ≡ some v → Member (k, v) m
unfolding lookup
lookup-Member k v [] h = cc
lookup-Member k v ((j, w) ∷ m) h = elim (Bool-cases (same j k)) [
  | inl e ↦ inl (ap₂ (λ i x. (i, x)) (sym (same→eq j k e)) (sym (some-inj (simp (e, lookup) at h))))
  | inr e ↦ inr (lookup-Member k v m (simp (e, lookup) at h))
]
