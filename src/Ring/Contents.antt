-- ===== src/Ring/Contents.antt =====
-- internal/peers/client.go: the ring read as a list, and its representation invariant.
use owlwatch.Prelude.{
  ℕ, zero, suc, ◌+◌, ◌-◌, ◌%◌, ◌≤◌, ◌<◌, ◌≡◌, refl, ap, ◌∙◌, arith, List, [], ◌∷◌, some, ltb,
  dec_lt, if◌then◌else◌, length, get_elem?, gather, gather-total, length-gather, get_elem?-gather,
  length-replicate,
}
use native.Mathlib.Nat.{mod-eq_of_lt, mod-eq-sub-mod}
use owlwatch.Ring.{Ring, empty, at, snapshots}

-- `%` of a number that goes round at most once.
pub mod_once : (a c : ℕ) → a < c + c → a % c ≡ (if ltb a c then a else a - c)
mod_once a c h = elim (dec_lt a c) [
  | yes p ↦ ground (arith, mod-eq_of_lt p)
  | no p ↦ ground (
    arith,
    mod-eq-sub-mod {n = a} {m = c} (omega arith),
    mod-eq_of_lt {n = a - c} {m = c} (omega arith),
  )
]

module _ {ℓ} {A : Type ℓ} where
  pub record IsValid (r : Ring A) : Type ℓ where
    pub head_in : r.head < length r.buf
    pub count_in : r.count ≤ length r.buf

  pub get_elem?-total : (xs : List A) (i : ℕ) → i < length xs → (x : A) × (get_elem? xs i ≡ some x)
  get_elem?-total [] i h = absurd (omega arith)
  get_elem?-total (x ∷ xs) zero h = (x, refl)
  get_elem?-total (x ∷ xs) (suc i) h = get_elem?-total xs i (omega arith)

  pub at-total : (r : Ring A) (i : ℕ) → IsValid r → (x : A) × (at r i ≡ some x)
  at-total r i v = get_elem?-total r.buf _ (omega arith)

  -- A valid ring reads without a panic, and gives as many entries as it counts.
  pub snapshots-total :
      (r : Ring A) → IsValid r → (xs : List A) × (snapshots r ≡ some xs) × (length xs ≡ r.count)
  unfolding snapshots
  snapshots-total r v =
      let (xs, e) = gather-total (at r) 0 r.count (λ k lt. at-total r (0 + k) v) in
      (xs, e, length-gather (at r) 0 r.count e)

  pub at-snapshots :
      (r : Ring A) {xs : List A} (i : ℕ)
      → snapshots r ≡ some xs
      → i < r.count
      → at r i ≡ get_elem? xs i
  unfolding snapshots
  at-snapshots r i h lt =
      ap (at r) (let e : i ≡ 0 + i = omega arith in e) ∙ get_elem?-gather (at r) 0 r.count i h lt

  pub empty-IsValid : (z : A) (n : ℕ) → 0 < n → IsValid (empty z n)
  unfolding empty
  empty-IsValid z n h = record {
    head_in = omega (arith, length-replicate n z);
    count_in = omega arith;
  }

  pub length-empty : (z : A) (n : ℕ) → length (empty z n).buf ≡ n
  unfolding empty
  length-empty z n = length-replicate n z

  pub snapshots-empty : (z : A) (n : ℕ) → snapshots (empty z n) ≡ some []
  unfolding snapshots empty gather
  snapshots-empty z n = refl
