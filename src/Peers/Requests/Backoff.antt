-- ===== src/Peers/Requests/Backoff.antt =====
-- internal/peers/client.go: the waits of `runPeer`.
use owlwatch.Prelude.{
  ℕ, ◌*◌, ◌/◌, ◌≤◌, ◌<◌, inl, inr, arith, Bool, true, false, List, [], ◌∷◌, ltb, ltb→lt, ltb→ge,
  length, All, Bool-cases,
}
use owlwatch.Peers.Requests.{next_backoff, jitter, waits}

-- `rand.Int64N n` is below a positive `n`.
abbrev pub Draws : (ℕ → ℕ) → Type 0
Draws draw = (n : ℕ) → 0 < n → draw n < n

jitter-bounds : (draw : ℕ → ℕ) (d : ℕ) → Draws draw → (d / 2 ≤ jitter draw d) × (jitter draw d ≤ d)
unfolding jitter
jitter-bounds draw d h = elim (Bool-cases (ltb 0 (d / 2))) [
  | inl e ↦
      let lt = h (d / 2) (ltb→lt 0 (d / 2) e) in rw (e, jitter) (omega arith, omega (arith, lt))
  | inr e ↦ rw (e, jitter) (omega arith, omega arith)
]

next_backoff-bounds :
    (base max_backoff b : ℕ)
    → base ≤ b
    → base ≤ max_backoff
    → (base ≤ next_backoff max_backoff b) × (next_backoff max_backoff b ≤ max_backoff)
unfolding next_backoff
next_backoff-bounds base max_backoff b lo le = elim (Bool-cases (ltb max_backoff (b * 2))) [
  | inl e ↦ rw (e, next_backoff) (le, omega arith)
  | inr e ↦ let ge = ltb→ge max_backoff (b * 2) e in rw (e, next_backoff) (omega arith, ge)
]

module _ (draws : ℕ → ℕ → ℕ) (base max_backoff : ℕ) where
  -- Whatever the attempts come to, every wait between two of them is at least half the base and at
  -- most the maximum, where the base is at most the maximum, the loop's backoff starts between them,
  -- and each draw below `n` is below `n`.
  pub waits-bounds :
      (backoff : ℕ) (attempts : List Bool)
      → ((i : ℕ) → Draws (draws i))
      → base ≤ max_backoff
      → base ≤ backoff
      → backoff ≤ max_backoff
      → All
          (λ w. (base / 2 ≤ w) × (w ≤ max_backoff))
          (waits draws base max_backoff backoff attempts)
  unfolding waits
  waits-bounds backoff [] d le lo hi = tt
  waits-bounds backoff (true ∷ rest) d le lo hi =
      let j = jitter-bounds (draws (length rest)) base (d (length rest)) in
      let n = next_backoff-bounds base max_backoff base (omega arith) le in
      (
        (omega (arith, j.0), omega (arith, j.1)),
        waits-bounds (next_backoff max_backoff base) rest d le n.0 n.1,
      )
  waits-bounds backoff (false ∷ rest) d le lo hi =
      let j = jitter-bounds (draws (length rest)) backoff (d (length rest)) in
      let n = next_backoff-bounds base max_backoff backoff lo le in
      (
        (omega (arith, j.0), omega (arith, j.1)),
        waits-bounds (next_backoff max_backoff backoff) rest d le n.0 n.1,
      )
