-- ===== src/Peers/Requests/Examples.antt =====
-- internal/peers/client.go at four attempts, of which the third succeeds, from two seconds to
-- thirty.
use owlwatch.Prelude.{ℕ, false, ◌≤◌, ◌/◌, arith, true, false, [], ◌∷◌, All}
use owlwatch.Peers.Requests.{waits}
use owlwatch.Peers.Requests.Backoff.{Draws, waits-bounds}

abbrev least : ℕ → ℕ
least n = 0

least-Draws : (i : ℕ) → Draws least
least-Draws i n h = h

waits_example :
    All
      (λ w. (2000000000 / 2 ≤ w) × (w ≤ 30000000000))
      (waits (λ i. least) 2000000000 30000000000 2000000000 (false ∷ false ∷ true ∷ false ∷ []))
waits_example =
    waits-bounds (λ i. least) 2000000000 30000000000 2000000000 (false ∷ false ∷ true ∷ false ∷ [])
      least-Draws (omega arith) (omega arith) (omega arith)
