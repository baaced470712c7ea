-- ===== src/Ring/Examples.antt =====
-- internal/peers/client.go at a full ring, whose oldest entry is in the middle.
use owlwatch.Prelude.{
  ℕ, ◌*◌, ◌-◌, ◌<◌, ◌≡◌, refl, arith, List, [], ◌∷◌, ◌++◌, some, length, last, min, get_elem?,
  gather,
}
use owlwatch.Ring.{Ring, push, seed, snapshots, recent_cpu, recent_cpu_of, usage_at}
use owlwatch.Ring.Contents.{IsValid}
use owlwatch.Ring.Push.{push_refines}
use owlwatch.Ring.Seed.{seed_refines}
use owlwatch.Ring.Series.{recent_cpu-eq-recent_cpu_of, sample_index, recent_cpu_of_lem}

abbrev full_ring : Ring ℕ
full_ring = record { buf = 7 ∷ 8 ∷ 9 ∷ []; head = 1; count = 3 }

full_ring-IsValid : IsValid full_ring
full_ring-IsValid = record { head_in = omega arith; count_in = omega arith }

full_ring-snapshots : snapshots full_ring ≡ some (8 ∷ 9 ∷ 7 ∷ [])
unfolding snapshots gather
full_ring-snapshots = refl

abbrev double : ℕ → ℕ
double n = n * 2

push_refines_example :
    (r' : Ring ℕ) × (push full_ring 5 ≡ some r')
    × IsValid r'
    × (length r'.buf ≡ 3)
    × (snapshots r' ≡ some (last 3 ((8 ∷ 9 ∷ 7 ∷ []) ++ 5 ∷ [])))
push_refines_example =
    push_refines full_ring 5 (8 ∷ 9 ∷ 7 ∷ []) full_ring-IsValid full_ring-snapshots

seed_refines_example :
    (r' : Ring ℕ) × (seed full_ring (1 ∷ 2 ∷ 3 ∷ 4 ∷ []) ≡ some r')
    × IsValid r'
    × (length r'.buf ≡ 3)
    × (snapshots r' ≡ some (last 3 (1 ∷ 2 ∷ 3 ∷ 4 ∷ [])))
seed_refines_example = seed_refines full_ring (1 ∷ 2 ∷ 3 ∷ 4 ∷ []) (omega arith)

recent_cpu_example : recent_cpu double full_ring ≡ recent_cpu_of double (8 ∷ 9 ∷ 7 ∷ [])
recent_cpu_example =
    recent_cpu-eq-recent_cpu_of double full_ring (8 ∷ 9 ∷ 7 ∷ []) full_ring-IsValid
      full_ring-snapshots

recent_cpu_of_example :
    (out : List ℕ) × (recent_cpu_of double (8 ∷ 9 ∷ 7 ∷ []) ≡ some out)
    × (length out ≡ min 3 60)
    × (get_elem? out 0 ≡ some 16)
    × (get_elem? out (length out - 1) ≡ some 14)
    × ((i : ℕ)
        → i < length out
        → get_elem? out i ≡ usage_at double (get_elem? (8 ∷ 9 ∷ 7 ∷ []) (sample_index 3 i)))
recent_cpu_of_example = recent_cpu_of_lem double (8 ∷ 9 ∷ 7 ∷ []) (omega arith)
