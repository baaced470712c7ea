-- ===== src/Ring/Seed.antt =====
-- internal/peers/client.go: `seedRing`, the ring after a hello.
use owlwatch.Prelude.{
  ℕ, ◌-◌, ◌<◌, ◌≡◌, refl, sym, ap, ◌∙◌, arith, List, [], ◌∷◌, ◌++◌, Option, some, ltb,
  if◌then◌else◌, length, last, drop, gather, length-append, length-drop, length-last, drop-append,
  drop-drop, fold, ◌>>=◌, Bool-cases, ltb→ge, inl, inr, drop-nil,
}
use mathlib.Core.List.{append_assoc, append-nil}
use owlwatch.Ring.{Ring, snapshots, push, seed}
use owlwatch.Ring.Contents.{IsValid}
use owlwatch.Ring.Push.{push_refines, last_short}

module _ {ℓ} {A : Type ℓ} where
  -- Cutting a first part beforehand does not change which entries are the last.
  last-append-last : (n : ℕ) (xs ys : List A) → last n (last n xs ++ ys) ≡ last n (xs ++ ys)
  last-append-last n xs ys =
      let cut = drop-append (length xs - n) xs ys (omega arith) in
      ap (last n) (sym cut)
      ∙ drop-drop _ (length xs - n) (xs ++ ys)
      ∙ ap (λ k. drop k (xs ++ ys))
          (omega (arith, length-drop (length xs - n) (xs ++ ys), length-append xs ys))

  -- What pushing a list one by one leaves of it.
  Seeded : ℕ → List A → Option (Ring A) → Type ℓ
  Seeded n xs o =
      (r : Ring A) × (o ≡ some r)
      × IsValid r
      × (length r.buf ≡ n)
      × (snapshots r ≡ some (last n xs))

  fold-push :
      (n : ℕ) (ys xs : List A) (r : Ring A)
      → IsValid r
      → length r.buf ≡ n
      → snapshots r ≡ some (last n xs)
      → Seeded n (xs ++ ys) (fold push r ys)
  unfolding Seeded
  fold-push n [] xs r v e h = (r, refl, v, e, h ∙ ap (λ l. some (last n l)) (sym (append-nil xs)))
  fold-push n (y ∷ ys) xs r v e h =
      let (r', step, v', e', h') = push_refines r y (last n xs) v h in
      let kept : snapshots r' ≡ some (last n (xs ++ y ∷ [])) =
        h'
        ∙ ap (λ k. some (last k (last n xs ++ y ∷ []))) e
        ∙ ap some (last-append-last n xs (y ∷ [])) in
      let (q, done, vq, eq, hq) = fold-push n ys (xs ++ y ∷ []) r' v' (e' ∙ e) kept in
      (
        q,
        ap (λ o. o >>= λ s. fold push s ys) step ∙ done,
        vq,
        eq,
        hq ∙ ap (λ l. some (last n l)) (append_assoc xs (y ∷ []) ys),
      )

  trimmed :
      (n : ℕ) (recent : List A)
      → (if ltb n (length recent) then last n recent else recent) ≡ last n recent
  trimmed n recent = elim (Bool-cases (ltb n (length recent))) [
    | inl long ↦ rw long
    | inr short ↦ rw short (sym (last_short n recent (ltb→ge _ _ short)))
  ]

  -- Seeding a ring of any size above 0, whatever it held, never panics and keeps its size; the ring
  -- then holds exactly the newest of the entries sent, oldest first, as many as fit.
  pub seed_refines :
      (r : Ring A) (recent : List A)
      → 0 < length r.buf
      → (r' : Ring A) × (seed r recent ≡ some r')
        × IsValid r'
        × (length r'.buf ≡ length r.buf)
        × (snapshots r' ≡ some (last (length r.buf) recent))
  unfolding seed Seeded snapshots gather
  seed_refines r recent h =
      let n : ℕ = length r.buf in
      let sent = trimmed n recent in
      let (q, done, v, e, kept) =
        fold-push n (last n recent) [] (record r { head = 0; count = 0 })
          (record { head_in = h; count_in = omega arith }) refl
          (ap some (sym (drop-nil (0 - n)))) in
      let short = last_short n (last n recent) (omega (arith, length-last n recent)) in
      (q, ap (fold push (record r { head = 0; count = 0 })) sent ∙ done, v, e, kept ∙ ap some short)
