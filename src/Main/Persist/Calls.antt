-- ===== src/Main/Persist/Calls.antt =====
-- cmd/owlwatch/main.go: which snapshots `persistLoop` inserts.
use owlwatch.Prelude.{
  ℕ, ◌≡◌, inl, inr, refl, sym, ap, subst, ◌∙◌, Bool, true, false, ◌&&◌, List, [], ◌∷◌, ◌++◌, map,
  none, if◌then◌else◌, Member, Bool-cases,
}
use owlwatch.Metrics.{Snapshot}
use owlwatch.Main.Persist.{
  Event, arrives, persists, prunes, closes, stops, Call, inserts, deletes_old, logs_insert,
  logs_prune, Pump, past_minute, after_insert, on_persist, prune, pump, persist_loop,
}

-- The first list is the second with some entries left out.
pub data Sublist {A : Type 0} : List A → List A → Type 0 where
  done : Sublist [] []
  keep : (x : A) {xs ys : List A} → Sublist xs ys → Sublist (x ∷ xs) (x ∷ ys)
  skip : (y : A) {xs ys : List A} → Sublist xs ys → Sublist xs (y ∷ ys)

Sublist-nil : {A : Type 0} (ys : List A) → Sublist [] ys
Sublist-nil [] = done
Sublist-nil (y ∷ ys) = skip y (Sublist-nil ys)

module _ {F : Type 0} where
  unfoldable pub inserted : List (Call F) → List (Snapshot F)
  inserted [] = []
  inserted (inserts snap ∷ calls) = snap ∷ inserted calls
  inserted (deletes_old ∷ calls) = inserted calls
  inserted (logs_insert ∷ calls) = inserted calls
  inserted (logs_prune ∷ calls) = inserted calls

  unfoldable pub arrived : List (Event F) → List (Snapshot F)
  arrived [] = []
  arrived (arrives snap ∷ evs) = snap ∷ arrived evs
  arrived (persists now failed ∷ evs) = arrived evs
  arrived (prunes failed ∷ evs) = arrived evs
  arrived (closes ∷ evs) = arrived evs
  arrived (stops ∷ evs) = arrived evs

  inserted-append : (xs ys : List (Call F)) → inserted (xs ++ ys) ≡ inserted xs ++ inserted ys
  unfolding inserted
  inserted-append [] ys = refl
  inserted-append (inserts snap ∷ xs) ys = ap (λ l. snap ∷ l) (inserted-append xs ys)
  inserted-append (deletes_old ∷ xs) ys = inserted-append xs ys
  inserted-append (logs_insert ∷ xs) ys = inserted-append xs ys
  inserted-append (logs_prune ∷ xs) ys = inserted-append xs ys

  inserted-prune : (failed : Bool) → inserted (prune failed) ≡ []
  unfolding prune inserted
  inserted-prune true = refl
  inserted-prune false = refl

  after_insert_lem :
      (now : ℕ) (failed : Bool) (p : Pump F)
      → (inserted (after_insert now failed p).1 ≡ [])
        × ((after_insert now failed p).0.fresh ≡ p.fresh)
        × ((after_insert now failed p).0.latest ≡ p.latest)
  unfolding after_insert inserted
  after_insert_lem now failed p = elim (Bool-cases (failed && past_minute now p.last_insert_fail)) [
    | inl e ↦ rw (e, after_insert) (refl, refl, refl)
    | inr e ↦ rw (e, after_insert) (refl, refl, refl)
  ]

  -- The snapshot that waits for the next tick.
  waiting : Pump F → List (Snapshot F)
  waiting p = if p.fresh then p.latest ∷ [] else []

  on_persist_lem :
      (now : ℕ) (failed : Bool) (p : Pump F)
      → (inserted (on_persist now failed p).1 ≡ waiting p)
        × ((on_persist now failed p).0.fresh ≡ false)
  unfolding on_persist inserted waiting
  on_persist_lem now failed p = elim (Bool-cases p.fresh) [
    | inl e ↦
        let (none_more, fresh, _) = after_insert_lem now failed (record p { fresh = false }) in
        rw (e, on_persist) (ap (λ l. p.latest ∷ l) none_more, fresh)
    | inr e ↦ rw (e, on_persist) (refl, refl)
  ]

  waiting-stale : (p : Pump F) → p.fresh ≡ false → waiting p ≡ []
  unfolding waiting
  waiting-stale p e = rw e refl

  Sublist-waiting :
      (p : Pump F) (xs ys : List (Snapshot F)) → Sublist xs ys → Sublist xs (waiting p ++ ys)
  unfolding waiting
  Sublist-waiting p xs ys h = elim (Bool-cases p.fresh) [
    | inl e ↦ rw e (skip p.latest h)
    | inr e ↦ rw e h
  ]

  waiting-Sublist :
      (p : Pump F) (xs ys : List (Snapshot F))
      → Sublist xs ys
      → Sublist (waiting p ++ xs) (waiting p ++ ys)
  unfolding waiting
  waiting-Sublist p xs ys h = elim (Bool-cases p.fresh) [
    | inl e ↦ rw e (keep p.latest h)
    | inr e ↦ rw e h
  ]

  inserted-persists :
      (now : ℕ) (failed : Bool) (p : Pump F) (evs : List (Event F))
      → inserted (pump p (persists now failed ∷ evs))
        ≡ waiting p ++ inserted (pump (on_persist now failed p).0 evs)
  unfolding pump
  inserted-persists now failed p evs =
      let (p', calls) = on_persist now failed p in
      inserted-append calls (pump p' evs)
      ∙ ap (λ l. l ++ inserted (pump p' evs)) (on_persist_lem now failed p).0

  inserted-prunes :
      (failed : Bool) (calls : List (Call F)) → inserted (prune failed ++ calls) ≡ inserted calls
  inserted-prunes failed calls =
      inserted-append (prune failed) calls ∙ ap (λ l. l ++ inserted calls) (inserted-prune failed)

  pump-Sublist :
      (p : Pump F) (evs : List (Event F))
      → Sublist (inserted (pump p evs)) (waiting p ++ arrived evs)
  unfolding arrived inserted pump waiting
  pump-Sublist p [] = Sublist-nil (waiting p ++ [])
  pump-Sublist p (arrives snap ∷ evs) =
      Sublist-waiting p _ _ (pump-Sublist (record p { latest = snap; fresh = true }) evs)
  pump-Sublist p (persists now failed ∷ evs) =
      let p' = (on_persist now failed p).0 in
      let rest =
        subst (λ l. Sublist (inserted (pump p' evs)) (l ++ arrived evs))
          (waiting-stale p' (on_persist_lem now failed p).1) (pump-Sublist p' evs) in
      subst (λ l. Sublist l (waiting p ++ arrived evs)) (sym (inserted-persists now failed p evs))
        (waiting-Sublist p _ _ rest)
  pump-Sublist p (prunes failed ∷ evs) =
      subst (λ l. Sublist l (waiting p ++ arrived evs)) (sym (inserted-prunes failed (pump p evs)))
        (pump-Sublist p evs)
  pump-Sublist p (closes ∷ evs) = Sublist-nil (waiting p ++ arrived evs)
  pump-Sublist p (stops ∷ evs) = Sublist-nil (waiting p ++ arrived evs)

  -- However ticks, failures and snapshots follow on each other, the pump calls Insert for each snapshot
  -- at most once, and in the order of their arrival.
  pub persist_loop-Sublist :
      (zero : Snapshot F) (failed : Bool) (evs : List (Event F))
      → Sublist (inserted (persist_loop zero failed evs)) (arrived evs)
  unfolding persist_loop waiting
  persist_loop-Sublist zero failed evs =
      subst (λ l. Sublist l (arrived evs)) (sym (inserted-prunes failed _))
        (pump-Sublist (record { latest = zero; fresh = false; last_insert_fail = none }) evs)

  -- None of the events ends the loop.
  unfoldable pub Goes : List (Event F) → Type 0
  Goes [] = Unit
  Goes (arrives snap ∷ evs) = Goes evs
  Goes (persists now failed ∷ evs) = Goes evs
  Goes (prunes failed ∷ evs) = Goes evs
  Goes (closes ∷ evs) = ⊥
  Goes (stops ∷ evs) = ⊥

  Member-append : (x : Snapshot F) (xs ys : List (Snapshot F)) → Member x ys → Member x (xs ++ ys)
  Member-append x [] ys m = m
  Member-append x (_ ∷ xs) ys m = inr (Member-append x xs ys m)

  -- After `prunes` only, the waiting snapshot is inserted.
  quiet_then_tick :
      (p : Pump F) (quiet : List Bool) (now : ℕ) (failed : Bool) (evs : List (Event F))
      → p.fresh ≡ true
      → Member p.latest (inserted (pump p (map prunes quiet ++ persists now failed ∷ evs)))
  unfolding pump waiting
  quiet_then_tick p [] now failed evs e =
      subst (Member p.latest) (sym (inserted-persists now failed p evs)) (rw e (inl refl))
  quiet_then_tick p (b ∷ quiet) now failed evs e =
      subst (Member p.latest) (sym (inserted-prunes b _)) (quiet_then_tick p quiet now failed evs e)

  pump-next_tick :
      (p : Pump F) (past : List (Event F)) (snap : Snapshot F) (quiet : List Bool) (now : ℕ)
      (failed : Bool) (evs : List (Event F))
      → Goes past
      → Member snap
          (inserted (pump p (past ++ arrives snap ∷ map prunes quiet ++ persists now failed ∷ evs)))
  unfolding Goes pump
  pump-next_tick p [] snap quiet now failed evs goes =
      quiet_then_tick (record p { latest = snap; fresh = true }) quiet now failed evs refl
  pump-next_tick p (arrives other ∷ past) snap quiet now failed evs goes =
      pump-next_tick (record p { latest = other; fresh = true }) past snap quiet now failed evs goes
  pump-next_tick p (persists t b ∷ past) snap quiet now failed evs goes =
      let rest = past ++ arrives snap ∷ map prunes quiet ++ persists now failed ∷ evs in
      subst (Member snap) (sym (inserted-persists t b p rest)) (
        Member-append snap (waiting p) _
          (pump-next_tick (on_persist t b p).0 past snap quiet now failed evs goes))
  pump-next_tick p (prunes b ∷ past) snap quiet now failed evs goes =
      subst (Member snap) (sym (inserted-prunes b _))
        (pump-next_tick p past snap quiet now failed evs goes)
  pump-next_tick p (closes ∷ past) snap quiet now failed evs goes = absurd goes
  pump-next_tick p (stops ∷ past) snap quiet now failed evs goes = absurd goes

  -- A snapshot that arrives while the loop goes on, and is the newest one at the next tick of the persist
  -- ticker, is given to Insert, whatever failed before and however often the hourly prune came between.
  pub persist_loop-next_tick :
      (zero : Snapshot F) (first : Bool) (past : List (Event F)) (snap : Snapshot F)
      (quiet : List Bool) (now : ℕ) (failed : Bool) (evs : List (Event F))
      → Goes past
      → Member snap (
          inserted (
            persist_loop zero first
              (past ++ arrives snap ∷ map prunes quiet ++ persists now failed ∷ evs)))
  unfolding persist_loop
  persist_loop-next_tick zero first past snap quiet now failed evs goes =
      subst (Member snap) (sym (inserted-prunes first _)) (
        pump-next_tick (record { latest = zero; fresh = false; last_insert_fail = none }) past snap
          quiet now failed evs goes)
