-- ===== src/Main/Persist.antt =====
-- cmd/owlwatch/main.go: `persistLoop`, the pump of samples to the store. The loop is a run over the
-- events that its select meets, in the order in which it takes them; what it does is the list of
-- calls it makes. Times are nanoseconds; the zero time.Time is `none`.
pub mod Calls
mod Examples
use owlwatch.Prelude.{
  ℕ, ◌+◌, ◌*◌, Bool, true, false, ◌&&◌, List, [], ◌∷◌, ◌++◌, Option, none, some, ltb, if◌then◌else◌,
}
use owlwatch.Metrics.{Snapshot}

-- What the select takes. A tick of the persist ticker carries the time of the insert that it may
-- cause and whether that fails; a tick of the hourly one whether the prune fails.
pub data Event (F : Type 0) : Type 0 where
  arrives : Snapshot F → Event F
  persists : ℕ → Bool → Event F
  prunes : Bool → Event F
  closes stops : Event F

pub data Call (F : Type 0) : Type 0 where
  inserts : Snapshot F → Call F
  deletes_old logs_insert logs_prune : Call F

pub record Pump (F : Type 0) : Type 0 where
  pub latest : Snapshot F
  pub fresh : Bool
  pub last_insert_fail : Option ℕ

-- `time.Since(lastInsertFail) > time.Minute`
unfoldable pub past_minute : ℕ → Option ℕ → Bool
past_minute now none = true
past_minute now (some t) = ltb (t + 60000000000) now

module _ {F : Type 0} where
  -- A failure that is logged; one within a minute of such a failure is not.
  unfoldable pub after_insert : ℕ → Bool → Pump F → Pump F × List (Call F)
  unfolding past_minute
  after_insert now failed p =
      if failed && past_minute now p.last_insert_fail
      then (record p { last_insert_fail = some now }, logs_insert ∷ [])
      else (p, [])

  unfoldable pub on_persist : ℕ → Bool → Pump F → Pump F × List (Call F)
  unfolding after_insert
  on_persist now failed p =
      if p.fresh
      then (let (p', calls) = after_insert now failed (record p { fresh = false }) in
          (p', inserts p.latest ∷ calls))
      else (p, [])

  unfoldable pub prune : Bool → List (Call F)
  prune failed = deletes_old ∷ (if failed then logs_prune ∷ [] else [])

  -- The loop from the state `p`.
  unfoldable pub pump : Pump F → List (Event F) → List (Call F)
  unfolding on_persist prune
  pump p [] = []
  pump p (arrives snap ∷ evs) = pump (record p { latest = snap; fresh = true }) evs
  pump p (persists now failed ∷ evs) =
      let (p', calls) = on_persist now failed p in calls ++ pump p' evs
  pump p (prunes failed ∷ evs) = prune failed ++ pump p evs
  pump p (closes ∷ evs) = []
  pump p (stops ∷ evs) = []

  -- `persistLoop`, from the zero snapshot and the result of the first prune.
  unfoldable pub persist_loop : Snapshot F → Bool → List (Event F) → List (Call F)
  unfolding pump prune
  persist_loop zero failed evs =
      prune failed ++ pump (record { latest = zero; fresh = false; last_insert_fail = none }) evs
