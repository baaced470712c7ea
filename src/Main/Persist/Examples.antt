-- ===== src/Main/Persist/Examples.antt =====
-- cmd/owlwatch/main.go at three snapshots, an insert that fails, and a tick without a sample.
use owlwatch.Prelude.{ℕ, ◌≡◌, refl, true, false, List, [], ◌∷◌, Member}
use owlwatch.Peers.Client.Sample.{snapshot_at, zero}
use owlwatch.Main.Persist.{
  Event, arrives, persists, prunes, stops, inserts, deletes_old, logs_insert, past_minute,
  after_insert, on_persist, prune, pump, persist_loop,
}
use owlwatch.Main.Persist.Calls.{
  Sublist, inserted, arrived, Goes, persist_loop-Sublist, persist_loop-next_tick,
}

abbrev first_failed : List (Event ℕ)
first_failed = arrives (snapshot_at 2 10) ∷ persists 90000000000 true ∷ []

abbrev events : List (Event ℕ)
events =
    arrives (snapshot_at 2 10)
    ∷ persists 90000000000 true
    ∷ persists 100000000000 false
    ∷ arrives (snapshot_at 4 11)
    ∷ arrives (snapshot_at 6 12)
    ∷ prunes false
    ∷ persists 110000000000 true
    ∷ stops
    ∷ []

calls_made :
    persist_loop zero false events
    ≡ deletes_old
      ∷ inserts (snapshot_at 2 10)
      ∷ logs_insert
      ∷ deletes_old
      ∷ inserts (snapshot_at 6 12)
      ∷ []
unfolding persist_loop pump prune on_persist after_insert past_minute
calls_made = refl

persist_loop-Sublist_example : Sublist (inserted (persist_loop zero false events)) (arrived events)
persist_loop-Sublist_example = persist_loop-Sublist zero false events

first_failed-Goes : Goes first_failed
unfolding Goes
first_failed-Goes = tt

persist_loop-next_tick_example : Member (snapshot_at 4 11) (
    inserted (
      persist_loop zero false (
        arrives (snapshot_at 2 10)
        ∷ persists 90000000000 true
        ∷ arrives (snapshot_at 4 11)
        ∷ prunes true
        ∷ persists 110000000000 false
        ∷ stops
        ∷ [])))
persist_loop-next_tick_example =
    persist_loop-next_tick zero false first_failed (snapshot_at 4 11) (true ∷ []) 110000000000 false
      (stops ∷ []) first_failed-Goes
