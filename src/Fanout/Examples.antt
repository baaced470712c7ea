-- ===== src/Fanout/Examples.antt =====
-- internal/peers/client.go at two subscribers, one of which has not read its buffered event.
use owlwatch.Prelude.{ℕ, ◌≡◌, refl, arith, true, false, List, [], ◌∷◌, some}
use owlwatch.Fanout.{
  Fanout, Chan, init, find, each, offer, close, shutdown, broadcast, Op, run, subscribes,
  shuts_down, cancels, receives, broadcasts,
}
use owlwatch.Fanout.Invariant.{IsValid, run-init-IsValid}

abbrev waiting : Chan ℕ
waiting = record { queue = 4 ∷ []; closed = false }

abbrev reading : Chan ℕ
reading = record { queue = []; closed = false }

abbrev two_subs : Fanout ℕ
two_subs = record {
  subs = (1, waiting) ∷ (0, reading) ∷ [];
  retired = [];
  next_sub = 2;
  stopped = false;
}

abbrev after_event : Fanout ℕ
after_event = record {
  subs =
      (1, record { queue = 4 ∷ 9 ∷ []; closed = false })
      ∷ (0, record { queue = 9 ∷ []; closed = false })
      ∷ [];
  retired = [];
  next_sub = 2;
  stopped = false;
}

abbrev after_shutdown : Fanout ℕ
after_shutdown = record {
  subs = [];
  retired =
      (1, record { queue = 4 ∷ []; closed = true })
      ∷ (0, record { queue = []; closed = true })
      ∷ [];
  next_sub = 2;
  stopped = true;
}

abbrev busy_run : List (Op ℕ)
busy_run =
    subscribes
    ∷ broadcasts 3
    ∷ subscribes
    ∷ receives 0
    ∷ cancels 0
    ∷ cancels 0
    ∷ broadcasts 4
    ∷ shuts_down
    ∷ subscribes
    ∷ cancels 1
    ∷ broadcasts 5
    ∷ []

two_subs-broadcast : broadcast 9 two_subs ≡ some after_event
unfolding broadcast each offer
two_subs-broadcast = refl

two_subs-shutdown : shutdown two_subs ≡ some after_shutdown
unfolding shutdown each close
two_subs-shutdown = refl

two_subs-find : find 1 two_subs.subs ≡ some waiting
unfolding find
two_subs-find = refl

two_subs-IsValid : IsValid two_subs
two_subs-IsValid = record {
  open_subs = (refl, omega arith, omega arith, (refl, omega arith, omega arith, tt));
  closed_retired = tt;
  stopped_empty = λ e. absurd cc;
}

run-init-IsValid_example : (s : Fanout ℕ) × (run busy_run init ≡ some s) × IsValid s
run-init-IsValid_example = run-init-IsValid busy_run
