-- ===== src/Fanout.antt =====
-- Subscriptions and non-blocking fan-out: `Subscribe`, its cancel func, `shutdown` and
-- `broadcastLocked` of internal/peers/client.go, which internal/collector/collector.go repeats over
-- snapshots. Each function runs under the mutex, so it is one step. A `none` is a run-time panic: a
-- send on a closed channel, or a second close.
pub mod Invariant
pub mod Delivery
mod Examples
use owlwatch.Prelude.{
  ℕ, suc, ◌+◌, Bool, true, false, List, [], ◌∷◌, ◌++◌, Option, none, some, ltb, ◌==◌, if◌then◌else◌,
  length, ◌>>=◌,
}

abbrev pub subscriber_buffer : ℕ
subscriber_buffer = 16

-- A channel made with capacity `subscriber_buffer`, seen by both its ends.
pub record Chan {ℓ} (E : Type ℓ) : Type ℓ where
  pub queue : List E
  pub closed : Bool

-- The fields `subs`, `nextSub` and `stopped`. `retired` holds the channels that were taken out of
-- `subs`, which their subscribers can still read.
pub record Fanout {ℓ} (E : Type ℓ) : Type ℓ where
  pub subs : List (ℕ × Chan E)
  pub retired : List (ℕ × Chan E)
  pub next_sub : ℕ
  pub stopped : Bool

-- What `Subscribe` hands out: a registered channel with its cancel func, or a closed channel.
pub data Subscription : Type 0 where
  registered : ℕ → Subscription
  closed_at_once : Subscription

module _ {ℓ} {E : Type ℓ} where
  pub init : Fanout E
  init = record { subs = []; retired = []; next_sub = 0; stopped = false }

  -- `select { case ch <- ev: default: }`
  pub offer : E → Chan E → Option (Chan E)
  offer ev ch =
      if ch.closed
      then none
      else if ltb (length ch.queue) subscriber_buffer
      then some (record ch { queue = ch.queue ++ ev ∷ [] })
      else some ch

  pub close : Chan E → Option (Chan E)
  close ch = if ch.closed then none else some (record ch { closed = true })

  pub find : ℕ → List (ℕ × Chan E) → Option (Chan E)
  find id [] = none
  find id ((j, ch) ∷ m) = if j == id then some ch else find id m

  pub delete : ℕ → List (ℕ × Chan E) → List (ℕ × Chan E)
  delete id [] = []
  delete id ((j, ch) ∷ m) = if j == id then m else (j, ch) ∷ delete id m

  -- A `for ... range` over the map with an effect on each channel.
  pub each : (Chan E → Option (Chan E)) → List (ℕ × Chan E) → Option (List (ℕ × Chan E))
  each f [] = some []
  each f ((j, ch) ∷ m) = f ch >>= λ ch'. each f m >>= λ m'. some ((j, ch') ∷ m')

  pub subscribe : Fanout E → Subscription × Fanout E
  subscribe s = if s.stopped then (closed_at_once, s) else (
    registered s.next_sub,
    record s {
      subs = (s.next_sub, record { queue = []; closed = false }) ∷ s.subs;
      next_sub = s.next_sub + 1;
    },
  )

  -- The cancel func of the subscription `id`.
  pub cancel : ℕ → Fanout E → Option (Fanout E)
  unfolding find close delete
  cancel id s = elim (find id s.subs) [
    | none ↦ some s
    | some ch ↦ close ch >>= λ ch'.
        some (record s { subs = delete id s.subs; retired = (id, ch') ∷ s.retired })
  ]

  pub shutdown : Fanout E → Option (Fanout E)
  unfolding each close
  shutdown s = each close s.subs >>= λ closed.
      some (record s { stopped = true; subs = []; retired = closed ++ s.retired })

  pub broadcast : E → Fanout E → Option (Fanout E)
  unfolding each offer
  broadcast ev s = each (offer ev) s.subs >>= λ subs. some (record s { subs = subs })

-- What a subscriber's `<-ch` meets.
pub data Receipt {ℓ} (E : Type ℓ) : Type ℓ where
  got : E → Receipt E
  blocked at_end : Receipt E

module _ {ℓ} {E : Type ℓ} where
  take_from : Chan E → List E → Receipt E × Chan E
  take_from ch [] = (if ch.closed then at_end else blocked, ch)
  take_from ch (e ∷ rest) = (got e, record ch { queue = rest })

  take_at : ℕ → List (ℕ × Chan E) → Receipt E × List (ℕ × Chan E)
  unfolding take_from
  take_at id [] = (blocked, [])
  take_at id ((j, ch) ∷ m) =
      let (r, ch') = take_from ch ch.queue in
      let (r', m') = take_at id m in if j == id then (r, (j, ch') ∷ m) else (r', (j, ch) ∷ m')

  -- One receive on the channel of subscription `id`, registered or retired.
  pub receive : ℕ → Fanout E → Receipt E × Fanout E
  unfolding take_at find
  receive id s = elim (find id s.subs) [
    | some _ ↦ let (r, subs') = take_at id s.subs in (r, record s { subs = subs' })
    | none ↦ let (r, retired') = take_at id s.retired in (r, record s { retired = retired' })
  ]

-- What can happen to the registry.
pub data Op {ℓ} (E : Type ℓ) : Type ℓ where
  subscribes shuts_down : Op E
  cancels receives : ℕ → Op E
  broadcasts : E → Op E

module _ {ℓ} {E : Type ℓ} where
  pub step : Op E → Fanout E → Option (Fanout E)
  unfolding subscribe shutdown cancel broadcast receive
  step subscribes s = some (subscribe s).1
  step shuts_down s = shutdown s
  step (cancels id) s = cancel id s
  step (receives id) s = some (receive id s).1
  step (broadcasts ev) s = broadcast ev s

  pub run : List (Op E) → Fanout E → Option (Fanout E)
  unfolding step
  run [] s = some s
  run (op ∷ ops) s = step op s >>= λ s'. run ops s'
