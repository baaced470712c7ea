-- ===== src/Collector/Gpu/Poller.antt =====
-- internal/collector/gpu.go: how often the poller runs its command.
use owlwatch.Prelude.{
  ℕ, ◌+◌, ◌<◌, ◌≡◌, refl, ap, ◌∙◌, false, List, [], ◌∷◌, some, lt→ltb, if◌then◌else◌, All,
}
use owlwatch.Collector.Gpu.{
  Numbers, Query, not_found, fails, prints, GpuPoller, resting, give_up, found, after_query, sample,
  parse_nvidia_smi, gpu_reprobe_interval,
}

-- One tick of the sampler: when it begins, and when a query would be over, with its result.
pub record Tick : Type 0 where
  pub start : ℕ
  pub now : ℕ
  pub query : Query

module _ {F : Type 0} (numbers : Numbers F) where
  -- The ticks of a series at which the command is run.
  unfoldable pub commands : List Tick → GpuPoller → List Tick
  unfolding sample
  commands [] g = []
  commands (t ∷ ts) g =
      let s = sample numbers t.start t.now t.query g in
      let rest = commands ts s.poller in if s.ran then t ∷ rest else rest

  -- A query without a card: no binary, a failed command, or output that names none.
  unfoldable pub FindsNone : Query → Type 0
  unfolding parse_nvidia_smi
  FindsNone not_found = Unit
  FindsNone fails = Unit
  FindsNone (prints out) = parse_nvidia_smi numbers out ≡ []

  after_query-FindsNone :
      (q : Query) (now : ℕ) (g : GpuPoller)
      → FindsNone q
      → (after_query numbers q now g).poller
          ≡ record { available = false; next_probe = some (now + gpu_reprobe_interval) }
        × ((after_query numbers q now g).gpus ≡ [])
  unfolding after_query give_up FindsNone found
  after_query-FindsNone not_found now g h = (refl, refl)
  after_query-FindsNone fails now g h = (refl, refl)
  after_query-FindsNone (prints out) now g h = rw (h, after_query) (refl, refl)

  commands_resting :
      (next : ℕ) (ts : List Tick)
      → All (λ t. t.start < next) ts
      → commands ts (record { available = false; next_probe = some next }) ≡ []
  unfolding commands sample resting
  commands_resting next [] early = refl
  commands_resting next (t ∷ ts) (lt, early) =
      rw (lt→ltb t.start next lt, sample) (commands_resting next ts early)

  -- A tick whose query finds no card reports none, whether the binary is missing, the command fails, or
  -- its output names none; and from then on no tick runs the command again before a minute has passed.
  pub commands_pause :
      (t : Tick) (ts : List Tick) (g : GpuPoller)
      → resting t.start g ≡ false
      → FindsNone t.query
      → All (λ u. u.start < t.now + gpu_reprobe_interval) ts
      → ((sample numbers t.start t.now t.query g).gpus ≡ [])
        × (commands ts (sample numbers t.start t.now t.query g).poller ≡ [])
  unfolding sample
  commands_pause t ts g awake none_found early =
      let (poller, gpus) = after_query-FindsNone t.query t.now g none_found in
      rw (awake, sample)
        (gpus, ap (commands ts) poller ∙ commands_resting (t.now + gpu_reprobe_interval) ts early)
