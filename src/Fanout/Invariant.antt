-- ===== src/Fanout/Invariant.antt =====
-- internal/peers/client.go: the invariant of the subscriber registry.
use owlwatch.Prelude.{
  ℕ, ◌+◌, ◌≤◌, ◌<◌, ◌≡◌, inl, inr, refl, sym, ap, some-inj, arith, Bool, true, false, List, [], ◌∷◌,
  ◌++◌, some, ltb, ◌==◌, length, length-append, Bool-cases, Option-cases, ltb→lt,
}
use owlwatch.Fanout.{
  Chan, Fanout, Op, subscribes, shuts_down, cancels, receives, broadcasts, init, offer, close, find,
  delete, each, subscribe, cancel, shutdown, broadcast, take_from, take_at, receive, step, run,
  subscriber_buffer,
}

module _ {ℓ} {E : Type ℓ} where
  -- The ids fall along the list from below `n`; every channel is closed or open as `c` says, and
  -- none holds more than its capacity.
  abbrev pub Keyed : Bool → ℕ → List (ℕ × Chan E) → Type ℓ
  Keyed c n [] = Unit
  Keyed c n ((j, ch) ∷ m) =
      (ch.closed ≡ c) × (length ch.queue ≤ subscriber_buffer) × (j < n) × Keyed c j m

  -- Closed channels within capacity, in any order of ids.
  abbrev pub Retired : ℕ → List (ℕ × Chan E) → Type ℓ
  Retired n [] = Unit
  Retired n ((j, ch) ∷ m) =
      (ch.closed ≡ true) × (length ch.queue ≤ subscriber_buffer) × (j < n) × Retired n m

  pub record IsValid (s : Fanout E) : Type ℓ where
    pub open_subs : Keyed false s.next_sub s.subs
    pub closed_retired : Retired s.next_sub s.retired
    pub stopped_empty : s.stopped ≡ true → s.subs ≡ []

  pub init-IsValid : IsValid init
  unfolding init
  init-IsValid = record { open_subs = tt; closed_retired = tt; stopped_empty = λ _. refl }

  offer_lem :
      (ev : E) (ch : Chan E)
      → ch.closed ≡ false
      → length ch.queue ≤ subscriber_buffer
      → (ch' : Chan E) × (offer ev ch ≡ some ch')
        × (ch'.closed ≡ false)
        × (length ch'.queue ≤ subscriber_buffer)
  unfolding offer
  offer_lem ev ch o b = elim (Bool-cases (ltb (length ch.queue) subscriber_buffer)) [
    | inl room ↦ (
      record ch { queue = ch.queue ++ ev ∷ [] },
      rw (o, room),
      o,
      omega (arith, length-append ch.queue (ev ∷ []), ltb→lt _ _ room),
    )
    | inr full ↦ (ch, rw (o, full), o, b)
  ]

  each-offer :
      (ev : E) (n : ℕ) (m : List (ℕ × Chan E))
      → Keyed false n m
      → (m' : List (ℕ × Chan E)) × (each (offer ev) m ≡ some m') × Keyed false n m'
  unfolding each
  each-offer ev n [] k = ([], refl, tt)
  each-offer ev n ((j, ch) ∷ m) (o, b, lt, k) =
      let (ch', e, o', b') = offer_lem ev ch o b in
      let (m', es, k') = each-offer ev j m k in ((j, ch') ∷ m', rw (e, es), (o', b', lt, k'))

  Retired-mono : {a b : ℕ} (m : List (ℕ × Chan E)) → a ≤ b → Retired a m → Retired b m
  Retired-mono [] h r = tt
  Retired-mono ((j, ch) ∷ m) h (c, b, lt, r) = (c, b, omega arith, Retired-mono m h r)

  each-close :
      (n k : ℕ) (m : List (ℕ × Chan E))
      → n ≤ k
      → Keyed false n m
      → (m' : List (ℕ × Chan E)) × (each close m ≡ some m') × Retired k m'
  unfolding each close
  each-close n k [] le v = ([], refl, tt)
  each-close n k ((j, ch) ∷ m) le (o, b, lt, v) =
      let (m', es, r) = each-close j k m (omega arith) v in
      ((j, record ch { closed = true }) ∷ m', rw (o, es), (refl, b, omega arith, r))

  Retired-append :
      (n : ℕ) (a b : List (ℕ × Chan E)) → Retired n a → Retired n b → Retired n (a ++ b)
  Retired-append n [] b ra rb = rb
  Retired-append n ((j, ch) ∷ a) b (c, q, lt, ra) rb = (c, q, lt, Retired-append n a b ra rb)

  Keyed-mono : {a b : ℕ} (m : List (ℕ × Chan E)) → a ≤ b → Keyed false a m → Keyed false b m
  Keyed-mono [] h k = tt
  Keyed-mono ((j, ch) ∷ m) h (c, b, lt, k) = (c, b, omega arith, k)

  pub find_lem :
      (id n : ℕ) (m : List (ℕ × Chan E)) (ch : Chan E)
      → Keyed false n m
      → find id m ≡ some ch
      → (ch.closed ≡ false) × (length ch.queue ≤ subscriber_buffer) × (id < n)
  unfolding find
  find_lem id n [] ch k e = cc
  find_lem id n ((j, c) ∷ m) ch (o, b, lt, k) e = ground (arith, find_lem id j m ch k)

  delete-Keyed : (id n : ℕ) (m : List (ℕ × Chan E)) → Keyed false n m → Keyed false n (delete id m)
  unfolding delete
  delete-Keyed id n [] k = tt
  delete-Keyed id n ((j, c) ∷ m) (o, b, lt, k) = elim (Bool-cases (j == id)) [
    | inl e ↦ rw e (Keyed-mono {a = j} {b = n} m (omega arith) k)
    | inr e ↦ rw e (o, b, lt, delete-Keyed id j m k)
  ]

  -- A receive leaves the channel open or closed, and no fuller.
  take_from_lem :
      (c : Bool) (ch : Chan E) (q : List E)
      → ch.closed ≡ c
      → length q ≤ subscriber_buffer
      → let ch' = (take_from (record ch { queue = q }) q).1 in
        (ch'.closed ≡ c) × (length ch'.queue ≤ subscriber_buffer)
  unfolding take_from
  take_from_lem c ch [] o b = (o, b)
  take_from_lem c ch (e ∷ q) o b = (o, omega arith)

  take_at-Keyed :
      (id n : ℕ) (m : List (ℕ × Chan E)) → Keyed false n m → Keyed false n (take_at id m).1
  unfolding take_at take_from
  take_at-Keyed id n [] k = tt
  take_at-Keyed id n ((j, c) ∷ m) (o, b, lt, k) = elim (Bool-cases (j == id)) [
    | inl e ↦ rw e (let (o', b') = take_from_lem false c c.queue o b in (o', b', lt, k))
    | inr e ↦ rw e (o, b, lt, take_at-Keyed id j m k)
  ]

  take_at-Retired : (id n : ℕ) (m : List (ℕ × Chan E)) → Retired n m → Retired n (take_at id m).1
  unfolding take_at take_from
  take_at-Retired id n [] k = tt
  take_at-Retired id n ((j, c) ∷ m) (o, b, lt, k) = elim (Bool-cases (j == id)) [
    | inl e ↦ rw e (let (o', b') = take_from_lem true c c.queue o b in (o', b', lt, k))
    | inr e ↦ rw e (o, b, lt, take_at-Retired id n m k)
  ]

  each-nil :
      (ev : E) (m : List (ℕ × Chan E)) {m' : List (ℕ × Chan E)}
      → m ≡ []
      → each (offer ev) m ≡ some m'
      → m' ≡ []
  unfolding each
  each-nil ev [] none_left e = sym (some-inj e)
  each-nil ev (x ∷ m) none_left e = cc

  pub broadcast-IsValid :
      (ev : E) (s : Fanout E)
      → IsValid s
      → (s' : Fanout E) × (broadcast ev s ≡ some s') × IsValid s'
  unfolding broadcast
  broadcast-IsValid ev s v =
      let (m', e, k) = each-offer ev s.next_sub s.subs v.open_subs in
      (
        record s { subs = m' },
        rw e,
        record {
          open_subs = k;
          closed_retired = v.closed_retired;
          stopped_empty = λ st. each-nil ev s.subs (v.stopped_empty st) e;
        },
      )

  shutdown-IsValid :
      (s : Fanout E) → IsValid s → (s' : Fanout E) × (shutdown s ≡ some s') × IsValid s'
  unfolding shutdown
  shutdown-IsValid s v =
      let (m', e, r) = each-close s.next_sub s.next_sub s.subs (omega arith) v.open_subs in
      (
        record s { stopped = true; subs = []; retired = m' ++ s.retired },
        rw e,
        record {
          open_subs = tt;
          closed_retired = Retired-append s.next_sub m' s.retired r v.closed_retired;
          stopped_empty = λ _. refl;
        },
      )

  cancel-IsValid :
      (id : ℕ) (s : Fanout E) → IsValid s → (s' : Fanout E) × (cancel id s ≡ some s') × IsValid s'
  unfolding cancel
  cancel-IsValid id s v = elim (Option-cases (find id s.subs)) [
    | inl e ↦ (s, rw (e, cancel), v)
    | inr (ch, e) ↦
        let (o, b, lt) = find_lem id s.next_sub s.subs ch v.open_subs e in
        (
          record s {
            subs = delete id s.subs;
            retired = (id, record ch { closed = true }) ∷ s.retired;
          },
          rw (e, cancel, o),
          record {
            open_subs = delete-Keyed id s.next_sub s.subs v.open_subs;
            closed_retired = (refl, b, lt, v.closed_retired);
            stopped_empty = λ st. ap (delete id) (v.stopped_empty st);
          },
        )
  ]

  subscribe-IsValid : (s : Fanout E) → IsValid s → IsValid (subscribe s).1
  unfolding subscribe
  subscribe-IsValid s v = elim (Bool-cases s.stopped) [
    | inl done ↦ simp done v
    | inr live ↦ rw live (record {
      open_subs = (refl, omega arith, omega arith, v.open_subs);
      closed_retired =
          Retired-mono {a = s.next_sub} {b = s.next_sub + 1} s.retired (omega arith)
            v.closed_retired;
      stopped_empty = λ st. cc;
    })
  ]

  receive-IsValid : (id : ℕ) (s : Fanout E) → IsValid s → IsValid (receive id s).1
  unfolding receive
  receive-IsValid id s v = elim (Option-cases (find id s.subs)) [
    | inl e ↦
        rw (e, receive)
          (record {
            open_subs = v.open_subs;
            closed_retired = take_at-Retired id s.next_sub s.retired v.closed_retired;
            stopped_empty = v.stopped_empty;
          })
    | inr (ch, e) ↦
        rw (e, receive)
          (record {
            open_subs = take_at-Keyed id s.next_sub s.subs v.open_subs;
            closed_retired = v.closed_retired;
            stopped_empty = λ st. ap (λ m. (take_at id m).1) (v.stopped_empty st);
          })
  ]

  -- Every operation on a valid registry goes through without a panic and leaves it valid.
  pub step-IsValid :
      (op : Op E) (s : Fanout E) → IsValid s → (s' : Fanout E) × (step op s ≡ some s') × IsValid s'
  unfolding step
  step-IsValid subscribes s v = ((subscribe s).1, refl, subscribe-IsValid s v)
  step-IsValid shuts_down s v = shutdown-IsValid s v
  step-IsValid (cancels id) s v = cancel-IsValid id s v
  step-IsValid (receives id) s v = ((receive id s).1, refl, receive-IsValid id s v)
  step-IsValid (broadcasts ev) s v = broadcast-IsValid ev s v

  pub run-IsValid :
      (ops : List (Op E)) (s : Fanout E)
      → IsValid s
      → (s' : Fanout E) × (run ops s ≡ some s') × IsValid s'
  unfolding run
  run-IsValid [] s v = (s, refl, v)
  run-IsValid (op ∷ ops) s v =
      let (s', e, v') = step-IsValid op s v in
      let (s'', es, v'') = run-IsValid ops s' v' in (s'', rw e es, v'')

  -- From the registry that NewClient makes, no sequence of subscribing, cancelling (any id, any
  -- number of times), broadcasting, receiving and shutting down panics, and each leaves the registry
  -- valid: every registered channel open, every other one closed, none above its capacity.
  pub run-init-IsValid : (ops : List (Op E)) → (s : Fanout E) × (run ops init ≡ some s) × IsValid s
  run-init-IsValid ops = run-IsValid ops init init-IsValid
