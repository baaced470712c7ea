-- ===== src/Fanout/Delivery.antt =====
-- internal/peers/client.go: who gets an event, and what cancelling and shutting down leave to a
-- subscriber.
use owlwatch.Prelude.{
  ℕ, ◌≤◌, ◌≡◌, ◌≢◌, inl, inr, refl, sym, ap, ◌∙◌, arith, true, false, List, [], ◌∷◌, ◌++◌, Option,
  none, some, ltb, ◌==◌, if◌then◌else◌, length, >>=-eq-some, some-inj, Bool-cases, ==_iff,
}
use mathlib.Core.Option
use owlwatch.Fanout.{
  Chan, Fanout, closed_at_once, offer, close, find, delete, each, subscribe, cancel, shutdown,
  broadcast, subscriber_buffer,
}
use owlwatch.Fanout.Invariant.{IsValid, Keyed, find_lem}

module _ {ℓ} {E : Type ℓ} where
  -- An event goes to the end of a channel with room, and past a full one.
  abbrev pub offered : E → Chan E → Chan E
  offered ev ch =
      if ltb (length ch.queue) subscriber_buffer
      then record ch { queue = ch.queue ++ ev ∷ [] }
      else ch

  find-each :
      (f : Chan E → Option (Chan E)) (g : Chan E → Chan E)
      → ((ch ch' : Chan E) → f ch ≡ some ch' → ch' ≡ g ch)
      → (id : ℕ) (m : List (ℕ × Chan E)) {m' : List (ℕ × Chan E)} → each f m ≡ some m'
      → find id m' ≡ Option.map g (find id m)
  unfolding each find
  find-each f g h id [] e = sym (ap (find id) (some-inj e))
  find-each f g h id ((j, ch) ∷ m) e =
      let (ch', fch, e') = >>=-eq-some (f ch) _ e in
      let (m'', rest, e'') = >>=-eq-some (each f m) _ e' in
      sym (ap (find id) (some-inj e'')) ∙ elim (Bool-cases (j == id)) [
        | inl hit ↦ rw hit (ap some (h ch ch' fch))
        | inr miss ↦ rw miss (find-each f g h id m rest)
      ]

  offer-eq-offered : (ev : E) (ch ch' : Chan E) → offer ev ch ≡ some ch' → ch' ≡ offered ev ch
  unfolding offer
  offer-eq-offered ev ch ch' e = ground arith

  closed_channel : Chan E → Chan E
  closed_channel ch = record ch { closed = true }

  close-eq-closed : (ch ch' : Chan E) → close ch ≡ some ch' → ch' ≡ closed_channel ch
  unfolding close closed_channel
  close-eq-closed ch ch' e = ground arith

  -- A broadcast reaches every registered channel: it is appended where there is room and lost where
  -- the buffer is full. Retired channels, the counter and the stop flag are left alone.
  pub broadcast_delivers :
      (ev : E) (s s' : Fanout E) (id : ℕ)
      → broadcast ev s ≡ some s'
      → (find id s'.subs ≡ Option.map (offered ev) (find id s.subs))
        × (s'.retired ≡ s.retired)
        × (s'.next_sub ≡ s.next_sub)
        × (s'.stopped ≡ s.stopped)
  unfolding broadcast
  broadcast_delivers ev s s' id e =
      let (m, es, done) = >>=-eq-some (each (offer ev) s.subs) _ e in
      let same = some-inj done in
      (
        ap (λ (t : Fanout E). find id t.subs) (sym same)
            ∙ find-each (offer ev) (offered ev) (offer-eq-offered ev) id s.subs es,
        ap (λ (t : Fanout E). t.retired) (sym same),
        ap (λ (t : Fanout E). t.next_sub) (sym same),
        ap (λ (t : Fanout E). t.stopped) (sym same),
      )

  find-append :
      (id : ℕ) (m n : List (ℕ × Chan E)) (ch : Chan E)
      → find id m ≡ some ch
      → find id (m ++ n) ≡ some ch
  unfolding find
  find-append id [] n ch e = cc
  find-append id ((j, c) ∷ m) n ch e = ground (arith, find-append id m n ch)

  find_above : (id n : ℕ) (m : List (ℕ × Chan E)) → Keyed false n m → n ≤ id → find id m ≡ none
  unfolding find
  find_above id n [] k le = refl
  find_above id n ((j, c) ∷ m) (o, b, lt, k) le = ground (arith, find_above id j m k)

  head_found : (id : ℕ) (ch : Chan E) (m : List (ℕ × Chan E)) → find id ((id, ch) ∷ m) ≡ some ch
  unfolding find
  head_found id ch m = rw ((==_iff id id).1 refl)

  find-delete_other : (id j : ℕ) (m : List (ℕ × Chan E)) → j ≢ id → find j (delete id m) ≡ find j m
  unfolding find delete
  find-delete_other id j [] ne = refl
  find-delete_other id j ((i, c) ∷ m) ne = ground (arith, find-delete_other id j m)

  find-delete_self :
      (id n : ℕ) (m : List (ℕ × Chan E)) → Keyed false n m → find id (delete id m) ≡ none
  unfolding find delete
  find-delete_self id n [] k = refl
  find-delete_self id n ((j, c) ∷ m) (o, b, lt, k) = elim (Bool-cases (j == id)) [
    | inl hit ↦ rw hit (find_above id j m k (omega (arith, (==_iff j id).0 hit)))
    | inr miss ↦ rw (miss, miss) (find-delete_self id j m k)
  ]

  -- Shutting down empties the map, closes every channel that was registered with its pending events
  -- still readable, and makes any later subscription a closed channel.
  pub shutdown_closes :
      (s s' : Fanout E) (id : ℕ) (ch : Chan E)
      → shutdown s ≡ some s'
      → find id s.subs ≡ some ch
      → (s'.subs ≡ [])
        × (find id s'.retired ≡ some (record ch { closed = true }))
        × (subscribe s' ≡ (closed_at_once, s'))
  unfolding shutdown subscribe closed_channel
  shutdown_closes s s' id ch e hit =
      let (m, es, done) = >>=-eq-some (each close s.subs) _ e in
      let same = some-inj done in
      let there : find id m ≡ some (record ch { closed = true }) =
        find-each close closed_channel close-eq-closed id s.subs es
        ∙ ap (Option.map closed_channel) hit in
      (
        ap (λ (t : Fanout E). t.subs) (sym same),
        ap (λ (t : Fanout E). find id t.retired) (sym same)
            ∙ find-append id m s.retired (record ch { closed = true }) there,
        ap subscribe (sym same) ∙ ap (λ t. (closed_at_once, t)) same,
      )

  -- In a valid registry a cancel unregisters exactly its own subscription and closes its channel,
  -- whose pending events stay readable; cancelling again changes nothing.
  pub cancel_lem :
      (id j : ℕ) (s : Fanout E) (ch : Chan E)
      → IsValid s
      → find id s.subs ≡ some ch
      → (s' : Fanout E) × (cancel id s ≡ some s')
        × (find j s'.subs ≡ (if j == id then none else find j s.subs))
        × (find id s'.retired ≡ some (record ch { closed = true }))
        × (cancel id s' ≡ some s')
  unfolding cancel
  cancel_lem id j s ch v hit =
      let (o, b, lt) = find_lem id s.next_sub s.subs ch v.open_subs hit in
      let gone = find-delete_self id s.next_sub s.subs v.open_subs in
      (
        record s {
          subs = delete id s.subs;
          retired = (id, record ch { closed = true }) ∷ s.retired;
        },
        rw (hit, cancel, o),
        elim (Bool-cases (j == id)) [
          | inl e ↦ rw (e, (==_iff j id).0 e) gone
          | inr e ↦ rw e (find-delete_other id j s.subs (λ q. cc (e, (==_iff j id).1 q)))
        ],
        head_found id _ s.retired,
        rw (gone, cancel),
      )
