-- ===== src/Alerts/Cooldown.antt =====
-- internal/alerts/alerts.go: the pause of a rule, `nextAllowed`, over a series of calls of
-- `Evaluate`.
use owlwatch.Prelude.{
  ℕ, ◌+◌, ◌<◌, ◌≡◌, ◌⊎◌, inl, inr, refl, sym, ap, subst, ◌∙◌, arith, Bool, true, false, List, [],
  ◌∷◌, some, if◌then◌else◌, All, All-of_Member, Member, Bytes, same, same→eq, lookup, lookup-insert,
  lookup-insert_self, Bool-cases, Option-cases,
}
use mathlib.Core.Option.{get_or}
use owlwatch.Metrics.{Snapshot}
use owlwatch.Alerts.{
  Floats, Format, RuleState, Breach, States, Notifier, fresh_rule, before, retry_after, unix_milli,
  rules,
}
use owlwatch.Alerts.Evaluate.{postpone, postpone_one, settle, pass, evaluate}
use owlwatch.Alerts.Justified.{
  allowed_from, Founded, Checked, check_all-Checked, lookup-insert_present, open_since,
}
use owlwatch.Alerts.Sourced.{IsReading, check_all-Sourced}

after_miss :
    {A : Type 0} {b : Bool} {x z : A} (y : A) → b ≡ false → x ≡ (if b then y else z) → x ≡ z
after_miss y ne e = e ∙ rw ne refl

early : (now t : ℕ) → now < t → before now (some t) ≡ false → ⊥
early now t lt e = ground arith

module _ {F : Type 0} where
  -- No breach of the list is about the rule `k`.
  abbrev pub Silent : Bytes → List (Breach F) → Type 0
  Silent k due = All (λ b. same b.key k ≡ false) due

  postpone_one-other :
      (k : Bytes) (t : ℕ) (d : Breach F) (s : States)
      → same d.key k ≡ false
      → allowed_from k (postpone_one t d s) ≡ allowed_from k s
  unfolding postpone_one
  postpone_one-other k t d s ne = elim (Option-cases (lookup d.key s)) [
    | inl e ↦ rw (e, postpone_one) refl
    | inr (st, e) ↦
        rw (e, postpone_one)
          (ap (λ o. (get_or o fresh_rule).next_allowed)
            (after_miss _ ne (lookup-insert d.key k (record st { next_allowed = some t }) s)))
  ]

  postpone_one_self :
      (t : ℕ) (d : Breach F) (s : States) (st : RuleState)
      → lookup d.key s ≡ some st
      → allowed_from d.key (postpone_one t d s) ≡ some t
  unfolding postpone_one
  postpone_one_self t d s st e =
      rw (e, postpone_one)
        (ap (λ o. (get_or o fresh_rule).next_allowed) (lookup-insert_self d.key _ s))

  postpone_one_keep :
      (k : Bytes) (t : ℕ) (d : Breach F) (s : States)
      → allowed_from k s ≡ some t
      → allowed_from k (postpone_one t d s) ≡ some t
  unfolding postpone_one
  postpone_one_keep k t d s e = elim (Option-cases (lookup d.key s)) [
    | inl e' ↦ rw (e', postpone_one) e
    | inr (st, e') ↦
        rw (e', postpone_one)
          (ap (λ o. (get_or o fresh_rule).next_allowed) (lookup-insert d.key k _ s)
            ∙ elim (Bool-cases (same d.key k)) [ inl hit ↦ rw hit refl | inr miss ↦ rw miss e ])
  ]

  postpone_one-present :
      (k : Bytes) (t : ℕ) (d : Breach F) (s : States) (old : RuleState)
      → lookup k s ≡ some old
      → (st : RuleState) × (lookup k (postpone_one t d s) ≡ some st)
  unfolding postpone_one
  postpone_one-present k t d s old e = elim (Option-cases (lookup d.key s)) [
    | inl e' ↦ (old, rw (e', postpone_one) e)
    | inr (st, e') ↦ rw (e', postpone_one) (lookup-insert_present d.key k _ old s e)
  ]

  postpone-Silent :
      (k : Bytes) (t : ℕ) (ds : List (Breach F)) (s : States)
      → Silent k ds
      → allowed_from k (postpone t ds s) ≡ allowed_from k s
  unfolding postpone
  postpone-Silent k t [] s all = refl
  postpone-Silent k t (d ∷ ds) s (ne, all) =
      postpone-Silent k t ds (postpone_one t d s) all ∙ postpone_one-other k t d s ne

  postpone_keep :
      (k : Bytes) (t : ℕ) (ds : List (Breach F)) (s : States)
      → allowed_from k s ≡ some t
      → allowed_from k (postpone t ds s) ≡ some t
  unfolding postpone
  postpone_keep k t [] s e = e
  postpone_keep k t (d ∷ ds) s e =
      postpone_keep k t ds (postpone_one t d s) (postpone_one_keep k t d s e)

  postpone-Member :
      (b : Breach F) (t : ℕ) (ds : List (Breach F)) (s : States) (st : RuleState)
      → Member b ds
      → lookup b.key s ≡ some st
      → allowed_from b.key (postpone t ds s) ≡ some t
  unfolding postpone
  postpone-Member b t [] s st m e = absurd m
  postpone-Member b t (d ∷ ds) s st (inl is) e = postpone_keep b.key t ds (postpone_one t d s) (
      subst (λ (x : Breach F). allowed_from x.key (postpone_one t d s) ≡ some t) (sym is)
        (postpone_one_self t d s st (ap (λ (x : Breach F). lookup x.key s) (sym is) ∙ e)))
  postpone-Member b t (d ∷ ds) s st (inr m) e =
      let (st', e') = postpone_one-present b.key t d s st e in
      postpone-Member b t ds (postpone_one t d s) st' m e'

  settle-Silent :
      (k : Bytes) (now clock : ℕ) (sent : Bool) (n : Notifier F) (s : States)
      (due : List (Breach F))
      → Silent k due
      → allowed_from k (settle now clock sent n s due).states ≡ allowed_from k s
  unfolding settle
  settle-Silent k now clock sent n s [] all = refl
  settle-Silent k now clock true n s (d ∷ ds) all = postpone-Silent k _ (d ∷ ds) s all
  settle-Silent k now clock false n s (d ∷ ds) all = postpone-Silent k _ (d ∷ ds) s all

  -- The pause after an email that was sent, and after one that failed.
  abbrev pub pause : Bool → Notifier F → ℕ
  pause sent n = if sent then n.cfg.cooldown else retry_after

  settle-Member :
      (b : Breach F) (now clock : ℕ) (sent : Bool) (n : Notifier F) (s : States)
      (due : List (Breach F)) (st : RuleState)
      → Member b due
      → lookup b.key s ≡ some st
      → allowed_from b.key (settle now clock sent n s due).states ≡ some (now + pause sent n)
  unfolding settle
  settle-Member b now clock sent n s [] st m e = absurd m
  settle-Member b now clock true n s (d ∷ ds) st m e = postpone-Member b _ (d ∷ ds) s st m e
  settle-Member b now clock false n s (d ∷ ds) st m e = postpone-Member b _ (d ∷ ds) s st m e

module _ {F : Type 0} (floats : Floats F) (fmt : Format F) where
  pass-Checked :
      (snap : Snapshot F) (n : Notifier F)
      → Checked floats fmt n.cfg.hold_for (unix_milli snap.ts) n.states (pass floats fmt snap n)
  unfolding pass
  pass-Checked snap n =
      check_all-Checked floats fmt n.cfg.hold_for (unix_milli snap.ts) (rules floats fmt n.cfg snap)
        n.states (n.states, []) (record { same_instants = λ k. refl; founded = λ b m. absurd m })

  -- Every breach that a snapshot makes due is about a reading of that snapshot, with the threshold
  -- configured for it: the CPU, the memory, a disk or a GPU. Its rule is armed, and the value is not
  -- found below the threshold; its window opened with this snapshot, or was open under its key, since
  -- the same instant, before; it has been open for at least the configured duration, and the rule's
  -- pause is over.
  pub pass-Founded :
      (snap : Snapshot F) (n : Notifier F) (b : Breach F)
      → Member b (pass floats fmt snap n).1
      → IsReading floats fmt n.cfg snap b.key b.value b.threshold
        × ((b.since ≡ unix_milli snap.ts) ⊎ (open_since b.key n.states ≡ some b.since))
        × Founded floats fmt n.cfg.hold_for (unix_milli snap.ts) (pass floats fmt snap n).0 b
  unfolding pass
  pass-Founded snap n b m =
      let (about, opened) =
        check_all-Sourced floats fmt n.cfg snap n.cfg.hold_for (unix_milli snap.ts) n.states b m in
      (about, opened, (pass-Checked snap n).founded b m)

  -- The rules that each of a series of snapshots makes due, with the mailer's answer and the wall
  -- clock for each.
  pub emails : List (ℕ × Bool × Snapshot F) → Notifier F → List (List (Breach F))
  emails [] n = []
  emails ((clock, sent, snap) ∷ rest) n =
      (pass floats fmt snap n).1 ∷ emails rest (evaluate floats fmt clock sent snap n).0

  pass-Silent :
      (k : Bytes) (t : ℕ) (snap : Snapshot F) (n : Notifier F)
      → allowed_from k n.states ≡ some t
      → unix_milli snap.ts < t
      → Silent k (pass floats fmt snap n).1
  pass-Silent k t snap n e lt = All-of_Member _ (pass floats fmt snap n).1 (λ b m.
      let c = pass-Checked snap n in
      elim (Bool-cases (same b.key k)) [
        | inl hit ↦
            let at_k = ap (λ j. allowed_from j (pass floats fmt snap n).0) (same→eq b.key k hit) in
            absurd (
              early (unix_milli snap.ts) t lt (
                ap (before (unix_milli snap.ts)) (sym (at_k ∙ c.same_instants k ∙ e))
                ∙ (c.founded b m).allowed))
        | inr miss ↦ miss
      ])

  emails-Silent :
      (k : Bytes) (t : ℕ) (later : List (ℕ × Bool × Snapshot F)) (n : Notifier F)
      → allowed_from k n.states ≡ some t
      → All (λ s. unix_milli s.2.ts < t) later
      → All (Silent k) (emails later n)
  unfolding emails evaluate
  emails-Silent k t [] n e all = tt
  emails-Silent k t ((clock, sent, snap) ∷ rest) n e (lt, all) =
      let quiet = pass-Silent k t snap n e lt in
      let kept =
        settle-Silent k (unix_milli snap.ts) clock sent n (pass floats fmt snap n).0 _ quiet in
      (
        quiet,
        emails-Silent k t rest (evaluate floats fmt clock sent snap n).0
            (kept ∙ (pass-Checked snap n).same_instants k ∙ e) all,
      )

  -- Once an email has reported a rule, no snapshot stamped before the pause is over puts that rule
  -- into an email again: the cooldown if the email was sent, a minute if it failed, counted from the
  -- time of the snapshot. This holds whatever the snapshots and deliveries in between are.
  pub emails-pause :
      (clock : ℕ) (sent : Bool) (snap : Snapshot F) (n : Notifier F) (b : Breach F)
      (later : List (ℕ × Bool × Snapshot F))
      → Member b (pass floats fmt snap n).1
      → All (λ s. unix_milli s.2.ts < unix_milli snap.ts + pause sent n) later
      → All (Silent b.key) (emails later (evaluate floats fmt clock sent snap n).0)
  unfolding evaluate
  emails-pause clock sent snap n b later m all =
      let f = (pass-Checked snap n).founded b m in
      emails-Silent b.key _ later (evaluate floats fmt clock sent snap n).0
        (settle-Member b (unix_milli snap.ts) clock sent n (pass floats fmt snap n).0 _ f.state m
          f.present)
        all
