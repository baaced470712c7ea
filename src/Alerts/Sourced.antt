-- ===== src/Alerts/Sourced.antt =====
-- internal/alerts/alerts.go: which reading of the snapshot a breach is about, and since when its window
-- is open.
use owlwatch.Prelude.{
  ℕ, ◌≡◌, ◌⊎◌, inl, inr, refl, sym, ap, subst, ◌∙◌, List, [], ◌∷◌, ◌++◌, some, some-inj, none-some,
  map, Member, Bytes, bytes, same, same→eq, insert, lookup-insert, Bool-cases, Option-cases,
}
use mathlib.Core.Option.{get_or}
use owlwatch.Metrics.{Snapshot, DiskMetrics, GpuMetrics}
use owlwatch.Alerts.{
  Floats, Format, Config, Rule, RuleState, Breach, States, fresh_rule, advance, check, check_all,
  rules, disk_rule, gpu_rule,
}
use owlwatch.Alerts.Justified.{open_since, Member-append, report_lem}
use owlwatch.Prelude.{lookup}

Member-map :
    {A B : Type 0} (f : A → B) (b : B) (xs : List A)
    → Member b (map f xs)
    → (a : A) × Member a xs × (b ≡ f a)
Member-map f b [] m = absurd m
Member-map f b (x ∷ xs) (inl e) = (x, inl refl, e)
Member-map f b (x ∷ xs) (inr m) = let (a, here, e) = Member-map f b xs m in (a, inr here, e)

module _ {F : Type 0} (floats : Floats F) (fmt : Format F) where
  open fmt use {decimal}

  -- A key, value and threshold belong together: the CPU, the memory, a disk of the snapshot under
  -- its mount, or a GPU of the snapshot under its index, with the threshold configured for it.
  unfoldable pub IsReading : Config F → Snapshot F → Bytes → F → F → Type 0
  IsReading cfg snap key value threshold =
      ((key ≡ bytes "cpu") × (value ≡ snap.cpu.usage_pct) × (threshold ≡ cfg.cpu_pct))
      ⊎ ((key ≡ bytes "mem") × (value ≡ snap.mem.used_pct) × (threshold ≡ cfg.mem_pct))
      ⊎ ((d : DiskMetrics F) × Member d snap.disks
          × (key ≡ bytes "disk:" ++ d.mount)
          × (value ≡ d.used_pct)
          × (threshold ≡ cfg.disk_pct))
      ⊎ ((g : GpuMetrics F) × Member g snap.gpus
          × (key ≡ bytes "gpu" ++ decimal g.index)
          × (value ≡ g.temp_c)
          × (threshold ≡ cfg.gpu_temp_c))

  rules-IsReading :
      (cfg : Config F) (snap : Snapshot F) (r : Rule F)
      → Member r (rules floats fmt cfg snap)
      → IsReading cfg snap r.key r.value r.threshold
  unfolding rules disk_rule gpu_rule IsReading
  rules-IsReading cfg snap r (inl e) = inl (
    ap (λ (q : Rule F). q.key) e,
    ap (λ (q : Rule F). q.value) e,
    ap (λ (q : Rule F). q.threshold) e,
  )
  rules-IsReading cfg snap r (inr (inl e)) = inr (
      inl (
        ap (λ (q : Rule F). q.key) e,
        ap (λ (q : Rule F). q.value) e,
        ap (λ (q : Rule F). q.threshold) e,
      ))
  rules-IsReading cfg snap r (inr (inr m)) =
      elim (Member-append r (map (disk_rule floats fmt cfg) snap.disks) _ m) [
        | inl disk ↦
            let (d, here, e) = Member-map (disk_rule floats fmt cfg) r snap.disks disk in
            inr (
              inr (
                inl (
                  d,
                  here,
                  ap (λ (q : Rule F). q.key) e,
                  ap (λ (q : Rule F). q.value) e,
                  ap (λ (q : Rule F). q.threshold) e,
                )))
        | inr gpu ↦
            let (g, here, e) = Member-map (gpu_rule floats fmt cfg) r snap.gpus gpu in
            inr (
              inr (
                inr (
                  g,
                  here,
                  ap (λ (q : Rule F). q.key) e,
                  ap (λ (q : Rule F). q.value) e,
                  ap (λ (q : Rule F). q.threshold) e,
                )))
      ]

  -- The window that is open since `t` under a key opens now, or was open since `t` before.
  abbrev Opened : ℕ → States → Bytes → ℕ → Type 0
  Opened now states key t = (t ≡ now) ⊎ (open_since key states ≡ some t)

  -- A breach is about one of the rules, and its window is such a one.
  record Sourced (rs : List (Rule F)) (now : ℕ) (states : States) (b : Breach F) : Type 0 where
    rule : Rule F
    listed : Member rule rs
    same_key : b.key ≡ rule.key
    same_value : b.value ≡ rule.value
    same_threshold : b.threshold ≡ rule.threshold
    opened : (b.since ≡ now) ⊎ (open_since b.key states ≡ some b.since)

  record Traced (rs : List (Rule F)) (now : ℕ) (states : States) (out : States × List (Breach F))
      : Type 0 where
    windows : (k : Bytes) (t : ℕ) → open_since k out.0 ≡ some t → Opened now states k t
    sourced : (b : Breach F) → Member b out.1 → Sourced rs now states b

  since_advance :
      (v t : F) (now since : ℕ) (st : RuleState)
      → (advance floats fmt v t now st).since ≡ some since
      → (since ≡ now) ⊎ (st.since ≡ some since)
  unfolding advance
  since_advance v t now since st e = elim (Bool-cases (floats.less v t)) [
    | inl low ↦ absurd (none-some (simp (low, advance) at e))
    | inr high ↦ elim (Option-cases st.since) [
      | inl shut ↦ inl (sym (some-inj (simp (high, shut, advance) at e)))
      | inr (old, is) ↦ inr (is ∙ simp (high, is, advance) at e)
    ]
  ]

  stored-windows :
      (rs : List (Rule F)) (now : ℕ) (key : Bytes) (st : RuleState) (states s : States)
      (due : List (Breach F))
      → ((t : ℕ) → st.since ≡ some t → Opened now states key t)
      → Traced rs now states (s, due)
      → (k : Bytes) (t : ℕ) → open_since k (insert key st s) ≡ some t
      → Opened now states k t
  stored-windows rs now key st states s due new c k t e =
      let at_k = ap (λ o. (get_or o fresh_rule).since) (lookup-insert key k st s) in
      elim (Bool-cases (same key k)) [
        | inl hit ↦
            subst (λ j. Opened now states j t) (same→eq key k hit)
              (new t (sym (at_k ∙ rw hit refl) ∙ e))
        | inr miss ↦ c.windows k t (sym (at_k ∙ rw miss refl) ∙ e)
      ]

  check-Traced :
      (rs : List (Rule F)) (hold_for now : ℕ) (r : Rule F) (states : States)
      (acc : States × List (Breach F))
      → Member r rs
      → Traced rs now states acc
      → Traced rs now states (check floats fmt hold_for now r acc)
  unfolding check
  check-Traced rs hold_for now r states (s, due) m c =
      let old = get_or (lookup r.key s) fresh_rule in
      let st = advance floats fmt r.value r.threshold now old in
      let new : (t : ℕ) → st.since ≡ some t → Opened now states r.key t = λ t e.
        elim (since_advance r.value r.threshold now t old e) [
          | inl is ↦ inl is
          | inr was ↦ c.windows r.key t was
        ] in
      elim (Bool-cases (floats.at_most r.threshold floats.zero_value)) [
        | inl off ↦ rw off c
        | inr on ↦ rw on (record {
          windows = stored-windows rs now r.key st states s due new c;
          sourced = λ b here. elim (Member-append b due _ here) [
            | inl before ↦ c.sourced b before
            | inr reported ↦
                let (key, value, threshold, opened, held, free) =
                  report_lem floats fmt hold_for now r st.since st.next_allowed b reported in
                record {
                  rule = r;
                  listed = m;
                  same_key = key;
                  same_value = value;
                  same_threshold = threshold;
                  opened = subst (λ k. Opened now states k b.since) (sym key) (new b.since opened);
                }
          ];
        })
      ]

  check_all-Traced :
      (rs : List (Rule F)) (hold_for now : ℕ) (todo : List (Rule F)) (states : States)
      (acc : States × List (Breach F))
      → ((r : Rule F) → Member r todo → Member r rs)
      → Traced rs now states acc
      → Traced rs now states (check_all floats fmt hold_for now todo acc)
  unfolding check_all
  check_all-Traced rs hold_for now [] states acc sub c = c
  check_all-Traced rs hold_for now (r ∷ todo) states acc sub c =
      check_all-Traced rs hold_for now todo states (check floats fmt hold_for now r acc)
        (λ q m. sub q (inr m)) (check-Traced rs hold_for now r states acc (sub r (inl refl)) c)

  -- What the rules of one snapshot find, from the states before it.
  pub check_all-Sourced :
      (cfg : Config F) (snap : Snapshot F) (hold_for now : ℕ) (states : States) (b : Breach F)
      → Member b (check_all floats fmt hold_for now (rules floats fmt cfg snap) (states, [])).1
      → IsReading cfg snap b.key b.value b.threshold
        × ((b.since ≡ now) ⊎ (open_since b.key states ≡ some b.since))
  unfolding IsReading
  check_all-Sourced cfg snap hold_for now states b m =
      let rs = rules floats fmt cfg snap in
      let found =
        check_all-Traced rs hold_for now rs states (states, []) (λ r h. h)
          (record { windows = λ k t e. inr e; sourced = λ q n. absurd n }) in
      let from = found.sourced b m in
      let about = rules-IsReading cfg snap from.rule from.listed in
      (
        subst (λ t. IsReading cfg snap b.key b.value t) (sym from.same_threshold)
            (subst (λ v. IsReading cfg snap b.key v from.rule.threshold) (sym from.same_value)
              (subst (λ k. IsReading cfg snap k from.rule.value from.rule.threshold)
                (sym from.same_key) about)),
        from.opened,
      )
