-- ===== src/Alerts/Justified.antt =====
-- internal/alerts/alerts.go: the breaches that the calls of `check` for one snapshot collect.
use owlwatch.Prelude.{
  ℕ, ◌+◌, ◌≤◌, ◌≡◌, ◌⊎◌, inl, inr, refl, sym, ap, ap₂, subst, ◌∙◌, arith, Bool, true, false, List,
  [], ◌∷◌, ◌++◌, Option, none, some, if◌then◌else◌, Member, Bytes, same, same→eq, lookup, insert,
  lookup-insert, lookup-insert_self, Bool-cases,
}
use mathlib.Core.Option.{get_or}
use owlwatch.Alerts.{
  Floats, Format, Rule, RuleState, Breach, States, fresh_rule, before, advance, is_due, report,
  check, check_all,
}

-- Since when the breach window of the rule `k` is open.
abbrev pub open_since : Bytes → States → Option ℕ
open_since k states = (get_or (lookup k states) fresh_rule).since

-- The instant before which the rule `k` may not be emailed.
abbrev pub allowed_from : Bytes → States → Option ℕ
allowed_from k states = (get_or (lookup k states) fresh_rule).next_allowed

Member-if :
    {A : Type 0} (c : Bool) (x b : A) → Member b (if c then x ∷ [] else []) → (c ≡ true) × (b ≡ x)
Member-if true x b (inl e) = (refl, e)
Member-if true x b (inr m) = absurd m
Member-if false x b m = absurd m

pub Member-append :
    {A : Type 0} (b : A) (xs ys : List A) → Member b (xs ++ ys) → Member b xs ⊎ Member b ys
Member-append b [] ys m = inr m
Member-append b (x ∷ xs) ys (inl e) = inl (inl e)
Member-append b (x ∷ xs) ys (inr m) = elim (Member-append b xs ys m) [
  | inl here ↦ inl (inr here)
  | inr there ↦ inr there
]

pub lookup-insert_present :
    (k j : Bytes) (st old : RuleState) (states : States)
    → lookup j states ≡ some old
    → (st' : RuleState) × (lookup j (insert k st states) ≡ some st')
lookup-insert_present k j st old states e = elim (Bool-cases (same k j)) [
  | inl hit ↦ (st, lookup-insert k j st states ∙ rw hit refl)
  | inr miss ↦ (old, lookup-insert k j st states ∙ rw miss e)
]

module _ {F : Type 0} (floats : Floats F) (fmt : Format F) where
  allowed_from-insert :
      (k j : Bytes) (st : RuleState) (states : States)
      → st.next_allowed ≡ allowed_from k states
      → allowed_from j (insert k st states) ≡ allowed_from j states
  allowed_from-insert k j st states e =
      ap (λ o. (get_or o fresh_rule).next_allowed) (lookup-insert k j st states)
      ∙ elim (Bool-cases (same k j)) [
        | inl hit ↦ rw hit (e ∙ ap (λ i. allowed_from i states) (same→eq k j hit))
        | inr miss ↦ rw miss refl
      ]

  next_allowed-advance :
      (v t : F) (now : ℕ) (st : RuleState)
      → (advance floats fmt v t now st).next_allowed ≡ st.next_allowed
  unfolding advance
  next_allowed-advance v t now st = elim (Bool-cases (floats.less v t)) [
    | inl low ↦ rw low refl
    | inr high ↦ rw high refl
  ]

  since-advance :
      (v t : F) (now since : ℕ) (st : RuleState)
      → (advance floats fmt v t now st).since ≡ some since
      → floats.less v t ≡ false
  unfolding advance
  since-advance v t now since st e = ground arith

  -- Why a breach is in the email: its rule is armed, the value that was read is not found below the
  -- threshold, the window has been open long enough, and the rule may be emailed at `now`.
  pub record Founded (hold_for now : ℕ) (states : States) (b : Breach F) : Type 0 where
    pub armed : floats.at_most b.threshold floats.zero_value ≡ false
    pub over : floats.less b.value b.threshold ≡ false
    pub held : b.since + hold_for ≤ now
    pub allowed : before now (allowed_from b.key states) ≡ false
    pub state : RuleState
    pub present : lookup b.key states ≡ some state

  -- Checking rules changes the instant of no rule, and finds only well-founded breaches.
  pub record Checked (hold_for now : ℕ) (states : States) (out : States × List (Breach F))
      : Type 0 where
    pub same_instants : (k : Bytes) → allowed_from k out.0 ≡ allowed_from k states
    pub founded : (b : Breach F) → Member b out.1 → Founded hold_for now out.0 b

  pub report_lem :
      (hold_for now : ℕ) (r : Rule F) (since next_allowed : Option ℕ) (b : Breach F)
      → Member b (report floats fmt hold_for now r since next_allowed)
      → (b.key ≡ r.key)
        × (b.value ≡ r.value)
        × (b.threshold ≡ r.threshold)
        × (since ≡ some b.since)
        × (b.since + hold_for ≤ now)
        × (before now next_allowed ≡ false)
  unfolding report is_due
  report_lem hold_for now r none next_allowed b m = absurd m
  report_lem hold_for now r (some since) next_allowed b m =
      let (due, e) = Member-if _ _ b m in
      (
        ap (λ (x : Breach F). x.key) e,
        ap (λ (x : Breach F). x.value) e,
        ap (λ (x : Breach F). x.threshold) e,
        ap (λ (x : Breach F). some x.since) (sym e),
        subst (λ (x : Breach F). x.since + hold_for ≤ now) (sym e) (ground arith),
        ground arith,
      )

  module _ (hold_for now : ℕ) (r : Rule F) (states s : States) (due : List (Breach F))
      (st : RuleState) where
    stored-Founded :
        (b : Breach F)
        → st.next_allowed ≡ allowed_from r.key s
        → Founded hold_for now s b
        → Founded hold_for now (insert r.key st s) b
    stored-Founded b same_instant f =
        let (st', e) = lookup-insert_present r.key b.key st f.state s f.present in
        record {
          armed = f.armed;
          over = f.over;
          held = f.held;
          allowed = ap (before now) (allowed_from-insert r.key b.key st s same_instant) ∙ f.allowed;
          state = st';
          present = e;
        }

    reported-Founded :
        (b : Breach F)
        → floats.at_most r.threshold floats.zero_value ≡ false
        → (st.since ≡ some b.since → floats.less r.value r.threshold ≡ false)
        → Member b (report floats fmt hold_for now r st.since st.next_allowed)
        → Founded hold_for now (insert r.key st s) b
    reported-Founded b on high m =
        let (same_key, same_value, same_threshold, opened, long, free) =
          report_lem hold_for now r st.since st.next_allowed b m in
        let there : lookup b.key (insert r.key st s) ≡ some st =
          ap (λ k. lookup k (insert r.key st s)) same_key ∙ lookup-insert_self r.key st s in
        record {
          armed = ap (λ t. floats.at_most t floats.zero_value) same_threshold ∙ on;
          over = ap₂ floats.less same_value same_threshold ∙ high opened;
          held = long;
          allowed = ap (λ o. before now (get_or o fresh_rule).next_allowed) there ∙ free;
          state = st;
          present = there;
        }

    stored-Checked :
        floats.at_most r.threshold floats.zero_value ≡ false
        → ((t : ℕ) → st.since ≡ some t → floats.less r.value r.threshold ≡ false)
        → st.next_allowed ≡ allowed_from r.key s
        → Checked hold_for now states (s, due)
        → Checked hold_for now states
            (insert r.key st s, due ++ report floats fmt hold_for now r st.since st.next_allowed)
    stored-Checked on high same_instant c = record {
      same_instants = λ k. allowed_from-insert r.key k st s same_instant ∙ c.same_instants k;
      founded = λ b m. elim (Member-append b due _ m) [
        | inl old ↦ stored-Founded b same_instant (c.founded b old)
        | inr new ↦ reported-Founded b on (high b.since) new
      ];
    }

  check-Checked :
      (hold_for now : ℕ) (r : Rule F) (states : States) (acc : States × List (Breach F))
      → Checked hold_for now states acc
      → Checked hold_for now states (check floats fmt hold_for now r acc)
  unfolding check
  check-Checked hold_for now r states (s, due) c =
      elim (Bool-cases (floats.at_most r.threshold floats.zero_value)) [
        | inl off ↦ rw off c
        | inr on ↦ rw on (
            stored-Checked hold_for now r states s due
              (advance floats fmt r.value r.threshold now (get_or (lookup r.key s) fresh_rule)) on
              (λ t. since-advance r.value r.threshold now t (get_or (lookup r.key s) fresh_rule))
              (next_allowed-advance r.value r.threshold now (get_or (lookup r.key s) fresh_rule)) c)
      ]

  pub check_all-Checked :
      (hold_for now : ℕ) (rs : List (Rule F)) (states : States) (acc : States × List (Breach F))
      → Checked hold_for now states acc
      → Checked hold_for now states (check_all floats fmt hold_for now rs acc)
  unfolding check_all
  check_all-Checked hold_for now [] states acc c = c
  check_all-Checked hold_for now (r ∷ rs) states acc c =
      check_all-Checked hold_for now rs states (check floats fmt hold_for now r acc)
        (check-Checked hold_for now r states acc c)
