-- ===== src/Peers/Requests/Quiet.antt =====
-- internal/peers/client.go: `rateLogger.printf` over a series of calls.
use owlwatch.Prelude.{
  ℕ, ◌+◌, ◌<◌, ◌≡◌, inl, inr, refl, sym, subst, ap, ◌∙◌, Bool, true, false, List, [], ◌∷◌, some,
  ltb, lt→ltb, All, Bytes, same, same→eq, lookup, lookup-insert, lookup-insert_self, Bool-cases,
  Option-cases,
}
use owlwatch.Peers.Requests.{printf}

false≢true : false ≡ true → ⊥
false≢true e = absurd cc

-- The line itself, if it is logged.
keep : Bool → Bytes × ℕ → List (Bytes × ℕ) → List (Bytes × ℕ)
keep true c cs = c ∷ cs
keep false c cs = cs

keep_ne :
    (k : Bytes) (on : Bool) (c : Bytes × ℕ) (cs : List (Bytes × ℕ))
    → same c.0 k ≡ false
    → All (λ d. same d.0 k ≡ false) cs
    → All (λ d. same d.0 k ≡ false) (keep on c cs)
unfolding keep
keep_ne k true c cs ne all = (ne, all)
keep_ne k false c cs ne all = all

module _ (every : ℕ) where
  -- The calls, each with its key and time, that log a line.
  pub lines : List (Bytes × ℕ) → List (Bytes × ℕ) → List (Bytes × ℕ)
  lines [] last_times = []
  lines ((key, now) ∷ calls) last_times =
      let (later, on) = printf every key now last_times in keep on (key, now) (lines calls later)

  -- A call that is too early changes nothing, and a call about another key leaves this one's time.
  printf-quiet :
      (k : Bytes) (t now : ℕ) (last_times : List (Bytes × ℕ))
      → lookup k last_times ≡ some t
      → now < t + every
      → printf every k now last_times ≡ (last_times, false)
  unfolding printf
  printf-quiet k t now last_times e lt = rw (e, lt→ltb now (t + every) lt, printf) refl

  lookup-printf_ne :
      (k key : Bytes) (now : ℕ) (last_times : List (Bytes × ℕ))
      → same key k ≡ false
      → lookup k (printf every key now last_times).0 ≡ lookup k last_times
  unfolding printf
  lookup-printf_ne k key now last_times ne = elim (Option-cases (lookup key last_times)) [
    | inl e ↦ rw (e, printf) (lookup-insert key k now last_times ∙ rw ne refl)
    | inr (t, e) ↦ elim (Bool-cases (ltb now (t + every))) [
      | inl early ↦ rw (e, early, printf) refl
      | inr late ↦ rw (e, late, printf) (lookup-insert key k now last_times ∙ rw ne refl)
    ]
  ]

  lines-quiet :
      (k : Bytes) (t : ℕ) (calls last_times : List (Bytes × ℕ))
      → lookup k last_times ≡ some t
      → All (λ c. c.1 < t + every) calls
      → All (λ c. same c.0 k ≡ false) (lines calls last_times)
  unfolding lines keep
  lines-quiet k t [] last_times e all = tt
  lines-quiet k t ((key, now) ∷ calls) last_times e (lt, all) = elim (Bool-cases (same key k)) [
    | inl hit ↦
        subst (λ o. All (λ c. same c.0 k ≡ false) (keep o.1 (key, now) (lines calls o.0)))
          (sym (
            printf-quiet key t now last_times
              (ap (λ j. lookup j last_times) (same→eq key k hit) ∙ e) lt))
          (lines-quiet k t calls last_times e all)
    | inr ne ↦
        keep_ne k (printf every key now last_times).1 (key, now) _ ne
          (lines-quiet k t calls (printf every key now last_times).0
            (lookup-printf_ne k key now last_times ne ∙ e) all)
  ]

  printf-logged :
      (k : Bytes) (t : ℕ) (last_times : List (Bytes × ℕ))
      → (printf every k t last_times).1 ≡ true
      → lookup k (printf every k t last_times).0 ≡ some t
  unfolding printf
  printf-logged k t last_times h = elim (Option-cases (lookup k last_times)) [
    | inl e ↦ rw (e, printf) (lookup-insert_self k t last_times)
    | inr (t', e) ↦ elim (Bool-cases (ltb t (t' + every))) [
      | inl early ↦ absurd (false≢true (simp (e, early, printf) at h))
      | inr late ↦ rw (e, late, printf) (lookup-insert_self k t last_times)
    ]
  ]

  -- Once a line about a key is logged, no call about that key before the interval is over logs
  -- another, whatever calls about other keys come in between.
  pub printf_lem :
      (k : Bytes) (t : ℕ) (last_times : List (Bytes × ℕ)) (calls : List (Bytes × ℕ))
      → (printf every k t last_times).1 ≡ true
      → All (λ c. c.1 < t + every) calls
      → All (λ c. same c.0 k ≡ false) (lines calls (printf every k t last_times).0)
  printf_lem k t last_times calls h all =
      lines-quiet k t calls (printf every k t last_times).0 (printf-logged k t last_times h) all
