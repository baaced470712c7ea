-- ===== src/Server/Middleware/Capacity.antt =====
-- internal/server/middleware.go: `withRequestLimits` over any interleaving of arrivals and
-- departures.
use owlwatch.Prelude.{
  ℕ, zero, suc, ◌+◌, ◌≤◌, ◌≡◌, inl, inr, refl, sym, ap, subst, arith, Bool, List, [], ◌∷◌, Option,
  none, some, ltb, ltb→lt, ◌<◌, some-inj, get_elem?, Bytes, Bool-cases, Option-cases,
}
use owlwatch.Server.Middleware.{
  Request, Class, live, history, disk, class_of, Slots, used, put, Outcome, answer, serve, Limits,
  capacity, acquire, with_request_limits, release, with_defaults, Config, chain,
}
use owlwatch.Server.Middleware.Access.{chain_lem}

-- The requests that are being served, each with the class of the slot that it holds.
pub record Service : Type 0 where
  pub slots : Slots
  pub in_flight : List (Option Class)

abbrev pub idle : Service
idle = record {
  slots = record { sse_slots = 0; history_slots = 0; disk_slots = 0 };
  in_flight = [];
}

pub data Event : Type 0 where
  arrive : Request → Event
  leave : ℕ → Event

abbrev pub remove : {A : Type 0} → List A → ℕ → List A
remove [] i = []
remove (x ∷ xs) zero = xs
remove (x ∷ xs) (suc i) = x ∷ remove xs i

abbrev pub holds : Class → Option Class → ℕ
holds c none = 0
holds live (some live) = 1
holds history (some history) = 1
holds disk (some disk) = 1
holds _ (some _) = 0

abbrev pub count : Class → List (Option Class) → ℕ
count c [] = 0
count c (o ∷ os) = holds c o + count c os

-- A request that the chain answers itself is over at once.
unfoldable pub admit : Outcome × Slots → List (Option Class) → Service
admit (answer st, s) os = record { slots = s; in_flight = os }
admit (serve o, s) os = record { slots = s; in_flight = o ∷ os }

unfoldable pub give_back : Option Class → Slots → Slots
unfolding release
give_back none s = s
give_back (some c) s = release c s

module _ (split_host_port : Bytes → Option Bytes) (parse_ip : Bytes → Bool) (cfg : Config) where
  unfoldable pub step : Service → Event → Service
  unfolding chain admit give_back
  step sv (arrive r) = admit (chain split_host_port parse_ip cfg r sv.slots) sv.in_flight
  step sv (leave i) = elim (get_elem? sv.in_flight i) [
    | none ↦ sv
    | some o ↦ record { slots = give_back o sv.slots; in_flight = remove sv.in_flight i }
  ]

  unfoldable pub run : Service → List Event → Service
  unfolding step
  run sv [] = sv
  run sv (e ∷ es) = run (step sv e) es

abbrev pub Exact : Limits → Class → Slots → List (Option Class) → Type 0
Exact l c s os = (used c s ≡ count c os) × (used c s ≤ capacity l c)

abbrev pub Admitted : Limits → Class → Outcome × Slots → List (Option Class) → Type 0
Admitted l d o os = Exact l d (admit o os).slots (admit o os).in_flight

-- Each class's slots in use are its requests being served, and are at most its limit.
abbrev pub IsValid : Limits → Service → Type 0
IsValid l sv = (c : Class) → Exact l c sv.slots sv.in_flight

taken :
    (l : Limits) (c d : Class) (s : Slots) (os : List (Option Class))
    → Exact l d s os
    → used c s < capacity l c
    → Exact l d (put c (used c s + 1) s) (some c ∷ os)
unfolding used put capacity
taken l live live s os vd lt = (omega (arith, vd.0), omega (arith, vd.1, vd.0))
taken l live history s os vd lt = (omega (arith, vd.0), vd.1)
taken l live disk s os vd lt = (omega (arith, vd.0), vd.1)
taken l history live s os vd lt = (omega (arith, vd.0), vd.1)
taken l history history s os vd lt = (omega (arith, vd.0), omega (arith, vd.1, vd.0))
taken l history disk s os vd lt = (omega (arith, vd.0), vd.1)
taken l disk live s os vd lt = (omega (arith, vd.0), vd.1)
taken l disk history s os vd lt = (omega (arith, vd.0), vd.1)
taken l disk disk s os vd lt = (omega (arith, vd.0), omega (arith, vd.1, vd.0))

given :
    (l : Limits) (c d : Class) (s : Slots) (os rest : List (Option Class))
    → count d os ≡ holds d (some c) + count d rest
    → Exact l d s os
    → Exact l d (release c s) rest
unfolding used put capacity release
given l live live s os rest e vd = (omega (arith, vd.0, e), omega (arith, vd.1))
given l live history s os rest e vd = (omega (arith, vd.0, e), vd.1)
given l live disk s os rest e vd = (omega (arith, vd.0, e), vd.1)
given l history live s os rest e vd = (omega (arith, vd.0, e), vd.1)
given l history history s os rest e vd = (omega (arith, vd.0, e), omega (arith, vd.1))
given l history disk s os rest e vd = (omega (arith, vd.0, e), vd.1)
given l disk live s os rest e vd = (omega (arith, vd.0, e), vd.1)
given l disk history s os rest e vd = (omega (arith, vd.0, e), vd.1)
given l disk disk s os rest e vd = (omega (arith, vd.0, e), omega (arith, vd.1))

acquire_lem :
    (l : Limits) (c d : Class) (s : Slots) (os : List (Option Class))
    → Exact l d s os
    → Exact l d (admit (acquire l c s) os).slots (admit (acquire l c s) os).in_flight
unfolding acquire admit
acquire_lem l c d s os vd = elim (Bool-cases (ltb (used c s) (capacity l c))) [
  | inl lt ↦ rw (lt, acquire) (taken l c d s os vd (ltb→lt (used c s) (capacity l c) lt))
  | inr ge ↦ rw (ge, acquire) vd
]

limits_lem :
    (l : Limits) (d : Class) (r : Request) (s : Slots) (os : List (Option Class))
    → Exact l d s os
    → Exact l d
        (admit (with_request_limits l r s) os).slots
        (admit (with_request_limits l r s) os).in_flight
unfolding with_request_limits admit
limits_lem l d r s os vd = elim (Option-cases (class_of r.path)) [
  | inl e ↦ rw (e, with_request_limits) (omega (arith, vd.0), vd.1)
  | inr (c, e) ↦ rw (e, with_request_limits) (acquire_lem l c d s os vd)
]

remove_lem :
    (c : Class) (os : List (Option Class)) (i : ℕ) (o : Option Class)
    → get_elem? os i ≡ some o
    → count c os ≡ holds c o + count c (remove os i)
remove_lem c [] i o h = cc
remove_lem c (x ∷ os) zero o h = ap (λ x'. holds c x' + count c os) (some-inj h)
remove_lem c (x ∷ os) (suc i) o h = omega (arith, remove_lem c os i o h)

give_back_lem :
    (l : Limits) (o : Option Class) (d : Class) (s : Slots) (os rest : List (Option Class))
    → count d os ≡ holds d o + count d rest
    → Exact l d s os
    → Exact l d (give_back o s) rest
unfolding give_back
give_back_lem l none d s os rest e vd = (omega (arith, vd.0, e), vd.1)
give_back_lem l (some c) d s os rest e vd = given l c d s os rest e vd

idle-IsValid : (l : Limits) → IsValid l idle
unfolding used
idle-IsValid l live = (refl, omega arith)
idle-IsValid l history = (refl, omega arith)
idle-IsValid l disk = (refl, omega arith)

module _ (split_host_port : Bytes → Option Bytes) (parse_ip : Bytes → Bool) (cfg : Config) where
  pub step-IsValid :
      (sv : Service) (e : Event)
      → IsValid (with_defaults cfg.limits) sv
      → IsValid (with_defaults cfg.limits) (step split_host_port parse_ip cfg sv e)
  unfolding step admit
  step-IsValid sv (arrive r) v d =
      let l = with_defaults cfg.limits in
      elim (chain_lem split_host_port parse_ip cfg r sv.slots) [
        | inl (h, e) ↦ subst (λ o. Admitted l d o sv.in_flight) (sym e) (v d)
        | inr (h, inl (u, e)) ↦ subst (λ o. Admitted l d o sv.in_flight) (sym e) (v d)
        | inr (h, inr (u, e)) ↦
            subst (λ o. Admitted l d o sv.in_flight) (sym e)
              (limits_lem l d r sv.slots sv.in_flight (v d))
      ]
  step-IsValid sv (leave i) v d = elim (Option-cases (get_elem? sv.in_flight i)) [
    | inl e ↦ rw (e, step) (v d)
    | inr (o, e) ↦
        rw (e, step)
          (give_back_lem (with_defaults cfg.limits) o d sv.slots sv.in_flight
            (remove sv.in_flight i) (remove_lem d sv.in_flight i o e) (v d))
  ]

  run-IsValid :
      (sv : Service) (es : List Event)
      → IsValid (with_defaults cfg.limits) sv
      → IsValid (with_defaults cfg.limits) (run split_host_port parse_ip cfg sv es)
  unfolding run
  run-IsValid sv [] v = v
  run-IsValid sv (e ∷ es) v =
      run-IsValid (step split_host_port parse_ip cfg sv e) es (step-IsValid sv e v)

  -- After any arrivals and departures on an idle server, the slots in use of each class of requests
  -- are exactly the requests of that class being served, so no slot is lost or held twice, and they
  -- are at most the configured limit (128 and 16 where none is configured, and 2 disk scans).
  pub run-idle :
      (es : List Event) (c : Class)
      → Exact
          (with_defaults cfg.limits)
          c
          (run split_host_port parse_ip cfg idle es).slots
          (run split_host_port parse_ip cfg idle es).in_flight
  unfolding used
  run-idle es c = run-IsValid idle es (idle-IsValid (with_defaults cfg.limits)) c
