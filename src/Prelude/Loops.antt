-- ===== src/Prelude/Loops.antt =====
-- The panic monad, `none` for a run-time panic, and the counted loop that fills a slice.
use Prim.Native.Nat.{ℕ, zero, suc, ◌+◌, ◌<◌}
use mathlib.Core.Path.{◌≡◌, refl, sym, ap, ◌∙◌}
use mathlib.Core.List.{List, [], ◌∷◌, ◌++◌}
use mathlib.Core.Option.{Option, none, some}
use native.Mathlib.Omega.{arith}
use owlwatch.Prelude.Lists.{length, get_elem?}

infixl 5 ◌>>=◌
abbrev pub ◌>>=◌ {ℓ κ} : {A : Type ℓ} {B : Type κ} → Option A → (A → Option B) → Option B
none >>= f = none
some a >>= f = f a

pub some-inj {ℓ} : {A : Type ℓ} {a b : A} → some a ≡ some b → a ≡ b
some-inj e = cc

pub none-some {ℓ} : {A : Type ℓ} {a : A} → none ≡ some a → ⊥
none-some e = cc

-- Inversion of a bind that returns.
pub >>=-eq-some {ℓ κ} :
    {A : Type ℓ} {B : Type κ} (m : Option A) (f : A → Option B) {b : B}
    → (m >>= f) ≡ some b
    → (a : A) × (m ≡ some a) × (f a ≡ some b)
>>=-eq-some none f h = cc
>>=-eq-some (some a) f h = (a, refl, h)

pub >>=-ext {ℓ κ} :
    {A : Type ℓ} {B : Type κ} (m : Option A) (f g : A → Option B)
    → ((a : A) → f a ≡ g a)
    → (m >>= f) ≡ (m >>= g)
>>=-ext none f g h = refl
>>=-ext (some a) f g h = h a

-- Folds a step that may panic over a list.
abbrev pub fold {ℓ κ} : {A : Type ℓ} {S : Type κ} → (S → A → Option S) → S → List A → Option S
fold f s [] = some s
fold f s (x ∷ xs) = f s x >>= λ s'. fold f s' xs

module _ {ℓ} {A : Type ℓ} where
  -- `for i := from; i < from+n; i++ { out = append(out, f(i)) }`.
  unfoldable pub gather : (ℕ → Option A) → ℕ → ℕ → Option (List A)
  gather f i zero = some []
  gather f i (suc n) = f i >>= λ x. gather f (i + 1) n >>= λ xs. some (x ∷ xs)

  pub gather-ext :
      (f g : ℕ → Option A) (i j n : ℕ)
      → ((k : ℕ) → k < n → f (i + k) ≡ g (j + k))
      → gather f i n ≡ gather g j n
  unfolding gather
  gather-ext f g i j zero h = refl
  gather-ext f g i j (suc n) h = ground (
    arith,
    ap f (let e : i + 0 ≡ i = omega arith in e),
    ap g (let e : j + 0 ≡ j = omega arith in e),
    h 0,
    gather-ext f g (i + 1) (j + 1) n (λ k lt.
        ap f (let e : i + 1 + k ≡ i + suc k = omega arith in e)
        ∙ h (suc k) (omega arith)
        ∙ ap g (let e : j + suc k ≡ j + 1 + k = omega arith in e)),
  )

  -- One more round appends one more entry.
  pub gather-snoc :
      (f : ℕ → Option A) (i n : ℕ) {xs : List A} {x : A}
      → gather f i n ≡ some xs
      → f (i + n) ≡ some x
      → gather f i (suc n) ≡ some (xs ++ x ∷ [])
  unfolding gather
  gather-snoc f i zero {xs} {x} h e = ground (arith, ap f (let e : i + 0 ≡ i = omega arith in e))
  gather-snoc f i (suc n) {xs} {x} h e =
      let (y, fy, h') = >>=-eq-some (f i) _ h in
      let (ys, rest, last) = >>=-eq-some (gather f (i + 1) n) _ h' in
      let ih =
        gather-snoc f (i + 1) n rest
          (ap f (let e : i + 1 + n ≡ i + suc n = omega arith in e) ∙ e) in
      rw (fy, ih) (ground arith)

  pub length-gather :
      (f : ℕ → Option A) (i n : ℕ) {xs : List A} → gather f i n ≡ some xs → length xs ≡ n
  unfolding gather
  length-gather f i zero h = sym (ap length (some-inj h))
  length-gather f i (suc n) h =
      let (y, fy, h') = >>=-eq-some (f i) _ h in
      let (ys, rest, last) = >>=-eq-some (gather f (i + 1) n) _ h' in
      sym (ap length (some-inj last)) ∙ ap suc (length-gather f (i + 1) n rest)

  pub get_elem?-gather :
      (f : ℕ → Option A) (i n : ℕ) {xs : List A} (k : ℕ)
      → gather f i n ≡ some xs
      → k < n
      → f (i + k) ≡ get_elem? xs k
  unfolding gather
  get_elem?-gather f i zero k h lt = absurd (omega arith)
  get_elem?-gather f i (suc n) zero h lt =
      let (y, fy, h') = >>=-eq-some (f i) _ h in
      let (ys, rest, last) = >>=-eq-some (gather f (i + 1) n) _ h' in
      ap f (let e : i + 0 ≡ i = omega arith in e)
      ∙ fy
      ∙ ap (λ (l : List A). get_elem? l 0) (some-inj last)
  get_elem?-gather f i (suc n) (suc k) h lt =
      let (y, fy, h') = >>=-eq-some (f i) _ h in
      let (ys, rest, last) = >>=-eq-some (gather f (i + 1) n) _ h' in
      ap f (let e : i + suc k ≡ i + 1 + k = omega arith in e)
      ∙ get_elem?-gather f (i + 1) n k rest (omega arith)
      ∙ ap (λ (l : List A). get_elem? l (suc k)) (some-inj last)

  -- The loop finishes when no round panics.
  pub gather-total :
      (f : ℕ → Option A) (i n : ℕ)
      → ((k : ℕ) → k < n → (x : A) × (f (i + k) ≡ some x))
      → (xs : List A) × (gather f i n ≡ some xs)
  unfolding gather
  gather-total f i zero h = ([], refl)
  gather-total f i (suc n) h =
      let (x, fx) = h 0 (omega arith) in
      let (xs, rest) = gather-total f (i + 1) n (λ k lt.
        let (y, fy) = h (suc k) (omega arith) in
        (y, ap f (let e : i + 1 + k ≡ i + suc k = omega arith in e) ∙ fy)) in
      (x ∷ xs, rw (ap f (let e : i ≡ i + 0 = omega arith in e), fx, rest))
