-- ===== src/Main/Config/Outcome.antt =====
-- cmd/owlwatch/main.go: reasoning about a load that can end with an error.
use owlwatch.Prelude.{◌≡◌, ◌⊎◌, inl, inr, refl, subst, Bool, true, false, Bytes}
use owlwatch.Main.Config.{Loaded, loaded, rejected, ◌>>=◌, reject_if}

pub Loaded-cases :
    {A : Type 0} (m : Loaded A) → ((key : Bytes) × (m ≡ rejected key)) ⊎ ((a : A) × (m ≡ loaded a))
Loaded-cases (loaded a) = inr (a, refl)
Loaded-cases (rejected key) = inl (key, refl)

-- What holds of the result, if there is one.
pub data Holds {A : Type 0} (P : A → Type 0) : Loaded A → Type 0 where
  at_value : {a : A} → P a → Holds P (loaded a)
  at_error : {key : Bytes} → Holds P (rejected key)

pub Holds-bind :
    {A B : Type 0} {P : A → Type 0} {Q : B → Type 0} {m : Loaded A} (f : A → Loaded B)
    → Holds P m
    → ((a : A) → P a → Holds Q (f a))
    → Holds Q (m >>= f)
unfolding ◌>>=◌
Holds-bind f (at_value h) k = k _ h
Holds-bind f at_error k = at_error

loaded-inj : {A : Type 0} {a b : A} → loaded a ≡ loaded b → a ≡ b
loaded-inj e = cc

pub Holds-elim :
    {A : Type 0} {P : A → Type 0} {m : Loaded A} {a : A} → Holds P m → m ≡ loaded a → P a
Holds-elim {P = P} (at_value h) e = subst P (loaded-inj e) h
Holds-elim at_error e = cc

pub Holds-any : {A : Type 0} (m : Loaded A) → Holds (λ _. Unit) m
Holds-any (loaded a) = at_value tt
Holds-any (rejected key) = at_error

pub Holds-map :
    {A : Type 0} {P Q : A → Type 0} {m : Loaded A} → ((a : A) → P a → Q a) → Holds P m → Holds Q m
Holds-map f (at_value h) = at_value (f _ h)
Holds-map f at_error = at_error

pub Holds-const :
    {A B C : Type 0} {m : Loaded A} (f : A → Loaded B) → Holds (λ _. C) m → Holds (λ _. C) (m >>= f)
unfolding ◌>>=◌
Holds-const f (at_value h) = Holds-map (λ _ _. h) (Holds-any (f _))
Holds-const f at_error = at_error

pub Holds-rest :
    {A B : Type 0} {Q : B → Type 0} (m : Loaded A) (f : A → Loaded B)
    → ((a : A) → Holds Q (f a))
    → Holds Q (m >>= f)
Holds-rest m f k = Holds-bind f (Holds-any m) λ a _. k a

pub reject_if-Holds : (test : Bool) (key : Bytes) → Holds (λ _. test ≡ false) (reject_if test key)
unfolding reject_if
reject_if-Holds true key = at_error
reject_if-Holds false key = at_value refl
