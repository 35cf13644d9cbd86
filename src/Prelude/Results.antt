-- ===== src/Prelude/Results.antt =====
-- Fallible code and the state that it runs over: `Result` and the operator `?` of Rust.
use mathlib.Core.Path.{◌≡◌, refl, ap}
use mathlib.Core.Logic.{◌⊎◌, inl, inr}
use mathlib.Core.Bool.{Bool, true, false}

pub data Result {ℓ} (E : Type 0) (A : Type ℓ) : Type ℓ where
  ok : A → Result E A
  err : E → Result E A

-- A call that returns early with an error unless the test holds.
abbrev pub guard : {E : Type 0} → Bool → E → Result E (Unit {0})
guard true e = ok tt
guard false e = err e

-- `fn f(&mut self) -> VcResult<A>` over a state `S`: the state is kept when the call fails.
abbrev pub StateM : Type 0 → Type 0 → Type 0 → Type 0
StateM E S A = S → Result E A × S

abbrev pub pure : {E S A : Type 0} → A → StateM E S A
pure a s = (ok a, s)

abbrev pub fail : {E S A : Type 0} → E → StateM E S A
fail e s = (err e, s)

abbrev pub lift : {E S A : Type 0} → Result E A → StateM E S A
lift r s = (r, s)

abbrev pub guard_M : {E S : Type 0} → Bool → E → StateM E S (Unit {0})
guard_M b e s = (guard b e, s)

-- What follows a call that has returned: its continuation, or its error.
abbrev pub after : {E S A B : Type 0} → (A → StateM E S B) → Result E A → S → Result E B × S
after f (ok a) s = f a s
after f (err e) s = (err e, s)

-- The operator `?` of Rust.
infixl 5 ◌>>=◌ ◌>>◌
abbrev pub ◌>>=◌ : {E S A B : Type 0} → StateM E S A → (A → StateM E S B) → StateM E S B
◌>>=◌ m f s = let (r, s') = m s in after f r s'

abbrev pub ◌>>◌ : {E S B : Type 0} → StateM E S (Unit {0}) → StateM E S B → StateM E S B
m >> k = m >>= λ _. k

pub Result-cases {ℓ} :
    {E : Type 0} {A : Type ℓ} (r : Result E A) → ((a : A) × (r ≡ ok a)) ⊎ ((e : E) × (r ≡ err e))
Result-cases (ok a) = inl (a, refl)
Result-cases (err e) = inr (e, refl)

-- A call that returned a value: the step after it runs in the state that the call left.
pub bind_ok :
    {E S A B : Type 0} (m : StateM E S A) (f : A → StateM E S B) (s : S) {a : A}
    → (m s).0 ≡ ok a
    → (m >>= f) s ≡ f a (m s).1
bind_ok m f s e = rw (e, after)

pub bind_err :
    {E S A B : Type 0} (m : StateM E S A) (f : A → StateM E S B) (s : S) {x : E}
    → (m s).0 ≡ err x
    → (m >>= f) s ≡ (err x, (m s).1)
bind_err m f s e = rw (e, after)

pub ok_injective {ℓ} :
    {E : Type 0} {A : Type ℓ} {a b : A} → ◌≡◌ {A = Result E A} (ok a) (ok b) → a ≡ b
ok_injective e = cc

-- A call followed by a computation on its value leaves the state that the call left.
pub bind_pure_state :
    {E S A B : Type 0} (m : StateM E S A) (g : A → B) (s : S)
    → ((m >>= λ a. pure (g a)) s).1 ≡ (m s).1
bind_pure_state m g s = elim (Result-cases (m s).0) [
  | inl (a, e) ↦ ap (λ p. p.1) (bind_ok m (λ a. pure (g a)) s e)
  | inr (x, e) ↦ ap (λ p. p.1) (bind_err m (λ a. pure (g a)) s e)
]
