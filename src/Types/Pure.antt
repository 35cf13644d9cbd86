-- ===== src/Types/Pure.antt =====
-- The operator `?` of Rust in functions that touch no device.
use vault_pony_core.Prelude.{◌≡◌, refl, Bool, true, false}
use vault_pony_core.Types.Error.{Result, ok, err, guard}

infixl 5 ◌>>=◌ ◌>>◌
abbrev pub ◌>>=◌ {ℓ κ} :
    {E : Type 0} {A : Type ℓ} {B : Type κ} → Result E A → (A → Result E B) → Result E B
ok a >>= f = f a
err e >>= f = err e

abbrev pub ◌>>◌ {ℓ} : {E : Type 0} {B : Type ℓ} → Result E (Unit {0}) → Result E B → Result E B
m >> k = m >>= λ _. k

-- A guarded call that returned a value passed its test.
pub guard_ok {ℓ} :
    {E : Type 0} {A : Type ℓ} (b : Bool) (x : E) (k : Result E A) {a : A}
    → (guard b x >> k) ≡ ok a
    → (b ≡ true) × (k ≡ ok a)
guard_ok true x k h = (refl, h)
guard_ok false x k h = absurd (cc)

-- And when the test holds the guard is passed.
pub guard_pass {ℓ} :
    {E : Type 0} {A : Type ℓ} (b : Bool) (x : E) (k : Result E A) {a : A}
    → b ≡ true
    → k ≡ ok a
    → (guard b x >> k) ≡ ok a
guard_pass true x k e h = h
guard_pass false x k e h = absurd (cc)
