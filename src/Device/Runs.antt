-- ===== src/Device/Runs.antt =====
-- Runs of calls on a device that stores bytes (core/vc-io/src/lib.rs): from the bytes stored before a
-- call to its answer and the bytes stored after it, composed along the operator `?`.
use vault_pony_core.Prelude.{ℕ, ◌+◌, ◌≤◌, ◌≡◌, Bool, true, false, refl, ap, ◌∙◌, List, length}
use vault_pony_core.Prelude.Slices.{slice, splice}
use vault_pony_core.Prelude.Results.{
  Result, ok, err, StateM, lift, guard_M, ◌>>=◌, ◌>>◌, bind_ok, bind_err,
}
use vault_pony_core.Device.{Device}
use vault_pony_core.Device.Store.{IsStore}

-- `At x s` says that the state `s` is as `x` describes it.
module _ {E S X : Type 0} (At : X → S → Type 0) where
  -- From any state as `x` describes it, the call answers `r` and leaves a state as `y` describes it.
  abbrev pub Runs : {A : Type 0} → StateM E S A → X → Result E A → X → Type 0
  Runs m x r y = (s : S) → At x s → ((m s).0 ≡ r) × At y (m s).1

  pub Runs-lift : {A : Type 0} (r : Result E A) (x : X) → Runs (lift r) x r x
  Runs-lift r x s p = (refl, p)

  pub Runs-bind :
      {A B : Type 0} (m : StateM E S A) (f : A → StateM E S B) {x y z : X} {a : A} {r : Result E B}
      → Runs m x (ok a) y
      → Runs (f a) y r z
      → Runs (m >>= f) x r z
  Runs-bind m f run next s p =
      let (value, q) = run s p in
      let (answer, t) = next (m s).1 q in rw (bind_ok m f s value) (answer, t)

  pub Runs-then :
      {B : Type 0} (m : StateM E S (Unit {0})) (k : StateM E S B) {x y z : X} {r : Result E B}
      → Runs m x (ok tt) y
      → Runs k y r z
      → Runs (m >> k) x r z
  Runs-then m k run next = Runs-bind m (λ _. k) run next

  -- A step that touches no state.
  pub Runs-value :
      {A B : Type 0} (v : Result E A) (f : A → StateM E S B) {x z : X} {a : A} {r : Result E B}
      → v ≡ ok a
      → Runs (f a) x r z
      → Runs (lift v >>= f) x r z
  Runs-value v f e next = Runs-bind (lift v) f (λ s p. (e, p)) next

  pub Runs-stop :
      {A B : Type 0} (m : StateM E S A) (f : A → StateM E S B) {x y : X} {e : E}
      → Runs m x (err e) y
      → Runs (m >>= f) x (err e) y
  Runs-stop m f run s p = let (value, q) = run s p in rw (bind_err m f s value) (refl, q)

  pub Runs-guard :
      {B : Type 0} (b : Bool) (e : E) (k : StateM E S B) {x z : X} {r : Result E B}
      → b ≡ true
      → Runs k x r z
      → Runs (guard_M b e >> k) x r z
  Runs-guard true e k p next = next
  Runs-guard false e k p next = absurd (cc)

  pub Runs-refuse :
      {B : Type 0} (b : Bool) (e : E) (k : StateM E S B) {x : X}
      → b ≡ false
      → Runs (guard_M b e >> k) x (err e) x
  Runs-refuse true e k p = absurd (cc)
  Runs-refuse false e k p = Runs-lift (err e) _

-- A device that reads these bytes, in the states that `At` admits.
pub record Readable {E : Type 0} (d : Device E) (At : List ℕ → d.State → Type 0) (xs : List ℕ)
    : Type 0 where
  pub reads_len : Runs At d.len xs (ok (length xs)) xs
  pub reads_at :
      (off n : ℕ) → off + n ≤ length xs → Runs At (d.read_at off n) xs (ok (slice off n xs)) xs

module _ {E : Type 0} (d : Device E) (store : IsStore d) where
  -- A working state that stores these bytes.
  abbrev pub Stored : List ℕ → d.State → Type 0
  Stored xs s = store.IsLive s × (store.content s ≡ xs)

  pub Runs-len : (xs : List ℕ) → Runs Stored d.len xs (ok (length xs)) xs
  Runs-len xs s (l, e) = (
    store.len_value s l ∙ ap (λ t. ok (length t)) e,
    (store.len_live s l, store.len_keeps s l ∙ e),
  )

  pub Runs-read :
      (off n : ℕ) (xs : List ℕ)
      → off + n ≤ length xs
      → Runs Stored (d.read_at off n) xs (ok (slice off n xs)) xs
  Runs-read off n xs h s (l, e) = (
    store.read_value s off n l (rw e h) ∙ ap (λ t. ok (slice off n t)) e,
    (store.read_live s off n l, store.read_keeps s off n l ∙ e),
  )

  pub Runs-write :
      (off : ℕ) (b xs : List ℕ)
      → off + length b ≤ length xs
      → Runs Stored (d.write_at off b) xs (ok tt) (splice off b xs)
  Runs-write off b xs h s (l, e) = (
    store.write_value s off b l (rw e h),
    (
      store.write_live s off b l (rw e h),
      store.write_content s off b l (rw e h) ∙ ap (splice off b) e,
    ),
  )

  pub Runs-flush : (xs : List ℕ) → Runs Stored d.flush xs (ok tt) xs
  Runs-flush xs s (l, e) =
      (store.flush_value s l, (store.flush_live s l, store.flush_keeps s l ∙ e))

  pub Stored-Readable : (xs : List ℕ) → Readable d Stored xs
  Stored-Readable xs = record {
    reads_len = Runs-len xs;
    reads_at = λ off n h. Runs-read off n xs h;
  }
