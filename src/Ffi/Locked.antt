-- ===== src/Ffi/Locked.antt =====
-- The calls of a session of core/vault-ffi/src/lib.rs after it has been locked.
use Prim.Native.String.{String}
use vault_pony_core.Prelude.{
  ℕ, ◌≡◌, refl, sym, subst, ◌⊎◌, inl, inr, Bool-cases, Option-cases, Bool, true, false, Option,
  none, List, [], ◌∷◌, length, replicate,
}
use vault_pony_core.Prelude.Results.{Result, err, StateM, pure, ◌>>=◌}
use vault_pony_core.Types.Error.{IoError}
use vault_pony_core.Ffi.Error.{VaultError, internal}
use vault_pony_core.Session.{Session}
use vault_pony_core.Ffi.{DynVfs, State, VaultSession, lock}
use vault_pony_core.Ffi

-- A call of a session by its name and arguments.
pub data Request : Type 0 where
  facts flush : Request
  list stat create mkdir remove : (path : List ℕ) → Request
  read_at : (path : List ℕ) → (offset len : ℕ) → Request
  write_at : (path : List ℕ) → (offset : ℕ) → (bytes : List ℕ) → Request
  rename : (from to : List ℕ) → Request
  truncate : (path : List ℕ) → (len : ℕ) → Request

module _ {S : Type 0} (kind_text : IoError → String) where
  abbrev done :
      {A : Type 0} → StateM VaultError (State S) A → StateM VaultError (State S) (Unit {0})
  done m = do a ← m; pure tt

  -- The call, without the value that it returns.
  unfoldable pub serve : Request → StateM VaultError (State S) (Unit {0})
  serve facts = done (Ffi.facts kind_text)
  serve flush = Ffi.flush kind_text
  serve (list path) = done (Ffi.list kind_text path)
  serve (stat path) = done (Ffi.stat kind_text path)
  serve (create path) = Ffi.create kind_text path
  serve (mkdir path) = Ffi.mkdir kind_text path
  serve (remove path) = Ffi.remove kind_text path
  serve (read_at path offset len) = done (Ffi.read_at kind_text path offset len)
  serve (write_at path offset bytes) = done (Ffi.write_at kind_text path offset bytes)
  serve (rename from to) = Ffi.rename kind_text from to
  serve (truncate path len) = Ffi.truncate kind_text path len

  unfoldable pub run : List Request → State S → List (Result VaultError (Unit {0})) × State S
  unfolding serve
  run [] t = ([], t)
  run (q ∷ qs) t = let (r, t') = serve q t in let (rs, t'') = run qs t' in (r ∷ rs, t'')

  -- The slot is empty, or its lock is poisoned.
  abbrev IsLocked : State S → Type 0
  IsLocked (v, s) = (v.poisoned ≡ true) ⊎ (v.inner ≡ none)

  -- A poisoned lock, and then an empty slot.
  serve_poisoned :
      (q : Request) (i : Option (Session (DynVfs S))) (s : S)
      → serve q (record { poisoned = true; inner = i }, s)
        ≡ (err internal, (record { poisoned = true; inner = i }, s))
  unfolding serve Ffi.facts Ffi.flush Ffi.list Ffi.stat Ffi.create Ffi.mkdir Ffi.remove Ffi.read_at
      Ffi.write_at Ffi.rename Ffi.truncate
  serve_poisoned facts i s = refl
  serve_poisoned flush i s = refl
  serve_poisoned (list path) i s = refl
  serve_poisoned (stat path) i s = refl
  serve_poisoned (create path) i s = refl
  serve_poisoned (mkdir path) i s = refl
  serve_poisoned (remove path) i s = refl
  serve_poisoned (read_at path offset len) i s = refl
  serve_poisoned (write_at path offset bytes) i s = refl
  serve_poisoned (rename from to) i s = refl
  serve_poisoned (truncate path len) i s = refl

  serve_empty :
      (q : Request) (s : S)
      → serve q (record { poisoned = false; inner = none }, s)
        ≡ (err internal, (record { poisoned = false; inner = none }, s))
  unfolding serve Ffi.facts Ffi.flush Ffi.list Ffi.stat Ffi.create Ffi.mkdir Ffi.remove Ffi.read_at
      Ffi.write_at Ffi.rename Ffi.truncate
  serve_empty facts s = refl
  serve_empty flush s = refl
  serve_empty (list path) s = refl
  serve_empty (stat path) s = refl
  serve_empty (create path) s = refl
  serve_empty (mkdir path) s = refl
  serve_empty (remove path) s = refl
  serve_empty (read_at path offset len) s = refl
  serve_empty (write_at path offset bytes) s = refl
  serve_empty (rename from to) s = refl
  serve_empty (truncate path len) s = refl

  lock-IsLocked : (t : State S) → IsLocked (lock t)
  unfolding lock
  lock-IsLocked (v, s) = elim (Bool-cases v.poisoned) [
    | inl p ↦ inl (simp (p))
    | inr p ↦ elim (Option-cases v.inner) [
      | inl e ↦ inr (simp (p, e))
      | inr (x, e) ↦ inr (simp (p, e))
    ]
  ]

  serve_when_poisoned :
      (q : Request) (v : VaultSession S) (s : S)
      → v.poisoned ≡ true
      → serve q (v, s) ≡ (err internal, (v, s))
  serve_when_poisoned q v s poisoned =
      subst
        (λ b.
          serve q (record { poisoned = b; inner = v.inner }, s)
          ≡ (err internal, (record { poisoned = b; inner = v.inner }, s)))
        (sym poisoned) (serve_poisoned q v.inner s)

  serve_locked : (q : Request) (t : State S) → IsLocked t → serve q t ≡ (err internal, t)
  serve_locked q (v, s) (inl poisoned) = serve_when_poisoned q v s poisoned
  serve_locked q (v, s) (inr empty) = elim (Bool-cases v.poisoned) [
    | inl poisoned ↦ serve_when_poisoned q v s poisoned
    | inr fine ↦
        subst
          (λ (b : Bool × Option (Session (DynVfs S))).
            serve q (record { poisoned = b.0; inner = b.1 }, s)
            ≡ (err internal, (record { poisoned = b.0; inner = b.1 }, s)))
          (sym (λ k. (fine k, empty k))) (serve_empty q s)
  ]

  run_locked :
      (qs : List Request) (t : State S)
      → IsLocked t
      → run qs t ≡ (replicate (length qs) (err internal), t)
  unfolding run
  run_locked [] t h = refl
  run_locked (q ∷ qs) t h = rw (serve_locked q t h, run_locked qs t h) refl

  lock_locked : (t : State S) → IsLocked t → lock t ≡ t
  unfolding lock
  lock_locked (v, s) (inl poisoned) = simp (poisoned)
  lock_locked (v, s) (inr empty) = elim (Bool-cases v.poisoned) [
    | inl p ↦ simp (p)
    | inr p ↦ simp (p, empty)
  ]

  -- Locking a session is final: whatever calls follow, each fails with the internal error, none reaches
  -- the volume, and the session stays as it is; locking it again changes nothing. The adapter, its
  -- calls and the state of the volume are any.
  pub run-lock :
      (t : State S) (qs : List Request)
      → (run qs (lock t) ≡ (replicate (length qs) (err internal), lock t))
        × (lock (lock t) ≡ lock t)
  run-lock t qs = (run_locked qs (lock t) (lock-IsLocked t), lock_locked (lock t) (lock-IsLocked t))
