-- ===== src/Device/Store.antt =====
-- What the trait `BlockDevice` promises of a device that stores bytes (core/vc-io/src/lib.rs):
-- reads and writes of exactly the bytes asked for, at any offset within the size. The theorems about
-- the wrapping devices take such a device as a parameter.
use vault_pony_core.Prelude.{ℕ, ◌+◌, ◌≤◌, ◌<◌, ◌≡◌, List, length}
use vault_pony_core.Prelude.Slices.{slice, splice}
use vault_pony_core.Prelude.Results.{ok}
use vault_pony_core.Device.{Device}

-- `content` reads the stored bytes off a state, and `IsLive` singles out the states in which the
-- device works; calls lead from such states to such states. Nothing is assumed of a call out of range
-- but that a read keeps the bytes.
pub record IsStore {E : Type 0} (d : Device E) : Type 1 where
  pub IsLive : d.State → Type 0
  pub content : d.State → List ℕ
  pub len_value : (s : d.State) → IsLive s → (d.len s).0 ≡ ok (length (content s))
  pub len_live : (s : d.State) → IsLive s → IsLive (d.len s).1
  pub len_keeps : (s : d.State) → IsLive s → content (d.len s).1 ≡ content s
  pub read_value :
      (s : d.State) (off n : ℕ)
      → IsLive s
      → off + n ≤ length (content s)
      → (d.read_at off n s).0 ≡ ok (slice off n (content s))
  pub read_live : (s : d.State) (off n : ℕ) → IsLive s → IsLive (d.read_at off n s).1
  pub read_keeps : (s : d.State) (off n : ℕ) → IsLive s → content (d.read_at off n s).1 ≡ content s
  pub write_value :
      (s : d.State) (off : ℕ) (b : List ℕ)
      → IsLive s
      → off + length b ≤ length (content s)
      → (d.write_at off b s).0 ≡ ok tt
  pub write_live :
      (s : d.State) (off : ℕ) (b : List ℕ)
      → IsLive s
      → off + length b ≤ length (content s)
      → IsLive (d.write_at off b s).1
  pub write_content :
      (s : d.State) (off : ℕ) (b : List ℕ)
      → IsLive s
      → off + length b ≤ length (content s)
      → content (d.write_at off b s).1 ≡ splice off b (content s)
  pub flush_value : (s : d.State) → IsLive s → (d.flush s).0 ≡ ok tt
  pub flush_live : (s : d.State) → IsLive s → IsLive (d.flush s).1
  pub flush_keeps : (s : d.State) → IsLive s → content (d.flush s).1 ≡ content s

-- A device that refuses a write past its end and leaves everything as it was. The trait leaves this
-- open: a file grows.
pub record RefusesPastEnd {E : Type 0} (d : Device E) (store : IsStore d) : Type 0 where
  pub write_refused :
      (s : d.State) (off : ℕ) (b : List ℕ)
      → store.IsLive s
      → length (store.content s) < off + length b
      → (d.write_at off b s).1 ≡ s
