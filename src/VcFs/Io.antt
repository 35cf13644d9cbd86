-- ===== src/VcFs/Io.antt =====
-- core/vc-fs/src/io.rs: a block device behind the traits `Read`, `Write` and `Seek`; and the opening and
-- formatting of src/fat.rs, where the crate `fatfs` is a parameter.
use vault_pony_core.Prelude.{ℕ, ◌-◌, min, Option, none, some, List, [], ◌==◌, if◌then◌else◌, length}
use vault_pony_core.Prelude.Words.{add64, checked_add, checked_sub}
use vault_pony_core.Prelude.Results.{Result, ok, err, StateM, pure, ◌>>=◌, ◌>>◌}
use vault_pony_core.Types.Error.{IoError, invalid_input, wrapped, VcError, io, filesystem, M}
use vault_pony_core.Device.{BlockDevice}

-- The position is the caller's; the length is read once.
pub record DeviceIo (S : Type 0) : Type 0 where
  pub dev : S
  pub pos : ℕ
  pub len : ℕ

abbrev pub to_io : VcError → IoError
to_io (io e) = e
to_io _ = wrapped

-- `map_err`
abbrev pub map_err : {E E' A : Type 0} → (E → E') → Result E A → Result E' A
map_err f (ok a) = ok a
map_err f (err e) = err (f e)

abbrev pub map_err_M : {E E' S A : Type 0} → (E → E') → StateM E S A → StateM E' S A
map_err_M f m s = let (r, s') = m s in (map_err f r, s')

-- A call of the device under the position.
abbrev on_dev : {S A : Type 0} → M S A → StateM IoError (DeviceIo S) A
on_dev m p = let (r, s) = m p.dev in (map_err to_io r, record p { dev = s })

abbrev advance : {S : Type 0} → ℕ → StateM IoError (DeviceIo S) (Unit {0})
advance n p = (ok tt, record p { pos = add64 p.pos n })

abbrev go_to : {S : Type 0} → ℕ → StateM IoError (DeviceIo S) ℕ
go_to o p = (ok o, record p { pos = o })

-- The signed offset of `SeekFrom`.
pub data Shift : Type 0 where
  forward backward : ℕ → Shift

pub data SeekFrom : Type 0 where
  from_start : ℕ → SeekFrom
  from_end from_current : Shift → SeekFrom

abbrev checked_add_signed : ℕ → Shift → Option ℕ
checked_add_signed a (forward n) = checked_add a n
checked_add_signed a (backward n) = checked_sub a n

abbrev target : {S : Type 0} → SeekFrom → DeviceIo S → Option ℕ
target (from_start o) p = some o
target (from_end t) p = checked_add_signed p.len t
target (from_current t) p = checked_add_signed p.pos t

module _ (d : BlockDevice) where
  unfoldable pub read : ℕ → StateM IoError (DeviceIo d.State) (List ℕ)
  read n p =
      if min n (p.len - p.pos) == 0
      then (ok [], p)
      else (do
        b ← on_dev (d.read_at p.pos (min n (p.len - p.pos)))
        advance (min n (p.len - p.pos))
        pure b)
          p

  unfoldable pub write : List ℕ → StateM IoError (DeviceIo d.State) ℕ
  write buf p = (do on_dev (d.write_at p.pos buf); advance (length buf); pure (length buf)) p

  unfoldable pub flush_io : StateM IoError (DeviceIo d.State) (Unit {0})
  flush_io = on_dev d.flush

  unfoldable pub seek : SeekFrom → StateM IoError (DeviceIo d.State) ℕ
  seek from p = elim (target from p) [ some o ↦ go_to o p | none ↦ (err invalid_input, p) ]

-- What the adapter asks of the crate: mounting and formatting over a `DeviceIo`.
pub record FatCrate : Type 1 where
  pub Handle : Type 0
  pub mount : (d : BlockDevice) → StateM IoError (DeviceIo d.State) Handle
  pub format_volume : (d : BlockDevice) → StateM IoError (DeviceIo d.State) (Unit {0})

module _ (fat_crate : FatCrate) (d : BlockDevice) where
  -- `DeviceIo::new`, and a call over it; it is dropped after the call.
  abbrev through : {A : Type 0} → StateM VcError (DeviceIo d.State) A → M d.State A
  through m = do
    n ← d.len
    (λ s. let (r, p) = m (record { dev = s; pos = 0; len = n }) in (r, p.dev))

  unfoldable pub fat_open : M d.State fat_crate.Handle
  fat_open = through (map_err_M (λ e. filesystem "FAT mount") (fat_crate.mount d))

  unfoldable pub fat_format : M d.State (Unit {0})
  unfolding flush_io
  fat_format = through (do
    map_err_M (λ e. filesystem "FAT format") (fat_crate.format_volume d)
    map_err_M io (flush_io d))
