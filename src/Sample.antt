-- ===== src/Sample.antt =====
-- Concrete instances of what the other modules take as parameters: a device in memory, a byte-wise
-- mode, a key derivation and a random source. The tests beside this file run on them.
pub mod Devices
pub mod Volumes
pub mod Clusters
pub mod Sessions
pub mod Headers
pub mod Secrets
use vault_pony_core.Prelude.{
  ℕ, zero, suc, ◌+◌, ◌-◌, ◌%◌, ◌^◌, ◌≤◌, ◌<◌, ◌≡◌, refl, sym, ap, ap₂, ◌∙◌, List, [], ◌∷◌, ◌++◌,
  length, take, replicate, length-replicate, some, ltb, ◌==◌, if◌then◌else◌, arith,
}
use vault_pony_core.Prelude.Slices.{slice, splice}
use vault_pony_core.Types.Error.{ok, err, io, unexpected_eof, other}
use vault_pony_core.Device.{Device, BlockDevice}
use vault_pony_core.Device.Store.{IsStore, RefusesPastEnd}
use vault_pony_core.Crypto.Xts.{XtsMode}
use vault_pony_core.Crypto.Xts.RoundTrip.{IsXts, IsPermutation}
use vault_pony_core.Crypto.Kdf.{Pbkdf2}
use vault_pony_core.Crypto.Kdf.Laws.{IsPbkdf2}
use vault_pony_core.Crypto.Primitives.{Primitives}
use vault_pony_core.Exfat.Error.{Disk}
use vault_pony_core.Format.Volume.{Rng}
use vault_pony_core.Format.Volume.Steps.{IsRandom}

-- A device whose state is its bytes. A call past the end is refused, with an error for reads and one
-- for writes.
module _ {E : Type 0} (eof full : E) where
  abbrev pub memory_of : Device E
  memory_of = record {
    State = List ℕ;
    len = λ s. (ok (length s), s);
    read_at = λ off n s. if ltb (length s) (off + n) then (err eof, s) else (ok (slice off n s), s);
    write_at = λ off b s.
        if ltb (length s) (off + length b) then (err full, s) else (ok tt, splice off b s);
    flush = λ s. (ok tt, s);
  }

  pub memory_read :
      (s : List ℕ) (off n : ℕ)
      → off + n ≤ length s
      → (memory_of.read_at off n s).0 ≡ ok (slice off n s)
  memory_read s off n h = ground arith

  pub memory_read_keeps : (s : List ℕ) (off n : ℕ) → (memory_of.read_at off n s).1 ≡ s
  memory_read_keeps s off n = ground arith

  pub memory_write :
      (s : List ℕ) (off : ℕ) (b : List ℕ)
      → off + length b ≤ length s
      → memory_of.write_at off b s ≡ (ok tt, splice off b s)
  memory_write s off b h = ground arith

  pub memory_refuses :
      (s : List ℕ) (off : ℕ) (b : List ℕ)
      → length s < off + length b
      → (memory_of.write_at off b s).1 ≡ s
  memory_refuses s off b h = ground arith

  abbrev pub memory_of-IsStore : IsStore memory_of
  memory_of-IsStore = record {
    IsLive = λ s. Unit {0};
    content = λ s. s;
    len_value = λ s l. refl;
    len_live = λ s l. tt;
    len_keeps = λ s l. refl;
    read_value = λ s off n l h. memory_read s off n h;
    read_live = λ s off n l. tt;
    read_keeps = λ s off n l. memory_read_keeps s off n;
    write_value = λ s off b l h. ap (λ r. r.0) (memory_write s off b h);
    write_live = λ s off b l h. tt;
    write_content = λ s off b l h. ap (λ r. r.1) (memory_write s off b h);
    flush_value = λ s l. refl;
    flush_live = λ s l. tt;
    flush_keeps = λ s l. refl;
  }

  abbrev pub memory_of-RefusesPastEnd : RefusesPastEnd memory_of memory_of-IsStore
  memory_of-RefusesPastEnd = record { write_refused = λ s off b l h. memory_refuses s off b h }

abbrev pub memory : BlockDevice
memory = memory_of (io unexpected_eof) (io (other 28))

abbrev pub memory-IsStore : IsStore memory
memory-IsStore = memory_of-IsStore (io unexpected_eof) (io (other 28))

abbrev pub memory-RefusesPastEnd : RefusesPastEnd memory memory-IsStore
memory-RefusesPastEnd = memory_of-RefusesPastEnd (io unexpected_eof) (io (other 28))

-- The same as a disk of the exFAT code.
abbrev pub ram : Disk
ram = memory_of unexpected_eof (other 28)

abbrev pub ram-IsStore : IsStore ram
ram-IsStore = memory_of-IsStore unexpected_eof (other 28)

abbrev pub add_each : ℕ → List ℕ → List ℕ
add_each k [] = []
add_each k (b ∷ bs) = (b + k) ∷ add_each k bs

abbrev pub subtract_each : ℕ → List ℕ → List ℕ
subtract_each k [] = []
subtract_each k (b ∷ bs) = (b - k) ∷ subtract_each k bs

subtract_each-add_each : (k : ℕ) (bs : List ℕ) → subtract_each k (add_each k bs) ≡ bs
subtract_each-add_each k [] = refl
subtract_each-add_each k (b ∷ bs) = ap₂ ◌∷◌ (omega arith) (subtract_each-add_each k bs)

length-add_each : (k : ℕ) (bs : List ℕ) → length (add_each k bs) ≡ length bs
length-add_each k [] = refl
length-add_each k (b ∷ bs) = ap suc (length-add_each k bs)

length-subtract_each : (k : ℕ) (bs : List ℕ) → length (subtract_each k bs) ≡ length bs
length-subtract_each k [] = refl
length-subtract_each k (b ∷ bs) = ap suc (length-subtract_each k bs)

subtract_each-append :
    (k : ℕ) (cs bs : List ℕ) → subtract_each k (cs ++ bs) ≡ subtract_each k cs ++ subtract_each k bs
subtract_each-append k [] bs = refl
subtract_each-append k (a ∷ cs) bs = ap (◌∷◌ (a - k)) (subtract_each-append k cs bs)

-- Each byte is shifted by the length of the primary key.
abbrev pub shift_mode : XtsMode
shift_mode = record {
  encrypt_area = λ c k t b size first. add_each (length k) b;
  decrypt_area = λ c k t b size first. subtract_each (length k) b;
}

pub shift_mode-IsXts : IsXts shift_mode
shift_mode-IsXts = record {
  decrypt-encrypt = λ c k t b size first. subtract_each-add_each (length k) b;
  length-encrypt = λ c k t b size first. length-add_each (length k) b;
  length-decrypt = λ c k t b size first. length-subtract_each (length k) b;
  decrypt-append = λ c k t a b size first m big h. subtract_each-append (length k) a b;
}

-- Each byte is exchanged with its neighbour, whatever the keys.
abbrev swap : ℕ → ℕ
swap b = if b % 2 == 0 then b + 1 else b - 1

abbrev pub swap_each : List ℕ → List ℕ
swap_each [] = []
swap_each (b ∷ bs) = swap b ∷ swap_each bs

swap_each-swap_each : (bs : List ℕ) → swap_each (swap_each bs) ≡ bs
swap_each-swap_each [] = refl
swap_each-swap_each (b ∷ bs) = ap₂ ◌∷◌ (ground arith) (swap_each-swap_each bs)

length-swap_each : (bs : List ℕ) → length (swap_each bs) ≡ length bs
length-swap_each [] = refl
length-swap_each (b ∷ bs) = ap suc (length-swap_each bs)

swap_each-append : (cs bs : List ℕ) → swap_each (cs ++ bs) ≡ swap_each cs ++ swap_each bs
swap_each-append [] bs = refl
swap_each-append (a ∷ cs) bs = ap (◌∷◌ (swap a)) (swap_each-append cs bs)

abbrev pub swap_mode : XtsMode
swap_mode = record {
  encrypt_area = λ c k t b size first. swap_each b;
  decrypt_area = λ c k t b size first. swap_each b;
}

pub swap_mode-IsXts : IsXts swap_mode
swap_mode-IsXts = record {
  decrypt-encrypt = λ c k t b size first. swap_each-swap_each b;
  length-encrypt = λ c k t b size first. length-swap_each b;
  length-decrypt = λ c k t b size first. length-swap_each b;
  decrypt-append = λ c k t a b size first m big h. swap_each-append a b;
}

pub swap_mode-IsPermutation : IsPermutation swap_mode
swap_mode-IsPermutation = record { encrypt-decrypt = λ c k t b size first. swap_each-swap_each b }

take-replicate : (short len x : ℕ) → short ≤ len → take short (replicate len x) ≡ replicate short x
take-replicate zero len x h = refl
take-replicate (suc short) zero x h = absurd (omega arith)
take-replicate (suc short) (suc len) x h = ap (◌∷◌ x) (take-replicate short len x (omega arith))

-- A key is one byte, made of the lengths of its inputs and the number of rounds, as often as asked.
abbrev pub repeat_kdf : Pbkdf2
repeat_kdf = record {
  hmac = λ d pass salt n len. replicate len ((length pass + length salt + n) % 256);
  simple_hmac = λ d pass salt n len. some (replicate len ((length pass + length salt + n) % 256));
}

pub repeat_kdf-IsPbkdf2 : IsPbkdf2 repeat_kdf
repeat_kdf-IsPbkdf2 = record {
  length-hmac = λ d pass salt n len. length-replicate len _;
  hmac-take = λ d pass salt n short len h. take-replicate short len _ h;
  simple_hmac_total = λ d pass salt n len. refl;
}

abbrev pub sum_crc : List ℕ → ℕ
sum_crc [] = 0
sum_crc (b ∷ bs) = (b + sum_crc bs) % 2 ^ 32

pub sum_crc-IsWord : (bs : List ℕ) → sum_crc bs < 2 ^ 32
sum_crc-IsWord [] = omega arith
sum_crc-IsWord (b ∷ bs) = omega arith

abbrev pub primitives : Primitives
primitives = record { crc32 = sum_crc; mode = shift_mode; kdf = repeat_kdf }

-- The n-th draw gives bytes of value n.
abbrev pub counting : Rng
counting = record { State = ℕ; getrandom = λ n t. (some (replicate n t), t + 1) }

abbrev pub counting-IsRandom : IsRandom counting
counting-IsRandom = record {
  bytes = λ n t. replicate n t;
  rest = λ n t. t + 1;
  drawn = λ n t. refl;
  length-bytes = λ n t. length-replicate n t;
}
