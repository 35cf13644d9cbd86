-- ===== src/Sample/Devices.antt =====
-- Tests of the decrypted device and of the protected device on a container in memory.
use vault_pony_core.Prelude.{
  ℕ, ◌≡◌, refl, ◌⊎◌, true, false, List, [], ◌∷◌, replicate, length-replicate, arith,
}
use vault_pony_core.Prelude.Slices.{slice, splice}
use vault_pony_core.Types.Error.{ok, err, io, unexpected_eof, hidden_volume_protected}
use vault_pony_core.Types.Registry.{aes, serpent}
use vault_pony_core.Crypto.Xts.{SchemeXts, decrypt_units, encrypt_units}
use vault_pony_core.Crypto.Xts.RoundTrip.{decrypt_units-encrypt_units}
use vault_pony_core.Format.Decrypted.{DecryptedDevice, read_at, write_at}
use vault_pony_core.Format.Decrypted.Read.{IsLive, view, read_at-view}
use vault_pony_core.Format.Decrypted.Write.{view-write_at, refused_past_end}
use vault_pony_core.Format.Protect.{Region, Protected, protected_device, pass}
use vault_pony_core.Format.Protect
use vault_pony_core.Format.Protect.Latch.{Hits, write_at_lem}
use vault_pony_core.Format.Protect.Safety.{Call, len, flush, read, write, run, guarded, run-guarded}
use vault_pony_core.Sample.{
  memory, memory-IsStore, memory-RefusesPastEnd, shift_mode, shift_mode-IsXts,
}

-- A cascade of two layers.
abbrev engine : SchemeXts
engine = record {
  layers =
      record { cipher = aes; primary = replicate 32 1; secondary = replicate 32 2 }
      ∷ record { cipher = serpent; primary = replicate 32 3; secondary = replicate 32 4 }
      ∷ [];
}

abbrev volume : DecryptedDevice
volume = record { xts = engine; data_start = 512; data_size = 1024 }

abbrev container : List ℕ
container = replicate 2048 200

container-IsLive : IsLive shift_mode shift_mode-IsXts memory memory-IsStore volume container
container-IsLive = record {
  live = tt;
  small = omega (arith, length-replicate {A = ℕ} 2048 200);
  whole = omega (arith, length-replicate {A = ℕ} 2048 200);
  inside = omega (arith, length-replicate {A = ℕ} 2048 200);
}

decrypt_units-encrypt_units_example :
    decrypt_units shift_mode engine (encrypt_units shift_mode engine (replicate 512 7) 3) 3
    ≡ replicate 512 7
decrypt_units-encrypt_units_example =
    decrypt_units-encrypt_units shift_mode shift_mode-IsXts engine (replicate 512 7) 3

-- Across the edge of two units.
read_at-view_example :
    (read_at shift_mode memory volume 500 20 container).0
    ≡ ok (slice 500 20 (view shift_mode shift_mode-IsXts memory memory-IsStore volume container))
read_at-view_example =
    read_at-view shift_mode shift_mode-IsXts memory memory-IsStore volume container 500 20
      container-IsLive (omega arith)

view-write_at_example :
    ((write_at shift_mode memory volume 510 (1 ∷ 2 ∷ 3 ∷ 4 ∷ []) container).0 ≡ ok tt)
    × (view shift_mode shift_mode-IsXts memory memory-IsStore volume
          (write_at shift_mode memory volume 510 (1 ∷ 2 ∷ 3 ∷ 4 ∷ []) container).1
        ≡ splice 510
            (1 ∷ 2 ∷ 3 ∷ 4 ∷ [])
            (view shift_mode shift_mode-IsXts memory memory-IsStore volume container))
view-write_at_example =
    view-write_at shift_mode shift_mode-IsXts memory memory-IsStore volume container 510
      (1 ∷ 2 ∷ 3 ∷ 4 ∷ []) container-IsLive (omega arith)

refused_past_end_example :
    (read_at shift_mode memory volume 1023 2 container ≡ (err (io unexpected_eof), container))
    × (write_at shift_mode memory volume 1023 (1 ∷ 2 ∷ []) container
        ≡ (err (io unexpected_eof), container))
refused_past_end_example =
    refused_past_end shift_mode shift_mode-IsXts memory memory-IsStore volume container 1023 2
      (1 ∷ 2 ∷ []) (omega arith) refl

abbrev hidden_part : Region
hidden_part = record { protected_start = 1000; protected_end = 1500 }

abbrev opened : Protected (List ℕ)
opened = record { inner = container; read_only = false }

abbrev calls : List Call
calls =
    write 990 (1 ∷ 2 ∷ [])
    ∷ read 1000 10
    ∷ write 999 (3 ∷ 4 ∷ [])
    ∷ write 0 (5 ∷ [])
    ∷ flush
    ∷ len
    ∷ []

write_at_lem_example :
    ((opened.read_only ≡ true)
      × (Protect.write_at memory hidden_part 998 (1 ∷ 2 ∷ 3 ∷ []) opened
          ≡ (err hidden_volume_protected, opened)))
    ⊎ ((opened.read_only ≡ false)
        × Hits hidden_part 998 3
        × (Protect.write_at memory hidden_part 998 (1 ∷ 2 ∷ 3 ∷ []) opened
            ≡ (err hidden_volume_protected, record opened { read_only = true })))
    ⊎ ((opened.read_only ≡ false)
        × (¬ Hits hidden_part 998 3)
        × (Protect.write_at memory hidden_part 998 (1 ∷ 2 ∷ 3 ∷ []) opened
            ≡ pass (memory.write_at 998 (1 ∷ 2 ∷ 3 ∷ [])) opened))
write_at_lem_example =
    write_at_lem memory hidden_part opened 998 (1 ∷ 2 ∷ 3 ∷ []) (omega arith) (omega arith)
      (omega arith)

run-guarded_example :
    guarded memory memory-IsStore memory-RefusesPastEnd hidden_part
      (omega arith)
      (run (protected_device memory hidden_part) calls opened).inner
    ≡ guarded memory memory-IsStore memory-RefusesPastEnd hidden_part (omega arith) container
run-guarded_example =
    run-guarded memory memory-IsStore memory-RefusesPastEnd hidden_part (omega arith) calls opened
      tt (omega (arith, length-replicate {A = ℕ} 2048 200))
