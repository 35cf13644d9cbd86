-- ===== src/Sample/Volumes.antt =====
-- Tests of the exFAT volume and of the protected stack on disks in memory.
use vault_pony_core.Prelude.{
  ℕ, ◌<◌, ◌≤◌, ◌≡◌, ◌↔◌, refl, ap, true, false, none, some, List, [], ◌∷◌, ◌++◌, length, replicate,
  length-replicate, arith,
}
use vault_pony_core.Prelude.Slices.{slice}
use vault_pony_core.Prelude.Bytes.{le32_bytes}
use vault_pony_core.Prelude.Results.{ok, fail, ◌>>◌}
use vault_pony_core.Types.Header.{VolumeGeometry}
use vault_pony_core.Types.Registry.{aes}
use vault_pony_core.Crypto.Xts.{SchemeXts}
use vault_pony_core.Device.Runs.{Runs, Stored}
use vault_pony_core.Exfat.Sector.{Geometry}
use vault_pony_core.Exfat.Fs.{open_volume}
use vault_pony_core.Exfat.Fat.{read_chain, end_of_chain}
use vault_pony_core.Exfat.Fat.Chain.{Chain, read_chain-Chain}
use vault_pony_core.Exfat.Alloc.{link}
use vault_pony_core.Exfat.Alloc.Link.{read_chain-link}
use vault_pony_core.Exfat.Upcase.{map_unit, words_of, decompress, identity_run}
use vault_pony_core.Exfat.Upcase.Bound.{map_unit-decompress}
use vault_pony_core.Exfat.Dir.{parse_set, from_utf16_lossy}
use vault_pony_core.Exfat.Sets.{entry_set}
use vault_pony_core.Exfat.Sets.RoundTrip.{described, parse_set-entry_set}
use vault_pony_core.Exfat.Ranges.{pieces}
use vault_pony_core.Exfat.Ranges.Cover.{Covers, pieces-Covers}
use vault_pony_core.Exfat.Layout.{Layout, plan, layout_of, layout_with, choose_spc_shift}
use vault_pony_core.Exfat.Format.{format}
use vault_pony_core.Exfat.Format.Boot.{geometry_for}
use vault_pony_core.Exfat.Format.Opening.{bitmap_for, open_volume-format}
use vault_pony_core.VcFs.Formatted.{open_volume-format_exfat}
use vault_pony_core.VcFs.ExfatVfs.{format_exfat}
use vault_pony_core.VcFs.Io.{FatCrate}
use vault_pony_core.VcFs.{NtfsCrate, exfat_vfs}
use vault_pony_core.VcFs
use vault_pony_core.Types.Error.{unknown_filesystem, invalid_input}
use vault_pony_core.Format.Decrypted.{decrypted_device}
use vault_pony_core.Format.Decrypted
use vault_pony_core.Format.Protect.{Region, Protected, region, protected_device}
use vault_pony_core.Format.Protect.Safety.{Call, len, flush, read, write, run}
use vault_pony_core.Session.{protected_region}
use vault_pony_core.Session.Guarded.{hidden_bytes-run}
use vault_pony_core.Sample.{
  memory, memory-IsStore, ram, ram-IsStore, swap_mode, swap_mode-IsXts, swap_mode-IsPermutation,
}

-- A disk of 60 sectors, and the layout that it gets.
abbrev blank : List ℕ
blank = replicate 30_720 7

abbrev few_units : List ℕ
few_units = 0 ∷ 0 ∷ 1 ∷ 0 ∷ []

abbrev small_layout : Layout
small_layout = record {
  total_sectors = 60;
  spc_shift = 3;
  fat_start = 24;
  fat_length = 8;
  heap_offset = 32;
  cluster_count = 3;
  bitmap_bytes = 1;
  bm_clusters = 1;
  upcase_clusters = 1;
}

blank-size : length blank ≡ 30_720
blank-size = length-replicate {A = ℕ} 30_720 7

small_layout-plan : plan (length blank) (length few_units) ≡ ok small_layout
unfolding plan layout_of layout_with choose_spc_shift
small_layout-plan = ap (λ n. plan n 4) blank-size

read_words : decompress [] (words_of few_units) ≡ ok (0 ∷ 1 ∷ [])
unfolding words_of decompress
read_words = refl

open_volume-format_example :
    (ys : List ℕ) × (length ys ≡ length blank)
    × Runs
        (Stored ram ram-IsStore)
        (format ram few_units (length blank) 99 >> open_volume ram)
        blank
        (ok (record {
          geo = geometry_for small_layout;
          upcase = 0 ∷ 1 ∷ [];
          bitmap = some (bitmap_for small_layout);
        }))
        ys
open_volume-format_example =
    open_volume-format ram ram-IsStore small_layout few_units blank 99 (0 ∷ 1 ∷ [])
      (omega (arith, blank-size)) small_layout-plan (omega arith) read_words

-- File system crates of which each call fails.
abbrev no_fat : FatCrate
no_fat = record {
  Handle = Unit {0};
  mount = λ d. fail invalid_input;
  format_volume = λ d. fail invalid_input;
}

abbrev no_ntfs : NtfsCrate
no_ntfs = record { Handle = Unit {0}; open_ntfs = λ d. fail unknown_filesystem }

open_volume-format_exfat_example :
    (ys : List ℕ) × (length ys ≡ length blank)
    × Runs
        (Stored memory memory-IsStore)
        (format_exfat memory few_units 99 >> VcFs.open_volume no_fat no_ntfs memory)
        blank
        (ok (
          exfat_vfs (record {
            geo = geometry_for small_layout;
            upcase = 0 ∷ 1 ∷ [];
            bitmap = some (bitmap_for small_layout);
          })))
        ys
open_volume-format_exfat_example =
    open_volume-format_exfat no_fat no_ntfs memory memory-IsStore few_units blank 99 small_layout
      (0 ∷ 1 ∷ []) (omega (arith, blank-size)) small_layout-plan (omega arith) read_words

-- "Hi"
abbrev short_name : List ℕ
short_name = 72 ∷ 105 ∷ []

short_name-text : from_utf16_lossy short_name ≡ short_name
unfolding from_utf16_lossy
short_name-text = refl

parse_set-entry_set_example :
    parse_set (entry_set [] short_name true 5 4096 1) ≡ ok (described short_name true 5 4096 1)
parse_set-entry_set_example =
    parse_set-entry_set [] short_name true 5 4096 1 (omega arith) (omega arith, (omega arith, tt))
      short_name-text (omega arith) (omega arith)

-- Sectors 500 to 1,100 in clusters of 512 bytes.
pieces-Covers_example : Covers 512 500 600 (pieces 512 1000 500 600)
pieces-Covers_example = pieces-Covers 512 1000 500 600 (omega arith) (omega arith) (omega arith)

few_words : decompress [] (65 ∷ 0xFFFF ∷ 2 ∷ []) ≡ ok (65 ∷ 1 ∷ 2 ∷ [])
unfolding decompress identity_run
few_words = refl

map_unit-decompress_example : (3 ≤ 65_537) × (map_unit (65 ∷ 1 ∷ 2 ∷ []) 0 < 65_536)
map_unit-decompress_example =
    map_unit-decompress (65 ∷ 0xFFFF ∷ 2 ∷ []) (65 ∷ 1 ∷ 2 ∷ []) 0
      (omega arith, (omega arith, (omega arith, tt))) few_words (omega arith)

-- Three clusters, whose table starts the disk.
abbrev tiny : Geometry
tiny = record {
  bytes_per_sector = 512;
  sectors_per_cluster = 1;
  fat_offset_sectors = 0;
  fat_length_sectors = 1;
  cluster_heap_offset_sectors = 1;
  cluster_count = 3;
  root_first_cluster = 2;
}

abbrev linked : List ℕ
linked = replicate 8 0 ++ le32_bytes 4 ++ le32_bytes 0 ++ le32_bytes end_of_chain

read_chain-Chain_example :
    ((read_chain ram tiny 2 none linked).0 ≡ ok (2 ∷ 4 ∷ []))
    ↔ (Chain tiny linked 2 (2 ∷ 4 ∷ []) × (2 ≤ 3))
read_chain-Chain_example =
    read_chain-Chain ram ram-IsStore tiny linked
      (record { fits = omega arith; small = omega arith; clusters = omega arith }) 2 (2 ∷ 4 ∷ [])
      linked (tt, refl)

read_chain-link_example :
    (ys : List ℕ) × (length ys ≡ 20)
    × Runs
        (Stored ram ram-IsStore)
        (link ram tiny (2 ∷ 4 ∷ []) >> read_chain ram tiny 2 none)
        (replicate 20 0)
        (ok (2 ∷ 4 ∷ []))
        ys
read_chain-link_example =
    read_chain-link ram ram-IsStore tiny 2 (4 ∷ []) (replicate 20 0)
      (record { fits = omega arith; small = omega arith; clusters = omega arith })
      (refl, (refl, tt)) ((omega arith, tt), (tt, tt)) (omega arith)

-- An outer data area of two units, the second of which is the hidden one.
abbrev area_of : (start size : ℕ) → VolumeGeometry
area_of start size = record {
  volume_size = size;
  encrypted_area_start = start;
  encrypted_area_size = size;
  sector_size = 512;
  hidden_volume_size = 0;
}

abbrev engine : SchemeXts
engine = record {
  layers = record { cipher = aes; primary = replicate 32 1; secondary = replicate 32 2 } ∷ [];
}

abbrev second_unit : Region
second_unit = record { protected_start = 512; protected_end = 1024 }

second_unit-region : protected_region (area_of 512 1024) (area_of 1024 512) ≡ ok second_unit
unfolding protected_region region
second_unit-region = refl

abbrev container : List ℕ
container = replicate 2048 200

abbrev opened : Protected (List ℕ)
opened = record { inner = container; read_only = false }

abbrev calls : List Call
calls =
    write 10 (1 ∷ 2 ∷ [])
    ∷ read 500 100
    ∷ write 511 (3 ∷ 4 ∷ [])
    ∷ write 0 (5 ∷ [])
    ∷ flush
    ∷ len
    ∷ []

hidden_bytes-run_example :
    slice 1024 512
      (run
        (protected_device
          (decrypted_device swap_mode memory (Decrypted.new engine (area_of 512 1024)))
          second_unit)
        calls
        opened).inner
    ≡ slice 1024 512 container
unfolding Decrypted.new
hidden_bytes-run_example =
    hidden_bytes-run swap_mode swap_mode-IsXts swap_mode-IsPermutation memory memory-IsStore engine
      (area_of 512 1024) (area_of 1024 512) second_unit calls opened second_unit-region refl refl
      (omega arith)
      (record {
        live = tt;
        small = omega (arith, length-replicate {A = ℕ} 2048 200);
        whole = omega (arith, length-replicate {A = ℕ} 2048 200);
        inside = omega (arith, length-replicate {A = ℕ} 2048 200);
      })
