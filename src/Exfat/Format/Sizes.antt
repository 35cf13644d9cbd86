-- ===== src/Exfat/Format/Sizes.antt =====
-- How long the structures are that core/norse-exfat/src/format.rs writes.
use vault_pony_core.Prelude.{
  ℕ, zero, suc, ◌+◌, ◌-◌, ◌*◌, ◌/◌, ◌%◌, ◌^◌, ◌≤◌, ◌≡◌, refl, ◌∙◌, true, List, ◌==◌, if◌then◌else◌,
  get_or, set, take, length, length-set, length-append, length-replicate, replicate, arith,
}
use vault_pony_core.Prelude.Slices.{length-splice}
use vault_pony_core.Prelude.Bytes.{le32_bytes}
use vault_pony_core.Exfat.Alloc.{put_bit}
use vault_pony_core.Exfat.Sets.{unit_bytes}
use vault_pony_core.Exfat.Layout.{Layout, bps, bytes_per_cluster, root_first, upcase_first}
use vault_pony_core.Exfat.Format.{
  set_word, chain_words, fat_bytes, set_bits, bitmap_image, root_image, boot_sector, boot_body,
  copies, checksum_sector, build_boot_region,
}

pub length-chain_words :
    (fat : List ℕ) (first n : ℕ)
    → (first + n) * 4 ≤ length fat
    → length (chain_words fat first n) ≡ length fat
unfolding chain_words
length-chain_words fat first zero h = refl
length-chain_words fat first (suc n) h =
    let kept =
      length-splice (first * 4) (le32_bytes (if n == 0 then 0xFFFF_FFFF else (first + 1) % 2 ^ 32))
        fat (omega arith) in
    length-chain_words (set_word fat first (if n == 0 then 0xFFFF_FFFF else (first + 1) % 2 ^ 32))
      (first + 1) n (omega (arith, kept))
    ∙ kept

pub length-fat_bytes :
    (l : Layout)
    → (root_first l + 1) * 4 ≤ l.fat_length * bps
    → length (fat_bytes l) ≡ l.fat_length * bps
unfolding fat_bytes
length-fat_bytes l h =
    let zeros = replicate (l.fat_length * bps) 0 in
    let size = length-replicate {A = ℕ} (l.fat_length * bps) 0 in
    let media = set_word zeros 0 0xFFFF_FFF8 in
    let e1 = length-splice 0 (le32_bytes 0xFFFF_FFF8) zeros (omega (arith, size)) in
    let e2 = length-splice 4 (le32_bytes 0xFFFF_FFFF) media (omega (arith, size, e1)) in
    let blank = set_word media 1 0xFFFF_FFFF in
    let e3 = length-chain_words blank 2 l.bm_clusters (omega (arith, size, e1, e2)) in
    let e4 =
      length-chain_words (chain_words blank 2 l.bm_clusters) (upcase_first l) l.upcase_clusters
        (omega (arith, size, e1, e2, e3)) in
    length-chain_words _ (root_first l) 1 (omega (arith, size, e1, e2, e3, e4))
    ∙ omega (arith, size, e1, e2, e3, e4)

length-set_bits : (bm : List ℕ) (bit n : ℕ) → length (set_bits bm bit n) ≡ length bm
unfolding set_bits
length-set_bits bm bit zero = refl
length-set_bits bm bit (suc n) =
    length-set_bits (set bm (bit / 8) (put_bit (get_or bm (bit / 8) 0) (bit % 8) true)) (bit + 1) n
    ∙ length-set bm (bit / 8) (put_bit (get_or bm (bit / 8) 0) (bit % 8) true)

pub length-bitmap_image :
    (l : Layout) → length (bitmap_image l) ≡ l.bm_clusters * bytes_per_cluster l
unfolding bitmap_image
length-bitmap_image l =
    length-set_bits (replicate (l.bm_clusters * bytes_per_cluster l) 0) 0 (root_first l - 1)
    ∙ length-replicate {A = ℕ} (l.bm_clusters * bytes_per_cluster l) 0

pub length-root_image :
    (l : Layout) (upcase_table : List ℕ)
    → 512 ≤ bytes_per_cluster l
    → length (root_image l upcase_table) ≡ bytes_per_cluster l
unfolding root_image unit_bytes
length-root_image l upcase_table h =
    omega (arith, length-replicate {A = ℕ} (bytes_per_cluster l - 96) 0)

pub length-boot_sector :
    (l : Layout) (volume_serial percent_in_use : ℕ)
    → length (boot_sector l volume_serial percent_in_use) ≡ 512
unfolding boot_sector
length-boot_sector l volume_serial percent_in_use = refl

pub length-boot_body :
    (l : Layout) (volume_serial percent_in_use : ℕ)
    → length (boot_body l volume_serial percent_in_use) ≡ 5632
unfolding boot_body boot_sector
length-boot_body l volume_serial percent_in_use = refl

pub take-boot_body :
    (l : Layout) (volume_serial percent_in_use : ℕ)
    → take 512 (boot_body l volume_serial percent_in_use)
      ≡ boot_sector l volume_serial percent_in_use
unfolding boot_body boot_sector
take-boot_body l volume_serial percent_in_use = refl

pub length-checksum_sector : (body : List ℕ) → length (checksum_sector body) ≡ 512
unfolding checksum_sector copies
length-checksum_sector body = refl

pub length-build_boot_region :
    (l : Layout) (volume_serial percent_in_use : ℕ)
    → length (build_boot_region l volume_serial percent_in_use) ≡ 6144
unfolding build_boot_region
length-build_boot_region l volume_serial percent_in_use =
    let body = boot_body l volume_serial percent_in_use in
    omega (
      arith,
      length-append body (checksum_sector body),
      length-boot_body l volume_serial percent_in_use,
      length-checksum_sector body,
    )
