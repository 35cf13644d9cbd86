-- ===== src/Exfat/Format/Table.antt =====
-- The words of the table of clusters that core/norse-exfat/src/format.rs builds.
use vault_pony_core.Prelude.{
  ℕ, zero, suc, ◌+◌, ◌*◌, ◌%◌, ◌^◌, ◌≤◌, ◌<◌, ◌≡◌, refl, ap, subst, ◌∙◌, ◌⊎◌, inl, inr, List, ◌==◌,
  if◌then◌else◌, length, length-replicate, replicate, arith,
}
use native.Mathlib.Decide.{dec_le}
use vault_pony_core.Prelude.Slices.{slice, slice-splice_self, slice-splice_apart, length-splice}
use vault_pony_core.Prelude.Bytes.{le32_bytes, le32_at, from_be32_bytes}
use vault_pony_core.Exfat.Layout.{Layout, bps, upcase_first, root_first}
use vault_pony_core.Exfat.Format.{set_word, fat_eof, chain_words, fat_bytes}
use vault_pony_core.Exfat.Format.Sizes.{length-chain_words}

-- The word of a cluster.
abbrev pub word_of : List ℕ → ℕ → ℕ
word_of fat c = le32_at (slice (c * 4) 4 fat) 0

word_of-set_word :
    (fat : List ℕ) (c v : ℕ)
    → c * 4 + 4 ≤ length fat
    → v < 2 ^ 32
    → word_of (set_word fat c v) c ≡ v
word_of-set_word fat c v h b =
    ap (λ b. le32_at b 0) (slice-splice_self (c * 4) 4 (le32_bytes v) fat h refl)
    ∙ from_be32_bytes v b

word_of-set_word_other :
    (fat : List ℕ) (k c v : ℕ)
    → c * 4 + 4 ≤ length fat
    → (k < c) ⊎ (c < k)
    → word_of (set_word fat c v) k ≡ word_of fat k
word_of-set_word_other fat k c v h apart =
    ap (λ b. le32_at b 0)
      (slice-splice_apart (k * 4) 4 (c * 4) (le32_bytes v) fat h
        (elim apart [ inl a ↦ inr (omega arith) | inr a ↦ inl (omega arith) ]))

-- The word that a link gets.
abbrev link_word : ℕ → ℕ → ℕ
link_word first n = if n == 0 then fat_eof else (first + 1) % 2 ^ 32

link_word_small : (first n : ℕ) → link_word first n < 2 ^ 32
link_word_small first n = ground arith

-- A chain leaves the words before it alone.
chain_words_before :
    (fat : List ℕ) (first n k : ℕ)
    → (first + n) * 4 ≤ length fat
    → k < first
    → word_of (chain_words fat first n) k ≡ word_of fat k
unfolding chain_words
chain_words_before fat first zero k h b = refl
chain_words_before fat first (suc n) k h b =
    let size = length-splice (first * 4) (le32_bytes (link_word first n)) fat (omega arith) in
    chain_words_before (set_word fat first (link_word first n)) (first + 1) n k
      (omega (arith, size)) (omega arith)
    ∙ word_of-set_word_other fat k first (link_word first n) (omega arith) (inl b)

-- Each word of a chain is the next cluster, and the last the mark of the end.
pub record Links (fat : List ℕ) (first n : ℕ) : Type 0 where
  pub inner : (k : ℕ) → first ≤ k → k + 1 < first + n → word_of fat k ≡ k + 1
  pub outer : (k : ℕ) → first ≤ k → k + 1 ≡ first + n → word_of fat k ≡ fat_eof

chain_words-Links :
    (fat : List ℕ) (first n : ℕ)
    → (first + n) * 4 ≤ length fat
    → first + n < 2 ^ 32
    → Links (chain_words fat first n) first n
unfolding chain_words
chain_words-Links fat first zero h b = record {
  inner = λ k lo hi. absurd (omega arith);
  outer = λ k lo hi. absurd (omega arith);
}
chain_words-Links fat first (suc n) h b =
    let v = link_word first n in
    let size = length-splice (first * 4) (le32_bytes v) fat (omega arith) in
    let rest =
      chain_words-Links (set_word fat first v) (first + 1) n (omega (arith, size)) (omega arith) in
    let here : word_of (chain_words (set_word fat first v) (first + 1) n) first ≡ v =
      chain_words_before (set_word fat first v) (first + 1) n first (omega (arith, size))
        (omega arith)
      ∙ word_of-set_word fat first v (omega arith) (link_word_small first n) in
    record {
      inner = λ k lo hi. elim (dec_le k first) [
        | yes at ↦
            let same : first ≡ k = omega arith in
            subst (λ j. word_of (chain_words (set_word fat first v) (first + 1) n) j ≡ j + 1) same
              (here ∙ ground arith)
        | no past ↦ rest.inner k (omega arith) (omega arith)
      ];
      outer = λ k lo hi. elim (dec_le k first) [
        | yes at ↦
            let same : first ≡ k = omega arith in
            subst (λ j. word_of (chain_words (set_word fat first v) (first + 1) n) j ≡ fat_eof) same
              (here ∙ ground arith)
        | no past ↦ rest.outer k (omega arith) (omega arith)
      ];
    }

-- The up-case table's clusters form a chain, and the root directory is one cluster.
pub record Linked (l : Layout) (fat : List ℕ) : Type 0 where
  pub upcase_links : Links fat (upcase_first l) l.upcase_clusters
  pub root_ends : word_of fat (root_first l) ≡ fat_eof

pub fat_bytes-Linked :
    (l : Layout)
    → (root_first l + 1) * 4 ≤ l.fat_length * bps
    → root_first l < 2 ^ 32
    → Linked l (fat_bytes l)
unfolding fat_bytes chain_words
fat_bytes-Linked l h b =
    let zeros : List ℕ = replicate (l.fat_length * bps) 0 in
    let size = length-replicate {A = ℕ} (l.fat_length * bps) 0 in
    let media : List ℕ = set_word zeros 0 0xFFFF_FFF8 in
    let e1 = length-splice 0 (le32_bytes 0xFFFF_FFF8) zeros (omega (arith, size)) in
    let e2 = length-splice 4 (le32_bytes 0xFFFF_FFFF) media (omega (arith, size, e1)) in
    let blank : List ℕ = set_word media 1 0xFFFF_FFFF in
    let e3 = length-chain_words blank 2 l.bm_clusters (omega (arith, size, e1, e2)) in
    let before : List ℕ = chain_words blank 2 l.bm_clusters in
    let e4 =
      length-chain_words before (upcase_first l) l.upcase_clusters
        (omega (arith, size, e1, e2, e3)) in
    let links =
      chain_words-Links before (upcase_first l) l.upcase_clusters (omega (arith, size, e1, e2, e3))
        (omega arith) in
    let with_upcase : List ℕ = chain_words before (upcase_first l) l.upcase_clusters in
    let room : root_first l * 4 + 4 ≤ length with_upcase = omega (arith, size, e1, e2, e3, e4) in
    record {
      upcase_links = record {
        inner = λ k lo hi.
            word_of-set_word_other with_upcase k (root_first l) fat_eof room (inl (omega arith))
            ∙ links.inner k lo hi;
        outer = λ k lo hi.
            word_of-set_word_other with_upcase k (root_first l) fat_eof room (inl (omega arith))
            ∙ links.outer k lo hi;
      };
      root_ends = word_of-set_word with_upcase (root_first l) fat_eof room (omega arith);
    }
