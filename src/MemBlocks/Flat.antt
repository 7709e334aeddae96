-- ===== src/MemBlocks/Flat.antt =====
-- The search of pkg/libc_backends/lib/l4re_mem/mem_vFail.cc over its blocks is the one of
-- pkg/libc_backends/lib/l4re_mem/mem_bitmap.cc over the bits of all blocks in a row.
use kpr.Base.{
  subst, ℕ, zero, suc, ◌+◌, ◌-◌, ◌*◌, ◌<◌, ◌≡◌, refl, ap, ◌∙◌, Bool, true, Option, none, some, List,
  [], ◌∷◌, length, ltb, if◌then◌else◌, Bool-cases, inl, inr, arith,
}
use kpr.MemBlocks.Blocks.{Block, is_zero}
use kpr.MemBlocks.Alloc.{Scan, hit, miss, Search, at, nowhere, scan_bits, scan}
use kpr.MemBitmap.Alloc.{search}
use kpr.MemBitmap.Search.{Found, search-first}

-- The bits of all blocks in a row.
unfoldable pub flat : List Block → ℕ → Bool
flat [] i = true
flat (b ∷ bs) i = let rest = flat bs (i - 8) in if ltb i 8 then b.bitmap i else rest

-- The bit that a search over blocks has stopped at.
abbrev pub bit_of : Search → Option (ℕ × ℕ)
bit_of (at place idx found) = some (8 * (place - 1) + idx, found)
bit_of (nowhere found) = none

module _ (required : ℕ) (bits : ℕ → Bool) where
  -- The search goes on behind a block, or has ended in it.
  abbrev go_on : (m base end : ℕ) → Scan → Option (ℕ × ℕ)
  go_on m base end (hit idx found) = some (base + idx, found)
  go_on m base end (miss found) = search m end found required bits

  search-scan_bits :
      (n idx m base found : ℕ) (b : Block)
      → ((j : ℕ) → j < n → bits (base + (idx + j)) ≡ b.bitmap (idx + j))
      → search (n + m) (base + idx) found required bits
        ≡ go_on m base (base + idx + n) (scan_bits n idx found required b)
  unfolding search scan_bits is_zero
  search-scan_bits zero idx m base found b same =
      let none_left : 0 + m ≡ m = omega arith in
      let here : base + idx + 0 ≡ base + idx = omega arith in rw (none_left, here)
  search-scan_bits (suc n) idx m base found b same =
      let one_more : suc n + m ≡ suc (n + m) = omega arith in
      let here : bits (base + idx) ≡ b.bitmap idx =
        ap bits (omega arith) ∙ same 0 (omega arith) ∙ ap b.bitmap (omega arith) in
      let moved : (j : ℕ) → suc idx + j ≡ idx + suc j = λ j. omega arith in
      let start : suc (base + idx) ≡ base + suc idx = omega arith in
      let end : base + idx + suc n ≡ base + suc idx + n = omega arith in
      let further : (f : ℕ)
          → search (n + m) (suc (base + idx)) f required bits
            ≡ go_on m base (base + idx + suc n) (scan_bits n (suc idx) f required b) =
        λ f.
          rw (start, end)
            (search-scan_bits n (suc idx) m base f b
              (λ j h. rw (moved j) (same (suc j) (omega arith)))) in
      rw (one_more, here)
        (elim (Bool-cases (b.bitmap idx)) [
          | inl set ↦ rw (set) (ground (arith, further 0))
          | inr clear ↦ rw (clear) (ground (arith, further (suc found)))
        ])

  search-scan :
      (bs : List Block) (p found : ℕ)
      → ((j : ℕ) → bits (8 * p + j) ≡ flat bs j)
      → search (8 * length bs) (8 * p) found required bits ≡ bit_of (scan (suc p) found required bs)
  unfolding search scan flat
  search-scan [] p found same = refl
  search-scan (b ∷ bs) p found same =
      let whole : 8 * length (b ∷ bs) ≡ 8 + 8 * length bs = omega arith in
      let first : 8 * p ≡ 8 * p + 0 = omega arith in
      ap (λ n. search n (8 * p) found required bits) whole
      ∙ ap (λ i. search (8 + 8 * length bs) i found required bits) first
      ∙ search-scan_bits 8 0 (8 * length bs) (8 * p) found b
          (λ j h. rw (first_bits j) (same j ∙ in_first j h))
      ∙ block_done (scan_bits 8 0 found required b)
          (λ f. search-scan bs (suc p) f (λ j. rw (second_bits j) (same (8 + j) ∙ in_second j)))
    where
      first_bits : (j : ℕ) → 8 * p + (0 + j) ≡ 8 * p + j
      first_bits j = omega arith

      second_bits : (j : ℕ) → 8 * suc p + j ≡ 8 * p + (8 + j)
      second_bits j = omega arith

      in_first : (j : ℕ) → j < 8 → flat (b ∷ bs) j ≡ b.bitmap (0 + j)
      in_first j h = let same_bit : 0 + j ≡ j = omega arith in rw same_bit (ground arith)

      in_second : (j : ℕ) → flat (b ∷ bs) (8 + j) ≡ flat bs j
      in_second j = let back : 8 + j - 8 ≡ j = omega arith in rw (back) (ground arith)

      block_done :
          (r : Scan)
          → ((f : ℕ)
              → search (8 * length bs) (8 * suc p) f required bits
                ≡ bit_of (scan (suc (suc p)) f required bs))
          → go_on (8 * length bs) (8 * p) (8 * p + 0 + 8) r
            ≡ bit_of (elim r [
              | hit idx found' ↦ at (suc p) idx found'
              | miss found' ↦ scan (suc (suc p)) found' required bs
            ])
      block_done (hit idx f) ih = ap (λ i. some (i, f)) (omega arith)
      block_done (miss f) ih =
          ap (λ i. search (8 * length bs) i f required bits) (omega arith) ∙ ih f

-- For a positive number of pages, the block allocator's search over its blocks answers the first run
-- of free bits that is as long in the bits of all blocks in a row, or that there is none.
pub scan-Found :
    (required : ℕ) (bs : List Block)
    → 0 < required
    → Found (flat bs) (8 * length bs) required (bit_of (scan 1 0 required bs))
scan-Found required bs some_page =
    subst (Found (flat bs) (8 * length bs) required)
      (search-scan required (flat bs) bs 0 0 (λ j. ap (flat bs) (omega arith)))
      (search-first (flat bs) required (8 * length bs) some_page)
