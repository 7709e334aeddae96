-- ===== src/MemBlocks/Clear.antt =====
-- The clearing loop of pkg/libc_backends/lib/l4re_mem/mem_vFail.cc ends.
use kpr.Base.{
  ℕ, zero, suc, ◌+◌, ◌-◌, ◌%◌, ◌<◌, ◌≡◌, refl, ap, ◌∙◌, false, some, Bool-cases, inl, inr, arith,
}
use kpr.MemBlocks.Blocks.{Block, is_zero, clear_bit, clear_bits}
use kpr.MemBlocks.Index.{inc_idx_lem}

-- The `n` bits before `idx`, round the end, are clear.
abbrev Cleared : (n idx : ℕ) → Block → Type 0
Cleared n idx b = (j : ℕ) → j < n → b.bitmap ((idx + 7 - j) % 8) ≡ false

Cleared-clear_bit :
    (n idx : ℕ) (b : Block)
    → idx < 8
    → n < 8
    → Cleared n idx b
    → Cleared (suc n) ((idx + 1) % 8) (clear_bit idx b)
unfolding clear_bit
Cleared-clear_bit n idx b small more c zero h =
    let same : ((idx + 1) % 8 + 7 - 0) % 8 ≡ idx = omega arith in rw same (ground arith)
Cleared-clear_bit n idx b small more c (suc j) h =
    let same : ((idx + 1) % 8 + 7 - suc j) % 8 ≡ (idx + 7 - j) % 8 = omega arith in
    rw same (ground (arith, c j))

clear_bits_end :
    (k n idx : ℕ) (b : Block)
    → n + k ≡ 8
    → idx < 8
    → Cleared n idx b
    → (b' : Block) × (clear_bits (suc k) idx b ≡ some b')
unfolding clear_bits is_zero
clear_bits_end zero n idx b e small c =
    let clear : b.bitmap idx ≡ false = ap b.bitmap (omega arith) ∙ c 7 (omega arith) in
    (b, ground (arith, clear))
clear_bits_end (suc k) n idx b e small c = elim (Bool-cases (b.bitmap idx)) [
  | inl set ↦
      let (b', ran) =
        clear_bits_end k (suc n) ((idx + 1) % 8) (clear_bit idx b) (omega arith) (omega arith)
          (Cleared-clear_bit n idx b small (omega arith) c) in
      (b', rw (set, inc_idx_lem idx 1 small) ran)
  | inr clear ↦ (b, ground (arith, clear))
]

pub clear_bits-some :
    (idx : ℕ) (b : Block) → idx < 8 → (b' : Block) × (clear_bits 9 idx b ≡ some b')
clear_bits-some idx b small = clear_bits_end 8 0 idx b refl small (λ j h. absurd (omega arith))
