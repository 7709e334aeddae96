-- ===== src/MemList/Bounds.antt =====
-- The address arithmetic of pkg/libc_backends/lib/l4re_mem/mem_list.cc: rounding, alignment, and where
-- `split` puts the rest of a block.
use kpr.Base.{
  ◌⊎◌, inl, inr, Bool-cases, leb, ℕ, ◌+◌, ◌-◌, ◌*◌, ◌%◌, ◌^◌, ◌<◌, ◌≤◌, ◌≡◌, ◌==◌, arith, sub32,
  if◌then◌else◌,
}
use kpr.MemList.State.{Ptr, header}
use kpr.MemList.Ops.{align}
use kpr.MemList.Alloc.{round_size}
use kpr.MemList.Steps.{rest_at}

round_size_bounds :
    (n : ℕ)
    → n ≤ 2 ^ 32 - 4
    → (n ≤ round_size n) × (round_size n % 4 ≡ 0) × (round_size n ≤ n + 4) × (4 ≤ round_size n)
unfolding round_size
round_size_bounds n h = ground arith

round_size_wraps : (n : ℕ) → 2 ^ 32 - 4 < n → n < 2 ^ 32 → round_size n ≡ 0
unfolding round_size
round_size_wraps n h k = ground arith

-- A 32-bit size up to 2 ^ 32 - 4 is rounded up to a multiple of four, by four at most, and to at least
-- four, and each above that is rounded to 0.
round_size_lem :
    (n : ℕ)
    → n < 2 ^ 32
    → ((n ≤ 2 ^ 32 - 4)
        × (n ≤ round_size n)
        × (round_size n % 4 ≡ 0)
        × (round_size n ≤ n + 4)
        × (4 ≤ round_size n))
      ⊎ (2 ^ 32 - 4 < n × (round_size n ≡ 0))
round_size_lem n h = elim (Bool-cases (leb n (2 ^ 32 - 4))) [
  | inl low ↦
      let small : n ≤ 2 ^ 32 - 4 = ground arith in
      let b = round_size_bounds n small in inl (small, b.0, b.1, b.2, b.3)
  | inr high ↦ let large : 2 ^ 32 - 4 < n = ground arith in inr (large, round_size_wraps n large h)
]

-- Below the end of the address space, a header moves up by less than eight bytes, and the address
-- behind it is then a multiple of eight.
pub align_bounds :
    (e : Ptr)
    → e + 2 * header < 2 ^ 32
    → ((align e + header) % 8 ≡ 0) × (e ≤ align e) × (align e < e + 8)
unfolding align
align_bounds e h = ground arith

-- Where the header of the rest stands behind an aligned block.
pub rest_at_lem :
    (r : Ptr) (size : ℕ)
    → (r + header) % 8 ≡ 0
    → size % 4 ≡ 0
    → r + size + 40 < 2 ^ 32
    → rest_at r size ≡ r + header + size + (if size % 8 == 0 then 4 else 0)
unfolding align
rest_at_lem r size a m small = ground arith

-- For an aligned block that is large enough, below the end of the address space, and a size that is a
-- multiple of four, the rest that `split` makes ends where the block ended if the size is not a
-- multiple of eight, and four bytes behind that if it is.
split_end :
    (r : Ptr) (size old : ℕ)
    → (r + header) % 8 ≡ 0
    → size % 4 ≡ 0
    → size + header ≤ old
    → r + old + 40 < 2 ^ 32
    → rest_at r size + header + sub32 (sub32 old size) header
      ≡ r + header + old + (if size % 8 == 0 then 4 else 0)
split_end r size old a m fits small = ground (arith, rest_at_lem r size a m)
