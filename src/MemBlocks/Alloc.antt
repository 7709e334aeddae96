-- ===== src/MemBlocks/Alloc.antt =====
-- `malloc` and `free` of pkg/libc_backends/lib/l4re_mem/mem_vFail.cc. The ring of blocks is the list of
-- the blocks behind `head`, in the order of `next`; blocks are only ever added at its end. A place in
-- the ring is a number, of which 0 is `head`. Addresses and sizes are 32 bits wide, and a `Dmem_elem`,
-- two pointers and a byte, has 12 bytes.
use kpr.Base.{
  ℕ, zero, suc, ◌+◌, ◌-◌, ◌*◌, ◌/◌, ◌%◌, Bool, false, not, ◌&&◌, ◌||◌, Option, none, some, List, [],
  ◌∷◌, ◌++◌, ltb, leb, ◌==◌, if◌then◌else◌, add32, length,
}
use kpr.Env.{Grant, granted}
use kpr.MemBlocks.Blocks.{Block, is_zero, set_bit, dec_idx, inc_idx, clear_bits}

abbrev pub block_size : ℕ
block_size = 32768

abbrev pub page_size : ℕ
page_size = 4096

abbrev pub elem_size : ℕ
elem_size = 12

-- `head` and the ring, the environment's answers to come, whether `detach` of an address takes away the
-- memory of the block at another, and the addresses that were given to `detach`, the last first.
pub record Heap : Type 0 where
  pub head : Block
  pub blocks : List Block
  pub grants : List Grant
  pub detaches : (runner addr : ℕ) → Bool
  pub detached : List ℕ

pub data Run (A : Type 0) : Type 0 where
  ok : A → Heap → Run A
  fault : Run A
  out_of_fuel : Run A

-- `(runner + 1) + (idx * PAGE_SIZE / 8)`, where the sum is in steps of a whole `Dmem_elem`.
abbrev pub address : (runner idx : ℕ) → ℕ
address runner idx = add32 runner (elem_size * (1 + idx * page_size / 8))

unfoldable pub round_size : ℕ → ℕ
round_size size =
    if leb size page_size then page_size else add32 size (page_size - size % page_size)

-- The search stops at an index, or comes to the end of a block; with `zeros` as it is then.
pub data Scan : Type 0 where
  hit : (idx found : ℕ) → Scan
  miss : (found : ℕ) → Scan

-- The loop over the bits of one block, with `n` bits to go. `found` is the source's `zeros`.
unfoldable pub scan_bits : (n idx found required : ℕ) → Block → Scan
scan_bits zero idx found required b = miss found
scan_bits (suc n) idx found required b =
    let found' = if is_zero idx b then suc found else 0 in
    let rest = scan_bits n (suc idx) found' required b in
    if leb required found' then hit idx found' else rest

-- The search over the blocks from a place on: the place that it stops at, with the index and `found`.
pub data Search : Type 0 where
  at : (place idx found : ℕ) → Search
  nowhere : (found : ℕ) → Search

unfoldable pub scan : (place found required : ℕ) → List Block → Search
scan place found required [] = nowhere found
scan place found required (b ∷ bs) = elim (scan_bits 8 0 found required b) [
  | hit idx found' ↦ at place idx found'
  | miss found' ↦ scan (suc place) found' required bs
]

-- "go backwards and set bits": `idx` and the block afterwards.
unfoldable pub set_back : (n idx : ℕ) → Block → ℕ × Block
set_back zero idx b = (idx, b)
set_back (suc n) idx b = let back = dec_idx idx 1 in set_back n back (set_bit back b)

-- The block at a place of the ring, and the ring with another block there.
unfoldable pub nth : ℕ → Block → List Block → Block
nth zero d bs = d
nth (suc n) d [] = d
nth (suc n) d (b ∷ bs) = nth n b bs

unfoldable pub put : ℕ → Block → List Block → List Block
put n b [] = []
put zero b (c ∷ bs) = b ∷ bs
put (suc n) b (c ∷ bs) = c ∷ put n b bs

abbrev pub block_at : ℕ → Heap → Block
block_at place h = nth place h.head h.blocks

abbrev pub with_block : ℕ → Block → Heap → Heap
with_block zero b h = record h { head = b }
with_block (suc place) b h = record h { blocks = put place b h.blocks }

-- A new block at the end of the ring: its place, or `none` for `NULL`.
unfoldable pub answer : List Grant → Heap → Option ℕ × Heap
answer [] h = (none, h)
answer (g ∷ gs) h = elim (granted g) [
  | none ↦ (none, record h { grants = gs })
  | some a ↦ (
    some (suc (length h.blocks)),
    record h { blocks = h.blocks ++ record { addr = a; bitmap = λ _. false } ∷ []; grants = gs },
  )
]

unfoldable pub extend_mem : Heap → Option ℕ × Heap
unfolding answer
extend_mem h = answer h.grants h

-- `do { runner = extend_mem(...); zeros += 8; } while (zeros < required_pages);`
unfoldable pub grow : (fuel found required : ℕ) → Heap → Run (Option ℕ)
grow zero found required h = out_of_fuel
grow (suc fuel) found required h =
    let (runner, h') = extend_mem h in
    let more = grow fuel (found + 8) required h' in
    if ltb (found + 8) required then more else ok runner h'

-- What `malloc` does to a block: `n` bits are set behind `idx`, and the address is the one of the
-- last index.
unfoldable pub take_pages : (n idx place : ℕ) → Heap → Run ℕ
unfolding set_back
take_pages n idx place h =
    let (idx', b) = set_back n idx (block_at place h) in
    ok (address b.addr idx') (with_block place b h)

-- What follows where the last `extend_mem` gave `NULL`: each access to the block is a fault. There is none
-- only if no page is to be marked, for a size that wrapped to 0, and the index stays in the block.
unfoldable pub take_null : (required idx : ℕ) → Heap → Run ℕ
take_null required idx h =
    if required == 2 && not (idx == 7) then ok (address 0 (inc_idx idx (required - 1))) h else fault

-- "not enough space -> extend memory"
unfoldable pub take_extension : (fuel found required : ℕ) → Heap → Run ℕ
take_extension fuel found required h =
    let idx = dec_idx (if length h.blocks == 0 then 0 else 8) found in
    elim (grow fuel found required h) [
      | ok none h' ↦ take_null required idx h'
      | ok (some place) h' ↦ take_pages (required - 2) (inc_idx idx (required - 1)) place h'
      | fault ↦ fault
      | out_of_fuel ↦ out_of_fuel
    ]

unfoldable pub malloc : (fuel size : ℕ) → Heap → Run ℕ
malloc fuel size h =
    let required = 2 + round_size size / page_size in
    elim (scan 1 0 required h.blocks) [
      | at place idx found ↦ take_pages (found - 2) idx place h
      | nowhere found ↦ take_extension fuel found required h
    ]

-- `next` of the element at a place.
abbrev pub next : ℕ → Heap → ℕ
next place h = if place == length h.blocks then 0 else suc place

-- The loop for the index of an address: `n` indexes to go, and 8 if there is none.
unfoldable pub index_of : (n idx addr : ℕ) → Block → ℕ
index_of zero idx addr b = idx
index_of (suc n) idx addr b =
    let rest = index_of n (suc idx) addr b in if addr == address b.addr idx then idx else rest

-- What `free` does with the block that it takes the address to be in. After `detach` the bitmap is read
-- once more, to be printed: a fault where the block's memory is gone.
unfoldable pub free_in : (place addr : ℕ) → Heap → Run (Unit {0})
free_in place addr h =
    let b = block_at place h in
    let idx = index_of 8 0 addr b in
    if leb 8 idx then ok tt h else elim (clear_bits 9 idx b) [
      | none ↦ out_of_fuel
      | some b' ↦
          if h.detaches b.addr addr
          then fault
          else ok tt (record (with_block place b' h) { detached = addr ∷ h.detached })
    ]

-- The test for that block.
unfoldable pub is_in : (place addr : ℕ) → Heap → Bool
is_in place addr h =
    let runner = (block_at place h).addr in
    ltb addr runner || (next place h == 0 && ltb addr (add32 runner (elem_size * (8 * page_size))))

-- "search for the block": the `do` loop, which looks at `next` of the next block to go on.
unfoldable pub free_from : (fuel place addr : ℕ) → Heap → Run (Unit {0})
free_from zero place addr h = out_of_fuel
free_from (suc fuel) place addr h =
    let on = free_from fuel (next place h) addr h in
    if is_in place addr h
    then free_in place addr h
    else (if next (next place h) h == 0 then ok tt h else on)

unfoldable pub free : (fuel addr : ℕ) → Heap → Run (Unit {0})
free fuel addr h =
    let first = next 0 h in
    if ltb addr (add32 (block_at first h).addr elem_size)
    then ok tt h
    else free_from fuel first addr h
