-- ===== src/MemList/Laid.antt =====
-- `malloc` and `free` of pkg/libc_backends/lib/l4re_mem/mem_list.cc for requests that are rounded to odd multiples of
-- four, where the rest of a block that is cut ends where the block ended.
use kpr.Base.{
  inl, inr, suc, Bool-cases, count-head, ℕ, ◌+◌, ◌%◌, ◌<◌, ◌≤◌, ◌^◌, ◌≡◌, ◌≢◌, ap, List, [], ◌∷◌,
  arith, count, count-append, add32, ◌∉◌, some, none, length,
}
use kpr.MemList.State.{Ptr, null, ext_mem, header, Mem}
use kpr.MemList.Ops.{align}
use kpr.Env.{Grant, granted}
use kpr.MemList.Alloc.{malloc, round_size}
use kpr.MemList.Steps.{Ends, Ends-mono}
use kpr.MemList.Steps.{rest_at, cut}
use kpr.MemList.Heap.{IsHeap, by_address}
use kpr.MemList.Find.{first_fit, Fits, Fits-of_first_fit}
use kpr.MemList.Take.{splits, Taken, leftover, replace, malloc-Taken}
use kpr.MemList.Gain.{gained}
use kpr.MemList.First.{first_hole, malloc-first_Taken}
use kpr.MemList.Extend.{Extended, holes_after}
use kpr.MemList.Grown.{malloc-Extended}
use kpr.MemList.Ascending.{Ascending, by_address-Ascending}
use kpr.MemList.Spaced.{length-replace, length-by_size, Held}
use kpr.MemList.Spread.{Spread, rest-Room}
use kpr.MemList.Settled.{Clear, Taken-Spread, Extended-Spread, new-out, gained-Spread}

-- The lists are a heap, the blocks in use ascend, and all blocks lie apart in mapped memory.
pub record Laid (s : Mem) (ps hs : List Ptr) : Type 0 where
  pub heap : IsHeap s ps hs
  pub ascending : Ascending ps
  pub spread : Spread s ps hs

-- The environment's next answer: memory at `a`, aligned for words, away from NULL, from the end of the
-- address space and from all blocks.
pub record Offer (s : Mem) (ps hs : List Ptr) (gs : List Grant) (a : ℕ) : Type 0 where
  pub grant : Grant
  pub next_grant : s.grants ≡ grant ∷ gs
  pub there : granted grant ≡ some a
  pub pos : a ≢ null
  pub whole : a % 4 ≡ 0
  pub low : a + ext_mem + 48 < 2 ^ 32
  pub clear : Clear s ps hs (align a)

-- What a request leaves: one more block in use, which is large enough and was not in use before, and its address.
-- `most` bounds the number of holes.
pub record Served (ps : List Ptr) (most size : ℕ) (p : Ptr) (t : Mem) : Type 0 where
  pub block : Ptr
  pub holes_left : List Ptr
  pub address : p ≡ add32 block header
  pub fresh : block ∉ ps
  pub large : size ≤ t.size block
  pub few : length holes_left ≤ most
  pub laid : Laid t (by_address block ps) holes_left

-- What a request does to the answers to come and to the mapped regions: nothing, or it takes one.
abbrev pub Kept : Mem → Mem → Type 0
Kept s t = (t.grants ≡ s.grants) × (t.regions ≡ s.regions)

abbrev pub Used : Mem → List Grant → ℕ → Mem → Type 0
Used s gs a t = (t.grants ≡ gs) × (t.regions ≡ (a, ext_mem + header) ∷ s.regions)

-- A bound on the number of holes may grow.
pub Served-more :
    (ps : List Ptr) (n m size p : ℕ) (t : Mem) → n ≤ m → Served ps n size p t → Served ps m size p t
Served-more ps n m size p t le served = record {
  block = served.block;
  holes_left = served.holes_left;
  address = served.address;
  fresh = served.fresh;
  large = served.large;
  few = omega (arith, served.few);
  laid = served.laid;
}

-- The hole that the search finds is held, and not in use.
module _ (u : Mem) (ps hs : List Ptr) (size r : ℕ) (heap : IsHeap u ps hs)
    (fit : first_fit u.size size hs ≡ some r) where
  pub hole_at : Fits u.size size hs r
  hole_at = Fits-of_first_fit u.size size hs r fit

  pub among : 0 < count r hs
  among =
      ground (arith, ap (count r) hole_at.split, count-append r hole_at.before (r ∷ hole_at.after))

  pub hole-Held : Held ps hs r
  hole-Held = omega (arith, among)

  hole-out : r ∉ ps
  hole-out = omega (arith, among, heap.apart r)

module _ (ps : List Ptr) (requested fuel : ℕ) (exact : round_size requested % 8 ≡ 4)
    (enough : length ps ≤ fuel) (ascending : Ascending ps) where
  abbrev size : ℕ
  size = round_size requested

  Taken-Served :
      (u t : Mem) (hs : List Ptr) (r p : ℕ)
      → Spread u ps hs
      → Held ps hs r
      → r ∉ ps
      → size ≤ u.size r
      → Taken u ps hs r size p t
      → Served ps (length hs) size p t
  Taken-Served u t hs r p spread held out large taken = record {
    block = r;
    holes_left = replace r (leftover u r size) hs;
    address = taken.address;
    fresh = out;
    large = taken.large;
    few = few-left;
    laid = record {
      heap = taken.heap;
      ascending = by_address-Ascending r ps out ascending;
      spread = Taken-Spread u t ps hs r size p spread held exact large taken;
    };
  }
    where
      leftover-one : length (leftover u r size) ≤ 1
      leftover-one = elim (Bool-cases (splits u r size)) [
        | inl wide ↦ rw wide (omega arith)
        | inr narrow ↦ rw narrow (omega arith)
      ]

      few-left : length (replace r (leftover u r size) hs) ≤ length hs
      few-left = omega (arith, leftover-one, length-replace r (leftover u r size) hs (omega arith))

  module _ (s : Mem) (hs : List Ptr) (heap : IsHeap s ps hs) (spread : Spread s ps hs)
      (enough_holes : length hs ≤ fuel) where
    pub from_hole :
        (r : ℕ)
        → first_fit s.size size hs ≡ some r
        → Ends (λ p t. Served ps (suc (length hs)) size p t × Kept s t) (malloc fuel requested s)
    from_hole r fit =
        Ends-mono
          (malloc-Taken s ps hs requested fuel r heap fit
            (rest-Room s ps hs spread r size (hole-Held s ps hs size r heap fit) exact
              (hole_at s ps hs size r heap fit).large)
            enough enough_holes)
          (λ p t taken. (
            Served-more ps (length hs) (suc (length hs)) size p t (omega arith) (
                Taken-Served s t hs r p spread (hole-Held s ps hs size r heap fit)
                  (hole-out s ps hs size r heap fit) (hole_at s ps hs size r heap fit).large taken),
            (taken.grants, taken.regions),
          ))

    module _ (gs : List Grant) (a : ℕ) (offer : Offer s ps hs gs a) (fits : size ≤ ext_mem) where
      out : count (align a) ps + count (align a) hs ≡ 0
      out = new-out s ps hs gs a spread offer.clear offer.whole offer.low

      grown : Spread (gained s gs a) ps (align a ∷ hs)
      grown = gained-Spread s ps hs gs a spread offer.clear offer.whole offer.low

      new-Held : Held ps (align a ∷ hs) (align a)
      new-Held = omega (arith, count-head (align a) hs)

      fits_new : size ≤ (gained s gs a).size (align a)
      fits_new = ground arith

      Extended-Served :
          (p : ℕ) (t : Mem)
          → Extended (gained s gs a) ps hs (align a) size p t
          → Served ps (suc (length hs)) size p t
      Extended-Served p t extended = record {
        block = align a;
        holes_left = holes_after (gained s gs a) (align a) size hs;
        address = extended.address;
        fresh = omega (arith, out);
        large = extended.large;
        few = few-left;
        laid = record {
          heap = extended.heap;
          ascending = by_address-Ascending (align a) ps (omega (arith, out)) ascending;
          spread =
              Extended-Spread (gained s gs a) t ps hs (align a) size p grown exact fits_new
                extended;
        };
      }
        where
          few-left : length (holes_after (gained s gs a) (align a) size hs) ≤ suc (length hs)
          few-left = elim (Bool-cases (splits (gained s gs a) (align a) size)) [
            | inl wide ↦ rw wide (
                omega (
                  arith,
                  length-by_size (cut (gained s gs a) (align a) size).size (rest_at (align a) size)
                      hs,
                ))
            | inr narrow ↦ rw narrow (omega arith)
          ]

      pub from_extension :
          ps ≢ []
          → hs ≢ []
          → first_fit s.size size hs ≡ none
          → Ends
              (λ p t. Served ps (suc (length hs)) size p t × Used s gs a t)
              (malloc fuel requested s)
      from_extension some_process some_hole fit =
          Ends-mono
            (malloc-Extended s offer.grant gs a offer.next_grant offer.there offer.pos
              (omega (arith, offer.low)) ps hs requested fuel heap some_process some_hole fit fits
              (omega (arith, out)) (omega (arith, out))
              (rest-Room (gained s gs a) ps (align a ∷ hs) grown (align a) size new-Held exact
                fits_new)
              enough enough_holes)
            (λ p t extended. (Extended-Served p t extended, (extended.grants, extended.regions)))

  pub from_nothing :
      (s : Mem) (heap : IsHeap s ps []) (spread : Spread s ps []) (gs : List Grant) (a : ℕ)
      → Offer s ps [] gs a
      → size ≤ ext_mem
      → 0 < fuel
      → Ends (λ p t. Served ps 1 size p t × Used s gs a t) (malloc fuel requested s)
  from_nothing s heap spread gs a offer fits some_fuel =
      Ends-mono
        (malloc-first_Taken s offer.grant gs a offer.next_grant offer.there offer.pos
          (omega (arith, offer.low)) ps requested fuel heap fresh fits
          (rest-Room (first_hole s gs a) ps (align a ∷ []) first (align a) size there exact large)
          enough some_fuel)
        (λ p t taken. (
          Taken-Served (first_hole s gs a) t (align a ∷ []) (align a) p first there fresh large
              taken,
          (taken.grants, taken.regions),
        ))
    where
      grown_first : Spread (gained s gs a) ps (align a ∷ [])
      grown_first = gained-Spread s ps [] gs a spread offer.clear offer.whole offer.low

      first : Spread (first_hole s gs a) ps (align a ∷ [])
      first = record { spaced = grown_first.spaced; backed = grown_first.backed }

      fresh : align a ∉ ps
      fresh = omega (arith, new-out s ps [] gs a spread offer.clear offer.whole offer.low)

      there : Held ps (align a ∷ []) (align a)
      there = omega (arith, count-head (align a) [])

      large : size ≤ (first_hole s gs a).size (align a)
      large = ground arith
