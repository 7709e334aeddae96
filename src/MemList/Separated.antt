-- ===== src/MemList/Separated.antt =====
-- `malloc` of pkg/libc_backends/lib/l4re_mem/mem_list.cc, and its list functions, while no two headers meet.
use kpr.Base.{
  ℕ, ◌+◌, ◌*◌, ◌<◌, ◌≤◌, ◌^◌, ◌≡◌, ◌≢◌, ◌⊎◌, inl, inr, ap, ◌∙◌, true, List, [], ◌∷◌, arith, ◌==◌,
  count, count-append, length, some, none, add32, Bool-cases,
}
use kpr.Env.{Grant, granted}
use kpr.MemList.State.{Ptr, null, ext_mem, header, Mem}
use kpr.MemList.Ops.{align}
use kpr.MemList.Alloc.{malloc, round_size}
use kpr.MemList.Steps.{Live, Ends, Ends-mono, rest_at, cut}
use kpr.MemList.Heap.{IsHeap, by_address, by_size}
use kpr.MemList.Cut.{Room}
use kpr.MemList.Find.{first_fit, Fits-of_first_fit}
use kpr.MemList.Take.{splits, leftover, replace, sizes_after, malloc-Taken}
use kpr.MemList.Gain.{gained}
use kpr.MemList.Extend.{holes_after, sizes_of}
use kpr.MemList.Grown.{malloc-Extended}
use kpr.MemList.Spaced.{Held}
use kpr.MemList.Settled.{count-by_address, old_or, new_or}
use kpr.MemList.Headers.{OffAll, Separate, SameOn, OffAll-out, Separate-fewer, Separate-more}

-- A block may be cut for a size: if it is, the rest's header lies in mapped memory and meets no header.
abbrev pub MayCut : Mem → (ps hs : List Ptr) → Ptr → ℕ → Type 0
MayCut s ps hs r size =
    splits s r size ≡ true → Live s (rest_at r size) × OffAll (rest_at r size) ps hs

pub MayCut-Room :
    (s : Mem) (ps hs : List Ptr) (r : Ptr) (size : ℕ)
    → MayCut s ps hs r size
    → splits s r size ≡ true
    → Room s ps hs r size
MayCut-Room s ps hs r size may wide =
    let out = OffAll-out (rest_at r size) ps hs (may wide).1 in
    ((may wide).0, omega arith, omega arith)

-- The blocks after a block gave way to what is cut off it, and after new memory was cut.
module _ (s : Mem) (ps hs : List Ptr) (r : Ptr) (size : ℕ) where
  pub Separate-taken :
      Separate ps hs
      → Held ps hs r
      → MayCut s ps hs r size
      → Separate (by_address r ps) (replace r (leftover s r size) hs)
  Separate-taken sep held may = elim (Bool-cases (splits s r size)) [
    | inl wide ↦ rw wide (
        Separate-more ps hs (by_address r ps) (replace r (rest_at r size ∷ []) hs) (rest_at r size)
          sep (may wide).1 (λ a h. rest_or a (old_or ps hs r held (rest_at r size ∷ []) a h)))
    | inr narrow ↦ rw narrow (
        Separate-fewer ps hs (by_address r ps) (replace r [] hs) sep
          (λ a h. none_or a (old_or ps hs r held [] a h)))
  ]
    where
      rest_or :
          (a : Ptr)
          → (0 < count a (rest_at r size ∷ [])) ⊎ Held ps hs a
          → (a ≡ rest_at r size) ⊎ Held ps hs a
      rest_or a (inl m) = inl (ground arith)
      rest_or a (inr h) = inr h

      none_or : (a : Ptr) → (0 < count a []) ⊎ Held ps hs a → Held ps hs a
      none_or a (inl m) = absurd (omega arith)
      none_or a (inr h) = h

  pub Separate-extended :
      Separate ps (r ∷ hs)
      → MayCut s ps (r ∷ hs) r size
      → Separate (by_address r ps) (holes_after s r size hs)
  Separate-extended sep may = elim (Bool-cases (splits s r size)) [
    | inl wide ↦ rw wide (
        Separate-more ps (r ∷ hs) (by_address r ps)
          (by_size (cut s r size).size (rest_at r size) hs) (rest_at r size) sep (may wide).1
          (new_or (cut s r size).size ps hs r (rest_at r size)))
    | inr narrow ↦ rw narrow (
        Separate-fewer ps (r ∷ hs) (by_address r ps) hs sep
          (λ a h. ground (arith, h, count-by_address r ps a)))
  ]

pub Separate-new :
    (ps hs : List Ptr) (e : Ptr) → Separate ps hs → OffAll e ps hs → Separate ps (e ∷ hs)
Separate-new ps hs e sep off = Separate-more ps hs ps (e ∷ hs) e sep off λ a h.
    elim (Bool-cases (a == e)) [ inl same ↦ inl (ground arith) | inr ne ↦ inr (ground (arith, h)) ]

-- What `malloc` leaves of a block `r`: its address, the lists, the sizes of their blocks.
pub record Handed (ps hs : List Ptr) (sizes : Ptr → ℕ) (r : Ptr) (size : ℕ) (p : Ptr) (t : Mem)
    : Type 0 where
  pub address : p ≡ add32 r header
  pub heap : IsHeap t ps hs
  pub separate : Separate ps hs
  pub sizes_then : SameOn ps hs t.size sizes
  pub large : size ≤ t.size r

-- From a well-formed heap no two headers of which meet, whose free list has a block that is large
-- enough, with fuel for both list lengths, and, if the block is split, with the rest's header in
-- mapped memory and meeting no header: `malloc` returns, the address is the one behind the header of
-- the first block that is large enough, that block is now in use at the place of its address, what was
-- cut off stands at its place among the free blocks, the sizes of the blocks are those of the cut, and
-- both lists are again disjoint rings, of headers that do not meet.
pub malloc-Handed :
    (s : Mem) (ps hs : List Ptr) (requested fuel : ℕ) (r : Ptr)
    → IsHeap s ps hs
    → Separate ps hs
    → first_fit s.size (round_size requested) hs ≡ some r
    → MayCut s ps hs r (round_size requested)
    → length ps ≤ fuel
    → length hs ≤ fuel
    → Ends
        (Handed
          (by_address r ps)
          (replace r (leftover s r (round_size requested)) hs)
          (sizes_after s r (round_size requested))
          r
          (round_size requested))
        (malloc fuel requested s)
malloc-Handed s ps hs requested fuel r heap sep fit may p_enough h_enough =
    let size = round_size requested in
    let at = Fits-of_first_fit s.size size hs r fit in
    let held : Held ps hs r =
      ground (arith, ap (count r) at.split, count-append r at.before (r ∷ at.after)) in
    Ends-mono
      (malloc-Taken s ps hs requested fuel r heap fit (MayCut-Room s ps hs r size may) p_enough
        h_enough)
      λ p t taken. record {
        address = taken.address;
        heap = taken.heap;
        separate = Separate-taken s ps hs r size sep held may;
        sizes_then = λ a _. ap (λ (f : Ptr → ℕ). f a) taken.sizes;
        large = taken.large;
      }

-- From a well-formed heap no two headers of which meet, with blocks in use and holes, none of which is
-- large enough, with memory granted at an address that is not NULL and not at the end of the address
-- space, a request that fits into it, a new header that meets none of the others, and, if the new
-- block is split, with the rest's header in mapped memory and meeting no header, and fuel for both
-- list lengths: `malloc` returns the address behind the new header, the new block is in use at the
-- place of its address and large enough, what was cut off stands among the holes at the place of its
-- size, the sizes of the old blocks are as before, and both lists are again disjoint rings, of headers
-- that do not meet.
pub malloc-Handed_new :
    (s : Mem) (g : Grant) (gs : List Grant) (a : ℕ)
    → s.grants ≡ g ∷ gs
    → granted g ≡ some a
    → a ≢ null
    → a + 2 * header < 2 ^ 32
    → (ps hs : List Ptr) (requested fuel : ℕ) → IsHeap s ps hs
    → Separate ps hs
    → ps ≢ []
    → hs ≢ []
    → first_fit s.size (round_size requested) hs ≡ none
    → round_size requested ≤ ext_mem
    → OffAll (align a) ps hs
    → MayCut (gained s gs a) ps (align a ∷ hs) (align a) (round_size requested)
    → length ps ≤ fuel
    → length hs ≤ fuel
    → Ends
        (λ p t.
          Handed
            (by_address (align a) ps)
            (holes_after (gained s gs a) (align a) (round_size requested) hs)
            (sizes_of (gained s gs a) (align a) (round_size requested))
            (align a)
            (round_size requested)
            p
            t
          × ((b : Ptr) → Held ps hs b → t.size b ≡ s.size b))
        (malloc fuel requested s)
malloc-Handed_new s g gs a next there pos low ps hs requested fuel heap sep some_process some_hole
      fit fits off may p_enough h_enough =
    let size = round_size requested in
    let u = gained s gs a in
    let out = OffAll-out (align a) ps hs off in
    Ends-mono
      (malloc-Extended s g gs a next there pos low ps hs requested fuel heap some_process some_hole
        fit fits (omega arith) (omega arith) (MayCut-Room u ps (align a ∷ hs) (align a) size may)
        p_enough h_enough)
      λ p t extended. (
        record {
          address = extended.address;
          heap = extended.heap;
          separate =
              Separate-extended u ps hs (align a) size (Separate-new ps hs (align a) sep off) may;
          sizes_then = λ b _. ap (λ (f : Ptr → ℕ). f b) extended.sizes;
          large = extended.large;
        },
        λ b h. ap (λ (f : Ptr → ℕ). f b) extended.sizes ∙ old b h,
      )
  where
    differ : (b n : Ptr) (zs : List Ptr) → count n ps + count n zs ≡ 0 → Held ps zs b → b ≢ n
    differ b n zs out h same = ground (arith, out, h)

    not_new : (b : Ptr) → Held ps hs b → b ≢ align a
    not_new b h = differ b (align a) hs (OffAll-out (align a) ps hs off) h

    old :
        (b : Ptr)
        → Held ps hs b
        → sizes_of (gained s gs a) (align a) (round_size requested) b ≡ s.size b
    old b h = elim (Bool-cases (splits (gained s gs a) (align a) (round_size requested))) [
      | inl wide ↦
          let n = rest_at (align a) (round_size requested) in
          let out = OffAll-out n ps (align a ∷ hs) (may wide).1 in
          let not_rest : b ≢ n = differ b n (align a ∷ hs) out (ground (arith, h)) in
          let not_e = not_new b h in rw wide (ground arith)
      | inr narrow ↦ let not_e = not_new b h in rw narrow (ground arith)
    ]
