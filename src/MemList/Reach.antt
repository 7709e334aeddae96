-- ===== src/MemList/Reach.antt =====
-- The allocator of pkg/libc_backends/lib/l4re_mem/mem_list.cc over a whole life: any calls of `malloc` and of `free`.
use kpr.Base.{
  ℕ, ◌+◌, ◌*◌, ◌<◌, ◌≤◌, ◌^◌, ◌≡◌, ◌≢◌, subst, ap, List, [], ◌∷◌, ◌++◌, some, none, arith, ◌∉◌,
  count, count-head, count-append, length, add32,
}
use kpr.Env.{Grant, granted}
use kpr.MemList.State.{Ptr, null, ext_mem, header, Mem, Run, ok}
use kpr.MemList.Ops.{Which, head_of, processes, holes, align}
use kpr.MemList.Alloc.{malloc, free, round_size}
use kpr.MemList.Steps.{Ends, ends}
use kpr.MemList.Invariant.{IsList}
use kpr.MemList.Heap.{IsHeap, by_address, by_size}
use kpr.MemList.Find.{first_fit, Fits, Fits-of_first_fit}
use kpr.MemList.Take.{Taken, leftover, replace, malloc-Taken}
use kpr.MemList.Gain.{gained}
use kpr.MemList.First.{first_hole, malloc-first_Taken}
use kpr.MemList.Extend.{Extended, holes_after}
use kpr.MemList.Grown.{malloc-Extended}
use kpr.MemList.Free.{Freed, free-Freed}
use kpr.MemList.Spaced.{Held}
use kpr.MemList.Settled.{count-by_size}
use kpr.MemList.Headers.{OffAll, Separate, OffAll-out, Separate-fewer}
use kpr.MemList.Separated.{MayCut, MayCut-Room, Separate-taken, Separate-extended, Separate-new}
use kpr.MemList.Ascending.{Ascending, by_address-Ascending, remove-Ascending}

-- New memory at `a`, as the next answer of the environment.
pub record Granted (s : Mem) (gs : List Grant) (a : ℕ) : Type 0 where
  pub grant : Grant
  pub next_grant : s.grants ≡ grant ∷ gs
  pub there : granted grant ≡ some a
  pub pos : a ≢ null
  pub low : a + 2 * header < 2 ^ 32

-- The states that calls lead to, with the blocks in use and the holes. Between calls the program changes no header.
pub data Reach : Mem → (ps hs : List Ptr) → Type 0 where
  empty : (s : Mem) → s.processes_head ≡ null → s.holes_head ≡ null → Reach s [] []
  takes :
      {s t : Mem} {ps hs : List Ptr} (requested fuel r p : ℕ)
      → Reach s ps hs
      → first_fit s.size (round_size requested) hs ≡ some r
      → MayCut s ps hs r (round_size requested)
      → length ps ≤ fuel
      → length hs ≤ fuel
      → malloc fuel requested s ≡ ok p t
      → Reach t (by_address r ps) (replace r (leftover s r (round_size requested)) hs)
  starts :
      {s t : Mem} {ps : List Ptr} (gs : List Grant) (a requested fuel p : ℕ)
      → Reach s ps []
      → Granted s gs a
      → OffAll (align a) ps []
      → round_size requested ≤ ext_mem
      → MayCut (first_hole s gs a) ps (align a ∷ []) (align a) (round_size requested)
      → length ps ≤ fuel
      → 0 < fuel
      → malloc fuel requested s ≡ ok p t
      → Reach t (by_address (align a) ps) (
          replace
            (align a)
            (leftover (first_hole s gs a) (align a) (round_size requested))
            (align a ∷ []))
  extends :
      {s t : Mem} {ps hs : List Ptr} (gs : List Grant) (a requested fuel p : ℕ)
      → Reach s ps hs
      → Granted s gs a
      → ps ≢ []
      → hs ≢ []
      → first_fit s.size (round_size requested) hs ≡ none
      → round_size requested ≤ ext_mem
      → OffAll (align a) ps hs
      → MayCut (gained s gs a) ps (align a ∷ hs) (align a) (round_size requested)
      → length ps ≤ fuel
      → length hs ≤ fuel
      → malloc fuel requested s ≡ ok p t
      → Reach t
          (by_address (align a) ps)
          (holes_after (gained s gs a) (align a) (round_size requested) hs)
  frees :
      {s t : Mem} {hs : List Ptr} (xs ys : List Ptr) (e fuel : ℕ)
      → Reach s (xs ++ e ∷ ys) hs
      → e + header < 2 ^ 32
      → length hs ≤ fuel
      → free fuel (add32 e header) s ≡ ok tt t
      → Reach t (xs ++ ys) (by_size s.size e hs)

-- From an end to the state that a run gave.
pub Ends-ok :
    {A : Type 0} {P : A → Mem → Type 0} {r : Run A} {a : A} {t : Mem}
    → Ends P r
    → r ≡ ok a t
    → P a t
Ends-ok {P = P} {a = a} {t} (ends {a = b} {s} p) e =
    let value : b ≡ a = cc in
    let state : s ≡ t = cc in subst (λ x. P a x) state (subst (λ x. P x s) value p)

fits-out :
    (s : Mem) (ps hs : List Ptr) (size : ℕ) (r : Ptr)
    → IsHeap s ps hs
    → Fits s.size size hs r
    → r ∉ ps
fits-out s ps hs size r h f =
    ground (arith, h.apart r, ap (count r) f.split, count-append r f.before (r ∷ f.after))

Fits-Held : (s : Mem) (ps hs : List Ptr) (size : ℕ) (r : Ptr) → Fits s.size size hs r → Held ps hs r
Fits-Held s ps hs size r f =
    ground (arith, ap (count r) f.split, count-append r f.before (r ∷ f.after))

none-IsList : (w : Which) (s : Mem) → head_of w s ≡ null → IsList w s []
none-IsList w s none_yet = record {
  head = none_yet;
  ring = tt;
  distinct = λ a. omega arith;
  live = λ a m. absurd (omega arith);
}

pub none-IsHeap : (s : Mem) → s.processes_head ≡ null → s.holes_head ≡ null → IsHeap s [] []
none-IsHeap s no_process no_hole = record {
  in_use = none-IsList processes s no_process;
  free = none-IsList holes s no_hole;
  apart = λ a. omega arith;
}

-- What holds in such a state.
pub record Sound (s : Mem) (ps hs : List Ptr) : Type 0 where
  pub heap : IsHeap s ps hs
  pub ascending : Ascending ps
  pub separate : Separate ps hs

-- In every state that calls of `malloc` and `free` lead to, in any order, from no block and with
-- enough fuel, where `free` is given blocks in use, requests fit into new memory, which is granted at
-- addresses away from NULL and the end of the address space and where its header meets no other, and
-- the header of what is cut off lies in mapped memory and meets no other: both lists are disjoint
-- rings whose links agree with the blocks in use and the holes, the addresses of the blocks in use
-- ascend, and no two headers meet.
pub Reach-Sound : (s : Mem) (ps hs : List Ptr) → Reach s ps hs → Sound s ps hs
Reach-Sound s ps hs (empty _ no_process no_hole) = record {
  heap = none-IsHeap s no_process no_hole;
  ascending = tt;
  separate = λ a b h. absurd (omega arith);
}
Reach-Sound t _ _
      (takes {s} {ps = ps} {hs = hs} requested fuel r p reach fit may enough enough' run) =
    let size = round_size requested in
    let before = Reach-Sound s ps hs reach in
    let took : Taken s ps hs r size p t =
      Ends-ok
        (malloc-Taken s ps hs requested fuel r before.heap fit (MayCut-Room s ps hs r size may)
          enough enough')
        run in
    let at = Fits-of_first_fit s.size size hs r fit in
    record {
      heap = took.heap;
      ascending =
          by_address-Ascending r ps (fits-out s ps hs size r before.heap at) before.ascending;
      separate = Separate-taken s ps hs r size before.separate (Fits-Held s ps hs size r at) may;
    }
Reach-Sound t _ _ (starts {s} {ps = ps} gs a requested fuel p reach g off fits may enough pos run) =
    let size = round_size requested in
    let e = align a in
    let u = first_hole s gs a in
    let before = Reach-Sound s ps [] reach in
    let out : e ∉ ps = omega (arith, OffAll-out e ps [] off) in
    let took : Taken u ps (e ∷ []) e size p t =
      Ends-ok
        (malloc-first_Taken s g.grant gs a g.next_grant g.there g.pos g.low ps requested fuel
          before.heap out fits (MayCut-Room u ps (e ∷ []) e size may) enough pos)
        run in
    record {
      heap = took.heap;
      ascending = by_address-Ascending e ps out before.ascending;
      separate =
          Separate-taken u ps (e ∷ []) e size (Separate-new ps [] e before.separate off)
            (omega (arith, count-head e [])) may;
    }
Reach-Sound t _ _
      (extends {s} {ps = ps} {hs = hs} gs a requested fuel p reach g some_process some_hole fit fits
        off may enough enough' run) =
    let size = round_size requested in
    let e = align a in
    let u = gained s gs a in
    let before = Reach-Sound s ps hs reach in
    let none_there = OffAll-out e ps hs off in
    let p_out : e ∉ ps = omega arith in
    let h_out : e ∉ hs = omega arith in
    let extended : Extended u ps hs e size p t =
      Ends-ok
        (malloc-Extended s g.grant gs a g.next_grant g.there g.pos g.low ps hs requested fuel
          before.heap some_process some_hole fit fits p_out h_out
          (MayCut-Room u ps (e ∷ hs) e size may) enough enough')
        run in
    record {
      heap = extended.heap;
      ascending = by_address-Ascending e ps p_out before.ascending;
      separate = Separate-extended u ps hs e size (Separate-new ps hs e before.separate off) may;
    }
Reach-Sound t _ _ (frees {s} {hs = hs} xs ys e fuel reach small enough run) =
    let before = Reach-Sound s (xs ++ e ∷ ys) hs reach in
    let freed : Freed s (xs ++ ys) hs e t =
      Ends-ok (free-Freed s xs ys hs e before.heap fuel small enough) run in
    record {
      heap = freed.0;
      ascending = remove-Ascending e xs ys before.ascending;
      separate =
          Separate-fewer (xs ++ e ∷ ys) hs (xs ++ ys) (by_size s.size e hs) before.separate λ a h.
            ground (
              arith,
              h,
              count-by_size s.size e hs a,
              count-append a xs (e ∷ ys),
              count-append a xs ys,
            );
    }
