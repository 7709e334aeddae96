-- ===== src/MemList/Cut.antt =====
-- `split` of pkg/libc_backends/lib/l4re_mem/mem_list.cc in the list of the holes.
use kpr.Base.{
  ℕ, ◌+◌, ◌≤◌, ◌≡◌, inl, inr, refl, ◌∙◌, List, [], ◌∷◌, ◌++◌, arith, ◌==◌, ◌∈◌, ◌∉◌, count,
  count-append, Bool-cases,
}
use kpr.MemList.State.{Ptr, Mem, ok}
use kpr.MemList.Ops.{processes, split}
use kpr.MemList.Ring.{Ring, Ring-rotate, Ring-grow, Ring-next_mem}
use kpr.MemList.Steps.{Live, rest_at, cut, split-cut}
use kpr.MemList.Invariant.{first}
use kpr.MemList.Heap.{IsHeap, IsList-frame}

-- A block that may be cut: the header of the rest lies in mapped memory and is no header yet.
abbrev pub Room : Mem → List Ptr → List Ptr → Ptr → ℕ → Type 0
Room s ps hs r size = Live s (rest_at r size) × (rest_at r size ∉ ps) × (rest_at r size ∉ hs)

first-append :
    (xs : List Ptr) (r : Ptr) (ys zs : List Ptr) → first (xs ++ r ∷ ys) ≡ first (xs ++ r ∷ zs)
first-append [] r ys zs = refl
first-append (x ∷ xs) r ys zs = refl

module _ (s : Mem) (ps xs ys : List Ptr) (r : Ptr) (size : ℕ) (h : IsHeap s ps (xs ++ r ∷ ys))
    (room : Room s ps (xs ++ r ∷ ys) r size) where
  abbrev pub n : Ptr
  n = rest_at r size

  cut-distinct : (a : Ptr) → count a ps + count a (xs ++ r ∷ n ∷ ys) ≤ 1
  cut-distinct a = ground (
    arith,
    h.apart a,
    room,
    count-append a xs (r ∷ ys),
    count-append a xs (r ∷ rest_at r size ∷ ys),
  )

  rotated : Ring s.next s.prev (r ∷ (ys ++ xs))
  rotated = Ring-rotate s.next s.prev xs (r ∷ ys) h.free.ring

  next-mem : s.next r ∈ (xs ++ r ∷ ys)
  next-mem = ground (
    arith,
    Ring-next_mem s.next s.prev r (ys ++ xs) rotated,
    count-append (s.next r) ys xs,
    count-append (s.next r) xs (r ∷ ys),
  )

  r-mem : r ∈ (xs ++ r ∷ ys)
  r-mem = ground (arith, count-append r xs (r ∷ ys))

  -- The rest joins the holes behind its block.
  pub cut-IsHeap : IsHeap (cut s r size) ps (xs ++ r ∷ n ∷ ys)
  cut-IsHeap = record {
    in_use =
        IsList-frame processes s (cut s r size) ps h.in_use refl refl
          (λ a m. ground (arith, room, h.apart a, r-mem))
          (λ a m. ground (arith, room, h.apart a, next-mem));
    free = record {
      head = h.free.head ∙ first-append xs r ys (n ∷ ys);
      ring = Ring-rotate (cut s r size).next (cut s r size).prev (r ∷ n ∷ ys) xs (
          Ring-grow s.next s.prev r n (ys ++ xs)
            (λ a.
              ground (arith, cut-distinct a, count-append a xs (r ∷ n ∷ ys), count-append a ys xs))
            rotated);
      distinct = λ a. omega (arith, cut-distinct a);
      live = λ a m. elim (Bool-cases (a == n)) [
        | inl e ↦ ground (arith, room)
        | inr e ↦
            h.free.live a
              (ground (arith, count-append a xs (r ∷ ys), count-append a xs (r ∷ n ∷ ys)))
      ];
    };
    apart = cut-distinct;
  }

  pub split-ok : split r size s ≡ ok tt (cut s r size)
  split-ok =
      split-cut s r size (λ e. ground (arith, room, r-mem)) (h.free.live r r-mem) room.0
        (h.free.live (s.next r) next-mem)
