-- ===== src/MemList/Extend.antt =====
-- `malloc` of pkg/libc_backends/lib/l4re_mem/mem_list.cc where no hole is large enough: new memory is cut, and
-- what is left of it becomes a hole.
use kpr.Base.{
  ℕ, ◌+◌, ◌*◌, ◌<◌, ◌≤◌, ◌^◌, ◌≡◌, ◌≢◌, refl, sym, subst, ◌∙◌, ap, true, false, List, [], ◌∷◌, some,
  arith, if◌then◌else◌, ◌∉◌, count, length, add32, Bool-cases, inl, inr,
}
use kpr.Env.{Grant, granted}
use kpr.MemList.State.{Ptr, null, ext_mem, header, Mem, ok, update, pure, ◌>>◌}
use kpr.MemList.Ops.{processes, holes, align, split, insert_into}
use kpr.MemList.Alloc.{take_extension}
use kpr.MemList.Steps.{Live, Ends, ends, Ends-bind, Ends-mono, rest_at, cut, split-cut}
use kpr.MemList.Insert.{precedes, count-insert_sorted}
use kpr.MemList.Settle.{insert_into-Inserted}
use kpr.MemList.Heap.{IsHeap, IsList-frame, IsList-SameBut, by_address, by_size}
use kpr.MemList.Cut.{Room}
use kpr.MemList.Take.{splits}
use kpr.MemList.Gain.{gained, extend_mem-ok, Live-gained, init_block-ok, IsHeap-gained}

pub update-same : (f : Ptr → ℕ) (p : Ptr) (v : ℕ) → update f p v p ≡ v
update-same f p v = ground arith

-- What the new block leaves behind it joins the holes, at the place of its size.
abbrev pub holes_after : Mem → Ptr → ℕ → List Ptr → List Ptr
holes_after u e size hs =
    if splits u e size then by_size (cut u e size).size (rest_at e size) hs else hs

abbrev pub sizes_of : Mem → Ptr → ℕ → Ptr → ℕ
sizes_of u e size = if splits u e size then (cut u e size).size else u.size

-- What `malloc` leaves, from the state `u` with the new memory and its header `e`.
pub record Extended (u : Mem) (ps hs : List Ptr) (e : Ptr) (size : ℕ) (p : Ptr) (t : Mem)
    : Type 0 where
  pub address : p ≡ add32 e header
  pub heap : IsHeap t (by_address e ps) (holes_after u e size hs)
  pub sizes : t.size ≡ sizes_of u e size
  pub large : size ≤ t.size e
  pub regions : t.regions ≡ u.regions
  pub grants : t.grants ≡ u.grants

-- The last step: the new block joins the blocks in use.
module _ (v : Mem) (ps hs : List Ptr) (e : Ptr) (h : IsHeap v ps hs) (le : Live v e)
    (p_out : e ∉ ps) (h_out : e ∉ hs) (fuel : ℕ) (some_process : ps ≢ [])
    (enough : length ps ≤ fuel) where
  joins :
      Ends
        (λ p t.
          (p ≡ add32 e header)
          × IsHeap t (by_address e ps) hs
          × (t.size ≡ v.size)
          × (t.regions ≡ v.regions)
          × (t.grants ≡ v.grants))
        ((insert_into processes fuel e >> pure (add32 e header)) v)
  joins =
      Ends-bind (insert_into-Inserted processes v e fuel ps h.in_use some_process p_out le enough)
        λ _ t (i, same). ends (
          refl,
          record {
            in_use = i;
            free =
                IsList-SameBut processes v t (e ∷ ps) hs h.free same
                  (λ a m. ground (arith, h.apart a));
            apart = λ a.
                ground (
                  arith,
                  h.apart a,
                  count-insert_sorted (λ x. precedes processes v.size x e) e ps a,
                );
          },
          same.size,
          same.regions,
          same.grants,
        )

module _ (u : Mem) (ps hs : List Ptr) (e : Ptr) (size : ℕ) (h : IsHeap u ps hs) (le : Live u e)
    (p_out : e ∉ ps) (h_out : e ∉ hs) (alone : u.next e ≡ e)
    (room : Room u ps (e ∷ hs) e size) where
  abbrev n : Ptr
  n = rest_at e size

  n-ne : n ≢ e
  n-ne same = ground (arith, room)

  pub split-ok : split e size u ≡ ok tt (cut u e size)
  split-ok = split-cut u e size n-ne le room.0 (subst (Live u) (sym alone) le)

  pub cut-IsHeap : IsHeap (cut u e size) ps hs
  cut-IsHeap = record {
    in_use =
        IsList-frame processes u (cut u e size) ps h.in_use refl refl (λ a m. ground (arith, room))
          (λ a m. ground (arith, room, alone));
    free =
        IsList-frame holes u (cut u e size) hs h.free refl refl (λ a m. ground (arith, room))
          (λ a m. ground (arith, room, alone));
    apart = h.apart;
  }

  module _ (fuel : ℕ) (some_process : ps ≢ []) (some_hole : hs ≢ []) (p_enough : length ps ≤ fuel)
      (h_enough : length hs ≤ fuel) where
    -- The rest joins the holes, and then the block the blocks in use.
    cut_joins :
        Ends
          (λ p t.
            (p ≡ add32 e header)
            × IsHeap t (by_address e ps) (by_size (cut u e size).size n hs)
            × (t.size ≡ (cut u e size).size)
            × (t.regions ≡ u.regions)
            × (t.grants ≡ u.grants))
          ((insert_into holes fuel n >> (insert_into processes fuel e >> pure (add32 e header)))
            (cut u e size))
    cut_joins =
        Ends-bind
          (insert_into-Inserted holes (cut u e size) n fuel hs cut-IsHeap.free some_hole
            (ground (arith, room)) room.0 h_enough)
          λ _ t (i, same).
            let zs = by_size (cut u e size).size n hs in
            let counts : (a : ℕ) → count a zs ≡ count a (n ∷ hs) =
              count-insert_sorted (λ x. precedes holes (cut u e size).size x n) n hs in
            Ends-mono
              (joins t ps zs e
                (record {
                  in_use =
                      IsList-SameBut holes (cut u e size) t (n ∷ hs) ps cut-IsHeap.in_use same
                        (λ a m. ground (arith, h.apart a, room));
                  free = i;
                  apart = λ a. ground (arith, h.apart a, room, counts a);
                })
                (rw same.regions le) p_out (ground (arith, counts e, n-ne)) fuel some_process
                p_enough)
              λ p w (at, heap, sizes, regions, grants).
                (at, heap, sizes ∙ same.size, regions ∙ same.regions, grants ∙ same.grants)

module _ (s : Mem) (g : Grant) (gs : List Grant) (a : ℕ) (next_grant : s.grants ≡ g ∷ gs)
    (there : granted g ≡ some a) (pos : a ≢ null) (low : a + 2 * header < 2 ^ 32) where
  abbrev e : Ptr
  e = align a

  live : Live (gained s gs a) e
  live = Live-gained s gs a g next_grant there pos low

  pub take_extension-cut :
      (size fuel : ℕ)
      → splits (gained s gs a) e size ≡ true
      → split e size (gained s gs a) ≡ ok tt (cut (gained s gs a) e size)
      → take_extension fuel size s
        ≡ (insert_into holes fuel (rest_at e size)
              >> (insert_into processes fuel e >> pure (add32 e header)))
            (cut (gained s gs a) e size)
  unfolding take_extension
  take_extension-cut size fuel c done =
      rw
        (
          extend_mem-ok s gs a g next_grant there pos low,
          init_block-ok s gs a g next_grant there pos low,
          live,
          c,
          done,
          live,
        )
        (ap
          (λ m.
            (insert_into holes fuel m >> (insert_into processes fuel e >> pure (add32 e header)))
              (cut (gained s gs a) e size))
          (update-same (update (update s.next e e) (rest_at e size) (update s.next e e e)) e
            (rest_at e size)))

  pub take_extension-whole :
      (size fuel : ℕ)
      → splits (gained s gs a) e size ≡ false
      → take_extension fuel size s
        ≡ (insert_into processes fuel e >> pure (add32 e header)) (gained s gs a)
  unfolding take_extension
  take_extension-whole size fuel c = rw (
    extend_mem-ok s gs a g next_grant there pos low,
    init_block-ok s gs a g next_grant there pos low,
    live,
    c,
  )

  module _ (ps hs : List Ptr) (size fuel : ℕ) (h : IsHeap s ps hs) (p_out : e ∉ ps) (h_out : e ∉ hs)
      (some_process : ps ≢ []) (some_hole : hs ≢ []) (p_enough : length ps ≤ fuel)
      (h_enough : length hs ≤ fuel) (fits : size ≤ ext_mem) where
    grown : IsHeap (gained s gs a) ps hs
    grown = IsHeap-gained s gs a ps hs p_out h_out h

    pub take_extension-Extended :
        (splits (gained s gs a) e size ≡ true → Room (gained s gs a) ps (e ∷ hs) e size)
        → Ends (Extended (gained s gs a) ps hs e size) (take_extension fuel size s)
    take_extension-Extended room = elim (Bool-cases (splits (gained s gs a) e size)) [
      | inl c ↦
          rw
            (take_extension-cut size fuel c (
              split-ok (gained s gs a) ps hs e size grown live p_out h_out (update-same s.next e e)
                (room c)))
            (Ends-mono
              (cut_joins (gained s gs a) ps hs e size grown live p_out h_out
                (update-same s.next e e) (room c) fuel some_process some_hole p_enough h_enough)
              λ p t (at, heap, sizes, regions, grants). record {
                address = at;
                heap = rw c heap;
                sizes = rw c sizes;
                large = rw (sizes) (ground arith);
                regions = regions;
                grants = grants;
              })
      | inr c ↦ rw (take_extension-whole size fuel c) (
          Ends-mono
            (joins (gained s gs a) ps hs e grown live p_out h_out fuel some_process p_enough)
            λ p t (at, heap, sizes, regions, grants). record {
              address = at;
              heap = rw c heap;
              sizes = rw c sizes;
              large = rw (sizes) (ground arith);
              regions = regions;
              grants = grants;
            })
    ]
