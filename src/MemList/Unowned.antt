-- ===== src/MemList/Unowned.antt =====
-- `malloc` of pkg/libc_backends/lib/l4re_mem/mem_list.cc where it needs new memory and no block is in use: nothing
-- tests that the list of the blocks in use has a head.
use kpr.Base.{
  ℕ, suc, ◌+◌, ◌*◌, ◌<◌, ◌≤◌, ◌^◌, ◌≡◌, ◌≢◌, refl, ◌∙◌, true, List, [], ◌∷◌, some, none, arith, ◌∉◌,
  length, Bool-cases, inl, inr,
}
use kpr.Env.{Grant, granted}
use kpr.MemList.State.{Ptr, null, header, Mem, Run, fault, accessible, Cmd, bind}
use kpr.MemList.Ops.{processes, holes, align, insert_into, walk}
use kpr.MemList.Alloc.{malloc, round_size}
use kpr.MemList.Steps.{Live, Ends, ends, rest_at, cut}
use kpr.MemList.Heap.{IsHeap}
use kpr.MemList.Cut.{Room}
use kpr.MemList.Find.{first_fit}
use kpr.MemList.Take.{splits}
use kpr.MemList.Settle.{insert_into-Inserted}
use kpr.MemList.Gain.{gained, IsHeap-gained, Live-gained}
use kpr.MemList.Extend.{split-ok, cut-IsHeap, take_extension-cut, take_extension-whole, update-same}
use kpr.MemList.Grown.{malloc-extends}

insert_into-fault :
    (fuel : ℕ) (e : Ptr) (t : Mem)
    → t.processes_head ≡ null
    → insert_into processes (suc fuel) e t ≡ fault
unfolding insert_into walk accessible
insert_into-fault fuel e t none_yet = ground arith

Ends-fault :
    {A B : Type 0} {P : A → Mem → Type 0} {r : Run A} {k : A → Cmd B}
    → Ends P r
    → ((a : A) (t : Mem) → P a t → k a t ≡ fault)
    → bind r k ≡ fault
Ends-fault (ends p) next = next _ _ p

module _ (s : Mem) (g : Grant) (gs : List Grant) (a : ℕ) (next_grant : s.grants ≡ g ∷ gs)
    (there : granted g ≡ some a) (pos : a ≢ null) (low : a + 2 * header < 2 ^ 32) where
  -- From a well-formed heap with no block in use and with holes, none of which is large enough, with
  -- memory granted at an address that is not NULL and not at the end of the address space, a new
  -- header outside the holes, and, if the new block is split, with the rest's header in mapped memory
  -- and outside the holes, and fuel for the holes and one round: `malloc` faults.
  pub malloc-unowned :
      (hs : List Ptr) (requested fuel : ℕ)
      → IsHeap s [] hs
      → hs ≢ []
      → first_fit s.size (round_size requested) hs ≡ none
      → align a ∉ hs
      → (splits (gained s gs a) (align a) (round_size requested) ≡ true
          → Room (gained s gs a) [] (align a ∷ hs) (align a) (round_size requested))
      → length hs ≤ suc fuel
      → malloc (suc fuel) requested s ≡ fault
  malloc-unowned hs requested fuel h some_hole fit out room enough =
      malloc-extends s g gs a next_grant there pos low [] hs requested (suc fuel) h some_hole fit
        enough
      ∙ elim (Bool-cases (splits u e size)) [
        | inl c ↦
            take_extension-cut s g gs a next_grant there pos low size (suc fuel) c
              (split-ok u [] hs e size grown live refl out (update-same s.next e e) (room c))
            ∙ Ends-fault
                (insert_into-Inserted holes (cut u e size) (rest_at e size) (suc fuel) hs
                  (cut-IsHeap u [] hs e size grown live refl out (update-same s.next e e)
                    (room c)).free
                  some_hole (ground (arith, room c)) (room c).0 enough)
                (λ _ t (i, same). rw (insert_into-fault fuel e t (same.head ∙ h.in_use.head)))
        | inr c ↦
            take_extension-whole s g gs a next_grant there pos low size (suc fuel) c
            ∙ rw (insert_into-fault fuel e u h.in_use.head)
      ]
    where
      size : ℕ
      size = round_size requested

      e : Ptr
      e = align a

      u : Mem
      u = gained s gs a

      live : Live u e
      live = Live-gained s gs a g next_grant there pos low

      grown : IsHeap (gained s gs a) [] hs
      grown = IsHeap-gained s gs a [] hs refl out h
