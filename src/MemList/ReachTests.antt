-- ===== src/MemList/ReachTests.antt =====
-- A life of the allocator of pkg/libc_backends/lib/l4re_mem/mem_list.cc: a first `malloc`, and the `free` of its block.
use kpr.Base.{
  List, ℕ, ◌≡◌, ◌+◌, ◌==◌, ◌⊎◌, ◌∙◌, sym, inl, inr, ◌≢◌, Bool-cases, add32, true, refl, [], ◌∷◌,
  arith,
}
use kpr.Env.{Grant, granted}
use kpr.MemList.State.{
  Ptr, ◌>>=◌, ◌>>◌, header, null, Mem, Run, ok, fault, out_of_fuel, accessible, mapped,
}
use kpr.MemList.Ops.{
  answer, extend_mem, align, split, walk, link_before, exchange, settle, insert_into, unlink,
  remove_from,
}
use kpr.MemList.Alloc.{
  round_size, init_block, init_holes, find, add_alone, add_to, take_hole, malloc, free,
}
use kpr.MemList.Heap.{by_size}
use kpr.MemList.Find.{first_fit}
use kpr.MemList.Take.{replace}
use kpr.MemList.Insert.{insert_sorted}
use kpr.MemList.Steps.{Ends}
use kpr.MemList.Spaced.{Held, Placed, Apart}
use kpr.MemList.Spread.{Covers}
use kpr.MemList.Laid.{Laid, Offer, Served}
use kpr.MemList.Life.{none-Laid, malloc-Served, free-Laid, malloc-free}
use kpr.MemList.Reuse.{free_malloc_reuses}
use kpr.MemList.Reach.{Reach, empty, starts, frees, Granted, Sound, Reach-Sound}

abbrev grant : Grant
grant = record { cap_is_valid = true; alloc_err = 0; attach_err = 0; addr = 4096 }

abbrev start : Mem
start = record {
  size = λ _. 0;
  prev = λ _. null;
  next = λ _. null;
  processes_head = null;
  holes_head = null;
  regions = [];
  grants = grant ∷ [];
}

abbrev state_after : {A : Type 0} → Run A → Mem
state_after (ok a s) = s
state_after fault = start
state_after out_of_fuel = start

abbrev one_in_use : Mem
one_in_use = state_after (malloc 1 10 start)

abbrev all_free : Mem
all_free = state_after (free 1 4112 one_in_use)

grant-Granted : Granted start [] 4096
unfolding granted
grant-Granted = record {
  grant = grant;
  next_grant = refl;
  there = refl;
  pos = λ e. omega arith;
  low = omega arith;
}

one_in_use-Reach : Reach one_in_use (4100 ∷ []) (4124 ∷ [])
unfolding granted answer mapped accessible extend_mem align split walk link_before exchange settle
    insert_into unlink remove_from round_size init_block init_holes find add_alone add_to take_hole
    malloc free first_fit replace insert_sorted
one_in_use-Reach =
    starts [] 4096 10 1 4112 (empty start refl refl) grant-Granted (λ a h. absurd (omega arith))
      (omega arith) (λ _. (refl, λ a h. inr (ground arith))) (omega arith) (omega arith) refl

all_free-Reach : Reach all_free [] (4100 ∷ 4124 ∷ [])
unfolding granted answer mapped accessible extend_mem align split walk link_before exchange settle
    insert_into unlink remove_from round_size init_block init_holes find add_alone add_to take_hole
    malloc free first_fit replace insert_sorted
all_free-Reach = frees [] [] 4100 1 one_in_use-Reach (omega arith) (omega arith) refl

Reach-Sound_example : Sound all_free [] (4100 ∷ 4124 ∷ [])
Reach-Sound_example = Reach-Sound all_free [] (4100 ∷ 4124 ∷ []) all_free-Reach

start-Laid : Laid start [] []
start-Laid = none-Laid start refl refl

start-Offer : Offer start [] [] [] 4096
unfolding granted
start-Offer = record {
  grant = grant;
  next_grant = refl;
  there = refl;
  pos = λ e. omega arith;
  whole = refl;
  low = omega arith;
  clear = λ b h. absurd (omega arith);
}

malloc-Served_example : Ends (Served [] 1 12) (malloc 1 10 start)
unfolding round_size
malloc-Served_example =
    malloc-Served start [] [] [] 4096 10 1 start-Laid start-Offer refl (omega arith)
      (inr (inl refl)) (omega arith) (omega arith) (omega arith)

sizes :
    (one_in_use.size 4100 ≡ 12)
    × (one_in_use.size 4124 ≡ 32744)
    × (one_in_use.regions ≡ (4096, 32780) ∷ [])
unfolding granted answer mapped accessible extend_mem align split walk link_before exchange settle
    insert_into unlink remove_from round_size init_block init_holes find add_alone add_to take_hole
    malloc free first_fit replace insert_sorted
sizes = (refl, refl, refl)

two : (a : ℕ) → Held (4100 ∷ []) (4124 ∷ []) a → (a ≡ 4100) ⊎ (a ≡ 4124)
two a h = elim (Bool-cases (a == 4100)) [ inl e ↦ inl (ground arith) | inr e ↦ inr (ground arith) ]

placed : (a : ℕ) → (a ≡ 4100) ⊎ (a ≡ 4124) → Placed one_in_use.size a
placed a (inl e) =
    rw e (record { aligned = refl; whole = rw sizes.0 refl; low = rw sizes.0 (omega arith) })
placed a (inr e) =
    rw e (record { aligned = refl; whole = rw sizes.1 refl; low = rw sizes.1 (omega arith) })

apart :
    (a b : ℕ)
    → (a ≡ 4100) ⊎ (a ≡ 4124)
    → (b ≡ 4100) ⊎ (b ≡ 4124)
    → a ≢ b
    → Apart one_in_use.size a b
apart a b (inl e) (inl e') ne = absurd (ne (e ∙ sym e'))
apart a b (inl e) (inr e') ne = rw (e, e') (inl (rw sizes.0 (omega arith)))
apart a b (inr e) (inl e') ne = rw (e, e') (inr (rw sizes.0 (omega arith)))
apart a b (inr e) (inr e') ne = absurd (ne (e ∙ sym e'))

backed : (a : ℕ) → (a ≡ 4100) ⊎ (a ≡ 4124) → Covers one_in_use.regions a (one_in_use.size a + 8)
backed a (inl e) = rw (e, sizes.0, sizes.2) (inl (omega arith, omega arith))
backed a (inr e) = rw (e, sizes.1, sizes.2) (inl (omega arith, omega arith))

one_in_use-Laid : Laid one_in_use (4100 ∷ []) (4124 ∷ [])
one_in_use-Laid = record {
  heap = reached.heap;
  ascending = reached.ascending;
  spread = record {
    spaced = record {
      placed = λ a h. placed a (two a h);
      apart = λ a b h k ne. apart a b (two a h) (two b k) ne;
    };
    backed = λ a h. backed a (two a h);
  };
}
  where
    reached : Sound one_in_use (4100 ∷ []) (4124 ∷ [])
    reached = Reach-Sound one_in_use (4100 ∷ []) (4124 ∷ []) one_in_use-Reach

free-Laid_example :
    Ends
      (λ _ t. Laid t [] (by_size one_in_use.size 4100 (4124 ∷ [])))
      (free 1 (add32 4100 header) one_in_use)
free-Laid_example = free-Laid one_in_use [] [] (4124 ∷ []) 4100 1 one_in_use-Laid (omega arith)

malloc-free_example :
    Ends (λ _ t. (left : List Ptr) × Laid t [] left) ((malloc 1 10 >>= free 1) start)
unfolding round_size
malloc-free_example =
    malloc-free start [] [] [] 4096 10 1 start-Laid start-Offer refl (omega arith) (inr (inl refl))
      (omega arith) (omega arith)

free_malloc_reuses_example :
    Ends
      (λ p t. Served [] 3 12 p t × (t.grants ≡ one_in_use.grants))
      ((free 2 (add32 4100 header) >> malloc 2 10) one_in_use)
unfolding round_size
free_malloc_reuses_example =
    free_malloc_reuses one_in_use [] [] (4124 ∷ []) 4100 10 2 one_in_use-Laid refl
      (rw sizes.0 (omega arith)) (omega arith) (omega arith)
