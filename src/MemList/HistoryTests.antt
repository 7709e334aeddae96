-- ===== src/MemList/HistoryTests.antt =====
-- A program that calls `malloc` and `free` of pkg/libc_backends/lib/l4re_mem/mem_list.cc.
use kpr.Base.{ℕ, true, refl, inl, inr, [], ◌∷◌, arith}
use kpr.Env.{Grant, granted}
use kpr.MemList.State.{null, Mem, Run, ok, fault, out_of_fuel, accessible, mapped}
use kpr.MemList.Ops.{
  answer, extend_mem, align, split, walk, link_before, exchange, settle, insert_into, unlink,
  remove_from,
}
use kpr.MemList.Alloc.{
  round_size, init_block, init_holes, find, add_alone, add_to, take_hole, malloc, free,
}
use kpr.MemList.Insert.{insert_sorted}
use kpr.MemList.Steps.{Ends}
use kpr.MemList.Laid.{Served}
use kpr.MemList.Supply.{Supply}
use kpr.MemList.History.{Request, Lived, begins, mallocs, frees, Lived-malloc}

abbrev grant : ℕ → Grant
grant a = record { cap_is_valid = true; alloc_err = 0; attach_err = 0; addr = a }

abbrev start : Mem
start = record {
  size = λ _. 0;
  prev = λ _. null;
  next = λ _. null;
  processes_head = null;
  holes_head = null;
  regions = [];
  grants = grant 4096 ∷ grant 65536 ∷ [];
}

abbrev state_after : {A : Type 0} → Run A → Mem
state_after (ok a s) = s
state_after fault = start
state_after out_of_fuel = start

start-Supply : Supply start.grants start.regions
unfolding granted
start-Supply = (
  4096,
  record { there = refl; pos = λ e. omega arith; whole = refl; low = omega arith },
  tt,
  (
    65536,
    record { there = refl; pos = λ e. omega arith; whole = refl; low = omega arith },
    (inr (omega arith), tt),
    tt,
  ),
)

abbrev one_block : Mem
one_block = state_after (malloc 1 10 start)

abbrev two_blocks : Mem
two_blocks = state_after (malloc 2 10 one_block)

abbrev one_freed : Mem
one_freed = state_after (free 2 4112 two_blocks)

one_block-Lived : Lived 1 one_block (4100 ∷ [])
unfolding granted answer mapped accessible extend_mem align split walk link_before exchange settle
    insert_into unlink remove_from round_size init_block init_holes find add_alone add_to take_hole
    malloc free insert_sorted
one_block-Lived =
    mallocs 10 1 4112 (begins start refl refl start-Supply)
      (record { some_grant = λ e. cc; exact = refl; fits = omega arith; ready = inr refl })
      (omega arith) refl

two_blocks-Lived : Lived 2 two_blocks (4100 ∷ 4124 ∷ [])
unfolding granted answer mapped accessible extend_mem align split walk link_before exchange settle
    insert_into unlink remove_from round_size init_block init_holes find add_alone add_to take_hole
    malloc free insert_sorted
two_blocks-Lived =
    mallocs 10 2 4136 one_block-Lived
      (record { some_grant = λ e. cc; exact = refl; fits = omega arith; ready = inl (λ e. cc) })
      (omega arith) refl

one_freed-Lived : Lived 3 one_freed (4124 ∷ [])
unfolding granted answer mapped accessible extend_mem align split walk link_before exchange settle
    insert_into unlink remove_from round_size init_block init_holes find add_alone add_to take_hole
    malloc free insert_sorted
one_freed-Lived = frees [] (4124 ∷ []) 4100 2 two_blocks-Lived (omega arith) refl

one_freed-Request : Request one_freed (4124 ∷ []) 10
unfolding granted answer mapped accessible extend_mem align split walk link_before exchange settle
    insert_into unlink remove_from round_size init_block init_holes find add_alone add_to take_hole
    malloc free insert_sorted
one_freed-Request = record {
  some_grant = λ e. cc;
  exact = refl;
  fits = omega arith;
  ready = inl (λ e. cc);
}

Lived-malloc_example : Ends (Served (4124 ∷ []) 4 12) (malloc 4 10 one_freed)
unfolding round_size
Lived-malloc_example =
    Lived-malloc 3 one_freed (4124 ∷ []) 10 4 one_freed-Lived one_freed-Request (omega arith)
