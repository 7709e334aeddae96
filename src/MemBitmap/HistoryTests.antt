-- ===== src/MemBitmap/HistoryTests.antt =====
-- A program that calls `malloc` and `free` of pkg/libc_backends/lib/l4re_mem/mem_bitmap.cc.
use kpr.Base.{ℕ, ◌≡◌, refl, true, false, [], ◌∷◌, arith}
use kpr.Env.{Grant, granted}
use kpr.MemBitmap.Alloc.{
  Heap, Run, ok, out_of_bounds, init, round_size, search, mark, take, malloc, clear, free,
}
use kpr.MemBitmap.Apart.{Kept}
use kpr.MemBitmap.History.{IsInside, Calls, begins, mallocs, frees, Calls-Kept}

abbrev grant : Grant
grant = record { cap_is_valid = true; alloc_err = 0; attach_err = 0; addr = 65536 }

abbrev nothing : Heap
nothing = record { bits = λ _. false; words = λ _. 0; start_addr = 0 }

abbrev left : Run → Heap
left (ok r s) = s
left out_of_bounds = nothing

abbrev one_block : Heap
one_block = (malloc grant 5 nothing).1

abbrev two_blocks : Heap
two_blocks = (malloc grant 10 one_block).1

abbrev one_freed : Heap
one_freed = left (free 262144 65540 two_blocks)

grant-IsInside : IsInside grant
unfolding granted
grant-IsInside a e = let same : ◌≡◌ {A = ℕ} 65536 a = cc in ((λ h. omega arith), omega arith)

one_block-Calls : Calls one_block ((0, 8) ∷ [])
unfolding granted init round_size search mark take malloc
one_block-Calls = mallocs grant 5 65540 (begins nothing refl) grant-IsInside refl

two_blocks-Calls : Calls two_blocks ((3, 12) ∷ (0, 8) ∷ [])
unfolding granted init round_size search mark take malloc
two_blocks-Calls = mallocs grant 10 65552 one_block-Calls grant-IsInside refl

one_freed-Calls : Calls one_freed ((3, 12) ∷ [])
unfolding granted init round_size search mark take malloc clear free
one_freed-Calls = frees ((3, 12) ∷ []) [] 0 8 262144 0 two_blocks-Calls refl

Calls-Kept_example : Kept one_freed ((3, 12) ∷ [])
Calls-Kept_example = Calls-Kept one_freed ((3, 12) ∷ []) one_freed-Calls
