-- ===== src/MemBitmap/Tests.antt =====
-- Runs of the bitmap allocator.
use kpr.Base.{ℕ, refl, leb, ◌&&◌, false, ◌≡◌, true, arith, ltb, ◌==◌, if◌then◌else◌}
use kpr.Env.{Grant, granted}
use kpr.MemBitmap.Alloc.{Heap, ok, out_of_bounds, round_size, malloc, free}
use kpr.MemBitmap.Leak.{malloc_free-leaks}
use kpr.MemBitmap.Mark.{Answer, malloc-Answer, free-out_of_bounds}

abbrev grant : Grant
grant = record { cap_is_valid = true; alloc_err = 0; attach_err = 0; addr = 65536 }

-- The first two words are taken, and the fourth.
abbrev heap : Heap
heap = record { bits = λ i. if ltb i 2 then true else i == 3; words = λ _. 4; start_addr = 65536 }

malloc-Answer_example : Answer heap 8 (malloc grant 5 heap)
unfolding round_size
malloc-Answer_example = malloc-Answer grant 5 heap (λ h. omega arith)

free-out_of_bounds_example : free 131072 65548 heap ≡ out_of_bounds
free-out_of_bounds_example =
    free-out_of_bounds 131072 2 heap (omega arith) (omega arith) (omega arith)

abbrev nothing : Heap
nothing = record { bits = λ _. false; words = λ _. 0; start_addr = 0 }

-- Of the 26 bits of a block of 100 bytes, `free` leaves all but four.
malloc_free-leaks_example :
    (t u : Heap) × (malloc grant 97 nothing ≡ (65540, t))
    × (free 131072 65540 t ≡ ok 0 u)
    × ((i : ℕ) → t.bits i ≡ leb i 25)
    × ((i : ℕ) → u.bits i ≡ (ltb 3 i && leb i 25))
unfolding granted round_size
malloc_free-leaks_example =
    malloc_free-leaks grant 65536 97 131072 nothing refl refl (omega arith) (omega arith)
      (omega arith)
