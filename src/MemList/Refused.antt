-- ===== src/MemList/Refused.antt =====
-- What `malloc` of pkg/libc_backends/lib/l4re_mem/mem_list.cc does when the environment grants no
-- memory: nothing tests the `NULL` of `extend_mem`.
use kpr.Base.{true, ℕ, ◌≡◌, refl, false, List, [], ◌∷◌, arith, none, ◌==◌}
use kpr.Env.{Grant, granted}
use kpr.MemList.State.{null, Mem, ok, fault, accessible}
use kpr.MemList.Ops.{extend_mem, align}
use kpr.MemList.Alloc.{init_block, init_holes, malloc}

-- The environment's next answer is a refusal, at whichever of the three calls.
abbrev Refuses : List Grant → Type 0
Refuses [] = Unit
Refuses (g ∷ gs) = granted g ≡ none

abbrev rest_of : List Grant → List Grant
rest_of [] = []
rest_of (g ∷ gs) = gs

extend_mem_of_answer :
    (s : Mem) (gs : List Grant)
    → Refuses gs
    → extend_mem (record s { grants = gs }) ≡ ok null (record s { grants = rest_of gs })
unfolding extend_mem
extend_mem_of_answer s [] r = refl
extend_mem_of_answer s (g ∷ gs) r = ground arith

-- A refusal at any of the three calls makes `extend_mem` return NULL, and no memory is mapped.
extend_mem-null :
    (s : Mem) → Refuses s.grants → extend_mem s ≡ ok null (record s { grants = rest_of s.grants })
extend_mem-null s r = extend_mem_of_answer s s.grants r

-- With no free block, and no memory granted, `malloc` faults if the header that it makes from NULL is
-- not in mapped memory.
malloc-fault :
    (s : Mem) (fuel requested : ℕ)
    → s.holes_head ≡ null
    → Refuses s.grants
    → accessible s.regions (align null) ≡ false
    → malloc fuel requested s ≡ fault
unfolding malloc init_holes init_block
malloc-fault s fuel requested empty refused unmapped =
    let none_free : (s.holes_head == null) ≡ true = ground arith in
    rw (none_free, extend_mem-null s refused, unmapped)
