-- ===== src/MemList/Ascending.antt =====
-- The order of the blocks in use in pkg/libc_backends/lib/l4re_mem/mem_list.cc.
use kpr.Base.{◌<◌, List, [], ◌∷◌, ◌++◌, arith, ltb, All, Bool-cases, inl, inr, ◌∉◌}
use kpr.MemList.State.{Ptr}
use kpr.MemList.Insert.{insert_sorted}
use kpr.MemList.Heap.{by_address}

-- Each block stands at a lower address than all behind it.
abbrev pub Ascending : List Ptr → Type 0
Ascending [] = Unit
Ascending (x ∷ xs) = All (λ y. x < y) xs × Ascending xs

All_lt_trans : (e x : Ptr) (xs : List Ptr) → e < x → All (λ y. x < y) xs → All (λ y. e < y) xs
All_lt_trans e x [] h all = tt
All_lt_trans e x (y ∷ ys) h (here, all) = (omega arith, All_lt_trans e x ys h all)

All-by_address :
    (x e : Ptr) (xs : List Ptr) → x < e → All (λ y. x < y) xs → All (λ y. x < y) (by_address e xs)
unfolding insert_sorted
All-by_address x e [] h all = (h, tt)
All-by_address x e (y ∷ ys) h (here, all) = ground (arith, All-by_address x e ys h all)

pub by_address-Ascending :
    (e : Ptr) (xs : List Ptr) → e ∉ xs → Ascending xs → Ascending (by_address e xs)
unfolding insert_sorted
by_address-Ascending e [] out asc = (tt, tt)
by_address-Ascending e (x ∷ xs) out (low, asc) = elim (Bool-cases (ltb x e)) [
  | inl before ↦
      rw before
        (All-by_address x e xs (ground arith) low, by_address-Ascending e xs (ground arith) asc)
  | inr behind ↦ rw behind (((ground arith), All_lt_trans e x xs (ground arith) low), (low, asc))
]

All-remove :
    (P : Ptr → Type 0) (e : Ptr) (xs ys : List Ptr) → All P (xs ++ e ∷ ys) → All P (xs ++ ys)
All-remove P e [] ys (here, all) = all
All-remove P e (x ∷ xs) ys (here, all) = (here, All-remove P e xs ys all)

pub remove-Ascending :
    (e : Ptr) (xs ys : List Ptr) → Ascending (xs ++ e ∷ ys) → Ascending (xs ++ ys)
remove-Ascending e [] ys (low, asc) = asc
remove-Ascending e (x ∷ xs) ys (low, asc) =
    (All-remove (λ y. x < y) e xs ys low, remove-Ascending e xs ys asc)
