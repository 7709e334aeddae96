-- ===== src/MemList/Alloc.antt =====
-- `malloc` and `free` of pkg/libc_backends/lib/l4re_mem/mem_list.cc.
use kpr.Base.{
  ℕ, zero, suc, ◌-◌, ◌%◌, Option, none, some, ltb, leb, ◌==◌, if◌then◌else◌, add32, sub32,
}
use kpr.MemList.State.{
  Ptr, null, ext_mem, size_int, header, Cmd, out_of_fuel, pure, ◌>>=◌, ◌>>◌, get_size, get_next,
  set_size, set_prev, set_next,
}
use kpr.MemList.Ops.{
  Which, processes, holes, get_head, set_head, extend_mem, align, split, insert_into, remove_from,
}

-- "ensure that size is aligned"
unfoldable pub round_size : ℕ → ℕ
round_size size =
    if leb size size_int
    then size_int
    else if size % size_int == 0
    then size
    else add32 size (size_int - size % size_int)

-- A header that is alone in its ring, with all of a new piece of memory.
unfoldable pub init_block : Ptr → Cmd (Unit {0})
init_block p = do set_size p ext_mem; set_next p p; set_prev p p

-- "initialze Holes-Head Element"
unfoldable pub init_holes : Cmd (Unit {0})
init_holes = do addr ← extend_mem; set_head holes (align addr); init_block (align addr)

-- The first hole from `runner` on with at least `size` bytes; `none` when the loop is round.
unfoldable pub find : ℕ → (runner : Ptr) → (size : ℕ) → Cmd (Option Ptr)
find zero runner size = λ _. out_of_fuel
find (suc k) runner size = do
  have ← get_size runner
  if leb size have then pure (some runner) else do
    n ← get_next runner
    head ← get_head holes
    if n == head then pure none else find k n size

-- The header becomes the whole list: "create processes_head", and the like in `free`.
unfoldable pub add_alone : Which → Ptr → Cmd (Unit {0})
add_alone w elem = do set_head w elem; set_next elem elem; set_prev elem elem

-- "add runner to Processes-List", and "add elem into Holes-List".
unfoldable pub add_to : Which → ℕ → Ptr → Cmd (Unit {0})
add_to w fuel elem = do
  head ← get_head w
  if head == null then add_alone w elem else insert_into w fuel elem

-- What `malloc` does with the hole that it found.
unfoldable pub take_hole : ℕ → Ptr → ℕ → Cmd Ptr
take_hole fuel runner size = do
  have ← get_size runner
  if ltb header (sub32 have size) then split runner size else pure tt
  remove_from holes runner
  add_to processes fuel runner
  pure (add32 runner header)

-- What `malloc` does where no hole is large enough.
unfoldable pub take_extension : ℕ → ℕ → Cmd Ptr
take_extension fuel size = do
  addr ← extend_mem
  let ext = align addr
  init_block ext
  have ← get_size ext
  if ltb header (sub32 have size)
      then (do split ext size; n ← get_next ext; insert_into holes fuel n)
      else pure tt
  insert_into processes fuel ext
  pure (add32 ext header)

unfoldable pub malloc : ℕ → ℕ → Cmd Ptr
malloc fuel requested = do
  let size = round_size requested
  head ← get_head holes
  if head == null then init_holes else pure tt
  runner ← get_head holes
  found ← find fuel runner size
  elim found [ some hole ↦ take_hole fuel hole size | none ↦ take_extension fuel size ]

unfoldable pub free : ℕ → Ptr → Cmd (Unit {0})
free fuel addr = do let elem = sub32 addr header; remove_from processes elem; add_to holes fuel elem
