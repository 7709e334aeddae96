-- ===== src/MemList/Ops.antt =====
-- The list operations of pkg/libc_backends/lib/l4re_mem/mem_list.cc, pointer by pointer.
-- A loop runs on fuel.
use kpr.Base.{
  ℕ, zero, suc, ◌+◌, ◌-◌, ◌%◌, Bool, false, not, none, some, List, [], ◌∷◌, ltb, leb, ◌==◌,
  if◌then◌else◌, add32, sub32,
}
use kpr.Env.{Grant, granted}
use kpr.MemList.State.{
  Ptr, null, ext_mem, alignment, header, Mem, Run, ok, out_of_fuel, Cmd, pure, ◌>>=◌, ◌>>◌,
  get_size, get_prev, get_next, set_size, set_prev, set_next,
}

-- The two lists. `insert_into_processes` and `insert_into_holes`, and the two `remove_from_` functions,
-- are the same text over another head and another order.
pub data Which : Type 0 where
  processes holes : Which

abbrev pub head_of : Which → Mem → Ptr
head_of w s = elim w [ processes ↦ s.processes_head | holes ↦ s.holes_head ]

abbrev pub with_head : Which → Ptr → Mem → Mem
with_head w p s = record s {
  processes_head = elim w [ processes ↦ p | holes ↦ s.processes_head ];
  holes_head = elim w [ processes ↦ s.holes_head | holes ↦ p ];
}

abbrev pub get_head : Which → Cmd Ptr
get_head w s = ok (head_of w s) s

abbrev pub set_head : Which → Ptr → Cmd (Unit {0})
set_head w p s = ok tt (with_head w p s)

-- The loop's test: `runner < elem`, or `runner->size <= elem->size`.
abbrev pub passes : Which → Ptr → Ptr → Cmd Bool
passes processes runner elem = pure (ltb runner elem)
passes holes runner elem = do a ← get_size runner; b ← get_size elem; pure (leb a b)

-- The test for a new head: `runner > elem`, or `runner->size > elem->size`.
abbrev pub exceeds : Which → Ptr → Ptr → Cmd Bool
exceeds processes runner elem = pure (ltb elem runner)
exceeds holes runner elem = do a ← get_size runner; b ← get_size elem; pure (ltb b a)

-- `a && b`, where `b` is evaluated only if `a` holds.
abbrev pub and_then : Bool → Cmd Bool → Cmd Bool
and_then a m = if a then m else pure false

-- The next answer of the environment, which is a failure where no answer is left.
unfoldable pub answer : List Grant → Mem → Run Ptr
answer [] s = ok null s
answer (g ∷ gs) s = elim (granted g) [
  | none ↦ ok null (record s { grants = gs })
  | some a ↦ ok a (record s { grants = gs; regions = (a, ext_mem + header) ∷ s.regions })
]

unfoldable pub extend_mem : Cmd Ptr
unfolding answer
extend_mem s = answer s.grants s

-- The address of the header is moved up until the byte behind the header is aligned.
unfoldable pub align : Ptr → Ptr
align elem =
    let ret = add32 elem header in
    sub32 (if ret % alignment == 0 then ret else add32 ret (alignment - ret % alignment)) header

unfoldable pub split : Ptr → ℕ → Cmd (Unit {0})
split elem size = do
  let new_elem = align (add32 (add32 elem header) size)
  old ← get_size elem
  set_size new_elem (sub32 (sub32 old size) header)
  set_prev new_elem elem
  n ← get_next elem
  set_next new_elem n
  m ← get_next elem
  set_prev m new_elem
  set_size elem size
  set_next elem new_elem

-- `while (runner->next != head && runner passes elem) runner = runner->next`
unfoldable pub walk : Which → ℕ → (head runner elem : Ptr) → Cmd Ptr
walk w zero head runner elem = λ _. out_of_fuel
walk w (suc k) head runner elem = do
  n ← get_next runner
  on ← and_then (not (n == head)) (passes w runner elem)
  if on then walk w k head n elem else pure runner

-- "insert elem before runner"
unfoldable pub link_before : (elem runner : Ptr) → Cmd (Unit {0})
link_before elem runner = do
  set_next elem runner
  p ← get_prev runner
  set_prev elem p
  q ← get_prev runner
  set_next q elem
  set_prev runner elem

-- "exchange elem and runner"
unfoldable pub exchange : (elem runner : Ptr) → Cmd (Unit {0})
exchange elem runner = do
  n ← get_next runner
  set_next elem n
  p ← get_prev elem
  set_prev runner p
  m ← get_next runner
  set_prev m elem
  set_next runner elem
  q ← get_prev elem
  set_next q runner
  set_prev elem runner

-- What follows the loop, with `runner` where the loop stopped: a new head, or a new end.
unfoldable pub settle : Which → (runner elem : Ptr) → Cmd (Unit {0})
settle w runner elem = do
  head ← get_head w
  is_first ← and_then (runner == head) (exceeds w runner elem)
  if is_first then set_head w elem else do
    n ← get_next runner
    is_last ← and_then (n == head) (passes w runner elem)
    if is_last then exchange elem runner else pure tt

unfoldable pub insert_into : Which → ℕ → Ptr → Cmd (Unit {0})
insert_into w fuel elem = do
  head ← get_head w
  runner ← walk w fuel head head elem
  link_before elem runner
  settle w runner elem

unfoldable pub unlink : Which → Ptr → Cmd (Unit {0})
unlink w elem = do
  p ← get_prev elem
  n ← get_next elem
  set_next p n
  m ← get_next elem
  q ← get_prev elem
  set_prev m q
  head ← get_head w
  if elem == head then (do k ← get_next elem; set_head w k) else pure tt

unfoldable pub remove_from : Which → Ptr → Cmd (Unit {0})
remove_from w elem = do
  head ← get_head w
  only ← and_then (elem == head) (do n ← get_next elem; pure (n == head))
  if only then set_head w null else unlink w elem
  set_next elem null
  set_prev elem null
