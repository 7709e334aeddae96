-- ===== src/MemList/Invariant.antt =====
-- What the lists of pkg/libc_backends/lib/l4re_mem/mem_list.cc are between two calls.
use kpr.Base.{refl, ◌≡◌, List, [], ◌∷◌, ◌∈◌, ◌∉◌, Distinct}
use kpr.MemList.State.{Ptr, null, Mem}
use kpr.MemList.Ops.{Which, processes, holes, head_of, with_head}
use kpr.MemList.Ring.{Ring}
use kpr.MemList.Steps.{Live}

abbrev pub first : List Ptr → Ptr
first [] = null
first (x ∷ xs) = x

abbrev pub other : Which → Which
other processes = holes
other holes = processes

-- The list `w` is the ring `xs` of different headers, all in mapped memory, from its head on.
pub record IsList (w : Which) (s : Mem) (xs : List Ptr) : Type 0 where
  pub head : head_of w s ≡ first xs
  pub ring : Ring s.next s.prev xs
  pub distinct : Distinct xs
  pub live : (a : Ptr) → a ∈ xs → Live s a

-- From `s` to `t` only the list `w` and the links of the headers `xs` may have changed.
pub record SameBut (w : Which) (xs : List Ptr) (s t : Mem) : Type 0 where
  pub size : t.size ≡ s.size
  pub regions : t.regions ≡ s.regions
  pub grants : t.grants ≡ s.grants
  pub head : head_of (other w) t ≡ head_of (other w) s
  pub next : (a : Ptr) → a ∉ xs → t.next a ≡ s.next a
  pub prev : (a : Ptr) → a ∉ xs → t.prev a ≡ s.prev a

pub head_of-with_head : (w : Which) (p : Ptr) (s : Mem) → head_of w (with_head w p s) ≡ p
head_of-with_head processes p s = refl
head_of-with_head holes p s = refl

pub head_of-other :
    (w : Which) (p : Ptr) (s : Mem) → head_of (other w) (with_head w p s) ≡ head_of (other w) s
head_of-other processes p s = refl
head_of-other holes p s = refl
