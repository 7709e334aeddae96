-- ===== src/MemList/Headers.antt =====
-- Headers of pkg/libc_backends/lib/l4re_mem/mem_list.cc as 12 bytes of memory each. The maps of
-- kpr.MemList.State are what memory holds as long as no two headers meet: then a write to a header's field
-- is the write of four bytes.
use kpr.Base.{
  ℕ, ◌+◌, ◌*◌, ◌/◌, ◌%◌, ◌≤◌, ◌≡◌, ◌≢◌, ◌⊎◌, inl, inr, sym, ◌∙◌, List, arith, ◌==◌, if◌then◌else◌,
  Bool-cases, count, ◌∈◌,
}
use kpr.MemList.State.{Ptr, header, Mem, Run, ok}
use kpr.MemList.Spaced.{Held}

-- Two headers that do not meet.
abbrev pub Off : Ptr → Ptr → Type 0
Off a b = (a + header ≤ b) ⊎ (b + header ≤ a)

-- A header that meets none of the lists'.
abbrev pub OffAll : Ptr → (ps hs : List Ptr) → Type 0
OffAll e ps hs = (a : Ptr) → Held ps hs a → Off e a

-- No two of the lists' headers meet.
abbrev pub Separate : (ps hs : List Ptr) → Type 0
Separate ps hs = (a b : Ptr) → Held ps hs a → Held ps hs b → a ≢ b → Off a b

abbrev pub SameOn : (ps hs : List Ptr) → (f g : Ptr → ℕ) → Type 0
SameOn ps hs f g = (a : Ptr) → Held ps hs a → f a ≡ g a

Off-self : (a : Ptr) → Off a a → ⊥
Off-self a (inl p) = omega arith
Off-self a (inr p) = omega arith

Off-sym : (a b : Ptr) → Off a b → Off b a
Off-sym a b (inl p) = inr p
Off-sym a b (inr p) = inl p

pub OffAll-out : (e : Ptr) (ps hs : List Ptr) → OffAll e ps hs → count e ps + count e hs ≡ 0
OffAll-out e ps hs off = elim (Bool-cases (count e ps + count e hs == 0)) [
  | inl none_there ↦ ground arith
  | inr some_there ↦ absurd (Off-self e (off e (ground arith)))
]

module _ (ps hs ps' hs' : List Ptr) where
  pub Separate-fewer :
      Separate ps hs → ((a : Ptr) → Held ps' hs' a → Held ps hs a) → Separate ps' hs'
  Separate-fewer sep old a b h k ne = sep a b (old a h) (old b k) ne

  pub Separate-more :
      (e : Ptr)
      → Separate ps hs
      → OffAll e ps hs
      → ((a : Ptr) → Held ps' hs' a → (a ≡ e) ⊎ Held ps hs a)
      → Separate ps' hs'
  Separate-more e sep off old a b h k ne = both (old a h) (old b k)
    where
      both : (a ≡ e) ⊎ Held ps hs a → (b ≡ e) ⊎ Held ps hs b → Off a b
      both (inl new) (inl new') = absurd (ne (new ∙ sym new'))
      both (inl new) (inr held) = rw new (off b held)
      both (inr held) (inl new') = rw new' (Off-sym e a (off a held))
      both (inr held) (inr held') = sep a b held held' ne

-- The number in the four bytes at an address, the lowest first, and a write of it.
unfoldable pub load : (ℕ → ℕ) → ℕ → ℕ
load m p = m p + 256 * m (p + 1) + 65536 * m (p + 2) + 16777216 * m (p + 3)

unfoldable pub store : (ℕ → ℕ) → (p v : ℕ) → ℕ → ℕ
store m p v a =
    if a == p
    then v % 256
    else if a == p + 1
    then v / 256 % 256
    else if a == p + 2
    then v / 65536 % 256
    else if a == p + 3
    then v / 16777216 % 256
    else m a

-- The bytes `m` hold the fields of the headers `zs`, in the order of `Dmem_elem`.
abbrev pub Holds : (ℕ → ℕ) → Mem → List Ptr → Type 0
Holds m s zs =
    (a : Ptr)
    → a ∈ zs
    → (load m a ≡ s.size a) × (load m (a + 4) ≡ s.prev a) × (load m (a + 8) ≡ s.next a)

-- What a command leaves, where it is not a fault.
abbrev pub Leaves : Run (Unit {0}) → (Mem → Type 0) → Type 0
Leaves r P = (t : Mem) × (r ≡ ok tt t) × P t
