-- ===== src/MemList/State.antt =====
-- The globals and the headers of pkg/libc_backends/lib/l4re_mem/mem_list.cc.
-- A header's address is a 32-bit number, and its three fields are three maps from addresses. Memory holds
-- such maps as long as no two headers meet in its bytes (kpr.MemList.Headers); a write to a header that
-- meets another changes that one as well, which these maps do not show. What the program writes into its
-- blocks is not here.
-- A header can be read and written where its 12 bytes lie in memory that `attach` has mapped;
-- elsewhere, and at `NULL`, the access is a fault.
use kpr.Base.{ℕ, ◌+◌, Bool, false, not, ◌&&◌, ◌||◌, List, [], ◌∷◌, leb, ◌==◌, if◌then◌else◌}
use kpr.Env.{Grant}

abbrev pub Ptr : Type 0
Ptr = ℕ

abbrev pub null : Ptr
null = 0

abbrev pub ext_mem : ℕ
ext_mem = 32768

abbrev pub size_int : ℕ
size_int = 4

abbrev pub alignment : ℕ
alignment = 8

-- `sizeof(Dmem_elem)`
abbrev pub header : ℕ
header = 12

-- `malloc` and `free` work on globals: the two heads, and the headers in memory. `regions` are the
-- start and length of what is mapped, `grants` the environment's answers to come.
pub record Mem : Type 0 where
  pub size : Ptr → ℕ
  pub prev : Ptr → Ptr
  pub next : Ptr → Ptr
  pub processes_head : Ptr
  pub holes_head : Ptr
  pub regions : List (ℕ × ℕ)
  pub grants : List Grant

pub data Run (A : Type 0) : Type 0 where
  ok : A → Mem → Run A
  fault : Run A
  out_of_fuel : Run A

abbrev pub Cmd : Type 0 → Type 0
Cmd A = Mem → Run A

abbrev pub pure : {A : Type 0} → A → Cmd A
pure = ok

abbrev pub bind : {A B : Type 0} → Run A → (A → Cmd B) → Run B
bind (ok a s) k = k a s
bind fault k = fault
bind out_of_fuel k = out_of_fuel

infixl 5 ◌>>=◌ ◌>>◌
abbrev pub ◌>>=◌ : {A B : Type 0} → Cmd A → (A → Cmd B) → Cmd B
m >>= k = λ s. bind (m s) k

abbrev pub ◌>>◌ : {A B : Type 0} → Cmd A → Cmd B → Cmd B
m >> n = m >>= λ _. n

-- Does the header at `p` lie in mapped memory?
unfoldable pub mapped : List (ℕ × ℕ) → Ptr → Bool
mapped [] p = false
mapped ((start, length) ∷ rs) p = (leb start p && leb (p + header) (start + length)) || mapped rs p

unfoldable pub accessible : List (ℕ × ℕ) → Ptr → Bool
accessible rs p = not (p == null) && mapped rs p

abbrev pub update : (Ptr → ℕ) → Ptr → ℕ → Ptr → ℕ
update f p v a = if a == p then v else f a

abbrev pub deref : {A : Type 0} → Ptr → Cmd A → Cmd A
deref p m s = if accessible s.regions p then m s else fault

abbrev pub get_size : Ptr → Cmd ℕ
get_size p = deref p λ s. ok (s.size p) s

abbrev pub get_prev : Ptr → Cmd Ptr
get_prev p = deref p λ s. ok (s.prev p) s

abbrev pub get_next : Ptr → Cmd Ptr
get_next p = deref p λ s. ok (s.next p) s

abbrev pub set_size : Ptr → ℕ → Cmd (Unit {0})
set_size p v = deref p λ s. ok tt (record s { size = update s.size p v })

abbrev pub set_prev : Ptr → Ptr → Cmd (Unit {0})
set_prev p q = deref p λ s. ok tt (record s { prev = update s.prev p q })

abbrev pub set_next : Ptr → Ptr → Cmd (Unit {0})
set_next p q = deref p λ s. ok tt (record s { next = update s.next p q })
