-- ===== src/MemList/Supply.antt =====
-- What the environment answers to pkg/libc_backends/lib/l4re_mem/mem_list.cc over any number of calls: areas that
-- are apart from each other.
use kpr.Base.{ℕ, ◌+◌, ◌%◌, ◌<◌, ◌≤◌, ◌^◌, ◌≡◌, ◌≢◌, ◌⊎◌, inl, inr, List, [], ◌∷◌, arith, some}
use kpr.Env.{Grant, granted}
use kpr.MemList.State.{Ptr, null, ext_mem, header, Mem}
use kpr.MemList.Ops.{align}
use kpr.MemList.Spread.{Covers, Spread}
use kpr.MemList.Settled.{Clear}
use kpr.MemList.Laid.{Offer, Kept, Used}

-- The answer is memory at `a`, aligned for words, away from NULL and from the end of the address space.
pub record Area (g : Grant) (a : ℕ) : Type 0 where
  pub there : granted g ≡ some a
  pub pos : a ≢ null
  pub whole : a % 4 ≡ 0
  pub low : a + ext_mem + 48 < 2 ^ 32

-- Between new memory at `a` and each of the regions are four bytes or more.
abbrev pub Off : List (ℕ × ℕ) → ℕ → Type 0
Off [] a = Unit {0}
Off ((start, length) ∷ rs) a =
    ((a + header + ext_mem + 4 ≤ start) ⊎ (start + length + 4 ≤ a)) × Off rs a

-- Each answer to come is memory off the regions and off the answers before it.
abbrev pub Supply : List Grant → List (ℕ × ℕ) → Type 0
Supply [] rs = Unit {0}
Supply (g ∷ gs) rs = (a : ℕ) × Area g a × Off rs a × Supply gs ((a, ext_mem + header) ∷ rs)

Off-apart :
    (rs : List (ℕ × ℕ)) (a e b n : ℕ)
    → Off rs a
    → Covers rs b (n + 8)
    → a ≤ e
    → e ≤ a + 4
    → (e + header + ext_mem ≤ b) ⊎ (b + header + n ≤ e)
Off-apart [] a e b n off c low high = absurd c
Off-apart ((start, length) ∷ rs) a e b n (inl p, off) (inl c) low high = inl (omega arith)
Off-apart ((start, length) ∷ rs) a e b n (inr p, off) (inl c) low high = inr (omega arith)
Off-apart ((start, length) ∷ rs) a e b n (p, off) (inr c) low high =
    Off-apart rs a e b n off c low high

module _ (s : Mem) (ps hs : List Ptr) (spread : Spread s ps hs) (g : Grant) (gs : List Grant)
    (a : ℕ) (next : s.grants ≡ g ∷ gs) (area : Area g a) (off : Off s.regions a) where
  bounds : (a ≤ align a) × (align a ≤ a + 4)
  unfolding align
  bounds = ground (arith, area.whole, area.low)

  Off-Clear : Clear s ps hs (align a)
  Off-Clear b held =
      Off-apart s.regions a (align a) b (s.size b) off (spread.backed b held) bounds.0 bounds.1

  pub Off-Offer : Offer s ps hs gs a
  Off-Offer = record {
    grant = g;
    next_grant = next;
    there = area.there;
    pos = area.pos;
    whole = area.whole;
    low = area.low;
    clear = Off-Clear;
  }

-- What a request leaves is a supply again.
pub Supply-left :
    (s t : Mem) (g : Grant) (gs : List Grant) (a : ℕ)
    → Supply s.grants s.regions
    → Supply gs ((a, ext_mem + header) ∷ s.regions)
    → Kept s t ⊎ Used s gs a t
    → Supply t.grants t.regions
Supply-left s t g gs a all rest (inl (grants, regions)) = rw (grants, regions) all
Supply-left s t g gs a all rest (inr (grants, regions)) = rw (grants, regions) rest
