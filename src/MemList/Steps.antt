-- ===== src/MemList/Steps.antt =====
-- The straight-line parts of pkg/libc_backends/lib/l4re_mem/mem_list.cc: on headers in mapped memory
-- they run to the end, and this is the state that they leave.
use kpr.Base.{ℕ, add32, sub32, ◌≡◌, ◌≢◌, true, arith, ◌==◌, if◌then◌else◌}
use kpr.MemList.State.{header, Ptr, null, Mem, Run, ok, Cmd, bind, accessible, update}
use kpr.MemList.Alloc.{add_alone}
use kpr.MemList.Ops.{
  align, split, Which, processes, holes, head_of, with_head, link_before, exchange, unlink,
  remove_from,
}

-- A run that ends without a fault and with enough fuel, and what then holds.
pub data Ends {A : Type 0} (P : A → Mem → Type 0) : Run A → Type 0 where
  ends : {a : A} {s : Mem} → P a s → Ends P (ok a s)

module _ {A : Type 0} {P : A → Mem → Type 0} where
  pub Ends-bind :
      {B : Type 0} {Q : B → Mem → Type 0} {r : Run A} {k : A → Cmd B}
      → Ends P r
      → ((a : A) (s : Mem) → P a s → Ends Q (k a s))
      → Ends Q (bind r k)
  Ends-bind (ends p) next = next _ _ p

  pub Ends-mono :
      {Q : A → Mem → Type 0} {r : Run A} → Ends P r → ((a : A) (s : Mem) → P a s → Q a s) → Ends Q r
  Ends-mono (ends p) weaken = ends (weaken _ _ p)

-- The header at `a` can be read and written.
abbrev pub Live : Mem → Ptr → Type 0
Live s a = accessible s.regions a ≡ true

pub Live-ne_null : (s : Mem) (a : Ptr) → Live s a → a ≢ null
unfolding accessible
Live-ne_null s a l = ground arith

module _ (s : Mem) (e r : Ptr) where
  abbrev pub linked : Mem
  linked = record s {
    next = update (update s.next e r) (s.prev r) e;
    prev = update (update s.prev e (s.prev r)) r e;
  }

  pub link_before-ok :
      r ≢ e → Live s e → Live s r → Live s (s.prev r) → link_before e r s ≡ ok tt linked
  unfolding link_before
  link_before-ok ne le lr lp = ground arith

  abbrev pub exchanged : Mem
  exchanged = record s {
    next = update (update (update s.next e (s.next r)) r e) (s.prev e) r;
    prev = update (update (update s.prev r (s.prev e)) (s.next r) e) e r;
  }

  pub exchange-ok :
      r ≢ e
      → s.next r ≢ e
      → s.next r ≢ r
      → Live s e
      → Live s r
      → Live s (s.next r)
      → Live s (s.prev e)
      → exchange e r s ≡ ok tt exchanged
  unfolding exchange
  exchange-ok ne n1 n2 le lr ln lp = ground arith

module _ (s : Mem) (e : Ptr) where
  -- The last header of a list leaves it.
  abbrev pub emptied : Which → Mem
  emptied w =
      with_head w null (record s { next = update s.next e null; prev = update s.prev e null })

  pub remove_from-emptied :
      (w : Which)
      → head_of w s ≡ e
      → s.next e ≡ e
      → Live s e
      → remove_from w e s ≡ ok tt (emptied w)
  unfolding remove_from
  remove_from-emptied processes h n l = ground arith
  remove_from-emptied holes h n l = ground arith

  -- A header leaves a list that goes on without it.
  abbrev pub unlinked : Which → Mem
  unlinked w = with_head w (if e == head_of w s then s.next e else head_of w s) (record s {
    next = update (update s.next (s.prev e) (s.next e)) e null;
    prev = update (update s.prev (s.next e) (s.prev e)) e null;
  })

  pub remove_from-unlinked :
      (w : Which)
      → s.next e ≢ e
      → s.prev e ≢ e
      → Live s e
      → Live s (s.next e)
      → Live s (s.prev e)
      → remove_from w e s ≡ ok tt (unlinked w)
  unfolding remove_from unlink
  remove_from-unlinked processes n p le ln lp = ground arith
  remove_from-unlinked holes n p le ln lp = ground arith

  -- A header becomes the whole list.
  abbrev pub alone : Which → Mem
  alone w = with_head w e (record s { next = update s.next e e; prev = update s.prev e e })

  pub add_alone-ok : (w : Which) → Live s e → add_alone w e s ≡ ok tt (alone w)
  unfolding add_alone
  add_alone-ok w l = ground arith

-- Where `split` puts the header of the rest.
abbrev pub rest_at : Ptr → ℕ → Ptr
rest_at r size = align (add32 (add32 r header) size)

module _ (s : Mem) (r : Ptr) (size : ℕ) where
  -- The block is cut in two, and the rest stands behind it in its ring.
  abbrev pub cut : Mem
  cut = record s {
    size = update (update s.size (rest_at r size) (sub32 (sub32 (s.size r) size) header)) r size;
    prev = update (update s.prev (rest_at r size) r) (s.next r) (rest_at r size);
    next = update (update s.next (rest_at r size) (s.next r)) r (rest_at r size);
  }

  pub split-cut :
      rest_at r size ≢ r
      → Live s r
      → Live s (rest_at r size)
      → Live s (s.next r)
      → split r size s ≡ ok tt cut
  unfolding split
  split-cut ne lr ln lm = ground arith
