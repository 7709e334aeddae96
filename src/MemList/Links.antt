-- ===== src/MemList/Links.antt =====
-- The insertions and removals of pkg/libc_backends/lib/l4re_mem/mem_list.cc while no two headers meet: `zs` are the
-- headers of the list, and `os` those that are in memory beside them.
use kpr.Base.{
  ℕ, ◌≤◌, ◌≡◌, ◌≢◌, inl, inr, List, [], ◌∷◌, ◌++◌, arith, ◌==◌, ◌∈◌, ◌∉◌, count-append, length,
  Bool-cases, ap,
}
use kpr.MemList.State.{Ptr, null, Mem}
use kpr.MemList.Ops.{Which, head_of, insert_into, remove_from}
use kpr.MemList.Steps.{Live, Ends, Ends-mono}
use kpr.MemList.Invariant.{IsList, other}
use kpr.MemList.Insert.{precedes, insert_sorted, count-insert_sorted}
use kpr.MemList.Settle.{insert_into-Inserted}
use kpr.MemList.Remove.{remove_from-Removed}
use kpr.MemList.Headers.{OffAll, Separate, SameOn, OffAll-out, Separate-fewer, Separate-more}

-- The list `w` is `zs'` now, the headers in memory do not meet, and beside it nothing has changed: the head of the
-- other list, the sizes of all headers, and the links of the headers `os`.
pub record Linked (w : Which) (zs os : List Ptr) (s t : Mem) : Type 0 where
  pub list : IsList w t zs
  pub separate : Separate zs os
  pub head : head_of (other w) t ≡ head_of (other w) s
  pub sizes : SameOn zs os t.size s.size
  pub next : (a : Ptr) → a ∈ os → t.next a ≡ s.next a
  pub prev : (a : Ptr) → a ∈ os → t.prev a ≡ s.prev a

module _ (w : Which) (s : Mem) (e : Ptr) (os : List Ptr) where
  abbrev with_e : List Ptr → List Ptr
  with_e = insert_sorted (λ x. precedes w s.size x e) e

  -- In memory with any further headers, none of which meets another or is in the list: inserting a
  -- mapped header that meets none of them into a non-empty well-formed list, with fuel for the list's
  -- length, returns, and the ring is then the list with the header before the first element that fails
  -- the order's test; no headers meet, the other list's head, the sizes of all headers and the links
  -- of the further ones are as before.
  pub insert_into-Linked :
      (fuel : ℕ) (zs : List Ptr)
      → IsList w s zs
      → zs ≢ []
      → Separate zs os
      → ((a : Ptr) → a ∈ os → a ∉ zs)
      → OffAll e zs os
      → Live s e
      → length zs ≤ fuel
      → Ends (λ _ t. Linked w (with_e zs) os s t) (insert_into w fuel e s)
  insert_into-Linked fuel zs l some_head sep beside off live enough =
      let out = OffAll-out e zs os off in
      let counts = count-insert_sorted (λ x. precedes w s.size x e) e zs in
      Ends-mono (insert_into-Inserted w s e fuel zs l some_head (omega arith) live enough)
        λ _ t (list, same). record {
          list = list;
          separate = Separate-more zs os (with_e zs) os e sep off (λ a h.
              elim (Bool-cases (a == e)) [
                | inl new ↦ inl (ground arith)
                | inr old ↦ inr (ground (arith, h, counts a))
              ]);
          head = same.head;
          sizes = λ a _. ap (λ (f : Ptr → ℕ). f a) same.size;
          next = λ a m. same.next a (ground (arith, beside a m, out));
          prev = λ a m. same.prev a (ground (arith, beside a m, out));
        }

  -- In memory with any further headers, none of which meets another or is in the list: taking a header
  -- out of a well-formed list that holds it returns, and the ring is then the list without it, its own
  -- links are NULL, and no headers meet, the other list's head, the sizes of all headers, that one
  -- included, and the links of the further ones are as before.
  pub remove_from-Linked :
      (xs ys : List Ptr)
      → IsList w s (xs ++ e ∷ ys)
      → Separate (xs ++ e ∷ ys) os
      → ((a : Ptr) → a ∈ os → a ∉ (xs ++ e ∷ ys))
      → Ends
          (λ _ t.
            Linked w (xs ++ ys) os s t
            × (t.size e ≡ s.size e)
            × (t.next e ≡ null)
            × (t.prev e ≡ null))
          (remove_from w e s)
  remove_from-Linked xs ys l sep beside =
      Ends-mono (remove_from-Removed w s e xs ys l) λ _ t (list, same, next, prev). (
        record {
          list = list;
          separate =
              Separate-fewer (xs ++ e ∷ ys) os (xs ++ ys) os sep
                (λ a h. ground (arith, h, count-append a xs (e ∷ ys), count-append a xs ys));
          head = same.head;
          sizes = λ a _. ap (λ (f : Ptr → ℕ). f a) same.size;
          next = λ a m. same.next a (beside a m);
          prev = λ a m. same.prev a (beside a m);
        },
        ap (λ (f : Ptr → ℕ). f e) same.size,
        next,
        prev,
      )
