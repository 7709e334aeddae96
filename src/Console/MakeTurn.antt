-- ===== src/Console/MakeTurn.antt =====
-- The turns of `get_ds` of pkg/rm_consoleAlt1/server/src/consoleCtrl.cc, as requests of the server.
use kpr.Base.{
  sym, subst, ℕ, ◌+◌, ◌<◌, ◌≡◌, true, false, ◌||◌, ◌==◌, if◌then◌else◌, arith, add32, Option, some,
  none, Bool-cases, inl, inr,
}
use kpr.Env.{Grant, granted}
use kpr.Console.Ctrl.{ConsoleCtrl, Outcome, done, exit, get_ds, put_console}
use kpr.Console.Factory.{FactoryServer, factory, made, factory_dispatch, make_console}
use kpr.Console.Reach.{request, Reach, later, IsServer, Reach-IsServer}
use kpr.Console.Follows.{Flags, Follows, Followed, Flags-same}
use kpr.Console.Threads.{
  SwitchAt, waiting, saw_first, left_first, past_first, saw_second, shown_first, FactoryAt, serving,
  at_addr, at_ds, at_active, Threads, write_addr, write_ds, write_active, factory_turn,
}

-- The server with its next console, which has its memory at `a` and the capability `d`.
abbrev made_next : (a d : ℕ) → FactoryServer → FactoryServer
made_next a d s = record {
  id_ctrl = s.id_ctrl + 1;
  ctrl =
      if s.id_ctrl == 0
      then record s.ctrl { first = record { addr = a; ds = d; active = true } }
      else record s.ctrl { second = record { addr = a; ds = d; active = false } };
}

made_next-Reach : (a d : ℕ) (s : FactoryServer) → Reach s → s.id_ctrl < 2 → Reach (made_next a d s)
unfolding factory_dispatch make_console get_ds put_console granted
made_next-Reach a d s r small = later r (
    request (record { cap_is_valid = true; alloc_err = 0; attach_err = 0; addr = a }) d (factory 0)
      (made (record { id = s.id_ctrl; fb_ds = d })) (ground arith))

-- The last write of `get_ds` is the server's request.
made-Flags :
    (a d : ℕ) (at : SwitchAt) (c : ConsoleCtrl) (s : FactoryServer)
    → IsServer s
    → s.id_ctrl < 2
    → Flags at c s
    → Flags at (write_active s.id_ctrl c) (made_next a d s)
made-Flags a d waiting c s v small f = ground arith
made-Flags a d saw_first c s v small f = ground arith
made-Flags a d left_first c s v small f = ground arith
made-Flags a d past_first c s v small (first, second, inl begun) =
    (ground arith, ground arith, inl (ground arith))
made-Flags a d past_first c s v small (first, second, inr over) =
    (ground arith, ground (arith, v.dark_at_first), inr (ground arith))
made-Flags a d saw_second c s v small f = ground arith
made-Flags a d shown_first c s v small f = ground arith

module _ (g : Grant) (cap n : ℕ) (at : SwitchAt) (c : ConsoleCtrl) (s : FactoryServer) where
  abbrev standing : FactoryAt → Threads
  standing fa = record { id_ctrl = n; ctrl = c; switcher = at; factory = fa }

  pub make-Followed :
      (fa : FactoryAt) → Follows (standing fa) s → Followed (factory_turn g cap (standing fa))
  unfolding factory_turn
  make-Followed serving f = begun (granted g)
    where
      begun :
          (o : Option ℕ)
          → Followed (elim o as (λ x. Outcome Threads) [
            | none ↦ exit
            | some addr ↦
                done
                  (record (standing serving) { id_ctrl = add32 n 1; factory = at_addr n addr cap })
          ])
      begun none = tt
      begun (some addr) = (
        s,
        record {
          reached = f.reached;
          flags = f.flags;
          memory = ground (arith, (Reach-IsServer f.reached).limit);
        },
      )
  make-Followed (at_addr id a d) f = elim (Bool-cases (id == 0 || id == 1)) [
    | inl there ↦ rw there (
      s,
      record {
        reached = f.reached;
        flags =
            Flags-same at c (write_addr id a c) s (ground arith) (ground arith) (ground arith)
              f.flags;
        memory = ground (arith, f.memory);
      },
    )
    | inr missing ↦ rw missing tt
  ]
  make-Followed (at_ds id a d) f = (
    s,
    record {
      reached = f.reached;
      flags =
          Flags-same at c (write_ds id d c) s (ground arith) (ground arith) (ground arith) f.flags;
      memory = ground (arith, f.memory);
    },
  )
  make-Followed (at_active id a d) f =
      let small : s.id_ctrl < 2 = omega (arith, f.memory) in
      let same : id ≡ s.id_ctrl = f.memory.0 in
      (
        made_next a d s,
        record {
          reached = made_next-Reach a d s f.reached small;
          flags =
              subst (λ k. Flags at (write_active k c) (made_next a d s)) (sym same)
                (made-Flags a d at c s (Reach-IsServer f.reached) small f.flags);
          memory = ground (arith, f.memory);
        },
      )
