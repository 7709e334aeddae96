-- ===== src/Console/SwitchTurn.antt =====
-- The turns of `switch_loop` of pkg/rm_consoleAlt1/server/src/consoleCtrl.cc, as rounds of the server.
use kpr.Base.{
  ◌⊎◌, subst, ℕ, ◌≡◌, refl, Bool, true, not, ◌&&◌, List, [], ◌∷◌, ◌==◌, arith, Bool-cases, inl, inr,
}
use kpr.Keyboard.Keys.{tab}
use kpr.Keyboard.Held.{holds}
use kpr.Console.Ctrl.{ConsoleCtrl, switch_active}
use kpr.Console.Switch.{after_round, switch_round-after}
use kpr.Console.Factory.{FactoryServer}
use kpr.Console.Reach.{typed, Reach, later, IsServer, Reach-IsServer}
use kpr.Console.Follows.{Flags, Memory, Follows, Followed, Memory-same}
use kpr.Console.Threads.{
  SwitchAt, waiting, saw_first, left_first, past_first, saw_second, shown_first, FactoryAt, serving,
  at_addr, at_ds, at_active, Threads, switch_turn, switch, turn,
}

-- A round of the server on TAB.
abbrev tapped : FactoryServer → FactoryServer
tapped s = record s { ctrl = after_round true s.ctrl }

round-Reach :
    (codes : List ℕ) (s : FactoryServer)
    → Reach s
    → Reach (record s { ctrl = after_round (holds tab codes) s.ctrl })
round-Reach codes s r =
    subst (λ c. Reach (record s { ctrl = c })) (switch_round-after codes s.ctrl)
      (later r (typed codes))

-- A round leaves the consoles' memory as it is.
round-Memory :
    (now : Bool) (fa : FactoryAt) (t : Threads) (s : FactoryServer)
    → Memory fa t s
    → Memory fa t (record s { ctrl = after_round now s.ctrl })
unfolding switch_active
round-Memory now serving t s m = ground arith
round-Memory now (at_addr id a d) t s m = ground arith
round-Memory now (at_ds id a d) t s m = ground arith
round-Memory now (at_active id a d) t s m = ground arith

abbrev NextFlags : List ℕ → SwitchAt → ConsoleCtrl → FactoryServer → Type 0
NextFlags codes at c s = let (at', c') = switch_turn codes at c in Flags at' c' s

-- A turn of `switch_loop` is a round of the server, or none.
switch-Flags :
    (codes : List ℕ) (at : SwitchAt) (c : ConsoleCtrl) (s : FactoryServer)
    → IsServer s
    → Flags at c s
    → NextFlags codes at c s
      ⊎ NextFlags codes at c (record s { ctrl = after_round (holds tab codes) s.ctrl })
      ⊎ NextFlags codes at c (tapped s)
unfolding switch_turn switch_active
switch-Flags codes waiting c s v f = elim (Bool-cases (holds tab codes && not c.last_tab)) [
  | inl fresh ↦ elim (Bool-cases c.first.active) [
    | inl shown ↦ inl (ground (arith, v.dark_at_first))
    | inr hidden ↦ elim (Bool-cases (s.id_ctrl == 0)) [
      | inl none_yet ↦ inr (inl (ground (arith, v.dark_at_first)))
      | inr some_made ↦ inl (ground arith)
    ]
  ]
  | inr old ↦ inr (inl (ground arith))
]
switch-Flags codes saw_first c s v f = inl (ground (arith, v.exclusive))
switch-Flags codes left_first c s v f = inr (inr (ground (arith, v.exclusive)))
switch-Flags codes past_first c s v (first, second, inl begun) = inr (inr (ground arith))
switch-Flags codes past_first c s v (first, second, inr over) = inl (ground arith)
switch-Flags codes saw_second c s v f = inl (ground arith)
switch-Flags codes shown_first c s v f = inl (ground arith)

module _ (codes : List ℕ) (t : Threads) (s : FactoryServer) where
  abbrev turned : Threads
  turned = record t {
    switcher = (switch_turn codes t.switcher t.ctrl).0;
    ctrl = (switch_turn codes t.switcher t.ctrl).1;
  }

  turned-Memory : (fa : FactoryAt) → Memory fa t s → Memory fa turned s
  unfolding switch_turn
  turned-Memory fa m =
      let (e1, e2, e3, e4) = kept t.switcher in Memory-same fa t turned s refl e1 e2 e3 e4 m
    where
      kept :
          (at : SwitchAt)
          → let (_, c) = switch_turn codes at t.ctrl in
            (c.first.addr ≡ t.ctrl.first.addr)
            × (c.first.ds ≡ t.ctrl.first.ds)
            × (c.second.addr ≡ t.ctrl.second.addr)
            × (c.second.ds ≡ t.ctrl.second.ds)
      kept waiting = ground arith
      kept saw_first = (refl, refl, refl, refl)
      kept left_first = (refl, refl, refl, refl)
      kept past_first = ground arith
      kept saw_second = (refl, refl, refl, refl)
      kept shown_first = (refl, refl, refl, refl)

  pub switch-Followed : Follows t s → Followed (turn (switch codes) t)
  unfolding turn
  switch-Followed f =
      elim (switch-Flags codes t.switcher t.ctrl s (Reach-IsServer f.reached) f.flags) [
        | inl same ↦ (
          s,
          record { reached = f.reached; flags = same; memory = turned-Memory t.factory f.memory },
        )
        | inr (inl polled) ↦ (
          record s { ctrl = after_round (holds tab codes) s.ctrl },
          record {
            reached = round-Reach codes s f.reached;
            flags = polled;
            memory =
                round-Memory (holds tab codes) t.factory turned s
                  (turned-Memory t.factory f.memory);
          },
        )
        | inr (inr tap) ↦ (
          tapped s,
          record {
            reached = round-Reach (tab ∷ []) s f.reached;
            flags = tap;
            memory = round-Memory true t.factory turned s (turned-Memory t.factory f.memory);
          },
        )
      ]
