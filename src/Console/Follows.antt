-- ===== src/Console/Follows.antt =====
-- How the threads of pkg/rm_consoleAlt1/server/src, access by access, stand to a server whose requests and rounds are
-- single steps.
use kpr.Base.{◌⊎◌, ◌+◌, ◌<◌, ◌≡◌, true, false, ◌==◌, if◌then◌else◌, arith, inl, inr}
use kpr.Console.Ctrl.{ConsoleCtrl, Outcome, done, exit, out_of_bounds}
use kpr.Console.Factory.{FactoryServer}
use kpr.Console.Reach.{Reach}
use kpr.Console.Threads.{
  SwitchAt, waiting, saw_first, left_first, past_first, saw_second, shown_first, FactoryAt, serving,
  at_addr, at_ds, at_active, Threads,
}

-- The flags of the threads' state and of the server's, by where `switch_loop` stands. From its read of
-- `consoles[1].active` on, or of `consoles[0].active` where no console is active, the server's round is over.
abbrev pub Flags : SwitchAt → ConsoleCtrl → FactoryServer → Type 0
Flags waiting c s =
    (c.first.active ≡ s.ctrl.first.active)
    × (c.second.active ≡ s.ctrl.second.active)
    × (c.last_tab ≡ s.ctrl.last_tab)
Flags saw_first c s =
    (c.first.active ≡ true)
    × (s.ctrl.first.active ≡ true)
    × (c.second.active ≡ s.ctrl.second.active)
    × (s.ctrl.last_tab ≡ false)
    × (0 < s.id_ctrl)
Flags left_first c s =
    (c.first.active ≡ false)
    × (s.ctrl.first.active ≡ true)
    × (c.second.active ≡ s.ctrl.second.active)
    × (s.ctrl.last_tab ≡ false)
    × (0 < s.id_ctrl)
Flags past_first c s =
    (c.first.active ≡ s.ctrl.first.active)
    × (c.second.active ≡ s.ctrl.second.active)
    × (((c.first.active ≡ false) × (s.ctrl.last_tab ≡ false) × (0 < s.id_ctrl))
        ⊎ ((c.second.active ≡ false) × (s.ctrl.last_tab ≡ true)))
Flags saw_second c s =
    (c.first.active ≡ false)
    × (s.ctrl.first.active ≡ true)
    × (s.ctrl.second.active ≡ false)
    × (s.ctrl.last_tab ≡ true)
    × (0 < s.id_ctrl)
Flags shown_first c s =
    (c.first.active ≡ true)
    × (s.ctrl.first.active ≡ true)
    × (s.ctrl.second.active ≡ false)
    × (s.ctrl.last_tab ≡ true)
    × (0 < s.id_ctrl)

-- The memory of the consoles: an index that `get_ds` writes for is the server's next.
abbrev pub Memory : FactoryAt → Threads → FactoryServer → Type 0
Memory serving t s =
    (t.id_ctrl ≡ s.id_ctrl)
    × (t.ctrl.first.addr ≡ s.ctrl.first.addr)
    × (t.ctrl.first.ds ≡ s.ctrl.first.ds)
    × (t.ctrl.second.addr ≡ s.ctrl.second.addr)
    × (t.ctrl.second.ds ≡ s.ctrl.second.ds)
Memory (at_addr id a d) t s =
    (id ≡ s.id_ctrl)
    × (t.id_ctrl ≡ s.id_ctrl + 1)
    × (t.ctrl.first.addr ≡ s.ctrl.first.addr)
    × (t.ctrl.first.ds ≡ s.ctrl.first.ds)
    × (t.ctrl.second.addr ≡ s.ctrl.second.addr)
    × (t.ctrl.second.ds ≡ s.ctrl.second.ds)
Memory (at_ds id a d) t s =
    (id ≡ s.id_ctrl)
    × (id < 2)
    × (t.id_ctrl ≡ s.id_ctrl + 1)
    × (t.ctrl.first.addr ≡ (if id == 0 then a else s.ctrl.first.addr))
    × (t.ctrl.first.ds ≡ s.ctrl.first.ds)
    × (t.ctrl.second.addr ≡ (if id == 0 then s.ctrl.second.addr else a))
    × (t.ctrl.second.ds ≡ s.ctrl.second.ds)
Memory (at_active id a d) t s =
    (id ≡ s.id_ctrl)
    × (id < 2)
    × (t.id_ctrl ≡ s.id_ctrl + 1)
    × (t.ctrl.first.addr ≡ (if id == 0 then a else s.ctrl.first.addr))
    × (t.ctrl.first.ds ≡ (if id == 0 then d else s.ctrl.first.ds))
    × (t.ctrl.second.addr ≡ (if id == 0 then s.ctrl.second.addr else a))
    × (t.ctrl.second.ds ≡ (if id == 0 then s.ctrl.second.ds else d))

-- The server has got to `s` by single steps, and the threads' state is `s` with what they have begun.
pub record Follows (t : Threads) (s : FactoryServer) : Type 0 where
  pub reached : Reach s
  pub flags : Flags t.switcher t.ctrl s
  pub memory : Memory t.factory t s

-- The state after a turn is followed, if the turn has one.
abbrev pub Followed : Outcome Threads → Type 0
Followed (done t) = (s : FactoryServer) × Follows t s
Followed exit = Unit
Followed out_of_bounds = Unit

-- Only the consoles' memory and the counter matter.
pub Memory-same :
    (fa : FactoryAt) (t u : Threads) (s : FactoryServer)
    → u.id_ctrl ≡ t.id_ctrl
    → (u.ctrl.first.addr ≡ t.ctrl.first.addr)
    → (u.ctrl.first.ds ≡ t.ctrl.first.ds)
    → (u.ctrl.second.addr ≡ t.ctrl.second.addr)
    → (u.ctrl.second.ds ≡ t.ctrl.second.ds)
    → Memory fa t s
    → Memory fa u s
Memory-same serving t u s e1 e2 e3 e4 e5 m = ground arith
Memory-same (at_addr id a d) t u s e1 e2 e3 e4 e5 m = ground arith
Memory-same (at_ds id a d) t u s e1 e2 e3 e4 e5 m = ground arith
Memory-same (at_active id a d) t u s e1 e2 e3 e4 e5 m = ground arith

-- Only the flags matter.
pub Flags-same :
    (at : SwitchAt) (c c' : ConsoleCtrl) (s : FactoryServer)
    → c'.first.active ≡ c.first.active
    → c'.second.active ≡ c.second.active
    → c'.last_tab ≡ c.last_tab
    → Flags at c s
    → Flags at c' s
Flags-same waiting c c' s e1 e2 e3 f = ground arith
Flags-same saw_first c c' s e1 e2 e3 f = ground arith
Flags-same left_first c c' s e1 e2 e3 f = ground arith
Flags-same past_first c c' s e1 e2 e3 (first, second, inl begun) =
    (ground arith, ground arith, inl (ground arith))
Flags-same past_first c c' s e1 e2 e3 (first, second, inr over) =
    (ground arith, ground arith, inr (ground arith))
Flags-same saw_second c c' s e1 e2 e3 f = ground arith
Flags-same shown_first c c' s e1 e2 e3 f = ground arith
