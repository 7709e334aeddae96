-- ===== src/Console/Threads.antt =====
-- The threads of pkg/rm_consoleAlt1/server/src, access by access: `switch_loop` of consoleCtrl.cc and the factory's
-- `get_ds` share the two consoles without a lock. A turn is one read or one write of a field of `consoles`;
-- what a thread does to its own variables goes with the turn. The refresh loop only reads.
use kpr.Base.{
  ℕ, Bool, true, false, not, ◌&&◌, ◌||◌, none, some, List, [], ◌∷◌, ◌==◌, if◌then◌else◌, add32,
}
use kpr.Env.{Grant, granted}
use kpr.Keyboard.Keys.{tab}
use kpr.Keyboard.Held.{holds}
use kpr.Console.Ctrl.{ConsoleCtrl, Outcome, done, exit, out_of_bounds, initial}

-- Where `switch_loop` stands: before a round, or with `consoles[0].active` read as true, then written, or
-- read as false, with `consoles[1].active` read as true, and with `consoles[0].active` written after that.
pub data SwitchAt : Type 0 where
  waiting saw_first left_first past_first saw_second shown_first : SwitchAt

-- Where the factory's thread stands: before a request, or in `get_ds` with memory at `addr`, before the write
-- of a field of `consoles[id]`.
pub data FactoryAt : Type 0 where
  serving : FactoryAt
  at_addr at_ds at_active : (id addr ds : ℕ) → FactoryAt

pub record Threads : Type 0 where
  pub id_ctrl : ℕ
  pub ctrl : ConsoleCtrl
  pub switcher : SwitchAt
  pub factory : FactoryAt

abbrev pub new_threads : Threads
new_threads = record { id_ctrl = 0; ctrl = initial; switcher = waiting; factory = serving }

abbrev pub activate_first : Bool → ConsoleCtrl → ConsoleCtrl
activate_first b c = record c { first = record (c.first) { active = b } }

abbrev pub activate_second : Bool → ConsoleCtrl → ConsoleCtrl
activate_second b c = record c { second = record (c.second) { active = b } }

-- By whether TAB is among the codes: a round without a new TAB ends at once. With one, the two tests and the two writes follow.
unfoldable pub switch_turn : List ℕ → SwitchAt → ConsoleCtrl → SwitchAt × ConsoleCtrl
switch_turn codes waiting c =
    if holds tab codes && not c.last_tab
    then (if c.first.active then saw_first else past_first, c)
    else (waiting, record c { last_tab = holds tab codes })
switch_turn codes saw_first c = (left_first, activate_first false c)
switch_turn codes left_first c = (waiting, record (activate_second true c) { last_tab = true })
switch_turn codes past_first c =
    if c.second.active then (saw_second, c) else (waiting, record c { last_tab = true })
switch_turn codes saw_second c = (shown_first, activate_first true c)
switch_turn codes shown_first c = (waiting, record (activate_second false c) { last_tab = true })

-- The field writes of `get_ds`, for an index that the array has.
abbrev pub write_addr : ℕ → ℕ → ConsoleCtrl → ConsoleCtrl
write_addr id a c =
    if id == 0
    then record c { first = record (c.first) { addr = a } }
    else record c { second = record (c.second) { addr = a } }

abbrev pub write_ds : ℕ → ℕ → ConsoleCtrl → ConsoleCtrl
write_ds id d c =
    if id == 0
    then record c { first = record (c.first) { ds = d } }
    else record c { second = record (c.second) { ds = d } }

-- `if( id == 0 ) consoles[id].active = true; else consoles[id].active = false;`
abbrev pub write_active : ℕ → ConsoleCtrl → ConsoleCtrl
write_active id c = if id == 0 then activate_first true c else activate_second false c

-- The factory's thread: a request for a console takes an index and asks for memory, which takes no
-- access to `consoles`; then come the three writes, of which the first shows whether the array has the index.
unfoldable pub factory_turn : Grant → (cap : ℕ) → Threads → Outcome Threads
factory_turn g cap t = elim (t.factory) [
  | serving ↦ elim (granted g) [
    | none ↦ exit
    | some addr ↦
        done (record t { id_ctrl = add32 t.id_ctrl 1; factory = at_addr t.id_ctrl addr cap })
  ]
  | at_addr id addr ds ↦
      if id == 0 || id == 1
      then done (record t { ctrl = write_addr id addr t.ctrl; factory = at_ds id addr ds })
      else out_of_bounds
  | at_ds id addr ds ↦
      done (record t { ctrl = write_ds id ds t.ctrl; factory = at_active id addr ds })
  | at_active id addr ds ↦ done (record t { ctrl = write_active id t.ctrl; factory = serving })
]

-- Whose turn it is, with what comes from outside if the turn begins something.
pub data Turn : Type 0 where
  switch : (codes : List ℕ) → Turn
  make : (g : Grant) → (cap : ℕ) → Turn

unfoldable pub turn : Turn → Threads → Outcome Threads
turn (switch codes) t =
    let (at, c) = switch_turn codes t.switcher t.ctrl in done (record t { switcher = at; ctrl = c })
turn (make g cap) t = factory_turn g cap t

-- Any schedule of the two threads.
unfoldable pub play : List Turn → Threads → Outcome Threads
play [] t = done t
play (x ∷ xs) t = elim (turn x t) [
  | done t' ↦ play xs t'
  | exit ↦ exit
  | out_of_bounds ↦ out_of_bounds
]
