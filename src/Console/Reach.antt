-- ===== src/Console/Reach.antt =====
-- The console server of pkg/rm_consoleAlt1/server/src over its whole life: requests to the factory and rounds of
-- the loop that switches, in any order, from the start.
use kpr.Base.{
  sym, ap, subst, ℕ, ◌<◌, ◌≤◌, ◌≡◌, refl, ◌∙◌, Bool, true, false, ◌&&◌, List, ◌==◌, if◌then◌else◌,
  arith,
}
use kpr.Env.{Grant}
use kpr.Keyboard.Keys.{tab}
use kpr.Keyboard.Held.{holds}
use kpr.Console.Ctrl.{
  ConsoleCtrl, done, initial, switch_active, switch_round, refreshed, get_ds, put_console,
}
use kpr.Console.Switch.{IsDark, after_round, switch_round-after}
use kpr.Console.Factory.{
  FactoryServer, Request, meta, factory, strange, FactoryReply, factory_dispatch, make_console,
}

-- The constructor of `FactoryServer`, and the address that a round of `refresh_loop` copies from.
abbrev pub new_factory : FactoryServer
new_factory = record { id_ctrl = 0; ctrl = initial }

abbrev pub copied_from : ConsoleCtrl → ℕ
copied_from c = if refreshed c == 0 then c.first.addr else c.second.addr

pub data Step (s : FactoryServer) : FactoryServer → Type 0 where
  request :
      (g : Grant) (cap : ℕ) (r : Request) (reply : FactoryReply) {t : FactoryServer}
      → factory_dispatch g cap r s ≡ done (reply, t)
      → Step s t
  typed : (codes : List ℕ) → Step s (record s { ctrl = switch_round codes s.ctrl })

pub data Reach : FactoryServer → Type 0 where
  start : Reach new_factory
  later : {s t : FactoryServer} → Reach s → Step s t → Reach t

-- What holds at all times.
pub record IsServer (s : FactoryServer) : Type 0 where
  pub limit : s.id_ctrl ≤ 2
  pub dark_at_first : s.id_ctrl ≡ 0 → IsDark s.ctrl
  pub exclusive : (s.ctrl.first.active && s.ctrl.second.active) ≡ false
  pub second_missing : s.id_ctrl < 2 → s.ctrl.second.addr ≡ 0

after_round-IsServer :
    (now : Bool) (s : FactoryServer)
    → IsServer s
    → IsServer (record s { ctrl = after_round now s.ctrl })
unfolding switch_active
after_round-IsServer now s v = record {
  limit = v.limit;
  dark_at_first = λ e. ground (arith, v.dark_at_first e);
  exclusive = ground (arith, v.exclusive);
  second_missing = λ l. ground (arith, v.second_missing l);
}

request-IsServer :
    (g : Grant) (cap : ℕ) (r : Request) (reply : FactoryReply) (s t : FactoryServer)
    → factory_dispatch g cap r s ≡ done (reply, t)
    → IsServer s
    → IsServer t
unfolding factory_dispatch make_console get_ds put_console
request-IsServer g cap meta reply s t e v = record {
  limit = ground (arith, v.limit);
  dark_at_first = λ z. ground (arith, v.dark_at_first);
  exclusive = ground (arith, v.exclusive);
  second_missing = λ l. ground (arith, v.second_missing);
}
request-IsServer g cap (factory op) reply s t e v = record {
  limit = ground (arith, v.limit);
  dark_at_first = λ z. ground (arith, v.dark_at_first);
  exclusive = ground (arith, v.exclusive, v.dark_at_first);
  second_missing = λ l. ground (arith, v.second_missing);
}
request-IsServer g cap strange reply s t e v = record {
  limit = ground (arith, v.limit);
  dark_at_first = λ z. ground (arith, v.dark_at_first);
  exclusive = ground (arith, v.exclusive);
  second_missing = λ l. ground (arith, v.second_missing);
}

Step-IsServer : {s t : FactoryServer} → Step s t → IsServer s → IsServer t
Step-IsServer {s} {t} (request g cap r reply e) v = request-IsServer g cap r reply s t e v
Step-IsServer {s} (typed codes) v =
    subst (λ c. IsServer (record s { ctrl = c })) (sym (switch_round-after codes s.ctrl))
      (after_round-IsServer (holds tab codes) s v)

-- In each state that the console server reaches from its start by requests and rounds of the switching
-- loop, in any order: the factory's counter is two at most, no console is active while it is 0, never
-- are both consoles active, and while it is below two the second console has no memory.
pub Reach-IsServer : {s : FactoryServer} → Reach s → IsServer s
Reach-IsServer start = record {
  limit = omega arith;
  dark_at_first = λ e. (refl, refl);
  exclusive = refl;
  second_missing = λ l. refl;
}
Reach-IsServer (later r step) = Step-IsServer step (Reach-IsServer r)

-- In a state that the server reaches with one console, which is shown, and with TAB not down before, a
-- round with TAB leaves the refresh loop to copy from address 0.
pub typed-copied_from :
    {s : FactoryServer} (codes : List ℕ)
    → Reach s
    → s.id_ctrl ≡ 1
    → s.ctrl.first.active ≡ true
    → s.ctrl.last_tab ≡ false
    → holds tab codes ≡ true
    → copied_from (switch_round codes s.ctrl) ≡ 0
unfolding switch_active refreshed
typed-copied_from {s} codes r one shown up down =
    ap copied_from (switch_round-after codes s.ctrl)
    ∙ ground (arith, (Reach-IsServer r).second_missing)
