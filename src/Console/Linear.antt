-- ===== src/Console/Linear.antt =====
-- The threads of pkg/rm_consoleAlt1/server/src under any schedule.
use kpr.Base.{◌≢◌, sym, subst, ℕ, ◌≡◌, refl, false, ◌&&◌, List, [], ◌∷◌, arith}
use kpr.Console.Ctrl.{ConsoleCtrl, Outcome, done, exit, out_of_bounds}
use kpr.Console.Factory.{FactoryServer}
use kpr.Console.Reach.{Reach, start, new_factory, IsServer, Reach-IsServer}
use kpr.Console.Follows.{Flags, Memory, Follows, Followed}
use kpr.Console.SwitchTurn.{switch-Followed}
use kpr.Console.MakeTurn.{make-Followed}
use kpr.Console.Threads.{
  SwitchAt, waiting, saw_first, left_first, past_first, saw_second, shown_first, serving, Threads,
  new_threads, Turn, switch, make, turn, play,
}

turn-Followed : (x : Turn) (t : Threads) (s : FactoryServer) → Follows t s → Followed (turn x t)
unfolding turn
turn-Followed (switch codes) t s f = switch-Followed codes t s f
turn-Followed (make g cap) t s f = make-Followed g cap t.id_ctrl t.switcher t.ctrl s t.factory f

play-Followed :
    (xs : List Turn) (t : Threads) (s : FactoryServer) → Follows t s → Followed (play xs t)
unfolding play
play-Followed [] t s f = (s, f)
play-Followed (x ∷ xs) t s f =
    go_on (turn x t) (turn-Followed x t s f) (λ t' s'. play-Followed xs t' s')
  where
    go_on :
        (o : Outcome Threads)
        → Followed o
        → ((t' : Threads) (s' : FactoryServer) → Follows t' s' → Followed (play xs t'))
        → Followed (elim o as (λ x. Outcome Threads) [
          | done t' ↦ play xs t'
          | exit ↦ exit
          | out_of_bounds ↦ out_of_bounds
        ])
    go_on (done t') (s', f') ih = ih t' s' f'
    go_on exit f' ih = tt
    go_on out_of_bounds f' ih = tt

played :
    (xs : List Turn) (t : Threads)
    → play xs new_threads ≡ done t
    → (s : FactoryServer) × Follows t s
played xs t e = subst Followed e (
    play-Followed xs new_threads new_factory (record {
      reached = start;
      flags = (refl, refl, refl);
      memory = (refl, refl, refl, refl, refl);
    }))

-- Under any schedule of the reads and writes that the switching loop and the factory's thread make to
-- the two consoles without a lock, from the start: whenever both threads stand before a round and
-- before a request, the server's state is one that requests and rounds as single steps reach.
pub play-Reach :
    (xs : List Turn) (n : ℕ) (c : ConsoleCtrl)
    → play xs new_threads
      ≡ done (record { id_ctrl = n; ctrl = c; switcher = waiting; factory = serving })
    → Reach (record { id_ctrl = n; ctrl = c })
play-Reach xs n c e =
    let (s, f) =
      played xs (record { id_ctrl = n; ctrl = c; switcher = waiting; factory = serving }) e in
    subst Reach (same s f.flags f.memory) f.reached
  where
    same :
        (s : FactoryServer)
        → Flags waiting c s
        → Memory serving (record { id_ctrl = n; ctrl = c; switcher = waiting; factory = serving }) s
        → s ≡ record { id_ctrl = n; ctrl = c }
    same s (a, b, l) (k, m1, m2, m3, m4) = λ i. record {
      id_ctrl = (sym k) i;
      ctrl = record {
        first = record { addr = (sym m1) i; ds = (sym m2) i; active = (sym a) i };
        second = record { addr = (sym m3) i; ds = (sym m4) i; active = (sym b) i };
        last_tab = (sym l) i;
      };
    }

-- Under any schedule of the reads and writes that the switching loop and the factory's thread make to
-- the two consoles, from the start: both consoles are active at most between the two writes by which a
-- TAB shows the first again.
pub play-exclusive :
    (xs : List Turn) (t : Threads)
    → play xs new_threads ≡ done t
    → t.switcher ≢ shown_first
    → (t.ctrl.first.active && t.ctrl.second.active) ≡ false
play-exclusive xs t e quiet =
    let (s, f) = played xs t e in by_place t.switcher s (Reach-IsServer f.reached) f.flags quiet
  where
    by_place :
        (at : SwitchAt) (s : FactoryServer)
        → IsServer s
        → Flags at t.ctrl s
        → at ≢ shown_first
        → (t.ctrl.first.active && t.ctrl.second.active) ≡ false
    by_place waiting s v f q = ground (arith, v.exclusive)
    by_place saw_first s v f q = ground (arith, v.exclusive)
    by_place left_first s v f q = ground (arith, v.exclusive)
    by_place past_first s v f q = ground (arith, v.exclusive)
    by_place saw_second s v f q = ground (arith, v.exclusive)
    by_place shown_first s v f q = absurd (q refl)
