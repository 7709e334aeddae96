-- ===== src/System/Startup.antt =====
-- How the programs start: the constructors and `main` of pkg/rm_keyboard/server/src/keyboard.cc,
-- pkg/rm_consoleAlt1/server/src/consoleAlt1.cc, pkg/rm_log/server/src/log.cc and
-- pkg/rm_pong_client/pong_client.cc. What the calls of L4Re answer
-- is an input; an error number is 0 for success.
use kpr.Base.{
  subst, ℕ, Bool, true, false, not, ◌&&◌, List, [], ◌==◌, ◌≡◌, if◌then◌else◌, Option, none, some,
}
use kpr.Console.Factory.{FactoryServer}
use kpr.Console.Reach.{new_factory, Reach}
use kpr.Pong.Paddle.{Game, fresh}
use kpr.Log.Server.{Gfx, Log, new_log}

-- How `main` goes: an `assert` fails, an exception is not caught, an access faults, it returns a number or
-- exits with one, or it goes on from a first state.
pub data Started {ℓ} (A : Type ℓ) : Type ℓ where
  assert_failed uncaught faulted : Started A
  returned exited : ℕ → Started A
  serving : A → Started A

-- `Keyboard::Keyboard`: the slot, the number that `l4io_request_irq` returns, and whether the answer
-- of `attach` is an error. No key is down.
unfoldable pub new_keyboard :
    (cap_is_valid : Bool) (res : ℕ) (attach_fails : Bool) → Option (List ℕ)
new_keyboard cap_is_valid res attach_fails =
    if cap_is_valid && (res == 0 && not attach_fails) then some [] else none

-- `Keyboard::get_key`
abbrev pub get_key : List ℕ → List ℕ
get_key keys = keys

unfoldable pub keyboard_main :
    (cap_is_valid : Bool) (res : ℕ) (attach_fails registered : Bool) → Started (List ℕ)
unfolding new_keyboard
keyboard_main cap_is_valid res attach_fails registered =
    elim (new_keyboard cap_is_valid res attach_fails) [
      | none ↦ assert_failed
      | some keys ↦ if registered then serving keys else returned 1
    ]

-- `ConsoleCtrl::set_fb`: the frame buffer's address and size.
pub record FrameBuffer : Type 0 where
  pub fb_addr : ℕ
  pub fb_size : ℕ

abbrev pub set_fb : (attached buffer_size : ℕ) → FrameBuffer
set_fb attached buffer_size = record { fb_addr = attached; fb_size = buffer_size }

-- `FactoryServer::FactoryServer`, which hands the frame buffer on.
unfoldable pub start_factory : (attached buffer_size : ℕ) → FrameBuffer × FactoryServer
start_factory attached buffer_size = (set_fb attached buffer_size, new_factory)

unfoldable pub console_main :
    (attached buffer_size : ℕ) (registered : Bool) → Started (FrameBuffer × FactoryServer)
console_main attached buffer_size registered =
    if registered then serving (start_factory attached buffer_size) else returned 1

-- `Log::Log` goes on where the frame buffer has no address, and clears the memory from there.
unfoldable pub log_main :
    (gfx : Gfx) (attached width height : ℕ) (registered : Bool) → Started (Log gfx)
log_main gfx attached width height registered =
    if attached == 0
    then faulted
    else if registered
    then serving (new_log gfx width height)
    else returned 1

-- `server()` of the Pong client: the capability, unless it throws.
unfoldable pub pong_server : (found : Bool) → (cap : ℕ) → Option ℕ
pong_server found cap = if found then some cap else none

-- The two static paddles, which ask for the server before `main` starts the threads and sleeps.
unfoldable pub pong_main : (found : Bool) → (cap : ℕ) → Started Game
unfolding pong_server
pong_main found cap = elim (pong_server found cap) [
  | none ↦ uncaught
  | some svr ↦ serving (record { p0 = fresh; p1 = fresh })
]

-- How a thread that asks the keyboard driver begins: without the driver's capability the program exits.
unfoldable pub need_keyboard {ℓ} : {A : Type ℓ} → (kbd_is_valid : Bool) → A → Started A
need_keyboard kbd_is_valid s = if kbd_is_valid then serving s else exited 1

-- The console server serves from the state that `Reach` starts with.
pub console_main-Reach :
    (attached buffer_size : ℕ) (registered : Bool) (fb : FrameBuffer) (s : FactoryServer)
    → console_main attached buffer_size registered ≡ serving (fb, s)
    → Reach s
unfolding console_main start_factory
console_main-Reach attached buffer_size true fb s e =
    let same : new_factory ≡ s = cc in subst Reach same Reach.start
console_main-Reach attached buffer_size false fb s e = cc
