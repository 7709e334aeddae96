-- ===== src/Console/Factory.antt =====
-- pkg/rm_consoleAlt1/server/src/consoleAlt1.cc: the factory that makes consoles, and the console
-- object that a client talks to. The message streams, the object registry and `Goos_svr::refresh` are
-- not part of the repository: a request is its label and words, a made object is its index and
-- dataspace, and what `refresh` returns is an input.
use kpr.Base.{
  ◌≤◌, ℕ, ◌+◌, ◌<◌, ◌≡◌, refl, true, false, some, List, [], ◌∷◌, ◌==◌, if◌then◌else◌, add32, arith,
}
use kpr.Env.{Grant, granted}
use kpr.Console.Ctrl.{ConsoleCtrl, Outcome, done, exit, out_of_bounds, get_ds}

-- `ConsoleAlt1`: its index and dataspace. The view and screen information are those of the frame
-- buffer for every console.
pub record ConsoleAlt1 : Type 0 where
  pub id : ℕ
  pub fb_ds : ℕ

-- `FactoryServer`, with the controller that it shares with the consoles.
pub record FactoryServer : Type 0 where
  pub id_ctrl : ℕ
  pub ctrl : ConsoleCtrl

-- A request's label, with the opcode of a factory request.
pub data Request : Type 0 where
  meta : Request
  factory : (op : ℕ) → Request
  strange : Request

pub data FactoryReply : Type 0 where
  meta_handled : FactoryReply
  einval : FactoryReply
  made : ConsoleAlt1 → FactoryReply
  zero_code : FactoryReply

-- `new ConsoleAlt1(id_ctrl++, _fb)`
unfoldable pub make_console :
    Grant → (cap : ℕ) → FactoryServer → Outcome (FactoryReply × FactoryServer)
make_console g cap f = elim (get_ds g cap f.id_ctrl f.ctrl) [
  | done (ds, c) ↦ done (
    made (record { id = f.id_ctrl; fb_ds = ds }),
    record { id_ctrl = add32 f.id_ctrl 1; ctrl = c },
  )
  | exit ↦ exit
  | out_of_bounds ↦ out_of_bounds
]

-- `FactoryServer::dispatch`
unfoldable pub factory_dispatch :
    Grant → (cap : ℕ) → Request → FactoryServer → Outcome (FactoryReply × FactoryServer)
factory_dispatch g cap meta f = done (meta_handled, f)
factory_dispatch g cap (factory op) f = if op == 0 then make_console g cap f else done (einval, f)
factory_dispatch g cap strange f = done (zero_code, f)

-- The requests to a console, with their words.
pub data GoosRequest : Type 0 where
  view_info : (idx : ℕ) → GoosRequest
  info : GoosRequest
  get_buffer : (idx : ℕ) → GoosRequest
  view_refresh : (idx x y w h : ℕ) → GoosRequest
  unknown : GoosRequest
  other_protocol : GoosRequest

pub data GoosReply : Type 0 where
  bad_proto : GoosReply
  out_of_range : GoosReply
  no_sys : GoosReply
  send_view_info : GoosReply
  send_screen_info : GoosReply
  send_buffer : (ds : ℕ) → GoosReply
  refresh_code : ℕ → GoosReply

-- `ConsoleAlt1::dispatch`
unfoldable pub console_dispatch :
    (refresh : ℕ → ℕ → ℕ → ℕ → ℕ) → GoosRequest → ConsoleAlt1 → GoosReply
console_dispatch refresh (view_info idx) c = if idx == 0 then send_view_info else out_of_range
console_dispatch refresh info c = send_screen_info
console_dispatch refresh (get_buffer idx) c = if idx == 0 then send_buffer c.fb_ds else out_of_range
console_dispatch refresh (view_refresh idx x y w h) c =
    if idx == 0 then refresh_code (refresh x y w h) else out_of_range
console_dispatch refresh unknown c = no_sys
console_dispatch refresh other_protocol c = bad_proto

-- The requests that came, each with what the environment would grant and the capability.
unfoldable pub serve : List (Grant × ℕ × Request) → FactoryServer → Outcome FactoryServer
serve [] f = done f
serve ((g, cap, r) ∷ rs) f = elim (factory_dispatch g cap r f) [
  | done (reply, f') ↦ serve rs f'
  | exit ↦ exit
  | out_of_bounds ↦ out_of_bounds
]

-- How many requests make a console.
unfoldable pub creations : List (Grant × ℕ × Request) → ℕ
creations [] = 0
creations ((g, cap, meta) ∷ rs) = creations rs
creations ((g, cap, factory op) ∷ rs) = (if op == 0 then 1 else 0) + creations rs
creations ((g, cap, strange) ∷ rs) = creations rs

-- The controller with the memory of console `id`, which is 0 or 1.
abbrev placed : ℕ → (addr ds : ℕ) → ConsoleCtrl → ConsoleCtrl
placed id addr ds c =
    if id == 0
    then record c { first = record { addr = addr; ds = ds; active = true } }
    else record c { second = record { addr = addr; ds = ds; active = false } }

-- Where memory is granted and the factory's counter is below two, a request with opcode 0 makes a
-- console with the counter for its index, which answers a request for its buffer by the dataspace that
-- the controller keeps for that index, and the counter goes up by one.
pub made-get_buffer :
    (g : Grant) (cap addr : ℕ) (f : FactoryServer) (refresh : ℕ → ℕ → ℕ → ℕ → ℕ)
    → granted g ≡ some addr
    → f.id_ctrl < 2
    → (c : ConsoleAlt1) × (f' : FactoryServer) × (factory_dispatch g cap (factory 0) f
        ≡ done (made c, f'))
      × (c.id ≡ f.id_ctrl)
      × (f'.id_ctrl ≡ f.id_ctrl + 1)
      × (console_dispatch refresh (get_buffer 0) c
          ≡ send_buffer (if c.id == 0 then f'.ctrl.first.ds else f'.ctrl.second.ds))
unfolding factory_dispatch make_console get_ds console_dispatch
made-get_buffer g cap addr f refresh e small = (
  record { id = f.id_ctrl; fb_ds = cap },
  record { id_ctrl = add32 f.id_ctrl 1; ctrl = placed f.id_ctrl addr cap f.ctrl },
  ground arith,
  refl,
  ground arith,
  ground arith,
)

creation : Request → ℕ
creation meta = 0
creation (factory op) = if op == 0 then 1 else 0
creation strange = 0

creations-nil : creations [] ≡ 0
unfolding creations
creations-nil = refl

creations-cons :
    (g : Grant) (cap : ℕ) (r : Request) (rs : List (Grant × ℕ × Request))
    → creations ((g, cap, r) ∷ rs) ≡ creation r + creations rs
unfolding creations creation
creations-cons g cap meta rs = omega arith
creations-cons g cap (factory op) rs = refl
creations-cons g cap strange rs = omega arith

-- A request that is survived raises the counter if it makes a console, and the counter stays at two
-- at most.
factory_dispatch_counts :
    (g : Grant) (cap : ℕ) (r : Request) (f f' : FactoryServer) (reply : FactoryReply)
    → factory_dispatch g cap r f ≡ done (reply, f')
    → f.id_ctrl ≤ 2
    → (f'.id_ctrl ≡ f.id_ctrl + creation r) × (f'.id_ctrl ≤ 2)
unfolding factory_dispatch make_console get_ds creation
factory_dispatch_counts g cap meta f f' reply e small = ground arith
factory_dispatch_counts g cap (factory op) f f' reply e small = ground arith
factory_dispatch_counts g cap strange f f' reply e small = ground arith

-- A run of requests that the factory survives, from a counter of two at most, has made one console for
-- each request to make one, and the counter is two at most.
pub serve_limit :
    (rs : List (Grant × ℕ × Request)) (f f' : FactoryServer)
    → serve rs f ≡ done f'
    → f.id_ctrl ≤ 2
    → (f'.id_ctrl ≡ f.id_ctrl + creations rs) × (f'.id_ctrl ≤ 2)
unfolding serve
serve_limit [] f f' e small = ground (arith, creations-nil)
serve_limit ((g, cap, r) ∷ rs) f f' e small =
    served (factory_dispatch g cap r f) refl e (λ f1. serve_limit rs f1 f')
  where
    Counted : FactoryServer → ℕ → Type 0
    Counted f1 n = (f'.id_ctrl ≡ f1.id_ctrl + n) × (f'.id_ctrl ≤ 2)

    served :
        (o : Outcome (FactoryReply × FactoryServer))
        → factory_dispatch g cap r f ≡ o
        → elim o [ done (reply, f1) ↦ serve rs f1 | exit ↦ exit | out_of_bounds ↦ out_of_bounds ]
          ≡ done f'
        → ((f1 : FactoryServer)
            → serve rs f1 ≡ done f'
            → f1.id_ctrl ≤ 2
            → Counted f1 (creations rs))
        → Counted f (creations ((g, cap, r) ∷ rs))
    served (done (reply, f1)) step rest ih =
        let (counted, bound) = factory_dispatch_counts g cap r f f1 reply step small in
        let (later, final) = ih f1 rest bound in (omega (arith, creations-cons g cap r rs), final)
    served exit step rest ih = cc
    served out_of_bounds step rest ih = cc
