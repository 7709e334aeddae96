-- ===== src/Log/Server.antt =====
-- pkg/rm_log/server/src/log.cc: a message is printed to the last line of the screen. The frame buffer
-- and libgfxbitmap, which draws on it, are not part of the repository: `Gfx` has what the server
-- calls. A character is a byte; the test for a printable one gives the same where `char` has a sign.
use kpr.Base.{ℕ, ◌-◌, ◌^◌, ◌&&◌, List, [], ◌∷◌, ltb, ◌==◌, if◌then◌else◌, sub32}

-- The calls of libgfxbitmap on one frame buffer, with the arguments that the server chooses.
pub record Gfx : Type 1 where
  pub Screen : Type 0
  pub cleared : Screen
  pub font_height : ℕ
  pub convert_color : ℕ → ℕ
  pub copy : Screen → (x y w h dx dy : ℕ) → Screen
  pub fill : Screen → (x y w h color : ℕ) → Screen
  pub font_text : Screen → (text : List ℕ) → (x y fg bg : ℕ) → Screen

-- A request, by its label and opcode. A write has the message registers from the third on, as bytes.
pub data Request : Type 0 where
  write : (mr : List ℕ) → Request
  other_op : Request
  other_protocol : Request

pub data Reply : Type 0 where
  ok bad_protocol : Reply

-- The string up to the first zero.
unfoldable pub c_str : List ℕ → List ℕ
c_str [] = []
c_str (c ∷ cs) = let rest = c_str cs in if c == 0 then [] else c ∷ rest

-- "replace special characters"
unfoldable pub clean : List ℕ → List ℕ
clean [] = []
clean (c ∷ cs) = (if ltb c 127 && ltb 32 c then c else 32) ∷ clean cs

-- `~` on the 32 bits of a colour.
abbrev pub complement : ℕ → ℕ
complement c = 2 ^ 32 - 1 - c

module _ (gfx : Gfx) where
  open gfx use {Screen, cleared, font_height, convert_color, copy, fill, font_text}

  -- `Log`, with the size of the view.
  pub record Log : Type 0 where
    pub screen : Screen
    pub width : ℕ
    pub height : ℕ
    pub last_line : ℕ
    pub fg_color : ℕ
    pub bg_color : ℕ

  -- The constructor, where the frame buffer is there.
  unfoldable pub new_log : (width height : ℕ) → Log
  new_log width height = record {
    screen = cleared;
    width = width;
    height = height;
    last_line = sub32 height font_height;
    fg_color = convert_color 16711859;
    bg_color = convert_color 0;
  }

  unfoldable pub print_log : List ℕ → Log → Log
  print_log mr l =
      let str = clean (c_str mr) in
      let scrolled = copy l.screen 0 font_height l.width l.height 0 0 in
      let emptied = fill scrolled 0 l.last_line l.width l.height 0 in
      record l {
        screen = font_text emptied str 0 l.last_line l.fg_color l.bg_color;
        fg_color = complement l.fg_color;
      }

  unfoldable pub dispatch : Request → Log → Reply × Log
  dispatch (write mr) l = (ok, print_log mr l)
  dispatch other_op l = (ok, l)
  dispatch other_protocol l = (bad_protocol, l)

  -- The server's loop over the requests that come.
  unfoldable pub serve : List Request → Log → Log
  serve [] l = l
  serve (r ∷ rs) l = serve rs (dispatch r l).1
