-- ===== src/Log/Screen.antt =====
-- What the screen of pkg/rm_log/server/src/log.cc shows after any requests.
use kpr.Base.{
  ltb, ℕ, suc, ◌+◌, ◌*◌, ◌%◌, ◌^◌, ◌<◌, ◌≤◌, ◌≡◌, refl, ◌∙◌, ap, List, [], ◌∷◌, ◌++◌, length, arith,
  All, ◌==◌, if◌then◌else◌,
}
use kpr.Log.Server.{
  Gfx, Request, write, other_op, other_protocol, c_str, clean, complement, Log, new_log, print_log,
  dispatch, serve,
}

-- A cleaned message has the characters 32 to 126 only, and as many as the message.
clean-IsPrintable :
    (cs : List ℕ) → All (λ c. (32 ≤ c) × (c < 127)) (clean cs) × (length (clean cs) ≡ length cs)
unfolding clean
clean-IsPrintable [] = (tt, refl)
clean-IsPrintable (c ∷ cs) =
    let (printable, same) = clean-IsPrintable cs in ((ground arith, printable), ap suc same)

-- The messages among the requests, the earliest first.
unfoldable pub writes : List Request → List (List ℕ)
writes [] = []
writes (write mr ∷ rs) = mr ∷ writes rs
writes (other_op ∷ rs) = writes rs
writes (other_protocol ∷ rs) = writes rs

-- The colour of the text after some messages.
unfoldable pub color_after : ℕ → ℕ → ℕ
color_after n c = if n % 2 == 0 then c else complement c

-- What the library is known to do with lines of text, of which the last is number `last`: a copy from
-- the second line on moves all lines up, a fill empties the lines from the given one on, and a text
-- is written to an empty line. Both leave the lines above as they are.
pub record Draws (gfx : Gfx) (width height last : ℕ) : Type 1 where
  pub Line : Type 0
  pub blank : Line
  pub drawn : List ℕ → (fg bg : ℕ) → Line
  pub line : gfx.Screen → ℕ → Line
  pub line-copy :
      (s : gfx.Screen) (k : ℕ)
      → k < last
      → line (gfx.copy s 0 gfx.font_height width height 0 0) k ≡ line s (suc k)
  pub line-fill :
      (s : gfx.Screen) (k j : ℕ)
      → k ≤ last
      → line (gfx.fill s 0 (j * gfx.font_height) width height 0) k
        ≡ (if ltb k j then line s k else blank)
  pub line-text :
      (s : gfx.Screen) (text : List ℕ) (k j fg bg : ℕ)
      → line s j ≡ blank
      → line (gfx.font_text s text 0 (j * gfx.font_height) fg bg) k
        ≡ (if k == j then drawn text fg bg else line s k)

module _ (gfx : Gfx) (width height last : ℕ) (draws : Draws gfx width height last) where
  open draws use {Line, blank, drawn, line, line-copy, line-fill, line-text}

  -- The server draws on lines 0 to `last` of the view.
  pub record Fits (l : Log gfx) : Type 0 where
    pub width_is : l.width ≡ width
    pub height_is : l.height ≡ height
    pub last_is : l.last_line ≡ last * gfx.font_height

  new_log-Fits :
      height ≡ suc last * gfx.font_height → height < 2 ^ 32 → Fits (new_log gfx width height)
  unfolding new_log
  new_log-Fits e small = record { width_is = refl; height_is = refl; last_is = omega arith }

  print_log-Fits : (mr : List ℕ) (l : Log gfx) → Fits l → Fits (print_log gfx mr l)
  unfolding print_log
  print_log-Fits mr l f = record {
    width_is = f.width_is;
    height_is = f.height_is;
    last_is = f.last_is;
  }

  -- What `print_log` writes is the last line, and each other line is the one that was below it.
  print_log-line :
      (mr : List ℕ) (l : Log gfx) (k : ℕ)
      → Fits l
      → k ≤ last
      → line (print_log gfx mr l).screen k ≡ (
          if k == last
          then drawn (clean (c_str mr)) l.fg_color l.bg_color
          else line l.screen (suc k))
  unfolding print_log
  print_log-line mr l k f small =
      let s1 = gfx.copy l.screen 0 gfx.font_height width height 0 0 in
      let s2 = gfx.fill s1 0 (last * gfx.font_height) width height 0 in
      let empty : line s2 last ≡ blank = ground (arith, line-fill s1 last last) in
      rw (f.width_is, f.height_is, f.last_is)
        (line-text s2 (clean (c_str mr)) k last l.fg_color l.bg_color empty
          ∙ ground (arith, line-fill s1 k last, line-copy l.screen k))

  abbrev print_all : List (List ℕ) → Log gfx → Log gfx
  print_all [] l = l
  print_all (mr ∷ mrs) l = print_all mrs (print_log gfx mr l)

  serve-print_all : (rs : List Request) (l : Log gfx) → serve gfx rs l ≡ print_all (writes rs) l
  unfolding serve writes dispatch
  serve-print_all [] l = refl
  serve-print_all (write mr ∷ rs) l = serve-print_all rs (print_log gfx mr l)
  serve-print_all (other_op ∷ rs) l = serve-print_all rs l
  serve-print_all (other_protocol ∷ rs) l = serve-print_all rs l

  -- Later messages move the lines up.
  print_all-line :
      (mrs : List (List ℕ)) (l : Log gfx) (k : ℕ)
      → Fits l
      → k + length mrs ≤ last
      → line (print_all mrs l).screen k ≡ line l.screen (k + length mrs)
  print_all-line [] l k f small = ap (line l.screen) (omega arith)
  print_all-line (mr ∷ mrs) l k f small =
      print_all-line mrs (print_log gfx mr l) k (print_log-Fits mr l f) (omega arith)
      ∙ ground (arith, print_log-line mr l (k + length mrs) f)

  color_after-suc : (n c : ℕ) → c < 2 ^ 32 → color_after n (complement c) ≡ color_after (suc n) c
  unfolding color_after
  color_after-suc n c small = ground arith

  -- Where a message is, by how many come after it.
  message_line :
      (before : List (List ℕ)) (mr : List ℕ) (after : List (List ℕ)) (l : Log gfx) (k : ℕ)
      → Fits l
      → l.fg_color < 2 ^ 32
      → k + length after ≡ last
      → line (print_all (before ++ mr ∷ after) l).screen k
        ≡ drawn (clean (c_str mr)) (color_after (length before) l.fg_color) l.bg_color
  unfolding color_after print_log
  message_line [] mr after l k f small e =
      print_all-line after (print_log gfx mr l) k (print_log-Fits mr l f) (omega arith)
      ∙ ground (arith, print_log-line mr l (k + length after) f)
  message_line (m ∷ before) mr after l k f small e =
      message_line before mr after (print_log gfx m l) k (print_log-Fits m l f) (omega arith) e
      ∙ ap (λ c. drawn (clean (c_str mr)) c l.bg_color)
          (color_after-suc (length before) l.fg_color small)

  -- After any requests to a new log server, on a view of whole lines and less than 2 ^ 32 pixels with
  -- a library that draws lines as `Draws` says, each of the latest messages stands on the line that
  -- the number of later messages says, cut at its first zero and cleaned, in a colour that changes
  -- with each message.
  pub serve-line :
      (rs : List Request) (before : List (List ℕ)) (mr : List ℕ) (after : List (List ℕ)) (k : ℕ)
      → height ≡ suc last * gfx.font_height
      → height < 2 ^ 32
      → gfx.convert_color 16711859 < 2 ^ 32
      → writes rs ≡ before ++ mr ∷ after
      → k + length after ≡ last
      → line (serve gfx rs (new_log gfx width height)).screen k
        ≡ drawn
            (clean (c_str mr))
            (color_after (length before) (gfx.convert_color 16711859))
            (gfx.convert_color 0)
  unfolding new_log
  serve-line rs before mr after k whole small color e at =
      rw (serve-print_all rs (new_log gfx width height), e)
        (message_line before mr after (new_log gfx width height) k (new_log-Fits whole small) color
          at)
