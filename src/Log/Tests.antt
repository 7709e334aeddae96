-- ===== src/Log/Tests.antt =====
-- Runs of the log server on a screen that is a map from its lines of 16 pixels.
use kpr.Base.{ℕ, suc, ◌*◌, ◌≡◌, refl, List, [], ◌∷◌, arith, ltb, ◌==◌, if◌then◌else◌}
use kpr.Log.Server.{Gfx, Request, write, other_op, c_str, clean, new_log, serve}
use kpr.Log.Screen.{writes, color_after, Draws, serve-line}

abbrev Row : Type 0
Row = List ℕ × ℕ × ℕ

abbrev gfx : Gfx
gfx = record {
  Screen = ℕ → Row;
  cleared = λ k. ([], 0, 0);
  font_height = 16;
  convert_color = λ c. c;
  copy = λ s x y w h dx dy k. s (suc k);
  fill = λ s x y w h color k. if ltb (k * 16) y then s k else ([], 0, 0);
  font_text = λ s text x y fg bg k. if k * 16 == y then (text, fg, bg) else s k;
}

-- A screen of three lines.
abbrev draws : Draws gfx 640 48 2
draws = record {
  Line = Row;
  blank = ([], 0, 0);
  drawn = λ text fg bg. (text, fg, bg);
  line = λ s k. s k;
  line-copy = λ s k h. refl;
  line-fill = λ s k j h. ground arith;
  line-text = λ s text k j fg bg h. ground arith;
}

-- Two messages, of which the second has a line feed, and a request that is not supported.
abbrev requests : List Request
requests = write (72 ∷ 105 ∷ 0 ∷ 7 ∷ []) ∷ other_op ∷ write (79 ∷ 10 ∷ 0 ∷ []) ∷ []

serve-line_example :
    (serve gfx requests (new_log gfx 640 48)).screen 1 ≡ (72 ∷ 105 ∷ [], 16711859, 0)
unfolding writes clean c_str color_after
serve-line_example =
    serve-line gfx 640 48 2 draws requests [] (72 ∷ 105 ∷ 0 ∷ 7 ∷ []) ((79 ∷ 10 ∷ 0 ∷ []) ∷ []) 1
      refl (omega arith) (omega arith) refl refl
