-- ===== src/Keyboard/Keys.antt =====
-- pkg/rm_keyboard/include/shared.h: the key codes that the driver and its clients share.
use kpr.Base.{ℕ}

-- `Key::Keys`
abbrev pub up_1 : ℕ
up_1 = 0

abbrev pub down_1 : ℕ
down_1 = 1

abbrev pub up_2 : ℕ
up_2 = 2

abbrev pub down_2 : ℕ
down_2 = 3

abbrev pub tab : ℕ
tab = 4
