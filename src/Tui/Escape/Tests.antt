-- ===== src/Tui/Escape/Tests.antt =====
-- Lines with escape sequences.
use process_deck.Base.{◌≡◌, refl, [], ◌∷◌, ◌++◌}
use process_deck.Base.Text.{Text, codes}
use process_deck.Tui.Escape.{visible_log_text}
use process_deck.Tui.Escape.Sequences.{escape}

-- A word in green behind a title.
abbrev green : Text
green = escape ∷ b'[' ∷ codes "32" ++ b'm' ∷ []

abbrev title : Text
title = escape ∷ b']' ∷ codes "0;deck" ++ 0x07 ∷ []

abbrev line : Text
line = title ++ green ++ b'o' ∷ b'k' ∷ []

-- An introducer without an end, and a character set.
charset_run : visible_log_text (escape ∷ b'(' ∷ b'B' ∷ b'x' ∷ escape ∷ b'[' ∷ b'3' ∷ []) ≡ codes "x"
unfolding visible_log_text
charset_run = refl
