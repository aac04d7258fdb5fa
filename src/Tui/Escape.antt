-- ===== src/Tui/Escape.antt =====
-- `visibleLogText` of internal/tui/model.go and the skipping of escape sequences below it. An index into
-- the input is the text that stands from it on. The loops that read bytes end at every byte of a
-- character above 0x7E or pass by all of them, so they read characters here.
pub mod Shown
pub mod Sequences
mod Tests
use process_deck.Base.{
  ℕ, zero, suc, ◌==◌, Bool, true, false, not, ◌&&◌, ◌||◌, List, [], ◌∷◌, if◌then◌else◌, ltb, leb,
  length,
}
use process_deck.Base.Text.{Text}

unfoldable pub skip_control_sequence : Text → Text
skip_control_sequence [] = []
skip_control_sequence (c ∷ cs) =
    let further = skip_control_sequence cs in
    if leb 0x40 c && leb c 0x7E
    then cs
    else if c == b'\r' || c == b'\n' || c == 0x1B
    then c ∷ cs
    else further

unfoldable pub skip_control_string : Bool → Text → Text
skip_control_string bell_terminated [] = []
skip_control_string bell_terminated (c ∷ cs) =
    let further = skip_control_string bell_terminated cs in
    let at_escape : Text = elim cs [
      | [] ↦ further
      | d ∷ ds ↦ if c == 0x1B && d == b'\\' then ds else further
    ] in
    if c == 0x9C || (bell_terminated && c == 0x07) then cs else at_escape

-- The loop behind the introducers.
unfoldable pub skip_intermediates : Text → Text
skip_intermediates [] = []
skip_intermediates (c ∷ cs) =
    let further = skip_intermediates cs in
    if leb 0x30 c && leb c 0x7E then cs else if ltb c 0x20 || ltb 0x2F c then c ∷ cs else further

unfoldable pub skip_escape_sequence : Text → Text
unfolding skip_control_sequence skip_control_string skip_intermediates
skip_escape_sequence [] = []
skip_escape_sequence (c ∷ cs) =
    if c == b'['
    then skip_control_sequence cs
    else if c == b']'
    then skip_control_string true cs
    else if c == b'P' || c == b'X' || c == b'^' || c == b'_'
    then skip_control_string false cs
    else skip_intermediates (c ∷ cs)

-- `unicode.IsControl`
unfoldable pub is_control : ℕ → Bool
is_control c = ltb c 0x20 || (leb 0x7F c && leb c 0x9F)

-- Whether a character is written; those that begin a sequence are control characters.
unfoldable pub is_shown : ℕ → Bool
unfolding is_control
is_shown c = c == b'\r' || c == b'\n' || not (is_control c)

-- Where the loop goes on behind a character.
unfoldable pub behind : ℕ → Text → Text
unfolding skip_escape_sequence skip_control_sequence skip_control_string
behind c cs =
    if c == 0x1B
    then skip_escape_sequence cs
    else if c == 0x9B
    then skip_control_sequence cs
    else if c == 0x9D
    then skip_control_string true cs
    else if c == 0x90 || c == 0x98 || c == 0x9E || c == 0x9F
    then skip_control_string false cs
    else cs

-- The loop.
unfoldable pub visible_from : ℕ → Text → Text
unfolding behind is_shown
visible_from zero input = []
visible_from (suc fuel) [] = []
visible_from (suc fuel) (c ∷ cs) =
    let rest = visible_from fuel (behind c cs) in if is_shown c then c ∷ rest else rest

unfoldable pub visible_log_text : Text → Text
unfolding visible_from
visible_log_text input = visible_from (length input) input
