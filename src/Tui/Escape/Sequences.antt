-- ===== src/Tui/Escape/Sequences.antt =====
-- Whole escape sequences in a line, of which `visibleLogText` of internal/tui/model.go leaves nothing.
use process_deck.Base.{ℕ, ◌==◌, ◌≡◌, Bool, true, not, ◌&&◌, ◌||◌, [], ◌∷◌, ◌++◌, leb}
use process_deck.Base.Text.{Text}
use process_deck.Tui.Escape.{is_shown}

-- The parameters and intermediates of a control sequence.
unfoldable pub all_parameters : Text → Bool
all_parameters [] = true
all_parameters (c ∷ cs) = leb 0x20 c && leb c 0x3F && all_parameters cs

-- The content of a control string.
unfoldable pub is_content : Text → Bool
is_content [] = true
is_content (c ∷ cs) = not (c == 0x9C || c == 0x07 || c == 0x1B) && is_content cs

abbrev pub escape : ℕ
escape = 0x1B

-- `\e[...m` and its like, and the titles and links that start with `\e]` and end with a bell or `\e\`.
pub data IsSequence : Text → Type 0 where
  control :
      (params : Text) (final : ℕ)
      → all_parameters params ≡ true
      → leb 0x40 final && leb final 0x7E ≡ true
      → IsSequence (escape ∷ b'[' ∷ params ++ final ∷ [])
  bell_ended :
      (content : Text)
      → is_content content ≡ true
      → IsSequence (escape ∷ b']' ∷ content ++ 0x07 ∷ [])
  string_ended :
      (content : Text)
      → is_content content ≡ true
      → IsSequence (escape ∷ b']' ∷ content ++ escape ∷ b'\\' ∷ [])

-- A line, and what it shows.
pub data Shows : Text → Text → Type 0 where
  ended : Shows [] []
  character :
      {c : ℕ} {line text : Text} → is_shown c ≡ true → Shows line text → Shows (c ∷ line) (c ∷ text)
  sequence : (s line : Text) {text : Text} → IsSequence s → Shows line text → Shows (s ++ line) text
