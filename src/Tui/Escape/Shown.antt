-- ===== src/Tui/Escape/Shown.antt =====
-- What `visibleLogText` of internal/tui/model.go leaves of a line.
use process_deck.Base.{
  ℕ, zero, suc, ◌≤◌, ◌≡◌, refl, ap, ◌∙◌, Bool, true, false, ◌&&◌, [], ◌∷◌, if◌then◌else◌, length,
  arith,
}
use process_deck.Base.Text.{Text}
use process_deck.Tui.Escape.{
  skip_control_sequence, skip_control_string, skip_intermediates, skip_escape_sequence, is_control,
  is_shown, behind, visible_from, visible_log_text,
}

unfoldable pub all_shown : Text → Bool
all_shown [] = true
all_shown (c ∷ cs) = is_shown c && all_shown cs

length-skip_control_sequence : (cs : Text) → length (skip_control_sequence cs) ≤ length cs
unfolding skip_control_sequence
length-skip_control_sequence [] = omega arith
length-skip_control_sequence (c ∷ cs) = ground (arith, length-skip_control_sequence cs)

length-skip_control_string :
    (bell : Bool) (cs : Text) → length (skip_control_string bell cs) ≤ length cs
unfolding skip_control_string
length-skip_control_string bell [] = omega arith
length-skip_control_string bell (c ∷ []) = ground (arith, length-skip_control_string bell [])
length-skip_control_string bell (c ∷ d ∷ ds) =
    ground (arith, length-skip_control_string bell (d ∷ ds))

length-skip_intermediates : (cs : Text) → length (skip_intermediates cs) ≤ length cs
unfolding skip_intermediates
length-skip_intermediates [] = omega arith
length-skip_intermediates (c ∷ cs) = ground (arith, length-skip_intermediates cs)

length-skip_escape_sequence : (cs : Text) → length (skip_escape_sequence cs) ≤ length cs
unfolding skip_escape_sequence
length-skip_escape_sequence [] = omega arith
length-skip_escape_sequence (c ∷ cs) = ground (
  arith,
  length-skip_control_sequence cs,
  length-skip_control_string true cs,
  length-skip_control_string false cs,
  length-skip_intermediates (c ∷ cs),
)

length-behind : (c : ℕ) (cs : Text) → length (behind c cs) ≤ length cs
unfolding behind
length-behind c cs = ground (
  arith,
  length-skip_control_sequence cs,
  length-skip_control_string true cs,
  length-skip_control_string false cs,
  length-skip_escape_sequence cs,
)

visible_from-fuels :
    (f g : ℕ) (input : Text)
    → length input ≤ f
    → length input ≤ g
    → visible_from f input ≡ visible_from g input
unfolding visible_from
visible_from-fuels zero zero input hf hg = refl
visible_from-fuels zero (suc g) [] hf hg = refl
visible_from-fuels zero (suc g) (c ∷ cs) hf hg = absurd (omega arith)
visible_from-fuels (suc f) zero [] hf hg = refl
visible_from-fuels (suc f) zero (c ∷ cs) hf hg = absurd (omega arith)
visible_from-fuels (suc f) (suc g) [] hf hg = refl
visible_from-fuels (suc f) (suc g) (c ∷ cs) hf hg =
    ap (λ (rest : Text). if is_shown c then c ∷ rest else rest)
      (visible_from-fuels f g (behind c cs) (omega (arith, length-behind c cs))
        (omega (arith, length-behind c cs)))

-- The loop without its fuel.
pub visible_log_text-cons :
    (c : ℕ) (cs : Text)
    → visible_log_text (c ∷ cs)
      ≡ (let rest = visible_log_text (behind c cs) in if is_shown c then c ∷ rest else rest)
unfolding visible_log_text visible_from
visible_log_text-cons c cs =
    ap (λ (rest : Text). if is_shown c then c ∷ rest else rest)
      (visible_from-fuels (length cs) (length (behind c cs)) (behind c cs) (length-behind c cs)
        (omega arith))

behind-shown : (c : ℕ) (cs : Text) → is_shown c ≡ true → behind c cs ≡ cs
unfolding behind is_shown is_control
behind-shown c cs h = ground arith

pub shown-cons :
    {c : ℕ} (cs : Text) → is_shown c ≡ true → visible_log_text (c ∷ cs) ≡ c ∷ visible_log_text cs
shown-cons {c} cs h =
    visible_log_text-cons c cs
    ∙ ap (λ b. if b then c ∷ visible_log_text (behind c cs) else visible_log_text (behind c cs)) h
    ∙ ap (λ t. c ∷ visible_log_text t) (behind-shown c cs h)
