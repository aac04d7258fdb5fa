-- ===== src/Tui/Cache/Sync/Contents.antt =====
-- The texts of the cached lines of internal/tui/model.go.
use process_deck.Base.{
  ℕ, zero, suc, ◌-◌, ◌%◌, ◌<◌, ◌==◌, ltb, ◌≡◌, refl, sym, ap, ◌∙◌, if_ind, List, [], ◌∷◌, ◌++◌, map,
  length, length-append, length-drop, drop, last_n, drop-append_le, drop-drop, drop_all, arith,
}
use process_deck.Base.Text.{Text}
use process_deck.LogBuf.{u64}
use process_deck.Tui.{CachedLogLine, Model}
use process_deck.Tui.Numbers.{min_int}
use process_deck.Tui.Cache.{drop_cached_log_lines}

unfoldable pub contents : List CachedLogLine → List Text
contents [] = []
contents (line ∷ lines) = line.content ∷ contents lines

pub contents-append :
    (xs ys : List CachedLogLine) → contents (xs ++ ys) ≡ contents xs ++ contents ys
unfolding contents
contents-append [] ys = refl
contents-append (x ∷ xs) ys = ap (λ l. x.content ∷ l) (contents-append xs ys)

pub contents-drop : (n : ℕ) (xs : List CachedLogLine) → contents (drop n xs) ≡ drop n (contents xs)
unfolding contents
contents-drop zero xs = refl
contents-drop (suc n) [] = refl
contents-drop (suc n) (x ∷ xs) = contents-drop n xs

pub length-contents : (xs : List CachedLogLine) → length (contents xs) ≡ length xs
unfolding contents
length-contents [] = refl
length-contents (x ∷ xs) = ap suc (length-contents xs)

pub drop-min : (n : ℕ) (xs : List CachedLogLine) → drop (min_int n (length xs)) xs ≡ drop n xs
unfolding min_int
drop-min n xs =
    if_ind (λ k. drop k xs ≡ drop n xs) (ltb n (length xs)) (λ _. refl)
      (λ h. drop_all (length xs) xs (omega arith) ∙ sym (drop_all n xs (ground arith)))

pub lines-drop : (m : Model) (n : ℕ) → (drop_cached_log_lines m n).log_lines ≡ drop n m.log_lines
unfolding drop_cached_log_lines
lines-drop m n =
    let count = min_int n (length m.log_lines) in
    if_ind (λ (r : Model). r.log_lines ≡ drop n m.log_lines) (count == 0)
      (λ h. ap (λ k. drop k m.log_lines) {x = 0} (ground arith) ∙ drop-min n m.log_lines)
      (λ _. drop-min n m.log_lines)

-- Dropping all lines but the last `kept`.
pub contents-keep :
    (m : Model) (kept : ℕ)
    → contents (drop_cached_log_lines m (length m.log_lines - kept)).log_lines
      ≡ last_n kept (contents m.log_lines)
contents-keep m kept =
    ap contents (lines-drop m (length m.log_lines - kept))
    ∙ contents-drop (length m.log_lines - kept) m.log_lines
    ∙ ap (λ k. drop (k - kept) (contents m.log_lines)) (sym (length-contents m.log_lines))

-- Making room before an addition changes nothing of what is kept after it.
pub last_n-fill :
    {A : Type 0} (n : ℕ) (xs ys : List A)
    → last_n n (last_n (n - length ys) xs ++ ys) ≡ last_n n (xs ++ ys)
last_n-fill n xs ys =
    let k = length xs - (n - length ys) in
    let cut = drop-append_le k xs ys (omega arith) in
    ap (λ l. drop (length l - n) l) {x = drop k xs ++ ys} (sym cut)
    ∙ drop-drop (length (drop k (xs ++ ys)) - n) k (xs ++ ys)
    ∙ ap (λ c. drop c (xs ++ ys)) (omega (arith, length-drop k (xs ++ ys), length-append xs ys))

pub length-map : {A B : Type 0} (f : A → B) (xs : List A) → length (map f xs) ≡ length xs
length-map f [] = refl
length-map f (x ∷ xs) = ap suc (length-map f xs)

pub wrap_small : (n : ℕ) → n < u64 → n % u64 ≡ n
wrap_small n h = omega arith
