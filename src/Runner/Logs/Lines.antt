-- ===== src/Runner/Logs/Lines.antt =====
-- The lines of an output, and what a reader of it returns, as documented for `bufio.Reader.ReadSlice`.
use process_deck.Base.{
  ℕ, suc, ◌+◌, ◌-◌, ◌<◌, ◌==◌, ◌≡◌, ◌↔◌, refl, sym, ap, ap₂, ◌∙◌, true, false, List, [], ◌∷◌, ◌++◌,
  Option, none, some, if◌then◌else◌, ltb, length, get_or, take, arith, length-append, append_assoc,
  append-nil, subst, if_ind, take-append, inl, inr,
}
use process_deck.Base.Text.{Text}
use process_deck.Base.GoStrings.{contains_char}
use process_deck.Base.Utf8.{Bytes, IsUtf8, nil, rune, IsRune, one, rune_start, is_continuation}
use process_deck.Runner.Logs.{Slice, ReadError, buffer_full, eof, read_error, last_is, without_last}
use process_deck.Runner.Logs.Runes.{overlap, get_or-append, IsRune-tail}

abbrev pub slice : Bytes → Option ReadError → Slice
slice part failure = record { part = part; failure = failure }

-- What `ReadSlice` returns for an output that ends, and the error at its end: slices up to a newline,
-- slices that fill the buffer, and a last slice with the end or an error.
pub data Returns : List Slice → Bytes → Option Text → Type 0 where
  at_eof :
      (part : Bytes)
      → contains_char part b'\n' ≡ false
      → Returns (slice part (some eof) ∷ []) part none
  failing :
      (part : Bytes) {reason : Text}
      → contains_char part b'\n' ≡ false
      → Returns (slice part (some (read_error reason)) ∷ []) part (some reason)
  whole_line :
      (part : Bytes) {bytes : Bytes} {slices : List Slice} {result : Option Text}
      → contains_char part b'\n' ≡ false
      → Returns slices bytes result
      → Returns (slice (part ++ b'\n' ∷ []) none ∷ slices) (part ++ b'\n' ∷ bytes) result
  full_buffer :
      (part : Bytes) {bytes : Bytes} {slices : List Slice} {result : Option Text}
      → contains_char part b'\n' ≡ false
      → Returns slices bytes result
      → Returns (slice part (some buffer_full) ∷ slices) (part ++ bytes) result

abbrev pub strip_cr : Bytes → Bytes
strip_cr line = if last_is b'\r' line then without_last line else line

-- The lines of `bytes` without their ends, where `current` stands before them in the first line.
pub lines_from : Bytes → Bytes → List Bytes
lines_from current [] = if ltb 0 (length current) then strip_cr current ∷ [] else []
lines_from current (c ∷ cs) =
    let next = lines_from [] cs in
    let further = lines_from (current ++ c ∷ []) cs in
    if c == b'\n' then strip_cr current ∷ next else further

pub lines_from-nil :
    (current : Bytes)
    → lines_from current [] ≡ (if ltb 0 (length current) then strip_cr current ∷ [] else [])
unfolding lines_from
lines_from-nil current = refl

pub lines_from-line :
    (current part bytes : Bytes)
    → contains_char part b'\n' ≡ false
    → lines_from current (part ++ b'\n' ∷ bytes) ≡ strip_cr (current ++ part) ∷ lines_from [] bytes
unfolding lines_from contains_char
lines_from-line current [] bytes h =
    ap (λ t. strip_cr t ∷ lines_from [] bytes) (sym (append-nil current))
lines_from-line current (c ∷ part) bytes h =
    let other : (c == b'\n') ≡ false = ground arith in
    let rest : contains_char part b'\n' ≡ false = ground arith in
    rw other (
      lines_from-line (current ++ c ∷ []) part bytes rest
      ∙ ap (λ t. strip_cr t ∷ lines_from [] bytes) (append_assoc current (c ∷ []) part))

pub lines_from-part :
    (current part bytes : Bytes)
    → contains_char part b'\n' ≡ false
    → lines_from current (part ++ bytes) ≡ lines_from (current ++ part) bytes
unfolding lines_from contains_char
lines_from-part current [] bytes h = ap (λ t. lines_from t bytes) (sym (append-nil current))
lines_from-part current (c ∷ part) bytes h =
    let other : (c == b'\n') ≡ false = ground arith in
    let rest : contains_char part b'\n' ≡ false = ground arith in
    rw other (
      lines_from-part (current ++ c ∷ []) part bytes rest
      ∙ ap (λ t. lines_from t bytes) (append_assoc current (c ∷ []) part))

pub last_is-concat : (c d : ℕ) (part : Bytes) → last_is c (part ++ d ∷ []) ≡ (d == c)
last_is-concat c d part =
    let pos : ltb 0 (length (part ++ d ∷ [])) ≡ true =
      ground (arith, length-append {0} part (d ∷ [])) in
    let last : get_or (part ++ d ∷ []) (length (part ++ d ∷ []) - 1) 0 ≡ d =
      ap (λ n. get_or (part ++ d ∷ []) n 0) (omega (arith, length-append {0} part (d ∷ [])))
      ∙ get_or-append part (d ∷ []) 0 in
    rw (pos, last) refl

pub without_last-concat : (part : Bytes) (d : ℕ) → without_last (part ++ d ∷ []) ≡ part
without_last-concat part d =
    ap (λ n. take n (part ++ d ∷ [])) (omega (arith, length-append {0} part (d ∷ [])))
    ∙ take-append part (d ∷ [])

-- Every text but the empty one has a last byte.
pub last_byte :
    (text : Bytes) → 0 < length text → (front : Bytes) × (c : ℕ) × (text ≡ front ++ c ∷ [])
last_byte [] h = absurd (omega arith)
last_byte (x ∷ []) h = ([], x, refl)
last_byte (x ∷ y ∷ text) h =
    let (front, c, e) = last_byte (y ∷ text) (omega arith) in (x ∷ front, c, ap (λ t. x ∷ t) e)

strip_cr-concat :
    (front : Bytes) (c : ℕ)
    → strip_cr (front ++ c ∷ []) ≡ (if c == b'\r' then front else front ++ c ∷ [])
strip_cr-concat front c = rw (last_is-concat b'\r' c front, without_last-concat front c) refl

contains_char-last :
    (front : Bytes) (c d : ℕ) → contains_char (front ++ c ∷ []) d ≡ false → (c == d) ≡ false
unfolding contains_char
contains_char-last [] c d h = ground arith
contains_char-last (x ∷ front) c d h = contains_char-last front c d (ground arith)

pub last_is-newline : (part : Bytes) → contains_char part b'\n' ≡ false → last_is b'\n' part ≡ false
last_is-newline [] h = refl
last_is-newline (x ∷ xs) h =
    let (front, c, e) = last_byte (x ∷ xs) (omega arith) in
    subst (λ t. contains_char t b'\n' ≡ false → last_is b'\n' t ≡ false) (sym e)
      (λ g. last_is-concat b'\n' c front ∙ contains_char-last front c b'\n' g) h

pub strip_cr-append : (xs ys : Bytes) → 0 < length ys → strip_cr (xs ++ ys) ≡ xs ++ strip_cr ys
strip_cr-append xs ys h =
    let (front, c, e) = last_byte ys h in
    subst (λ t. strip_cr (xs ++ t) ≡ xs ++ strip_cr t) (sym e)
      (ap strip_cr (sym (append_assoc xs front (c ∷ [])))
        ∙ strip_cr-concat (xs ++ front) c
        ∙ if_ind (λ t. t ≡ xs ++ strip_cr (front ++ c ∷ [])) (c == b'\r')
            (λ cr. ap (λ t. xs ++ t) (sym (strip_cr-concat front c ∙ rw cr refl)))
            (λ other.
              append_assoc xs front (c ∷ [])
              ∙ ap (λ t. xs ++ t) (sym (strip_cr-concat front c ∙ rw other refl))))

-- A character whose last byte is ASCII is that byte.
IsRune-ascii :
    {first : Bytes} (xs : Bytes) (c : ℕ) → IsRune first → first ≡ xs ++ c ∷ [] → c < 0x80 → xs ≡ []
unfolding rune_start is_continuation
IsRune-ascii [] c k e h = refl
IsRune-ascii {first} (x ∷ xs) c k e h =
    let last : get_or first (suc (length xs)) 0 ≡ c =
      ap (λ t. get_or t (suc (length xs)) 0) e
      ∙ ap (λ n. get_or (xs ++ c ∷ []) n 0) (let eq : length xs ≡ length xs + 0 = omega arith in eq)
      ∙ get_or-append xs (c ∷ []) 0 in
    let tail =
      IsRune-tail k (length xs) (omega (arith, ap length e, length-append {0} xs (c ∷ []))) in
    absurd (ground arith)

one_byte : (d : ℕ) (r rest : Bytes) (c : ℕ) → c ∷ [] ≡ (d ∷ r) ++ rest → r ≡ []
one_byte d [] rest c e = refl
one_byte d (x ∷ r) rest c e = cc

-- A valid text without an ASCII byte at its end is valid.
pub IsUtf8-unsnoc :
    {text : Bytes} (xs : Bytes) (c : ℕ) → IsUtf8 text → text ≡ xs ++ c ∷ [] → c < 0x80 → IsUtf8 xs
IsUtf8-unsnoc xs c nil e h = absurd (omega (arith, ap length e, length-append {0} xs (c ∷ [])))
IsUtf8-unsnoc xs c (rune {first} {rest} k u) e h = elim (overlap first xs rest (c ∷ []) e) [
  | inr (r, front, behind, more) ↦ subst IsUtf8 (sym front) (rune k (IsUtf8-unsnoc r c u behind h))
  | inl ([], front, behind) ↦ subst IsUtf8 (append-nil first ∙ front ∙ append-nil xs) (rune k nil)
  | inl (d ∷ r, front, behind) ↦
      let ends : first ≡ xs ++ c ∷ [] =
        front ∙ ap (λ t. xs ++ t) (ap₂ (λ b t. b ∷ t) (cc) (one_byte d r rest c behind)) in
      subst IsUtf8 (sym (IsRune-ascii xs c k ends h)) nil
]

pub IsUtf8-append : {xs : Bytes} (ys : Bytes) → IsUtf8 xs → IsUtf8 ys → IsUtf8 (xs ++ ys)
IsUtf8-append ys nil v = v
IsUtf8-append ys (rune {first} {rest} k u) v =
    subst IsUtf8 (sym (append_assoc first rest ys)) (rune k (IsUtf8-append ys u v))

-- The carriage return before a newline changes nothing about validity.
pub strip_cr_iff : (text : Bytes) → IsUtf8 text ↔ IsUtf8 (strip_cr text)
strip_cr_iff [] = ((λ u. u), (λ u. u))
strip_cr_iff (x ∷ xs) =
    let (front, c, e) = last_byte (x ∷ xs) (omega arith) in
    subst (λ t. IsUtf8 t ↔ IsUtf8 (strip_cr t)) (sym e)
      (subst (λ t. IsUtf8 (front ++ c ∷ []) ↔ IsUtf8 t) (sym (strip_cr-concat front c))
        (if_ind (λ t. IsUtf8 (front ++ c ∷ []) ↔ IsUtf8 t) (c == b'\r')
          (λ cr.
            let ascii : c < 0x80 = ground arith in
            (
              (λ u. IsUtf8-unsnoc front c u refl ascii),
              (λ u. IsUtf8-append (c ∷ []) u (rune (one ascii) nil)),
            ))
          (λ other. ((λ u. u), (λ u. u)))))
