-- ===== src/Runner/Logs/Boundary.antt =====
-- The cut of a long line stands between two characters.
use native.Mathlib.Decide.{dec_lt}
use process_deck.Base.{
  ℕ, zero, suc, ◌+◌, ◌-◌, ◌≤◌, ◌<◌, ◌≡◌, ◌≢◌, inl, inr, refl, sym, ap, ◌∙◌, true, false, not, ◌&&◌,
  ◌||◌, [], ◌∷◌, ◌++◌, ltb, length, get_or, take, drop, arith, length-append, take-append,
  drop-append, append_assoc, subst, if_ind, lt→ltb,
}
use process_deck.Base.Utf8.{Bytes, rune_start, decode_size, full_rune, IsRune, IsUtf8, nil, rune}
use process_deck.Runner.Logs.{start_before, cut_point}
use process_deck.Runner.Logs.Runes.{
  overlap, get_or-append, get_or-front, IsRune-tail, IsRune-head, length-IsRune, decode_size-append,
  full_rune-front,
}

-- The character at the index `at` of a text, with what stands around it.
record Around (at : ℕ) (text : Bytes) : Type 0 where
  front : Bytes
  char : Bytes
  rest : Bytes
  splits : text ≡ front ++ (char ++ rest)
  front_ok : IsUtf8 front
  char_ok : IsRune char
  rest_ok : IsUtf8 rest
  low : length front ≤ at
  high : at < length front + length char

around : {text : Bytes} (at : ℕ) → IsUtf8 text → at < length text → Around at text
around at nil h = absurd (omega arith)
around at (rune {first} {rest} k u) h = elim (dec_lt at (length first)) [
  | yes here ↦ record {
    front = [];
    char = first;
    rest = rest;
    splits = refl;
    front_ok = nil;
    char_ok = k;
    rest_ok = u;
    low = omega arith;
    high = omega arith;
  }
  | no beyond ↦
      let a = around (at - length first) u (omega (arith, length-append {0} first rest)) in
      record {
        front = first ++ a.front;
        char = a.char;
        rest = a.rest;
        splits =
            ap (λ t. first ++ t) a.splits ∙ sym (append_assoc first a.front (a.char ++ a.rest));
        front_ok = rune k a.front_ok;
        char_ok = a.char_ok;
        rest_ok = a.rest_ok;
        low = omega (arith, a.low, length-append {0} first a.front);
        high = omega (arith, a.high, length-append {0} first a.front);
      }
]

start_before-start :
    (pending : Bytes) (start steps k : ℕ)
    → k ≤ steps
    → rune_start (get_or pending start 0) ≡ true
    → ((j : ℕ) → j < k → rune_start (get_or pending (start + suc j) 0) ≡ false)
    → start_before pending steps (start + k) ≡ start
unfolding start_before
start_before-start pending start zero zero le head tail = omega arith
start_before-start pending start zero (suc k) le head tail = absurd (omega arith)
start_before-start pending start (suc steps) zero le head tail =
    let here : start + 0 ≡ start = omega arith in
    let e : rune_start (get_or pending (start + 0) 0) ≡ true = rw here head in rw e here
start_before-start pending start (suc steps) (suc k) le head tail =
    let back : start + suc k - 1 ≡ start + k = omega arith in
    rw (tail k (omega arith), back)
      (start_before-start pending start steps k (omega arith) head (λ j h. tail j (omega arith)))

-- The bytes of the character that the limit falls into, in a text that may end inside it.
module _ (front ys suffix char rest : Bytes) (same_end : char ++ rest ≡ ys ++ suffix) where
  byte_at :
      (i : ℕ)
      → i < length char
      → i < length ys
      → get_or (front ++ ys) (length front + i) 0 ≡ get_or char i 0
  byte_at i in_char in_ys =
      get_or-append front ys i
      ∙ sym (get_or-front ys suffix i in_ys)
      ∙ ap (λ t. get_or t i 0) (sym same_end)
      ∙ get_or-front char rest i in_char

  start_before-char :
      (at : ℕ)
      → IsRune char
      → length front ≤ at
      → at < length front + length char
      → at < length front + length ys
      → start_before (front ++ ys) 4 at ≡ length front
  start_before-char at k low high inside =
      let behind : at ≡ length front + (at - length front) = omega arith in
      let four_at_most = length-IsRune k in
      ap (start_before (front ++ ys) 4) behind
      ∙ start_before-start (front ++ ys) (length front) 4 (at - length front) (omega arith)
          (ap rune_start (
              ap (λ n. get_or (front ++ ys) n 0)
                (let eq : length front ≡ length front + 0 = omega arith in eq)
              ∙ byte_at 0 (omega arith) (omega arith))
            ∙ IsRune-head k)
          (λ j h.
            ap rune_start (byte_at (suc j) (omega arith) (omega arith))
            ∙ IsRune-tail k j (omega arith))

  not_whole :
      (at : ℕ)
      → IsRune char
      → length front < at
      → at < length front + length char
      → at < length front + length ys
      → (ltb at (length front + decode_size ys) || not (full_rune ys)) ≡ true
  not_whole at k low high inside = elim (overlap ys char suffix rest (sym same_end)) [
    | inl (z, longer, e) ↦
        let size : decode_size ys ≡ length char = ap decode_size longer ∙ decode_size-append z k in
        ground arith
    | inr (z, shorter, e, more) ↦
        let whole : full_rune ys ≡ false = part ys z shorter more (omega arith) in ground arith
  ]
    where
      part : (ys z : Bytes) → char ≡ ys ++ z → z ≢ [] → 0 < length ys → full_rune ys ≡ false
      part [] z e n pos = absurd (omega arith)
      part (y ∷ ys) [] e n pos = absurd (n refl)
      part (y ∷ ys) (c ∷ z) e n pos = full_rune-front y ys c z k e

  cut_point-char :
      (limit : ℕ)
      → IsRune char
      → length front ≤ limit
      → limit < length front + length char
      → limit < length front + length ys
      → cut_point limit (front ++ ys) ≡ length front
  unfolding cut_point
  cut_point-char limit k low high inside =
      rw (start_before-char limit k low high inside, drop-append front ys)
        (if_ind (λ n. n ≡ length front)
          (ltb (length front) limit
            && (ltb limit (length front + decode_size ys) || not (full_rune ys)))
          (λ moved. refl)
          (λ stays. elim (dec_lt (length front) limit) [
            | yes inner ↦
                let moved = not_whole limit k inner high inside in
                absurd (ground (arith, lt→ltb _ _ inner))
            | no edge ↦ omega arith
          ]))

-- A valid text, of which `pending` is the beginning, is cut between two of its characters.
pub cut_point-IsUtf8 :
    (limit : ℕ) (pending suffix : Bytes)
    → limit < length pending
    → IsUtf8 (pending ++ suffix)
    → IsUtf8 (take (cut_point limit pending) pending)
      × IsUtf8 (drop (cut_point limit pending) pending ++ suffix)
cut_point-IsUtf8 limit pending suffix long valid =
    let a = around limit valid (omega (arith, length-append {0} pending suffix)) in
    elim (overlap pending a.front suffix (a.char ++ a.rest) a.splits) [
      | inl (ys, e, same_end) ↦
          let cut : cut_point limit (a.front ++ ys) ≡ length a.front =
            cut_point-char a.front ys suffix a.char a.rest same_end limit a.char_ok a.low a.high
              (omega (arith, ap length e, length-append {0} a.front ys)) in
          subst
            (λ p.
              IsUtf8 (take (cut_point limit p) p) × IsUtf8 (drop (cut_point limit p) p ++ suffix))
            (sym e)
            (rw (cut, take-append a.front ys, drop-append a.front ys)
              (a.front_ok, subst IsUtf8 same_end (rune a.char_ok a.rest_ok)))
      | inr (z, e, same_end, more) ↦
          absurd (omega (arith, a.low, ap length e, length-append {0} pending z))
    ]

start_before_bounds :
    (pending : Bytes) (steps start : ℕ)
    → (start ≤ start_before pending steps start + steps)
      × (start_before pending steps start ≤ start)
unfolding start_before
start_before_bounds pending zero start = omega arith
start_before_bounds pending (suc steps) start =
    ground (arith, start_before_bounds pending steps (start - 1))

-- A record is not longer than the limit, and at most four bytes shorter.
pub cut_point_bounds :
    (limit : ℕ) (pending : Bytes)
    → (limit ≤ cut_point limit pending + 4) × (cut_point limit pending ≤ limit)
unfolding cut_point
cut_point_bounds limit pending =
    let bounds = start_before_bounds pending 4 limit in
    if_ind (λ n. (limit ≤ n + 4) × (n ≤ limit)) _ {y = limit} (λ moved. bounds)
      (λ stays. omega arith)
