-- ===== src/Runner/Logs.antt =====
-- internal/process/logs.go. The reader is the list of what `ReadSlice` returns in turn; the records are
-- listed in the order in which they are sent, without their stream and time. The limit of a record is
-- an argument of the inner loop.
pub mod Runes
pub mod Boundary
pub mod Pieces
pub mod Lines
pub mod Open
pub mod Records
use process_deck.Base.{
  ℕ, zero, suc, ◌+◌, ◌-◌, ◌*◌, ◌==◌, Bool, true, false, not, ◌&&◌, ◌||◌, List, [], ◌∷◌, ◌++◌,
  Option, none, some, if◌then◌else◌, ltb, length, get_or, take, drop,
}
use process_deck.Base.Text.{Text}
use process_deck.Base.Utf8.{Bytes, rune_start, decode_size, full_rune}

unfoldable pub max_log_line_bytes : ℕ
max_log_line_bytes = 1024 * 1024

pub data ReadError : Type 0 where
  buffer_full eof : ReadError
  read_error : Text → ReadError

pub record Slice : Type 0 where
  pub part : Bytes
  pub failure : Option ReadError

-- The search back for the first byte of a character, with the steps left to `cut - utf8.UTFMax`.
unfoldable pub start_before : Bytes → ℕ → ℕ → ℕ
unfolding rune_start
start_before pending zero start = start
start_before pending (suc steps) start =
    let further = start_before pending steps (start - 1) in
    if rune_start (get_or pending start 0) then start else further

unfoldable pub cut_point : ℕ → Bytes → ℕ
unfolding start_before decode_size full_rune
cut_point limit pending =
    let start = start_before pending 4 limit in
    if ltb start limit
      && (ltb limit (start + decode_size (drop start pending))
          || not (full_rune (drop start pending)))
    then start
    else limit

-- The inner loop: the records that it sends, and what is still pending.
unfoldable pub split_pending : ℕ → ℕ → Bytes → List Bytes × Bytes
unfolding cut_point
split_pending zero limit pending = ([], pending)
split_pending (suc fuel) limit pending =
    let cut = cut_point limit pending in
    let rest = split_pending fuel limit (drop cut pending) in
    if ltb limit (length pending) then (take cut pending ∷ rest.0, rest.1) else ([], pending)

abbrev pub last_is : ℕ → Bytes → Bool
last_is c bytes = ltb 0 (length bytes) && get_or bytes (length bytes - 1) 0 == c

abbrev pub without_last : Bytes → Bytes
without_last bytes = take (length bytes - 1) bytes

abbrev pub ends_read : Option ReadError → Bool
ends_read none = false
ends_read (some buffer_full) = false
ends_read (some other) = true

-- What the loop returns at its end.
abbrev pub error_of : Option ReadError → Option Text
error_of (some (read_error reason)) = some reason
error_of other = none

-- The body of the loop: the records that it sends, and what is pending behind it.
unfoldable pub scan_slice : ℕ → Slice → Bytes → List Bytes × Bytes
unfolding split_pending
scan_slice limit slice pending =
    let end_of_line = last_is b'\n' slice.part in
    let end_of_read = ends_read slice.failure in
    let part = if end_of_line then without_last slice.part else slice.part in
    let joined = pending ++ part in
    let has_content = ltb 0 (length joined) in
    let trimmed =
      if (end_of_line || end_of_read) && last_is b'\r' joined
      then without_last joined
      else joined in
    let (records, rest) = split_pending (length trimmed) limit trimmed in
    if end_of_line || (end_of_read && has_content)
    then (records ++ rest ∷ [], [])
    else (records, rest)

-- The loop. The result is missing as long as the reader has not ended.
unfoldable pub scan_from : ℕ → List Slice → Bytes → List Bytes × Option (Option Text)
unfolding scan_slice
scan_from limit [] pending = ([], none)
scan_from limit (slice ∷ slices) pending =
    let (records, pending') = scan_slice limit slice pending in
    let (more, result) = scan_from limit slices pending' in
    if ends_read slice.failure
    then (records, some (error_of slice.failure))
    else (records ++ more, result)

unfoldable pub scan_lines : List Slice → List Bytes × Option (Option Text)
unfolding scan_from max_log_line_bytes
scan_lines slices = scan_from max_log_line_bytes slices []
