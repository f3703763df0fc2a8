-- ===== src/Cli/Token.antt =====
-- `tokenize_response_file` of src/cli.rs: the words of a response file, with quotes, escapes and
-- comments.
use mux_runtime.Common.{
  ℕ, Bool, true, false, ◌||◌, ◌&&◌, ◌==◌, if◌then◌else◌, Option, none, some, List, [], ◌∷◌, ◌++◌,
  ok, err,
}
use mux_runtime.Cli.Host.{Str, ends_with_escape, unterminated_quote, Parsed}

-- the variables of the loop
pub record Scan : Type 0 where
  pub tokens : List Str
  pub current : Str
  pub quote : Option ℕ
  pub escaped : Bool
  pub comment : Bool

abbrev pub is_empty : Str → Bool
is_empty [] = true
is_empty (c ∷ cs) = false

module _ (is_whitespace : ℕ → Bool) where
  -- what a backslash escapes: the end of the file, white space and `\`, `'`, `"` and `#`
  unfoldable pub escapes : Option ℕ → Bool
  escapes none = true
  escapes (some c) = is_whitespace c || (c == 92) || (c == 39) || (c == 34) || (c == 35)

  unfoldable pub push : ℕ → Scan → Scan
  push c s = record s { current = s.current ++ c ∷ [] }

  -- `if !current.is_empty() { tokens.push(std::mem::take(&mut current)) }`
  unfoldable pub flush : Scan → Scan
  flush s =
      if is_empty s.current
      then s
      else record s { tokens = s.tokens ++ s.current ∷ []; current = [] }

  -- a character inside a quote
  unfoldable pub scan_quoted : ℕ → ℕ → Option ℕ → Scan → Scan
  unfolding escapes push
  scan_quoted active c next s =
      if c == 92
      then (if escapes next then record s { escaped = true } else push c s)
      else if c == active
      then record s { quote = none }
      else push c s

  -- a character outside of quotes
  unfoldable pub scan_plain : ℕ → Option ℕ → Scan → Scan
  unfolding escapes push flush
  scan_plain c next s =
      if c == 92
      then (if escapes next then record s { escaped = true } else push c s)
      else if (c == 39) || (c == 34)
      then record s { quote = some c }
      else if (c == 35) && is_empty s.current
      then record s { comment = true }
      else if is_whitespace c
      then flush s
      else push c s

  -- one round of the loop, with the character that follows
  unfoldable pub scan_character : ℕ → Option ℕ → Scan → Scan
  unfolding push scan_quoted scan_plain
  scan_character c next s =
      if s.comment
      then (if c == 10 then record s { comment = false } else s)
      else if s.escaped
      then record (push c s) { escaped = false }
      else elim s.quote [ none ↦ scan_plain c next s | some active ↦ scan_quoted active c next s ]

  -- `characters.peek()`
  unfoldable pub peek : Str → Option ℕ
  peek [] = none
  peek (c ∷ cs) = some c

  unfoldable pub scan_loop : Str → Scan → Scan
  unfolding scan_character peek
  scan_loop [] s = s
  scan_loop (c ∷ cs) s = scan_loop cs (scan_character c (peek cs) s)

  -- the checks behind the loop
  unfoldable pub finish_scan : Scan → Parsed (List Str)
  unfolding flush
  finish_scan s =
      if s.escaped
      then err ends_with_escape
      else elim s.quote [ none ↦ ok ((flush s).tokens) | some q ↦ err unterminated_quote ]

  unfoldable pub tokenize_response_file : Str → Parsed (List Str)
  unfolding scan_loop finish_scan
  tokenize_response_file source = finish_scan (
      scan_loop source
        (record { tokens = []; current = []; quote = none; escaped = false; comment = false }))
