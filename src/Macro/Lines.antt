-- ===== src/Macro/Lines.antt =====
-- The lines of a macro file: `read_macro_line` (macro.c) with `xgetline` (utils.c). A file is the
-- list of its bytes, none of them zero.
pub mod Laws
pub mod Plain
use lre.Base.{
  ◌&&◌, ℕ, zero, suc, ◌+◌, ◌-◌, Bool, true, false, ◌||◌, Option, none, some, List, [], ◌∷◌, ◌++◌,
  leb, ◌==◌, if◌then◌else◌, length,
}
use lre.Token.{Word}
use lre.Value.{cut_last}

-- Why the loop of `xgetline` stopped: a newline, the end of the file, or a full buffer.
pub data Stop : Type 0 where
  eol eof full : Stop

abbrev pub with_byte : ℕ → Word × Stop × Word → Word × Stop × Word
with_byte c (text, stop, rest) = (c ∷ text, stop, rest)

-- The loop, with room for `n` bytes: what it put into the buffer, and the rest of the file.
unfoldable pub get_loop : ℕ → Word → Word × Stop × Word
get_loop zero file = ([], full, file)
get_loop (suc n) [] = ([], eof, [])
get_loop (suc n) (c ∷ file) = elim (c == b'\n') [
  | true ↦ (c ∷ [], eol, file)
  | false ↦ with_byte c (get_loop n file)
]

-- The rest behind the next newline.
unfoldable pub skip_line : Word → Option Word
skip_line [] = none
skip_line (c ∷ file) = elim (c == b'\n') [ true ↦ some file | false ↦ skip_line file ]

-- The text in the buffer behind `xgetline` and the rest of the file; `null` is its null pointer.
pub data Got : Type 0 where
  got null : Word → Word → Got

-- The end of `xgetline`.
unfoldable pub got_line : Word × Stop × Word → Got
got_line ([], eof, rest) = null [] rest
got_line (c ∷ text, eof, rest) = got (c ∷ text) rest
got_line (text, eol, rest) = got text rest
got_line (text, full, rest) = elim (skip_line rest) [
  | none ↦ null text []
  | some rest' ↦ got [] rest'
]

unfoldable pub xgetline : ℕ → Word → Got
unfolding get_loop got_line
xgetline zero file = null [] file
xgetline (suc n) file = got_line (get_loop n file)

abbrev pub is_space : ℕ → Bool
is_space c = c == b' ' || (leb 9 c && leb c 13)

-- A comment or an empty line.
unfoldable pub is_ignored : Word → Bool
is_ignored [] = true
is_ignored (c ∷ text) = elim (is_space c) [ true ↦ is_ignored text | false ↦ c == b'#' ]

-- The last byte of the text, or the byte in front of the buffer.
unfoldable pub last_byte : ℕ → Word → ℕ
last_byte front [] = front
last_byte front (c ∷ text) = last_byte c text

-- Shorten the text by its last byte; `none` is a write in front of the buffer.
abbrev pub shorten : Word → Option Word
shorten [] = none
shorten (c ∷ text) = some (cut_last (c ∷ text))

unfoldable pub chomp : ℕ → Word → Option Word
chomp front text = elim (last_byte front text == b'\n') [ true ↦ shorten text | false ↦ some text ]

-- The length that is returned, the text in the buffer, and the rest of the file.
pub data Line : Type 0 where
  line : ℕ → Word → Word → Line
  fault out_of_fuel : Line

abbrev pub put_front : Word → (ℕ → Word → Word → Line) → Line → Line
put_front t k (line len text rest) = k (length t + len) (t ++ text) rest
put_front t k r = r

-- The end of `read_macro_line`; `again` is its label `repeat`.
unfoldable pub deliver : (Word → Line) → Bool → ℕ → Word → Word → Line
deliver again follow len text rest = elim (is_ignored text) [
  | false ↦ line len text rest
  | true ↦ elim follow [ true ↦ line len text rest | false ↦ again rest ]
]

-- `read_macro_line` behind `xgetline`: `again` is its label `repeat`, `next` reads the following line
-- into the rest of the buffer, `follow` is the flag, `front` the byte in front of the buffer, and
-- `size` the size of the buffer.
module _ (again : Word → Line) (next : ℕ → ℕ → Word → Line) (follow : Bool) (front size : ℕ) where
  unfoldable pub join_next : Word → Option Word → Line
  join_next rest none = fault
  join_next rest (some u) =
      put_front u (deliver again follow) (next (last_byte front u) (size - length u) rest)

  -- A line that ends in a backslash is followed by the next. A write in front of the buffer is a
  -- fault, also in a following line, where it would land in the text before it.
  unfoldable pub after_chomp : Word → Option Word → Line
  unfolding join_next
  after_chomp rest none = fault
  after_chomp rest (some t) = elim (last_byte front t == b'\\') [
    | false ↦ deliver again follow (length t) t rest
    | true ↦ join_next rest (shorten t)
  ]

  unfoldable pub after_get : Got → Line
  unfolding after_chomp
  after_get (null text rest) = line 0 text rest
  after_get (got text rest) = after_chomp rest (chomp front text)

-- `read_macro_line` on fuel.
unfoldable pub read_macro_line : ℕ → Bool → ℕ → ℕ → Word → Line
unfolding after_get
read_macro_line zero follow front size file = out_of_fuel
read_macro_line (suc n) follow front size file =
    after_get (read_macro_line n false front size) (read_macro_line n true) follow front size
      (xgetline size file)
