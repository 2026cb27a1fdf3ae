-- ===== src/Lexer.antt =====
-- The lexer of lexer.c. Source text is a list of bytes, without the zero that ends it. The
-- position in the word buffer is kept as a number: a word of n bytes takes n + 1 of them, of which
-- the last is a zero of the buffer, which was cleared before.
pub mod Spelling
pub mod RoundTrip
pub mod Fuel
use lre.Base.{
  ℕ, zero, suc, ◌+◌, Bool, true, false, ◌&&◌, ◌||◌, Option, none, some, List, [], ◌∷◌, ◌==◌, leb,
  if◌then◌else◌, length,
}
use lre.Symbols.{Sym}
use lre.Token.{Word, Token, Tokens, keyword, string, symbol}

abbrev pub is_blank : ℕ → Bool
is_blank c = c == b' ' || (c == b'\t' || (c == b'\r' || c == b'\n'))

abbrev pub is_word_char : ℕ → Bool
is_word_char c =
    (leb b'a' c && leb c b'z')
    || ((leb b'A' c && leb c b'Z') || ((leb b'0' c && leb c b'9') || c == b'_'))

unfoldable pub skip_blank : Word → Word
skip_blank [] = []
skip_blank (c ∷ cs) = let rest = skip_blank cs in if is_blank c then rest else c ∷ cs

-- The word characters at the front, and what follows them.
unfoldable pub span_word : Word → Word × Word
span_word [] = ([], [])
span_word (c ∷ cs) =
    let (w, rest) = span_word cs in if is_word_char c then (c ∷ w, rest) else ([], c ∷ cs)

abbrev pub in_front : ℕ → Option (Word × Word) → Option (Word × Word)
in_front c none = none
in_front c (some (w, rest)) = some (c ∷ w, rest)

-- Behind an opening quote: the bytes up to the closing quote and it; `none` if there is none.
unfoldable pub scan_string : Word → Option (Word × Word)
scan_string [] = none
scan_string (c ∷ cs) =
    let more = in_front c (scan_string cs) in if c == b'"' then some (c ∷ [], cs) else more

-- One of two symbols, by the byte that follows the first.
abbrev pub one_or_two : ℕ → Sym → Sym → Word → Option (Sym × Word)
one_or_two second two one [] = some (one, [])
one_or_two second two one (c ∷ cs) = if c == second then some (two, cs) else some (one, c ∷ cs)

-- The switch over the first byte of a symbol.
unfoldable pub scan_symbol : ℕ → Word → Option (Sym × Word)
scan_symbol c cs =
    if c == b'&'
    then one_or_two b'&' Sym.and Sym.bitand cs
    else if c == b'|'
    then one_or_two b'|' Sym.or Sym.bitor cs
    else if c == b'!'
    then one_or_two b'=' Sym.not_equal Sym.not cs
    else if c == b'='
    then one_or_two b'=' Sym.equal Sym.assign cs
    else if c == b'>'
    then one_or_two b'=' Sym.gt_or_equal Sym.gt cs
    else if c == b'<'
    then one_or_two b'=' Sym.lt_or_equal Sym.lt cs
    else if c == b'{'
    then some (Sym.start_brace, cs)
    else if c == b'}'
    then some (Sym.end_brace, cs)
    else if c == b'('
    then some (Sym.start_parenthesis, cs)
    else if c == b')'
    then some (Sym.end_parenthesis, cs)
    else if c == b'$'
    then some (Sym.variable, cs)
    else if c == b','
    then some (Sym.comma, cs)
    else if c == b'%'
    then some (Sym.mod_sym, cs)
    else if c == b'~'
    then some (Sym.invert, cs)
    else if c == b'^'
    then some (Sym.bitxor, cs)
    else if c == b'+'
    then one_or_two b'=' Sym.add_equal Sym.add cs
    else if c == b'-'
    then one_or_two b'=' Sym.sub_equal Sym.sub cs
    else if c == b'*'
    then one_or_two b'=' Sym.mul_equal Sym.mul cs
    else if c == b'/'
    then one_or_two b'=' Sym.div_equal Sym.div cs
    else none

-- `T_EOF`, `T_OK` with the token and the text left, and `T_ERR`.
pub data Scan : Type 0 where
  eof err : Scan
  tok : Token → Word → Scan

abbrev pub string_token : Option (Word × Word) → Scan
string_token none = err
string_token (some (w, rest)) = tok (string (b'"' ∷ w)) rest

abbrev pub symbol_token : Option (Sym × Word) → Scan
symbol_token none = err
symbol_token (some (s, rest)) = tok (symbol s) rest

abbrev keyword_token : Word × Word → Scan
keyword_token (w, rest) = tok (keyword w) rest

-- `next_token` behind the blanks.
unfoldable pub token_at : Word → Scan
token_at [] = eof
token_at (c ∷ cs) =
    if is_word_char c
    then keyword_token (span_word (c ∷ cs))
    else if c == b'"'
    then string_token (scan_string cs)
    else symbol_token (scan_symbol c cs)

unfoldable pub next_token : Word → Scan
next_token code = token_at (skip_blank code)

-- The bytes by which a token moves `wordptr`; a symbol's word lies in the table.
abbrev pub word_room : Token → ℕ
word_room (keyword w) = length w + 1
word_room (string w) = length w + 1
word_room (symbol s) = 0

-- The tokens, and the place in the word buffer behind the last word.
pub data LexReply : Type 0 where
  ok : Tokens → ℕ → LexReply
  einval out_of_fuel : LexReply

abbrev pub push : Token → LexReply → LexReply
push t (ok ts pos) = ok (t ∷ ts) pos
push t einval = einval
push t out_of_fuel = out_of_fuel

-- The loop of `lexer_read_token`. Behind a token it goes on at once, so the test of the token
-- capacity below the `continue` is never reached and stands for nothing here.
unfoldable pub lexer_loop : ℕ → Word → ℕ → LexReply
lexer_loop zero code pos = out_of_fuel
lexer_loop (suc f) code pos = elim (next_token code) [
  | eof ↦ ok [] pos
  | err ↦ einval
  | tok t rest ↦ push t (lexer_loop f rest (pos + word_room t))
]

-- `lexer_read_token`, from the start of the word buffer.
unfoldable pub lexer_read_token : Word → LexReply
lexer_read_token code = lexer_loop (length code + 1) (skip_blank code) 0
