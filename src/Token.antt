-- ===== src/Token.antt =====
-- The tokens of the lexer and the readers over the token array: `struct lex_token` and the
-- `peek_*`, `read_*` and `skip_token` functions of interpreter.h and syntax.c.
-- A reader takes the tokens from `tokenidx` on; a read returns those that are left.
use lre.Base.{ℕ, Bool, true, false, Option, none, some, List, [], ◌∷◌, if◌then◌else◌}
use lre.Symbols.{Sym, is_operator}

-- A byte string without its terminating zero.
abbrev pub Word : Type 0
Word = List ℕ

-- The word of a symbol is that of the table, so it is not stored.
pub data Token : Type 0 where
  keyword : Word → Token
  string : Word → Token
  symbol : Sym → Token

abbrev pub Tokens : Type 0
Tokens = List Token

abbrev pub peek_curr_token : Tokens → Option Token
peek_curr_token [] = none
peek_curr_token (t ∷ ts) = some t

abbrev pub peek_next_token : Tokens → Option Token
peek_next_token [] = none
peek_next_token (t ∷ ts) = peek_curr_token ts

-- The tokens after a call that advances `tokenidx`; at the end it stays where it is.
abbrev pub skip_token : Tokens → Tokens
skip_token [] = []
skip_token (t ∷ ts) = ts

abbrev pub is_symbol : Sym → Sym → Bool
is_symbol Sym.start_brace Sym.start_brace = true
is_symbol Sym.end_brace Sym.end_brace = true
is_symbol Sym.start_parenthesis Sym.start_parenthesis = true
is_symbol Sym.end_parenthesis Sym.end_parenthesis = true
is_symbol Sym.comma Sym.comma = true
is_symbol _ _ = false

-- The test `token->type == TOKEN_TYPE_SYMBOL && token->symbol == s`, at a bracket or a comma: of a
-- comma it is what `peek_comma` and `read_comma` test.
abbrev pub token_is : Sym → Option Token → Bool
token_is s none = false
token_is s (some (symbol t)) = is_symbol s t
token_is s (some _) = false

-- The word that `read_keyword` returns.
abbrev pub keyword_of : Option Token → Option Word
keyword_of (some (keyword w)) = some w
keyword_of (some (string w)) = some w
keyword_of _ = none

-- The symbol that `peek_operator` and `read_operator` return; `none` is `-EINVAL`.
abbrev pub operator_of : Option Token → Option Sym
operator_of (some (symbol s)) = if is_operator s then some s else none
operator_of _ = none

abbrev is_start_bracket : Sym → Bool
is_start_bracket Sym.start_parenthesis = true
is_start_bracket Sym.start_brace = true
is_start_bracket _ = false

abbrev pub is_end_bracket : Sym → Bool
is_end_bracket Sym.end_parenthesis = true
is_end_bracket Sym.end_brace = true
is_end_bracket _ = false

-- `read_bracket`, and `peek_end_bracket` and `read_end_bracket`.
abbrev pub bracket_of : Option Token → Option Sym
bracket_of (some (symbol s)) = if is_start_bracket s then some s else none
bracket_of _ = none

abbrev pub end_bracket_of : Option Token → Option Sym
end_bracket_of (some (symbol s)) = if is_end_bracket s then some s else none
end_bracket_of _ = none
