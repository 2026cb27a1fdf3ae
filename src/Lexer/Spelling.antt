-- ===== src/Lexer/Spelling.antt =====
-- The texts that the lexer of lexer.c is to read: tokens with blanks behind them.
use lre.Base.{ℕ, ◌+◌, Bool, true, false, Option, none, some, List, [], ◌∷◌, ◌++◌, ◌≡◌, ◌==◌}
use lre.Symbols.{Sym, get_symbol_str}
use lre.Token.{Word, Token, Tokens, keyword, string, symbol}
use lre.Lexer.{is_blank, is_word_char, word_room}

abbrev pub All : (ℕ → Bool) → Word → Type 0
All p [] = Unit
All p (c ∷ cs) = (p c ≡ true) × All p cs

abbrev pub IsWordHead : Word → Type 0
IsWordHead [] = ⊥
IsWordHead (c ∷ cs) = Unit

-- A quoted string, behind its opening quote: no quote but the last byte.
abbrev pub IsQuoted : Word → Type 0
IsQuoted [] = ⊥
IsQuoted (c ∷ []) = c ≡ b'"'
IsQuoted (c ∷ d ∷ cs) = ((c == b'"') ≡ false) × IsQuoted (d ∷ cs)

abbrev IsString : Word → Type 0
IsString [] = ⊥
IsString (c ∷ cs) = (c ≡ b'"') × IsQuoted cs

abbrev IsSpelledSym : Sym → Type 0
IsSpelledSym s = elim (get_symbol_str s) [ none ↦ ⊥ | some w ↦ Unit ]

abbrev pub IsWellToken : Token → Type 0
IsWellToken (keyword w) = IsWordHead w × All is_word_char w
IsWellToken (string w) = IsString w
IsWellToken (symbol s) = IsSpelledSym s

abbrev symbol_text : Option Word → Word
symbol_text none = []
symbol_text (some w) = w

abbrev pub text : Token → Word
text (keyword w) = w
text (string w) = w
text (symbol s) = symbol_text (get_symbol_str s)

abbrev pub starts_with : (ℕ → Bool) → Word → Bool
starts_with p [] = false
starts_with p (c ∷ cs) = p c

-- A byte that would make a longer symbol.
abbrev extends : Sym → ℕ → Bool
extends Sym.bitand c = c == b'&'
extends Sym.bitor c = c == b'|'
extends Sym.not c = c == b'='
extends Sym.assign c = c == b'='
extends Sym.gt c = c == b'='
extends Sym.lt c = c == b'='
extends Sym.add c = c == b'='
extends Sym.sub c = c == b'='
extends Sym.mul c = c == b'='
extends Sym.div c = c == b'='
extends _ c = false

-- What may follow a token at once.
abbrev pub Separated : Token → Word → Type 0
Separated (keyword w) cs = starts_with is_word_char cs ≡ false
Separated (string w) cs = Unit
Separated (symbol s) cs = starts_with (extends s) cs ≡ false

-- A text as its tokens, each with the blanks behind it.
abbrev pub Spelling : Type 0
Spelling = List (Token × Word)

abbrev pub spell : Spelling → Word
spell [] = []
spell ((t, b) ∷ r) = text t ++ (b ++ spell r)

abbrev pub tokens : Spelling → Tokens
tokens [] = []
tokens ((t, b) ∷ r) = t ∷ tokens r

abbrev pub IsSpelling : Spelling → Type 0
IsSpelling [] = Unit
IsSpelling ((t, b) ∷ r) = IsWellToken t × All is_blank b × Separated t (b ++ spell r) × IsSpelling r

abbrev pub rooms : Tokens → ℕ
rooms [] = 0
rooms (t ∷ ts) = word_room t + rooms ts
