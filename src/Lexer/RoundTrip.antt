-- ===== src/Lexer/RoundTrip.antt =====
-- The lexer of lexer.c reads back every spelled text.
use lre.Base.{
  ℕ, zero, suc, ◌+◌, ◌≤◌, ◌<◌, true, false, some, [], ◌∷◌, ◌++◌, ◌≡◌, refl, ap, ◌∙◌, append-nil,
  length, length-append, arith,
}
use lre.Symbols.{Sym}
use lre.Token.{Word, Token, keyword, string, symbol}
use lre.Lexer.{
  is_blank, is_word_char, skip_blank, span_word, scan_string, scan_symbol, token_at, next_token,
  tok, eof, ok, lexer_loop, lexer_read_token, word_room,
}
use lre.Lexer.Spelling.{
  All, IsQuoted, IsWellToken, text, starts_with, Separated, Spelling, spell, tokens, IsSpelling,
  rooms,
}

skip_blank-append : (b cs : Word) → All is_blank b → skip_blank (b ++ cs) ≡ skip_blank cs
unfolding skip_blank
skip_blank-append [] cs h = refl
skip_blank-append (c ∷ b) cs h = ground (arith, skip_blank-append b cs h.1)

span_word-append :
    (w cs : Word)
    → All is_word_char w
    → starts_with is_word_char cs ≡ false
    → span_word (w ++ cs) ≡ (w, cs)
unfolding span_word
span_word-append [] [] h e = refl
span_word-append [] (c ∷ cs) h e = rw e refl
span_word-append (c ∷ w) cs h e = rw (h.0, span_word-append w cs h.1 e) refl

scan_string-append : (w cs : Word) → IsQuoted w → scan_string (w ++ cs) ≡ some (w, cs)
unfolding scan_string
scan_string-append [] cs h = absurd h
scan_string-append (c ∷ []) cs h = rw h refl
scan_string-append (c ∷ d ∷ w) cs h = rw (h.0, scan_string-append (d ∷ w) cs h.1) refl

token_at-keyword :
    (w cs : Word)
    → IsWellToken (keyword w)
    → Separated (keyword w) cs
    → token_at (w ++ cs) ≡ tok (keyword w) cs
unfolding token_at
token_at-keyword [] cs h s = absurd h.0
token_at-keyword (c ∷ w) cs h s = rw (h.1.0, span_word-append (c ∷ w) cs h.1 s) refl

token_at-string : (w cs : Word) → IsWellToken (string w) → token_at (w ++ cs) ≡ tok (string w) cs
unfolding token_at
token_at-string [] cs h = absurd h
token_at-string (c ∷ w) cs h = rw (h.0, scan_string-append w cs h.1) refl

token_at-symbol :
    (s : Sym) (cs : Word)
    → IsWellToken (symbol s)
    → Separated (symbol s) cs
    → token_at (text (symbol s) ++ cs) ≡ tok (symbol s) cs
unfolding token_at scan_symbol
token_at-symbol Sym.bitand [] h e = refl
token_at-symbol _ [] h e = ground arith
token_at-symbol Sym.bitand (c ∷ cs) h e = rw e refl
token_at-symbol _ (c ∷ cs) h e = ground arith

token_at-text :
    (t : Token) (cs : Word) → IsWellToken t → Separated t cs → token_at (text t ++ cs) ≡ tok t cs
token_at-text (keyword w) cs h s = token_at-keyword w cs h s
token_at-text (string w) cs h s = token_at-string w cs h
token_at-text (symbol o) cs h s = token_at-symbol o cs h s

word_char-not_blank : (c : ℕ) → is_word_char c ≡ true → is_blank c ≡ false
word_char-not_blank c h = ground arith

-- A token does not begin with a blank.
skip_blank-text : (t : Token) (cs : Word) → IsWellToken t → skip_blank (text t ++ cs) ≡ text t ++ cs
unfolding skip_blank
skip_blank-text (keyword []) cs h = absurd h.0
skip_blank-text (keyword (c ∷ w)) cs h = rw (word_char-not_blank c h.1.0) refl
skip_blank-text (string []) cs h = absurd h
skip_blank-text (string (c ∷ w)) cs h = rw h.0 refl
skip_blank-text (symbol Sym.bitand) cs h = refl
skip_blank-text (symbol _) cs h = ground arith

text_pos : (t : Token) → IsWellToken t → 1 ≤ length (text t)
text_pos (keyword []) h = absurd h.0
text_pos (keyword (c ∷ w)) h = omega arith
text_pos (string []) h = absurd h
text_pos (string (c ∷ w)) h = omega arith
text_pos (symbol Sym.reserved) h = absurd h
text_pos (symbol _) h = ground arith

next_token-spell :
    (b : Word) (t : Token) (cs : Word)
    → All is_blank b
    → IsWellToken t
    → Separated t cs
    → next_token (b ++ (text t ++ cs)) ≡ tok t cs
unfolding next_token
next_token-spell b t cs h w s =
    rw (skip_blank-append b (text t ++ cs) h) (rw (skip_blank-text t cs w) (token_at-text t cs w s))

next_token-blank : (b : Word) → All is_blank b → next_token b ≡ eof
unfolding next_token skip_blank token_at
next_token-blank [] h = refl
next_token-blank (c ∷ b) h = rw h.0 (next_token-blank b h.1)

lexer_loop-spell :
    (r : Spelling) (f pos : ℕ) (b : Word)
    → All is_blank b
    → IsSpelling r
    → length (tokens r) < f
    → lexer_loop f (b ++ spell r) pos ≡ ok (tokens r) (pos + rooms (tokens r))
unfolding lexer_loop
lexer_loop-spell r zero pos b h s l = elim l [ ]
lexer_loop-spell [] (suc f) pos b h s l =
    rw append-nil (rw (next_token-blank b h, lexer_loop) (ap (ok []) (omega arith)))
lexer_loop-spell ((t, b') ∷ r) (suc f) pos b h s l =
    rw (next_token-spell b t (b' ++ spell r) h s.0 s.2, lexer_loop)
      (rw (lexer_loop-spell r f (pos + word_room t) b' s.1 s.3 (omega arith))
        (ap (ok (t ∷ tokens r)) (omega arith)))

length-tokens-le : (r : Spelling) → IsSpelling r → length (tokens r) ≤ length (spell r)
length-tokens-le [] h = omega arith
length-tokens-le ((t, b) ∷ r) h = omega (
  arith,
  length-tokens-le r h.3,
  text_pos t h.0,
  length-append (text t) (b ++ spell r),
  length-append b (spell r),
)

skip_blank-spell :
    (b : Word) (r : Spelling) → All is_blank b → IsSpelling r → skip_blank (b ++ spell r) ≡ spell r
unfolding skip_blank
skip_blank-spell b [] h s = skip_blank-append b [] h
skip_blank-spell b ((t, c) ∷ r) h s = skip_blank-append b _ h ∙ skip_blank-text t (c ++ spell r) s.0

-- The lexer reads the tokens of a spelled text back, and each word takes its bytes of the buffer.
pub lexer_read_token-spell :
    (b : Word) (r : Spelling)
    → All is_blank b
    → IsSpelling r
    → lexer_read_token (b ++ spell r) ≡ ok (tokens r) (rooms (tokens r))
unfolding lexer_read_token
lexer_read_token-spell b r h s = rw (skip_blank-spell b r h s) (
    lexer_loop-spell r _ 0 [] tt s (omega (arith, length-tokens-le r s, length-append b (spell r)))
    ∙ ap (ok (tokens r)) (omega arith))
