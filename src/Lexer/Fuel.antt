-- ===== src/Lexer/Fuel.antt =====
-- The loop of `lexer_read_token` (lexer.c) ends on every text: each token takes a byte of it.
-- With that come bounds on what a text costs: tokens, and bytes of the word buffer.
use lre.Base.{
  ℕ, zero, suc, ◌+◌, ◌*◌, ◌≤◌, ◌<◌, Option, none, some, [], ◌∷◌, ◌≡◌, ◌≢◌, subst, length, arith,
}
use lre.Symbols.{Sym}
use lre.Token.{Word, Token, Tokens}
use lre.Lexer.{
  skip_blank, span_word, in_front, scan_string, scan_symbol, one_or_two, string_token, symbol_token,
  token_at, next_token, Scan, tok, eof, err, push, LexReply, ok, einval, out_of_fuel, lexer_loop,
  lexer_read_token, word_room,
}

length-skip_blank : (cs : Word) → length (skip_blank cs) ≤ length cs
unfolding skip_blank
length-skip_blank [] = omega arith
length-skip_blank (c ∷ cs) = ground (arith, length-skip_blank cs)

length-span_word : (cs : Word) → length (span_word cs).0 + length (span_word cs).1 ≡ length cs
unfolding span_word
length-span_word [] = omega arith
length-span_word (c ∷ cs) = ground (arith, length-span_word cs)

-- What a scan takes is a byte at least, and a word's bytes are taken from the text.
abbrev Takes : ℕ → Scan → Type 0
Takes n eof = Unit
Takes n err = Unit
Takes n (tok t rest) = (length rest < n) × (word_room t + length rest ≤ n + 1)

abbrev Splits : ℕ → Option (Word × Word) → Type 0
Splits n none = Unit
Splits n (some (w, rest)) = (length w + length rest ≡ n) × (1 ≤ length w)

Splits-in_front : (c n : ℕ) (r : Option (Word × Word)) → Splits n r → Splits (suc n) (in_front c r)
Splits-in_front c n none h = tt
Splits-in_front c n (some (w, rest)) h = omega arith

Splits-scan_string : (cs : Word) → Splits (length cs) (scan_string cs)
unfolding scan_string
Splits-scan_string [] = tt
Splits-scan_string (c ∷ cs) =
    ground (arith, Splits-in_front c (length cs) (scan_string cs) (Splits-scan_string cs))

Takes-string_token :
    (n : ℕ) (r : Option (Word × Word)) → Splits n r → Takes (suc n) (string_token r)
Takes-string_token n none h = tt
Takes-string_token n (some (w, rest)) h = omega arith

Takes-one_or_two :
    (c : ℕ) (a b : Sym) (cs : Word) → Takes (suc (length cs)) (symbol_token (one_or_two c a b cs))
Takes-one_or_two c a b [] = omega arith
Takes-one_or_two c a b (d ∷ cs) = ground arith

Takes-scan_symbol : (c : ℕ) (cs : Word) → Takes (suc (length cs)) (symbol_token (scan_symbol c cs))
unfolding scan_symbol
Takes-scan_symbol c [] = ground arith
Takes-scan_symbol c (d ∷ cs) = ground arith

Takes-token_at : (cs : Word) → Takes (length cs) (token_at cs)
unfolding token_at span_word
Takes-token_at [] = tt
Takes-token_at (c ∷ cs) = ground (
  arith,
  length-span_word cs,
  Takes-scan_symbol c cs,
  Takes-string_token (length cs) (scan_string cs) (Splits-scan_string cs),
)

Takes-mono : (m n : ℕ) (r : Scan) → m ≤ n → Takes m r → Takes n r
Takes-mono m n eof h t = tt
Takes-mono m n err h t = tt
Takes-mono m n (tok t rest) h (a, b) = omega arith

Takes-next_token : (cs : Word) → Takes (length cs) (next_token cs)
unfolding next_token
Takes-next_token cs =
    Takes-mono (length (skip_blank cs)) (length cs) (token_at (skip_blank cs))
      (length-skip_blank cs) (Takes-token_at (skip_blank cs))

-- A reply within the bounds for a text of `n` bytes read at `pos` of the word buffer.
abbrev Bounded : ℕ → ℕ → LexReply → Type 0
Bounded n pos (ok ts p) = (length ts ≤ n) × (p ≤ pos + 2 * n)
Bounded n pos einval = Unit
Bounded n pos out_of_fuel = ⊥

Bounded-push :
    (t : Token) (n m pos room : ℕ) (r : LexReply)
    → m < n
    → room + m ≤ n + 1
    → Bounded m (pos + room) r
    → Bounded n pos (push t r)
Bounded-push t n m pos room (ok ts p) l k h = omega arith
Bounded-push t n m pos room einval l k h = tt
Bounded-push t n m pos room out_of_fuel l k h = h

Bounded-lexer_loop :
    (f : ℕ) (cs : Word) (pos : ℕ) → length cs < f → Bounded (length cs) pos (lexer_loop f cs pos)
unfolding lexer_loop
Bounded-lexer_loop zero cs pos h = elim h [ ]
Bounded-lexer_loop (suc f) cs pos h =
    go (next_token cs) (Takes-next_token cs) (λ rest q l. Bounded-lexer_loop f rest q (omega arith))
  where
    go :
        (r : Scan)
        → Takes (length cs) r
        → ((rest : Word) (q : ℕ)
            → length rest < length cs
            → Bounded (length rest) q (lexer_loop f rest q))
        → Bounded (length cs) pos (elim r [
          | eof ↦ ok [] pos
          | err ↦ einval
          | tok t rest ↦ push t (lexer_loop f rest (pos + word_room t))
        ])
    go eof t ih = omega arith
    go err t ih = tt
    go (tok t rest) (a, b) ih =
        Bounded-push t _ (length rest) pos (word_room t) _ a b (ih rest (pos + word_room t) a)

Bounded-lexer_read_token : (code : Word) → Bounded (length code) 0 (lexer_read_token code)
unfolding lexer_read_token
Bounded-lexer_read_token code = widen _ (
    Bounded-lexer_loop (length code + 1) (skip_blank code) 0
      (omega (arith, length-skip_blank code)))
  where
    widen : (r : LexReply) → Bounded (length (skip_blank code)) 0 r → Bounded (length code) 0 r
    widen (ok ts p) h = omega (arith, length-skip_blank code)
    widen einval h = tt
    widen out_of_fuel h = h

-- The lexer ends on every text.
pub lexer_read_token_terminates : (code : Word) → lexer_read_token code ≢ out_of_fuel
lexer_read_token_terminates code e =
    subst (Bounded (length code) 0) e (Bounded-lexer_read_token code)

-- A text of n bytes that is read gives at most n tokens, and its words take at most 2 * n bytes of
-- the word buffer.
lexer_read_token_bounds :
    (code : Word) (ts : Tokens) (pos : ℕ)
    → lexer_read_token code ≡ ok ts pos
    → (length ts ≤ length code) × (pos ≤ 2 * length code)
lexer_read_token_bounds code ts pos e =
    let h : Bounded (length code) 0 (ok ts pos) =
      subst (Bounded (length code) 0) e (Bounded-lexer_read_token code) in
    (h.0, omega arith)
