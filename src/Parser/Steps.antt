-- ===== src/Parser/Steps.antt =====
-- One step of each parser of values on tokens of a known shape (syntax.c).
use lre.Base.{
  ℕ, suc, Bool, true, false, some, [], ◌∷◌, ◌≡◌, refl, ◌==◌, ◌⊎◌, inl, inr, arith, Bool-cases,
}
use lre.Symbols.{Sym, get_symbol_type, is_operator}
use lre.Token.{Word, Tokens, keyword, string, symbol, token_is, keyword_of, is_symbol}
use lre.Syntax.{Val, Vals, word, var, vnil, vcons}
use lre.Reply.{Reply, ValReply, parsed, add_val}
use lre.Peek.{is_arith, is_comp, peek_expr_val_type}
use lre.Parser.{after_val, word_val, key_operator, parse_val}
use lre.Parser.Print.{token_of_word, put_opt, Follows, ValLink, put_vals}

pub token_of_word_cases : (w : Word) → (token_of_word w ≡ keyword w) ⊎ (token_of_word w ≡ string w)
unfolding token_of_word
token_of_word_cases [] = inl refl
token_of_word_cases (c ∷ cs) = elim (Bool-cases (c == b'"')) [
  | inl e ↦ inr (rw e refl)
  | inr e ↦ inl (rw e refl)
]

pub keyword_of-token_of_word : (w : Word) → keyword_of (some (token_of_word w)) ≡ some w
keyword_of-token_of_word w = elim (token_of_word_cases w) [ inl e ↦ rw e refl | inr e ↦ rw e refl ]

arith-is_operator : (o : Sym) → is_arith (get_symbol_type o) ≡ true → is_operator o ≡ true
arith-is_operator Sym.reserved h = cc
arith-is_operator _ h = cc

pub comp-is_operator : (o : Sym) → is_comp (get_symbol_type o) ≡ true → is_operator o ≡ true
comp-is_operator Sym.reserved h = cc
comp-is_operator _ h = cc

-- Not an opening parenthesis, and not the end of the tokens.
abbrev pub NotParen : Tokens → Type 0
NotParen [] = ⊥
NotParen (t ∷ ts) = token_is Sym.start_parenthesis (some t) ≡ false

arith-not_paren :
    (o : Sym) → is_arith (get_symbol_type o) ≡ true → is_symbol Sym.start_parenthesis o ≡ false
arith-not_paren Sym.reserved h = cc
arith-not_paren _ h = cc

pub put_opt-arith :
    (o : Sym) (ts : Tokens) → is_arith (get_symbol_type o) ≡ true → put_opt o ts ≡ symbol o ∷ ts
put_opt-arith Sym.reserved ts h = cc
put_opt-arith _ ts h = cc

module _ (again : Tokens → ValReply) where
  pub after_val-arith :
      (v : Val Word) (o : Sym) (ts : Tokens)
      → is_arith (get_symbol_type o) ≡ true
      → after_val again v (symbol o ∷ ts) ≡ add_val v o (again ts)
  unfolding after_val
  after_val-arith v o ts h = ground (arith, arith-is_operator o h)

  pub after_val-Follows :
      (v : Val Word) (ts : Tokens)
      → Follows ts
      → after_val again v ts ≡ parsed (vcons v Sym.reserved vnil) ts
  unfolding after_val
  after_val-Follows v [] h = absurd h
  after_val-Follows v (symbol s ∷ ts) h = ground arith
  after_val-Follows v (keyword w ∷ ts) h = absurd h
  after_val-Follows v (string w ∷ ts) h = absurd h

pub key_operator-key :
    {A : Type 0} (test : _ → Bool) (w : Word) (o : Sym) (ts : Tokens)
    (k : Word → Sym → Tokens → Reply A)
    → is_operator o ≡ true
    → test (get_symbol_type o) ≡ true
    → key_operator test (token_of_word w ∷ symbol o ∷ ts) k ≡ k w o ts
unfolding key_operator
key_operator-key test w o ts k p q = ground (arith, token_of_word_cases w)

Follows-NotParen : (ts : Tokens) → Follows ts → NotParen ts
Follows-NotParen [] h = absurd h
Follows-NotParen (symbol s ∷ ts) h = h.1
Follows-NotParen (keyword w ∷ ts) h = absurd h
Follows-NotParen (string w ∷ ts) h = absurd h

pub NotParen-put_opt :
    (o : Sym) (vs : Vals Word) (ts : Tokens)
    → ValLink o vs
    → Follows ts
    → NotParen (put_opt o (put_vals vs ts))
unfolding put_vals
NotParen-put_opt o vnil ts e h = rw e (Follows-NotParen ts h)
NotParen-put_opt o (vcons v p vs) ts e h = rw (put_opt-arith o _ e) (arith-not_paren o e)

pub parse_val-word :
    (f : ℕ) (w : Word) (ts : Tokens)
    → NotParen ts
    → parse_val (suc f) (token_of_word w ∷ ts) ≡ after_val (parse_val f) (word w) ts
unfolding parse_val word_val peek_expr_val_type
parse_val-word f w [] h = absurd h
parse_val-word f w (t ∷ ts) h = ground (arith, token_of_word_cases w)

pub parse_val-var :
    (f : ℕ) (w : Word) (ts : Tokens)
    → parse_val (suc f) (symbol Sym.variable ∷ token_of_word w ∷ ts)
      ≡ after_val (parse_val f) (var w) ts
unfolding parse_val word_val peek_expr_val_type
parse_val-var f w ts = ground (arith, token_of_word_cases w)
