-- ===== src/Macro/Args.antt =====
-- The argument lists of a macro's definition and of its call: `lre_macro_arg_parse` (macro.c) and
-- `prase_macro_call_arg` (preprocess.c). `none` is `-EINVAL`.
use lre.Base.{
  ℕ, zero, suc, true, false, Option, none, some, List, [], ◌∷◌, ◌≡◌, refl, leb, if◌then◌else◌,
  length, arith,
}
use lre.Symbols.{Sym}
use lre.Token.{
  Word, Token, Tokens, keyword, symbol, peek_curr_token, skip_token, token_is, keyword_of,
}
use lre.Parser.Print.{token_of_word}
use lre.Parser.Steps.{keyword_of-token_of_word}
use lre.Macro.{lre_macro_argc_max}

-- The word of an argument in a definition, which may not be a string.
abbrev pub plain_keyword_of : Option Token → Option Word
plain_keyword_of (some (keyword w)) = some w
plain_keyword_of _ = none

abbrev add_arg : Word → Option (List Word × Tokens) → Option (List Word × Tokens)
add_arg w none = none
add_arg w (some (ws, ts)) = some (w ∷ ws, ts)

-- The loop of both functions; the number counts the rounds left.
unfoldable pub arg_loop : (Option Token → Option Word) → ℕ → Tokens → Option (List Word × Tokens)
arg_loop read zero ts = none
arg_loop read (suc n) ts = elim (read (peek_curr_token ts)) [
  | none ↦ none
  | some w ↦ elim (token_is Sym.comma (peek_curr_token (skip_token ts))) [
    | true ↦ add_arg w (arg_loop read n (skip_token (skip_token ts)))
    | false ↦ elim (token_is Sym.end_parenthesis (peek_curr_token (skip_token ts))) [
      | true ↦ some (w ∷ [], skip_token (skip_token ts))
      | false ↦ none
    ]
  ]
]

unfoldable pub arg_list : (Option Token → Option Word) → Tokens → Option (List Word × Tokens)
arg_list read ts = elim (token_is Sym.start_parenthesis (peek_curr_token ts)) [
  | false ↦ none
  | true ↦ elim (token_is Sym.end_parenthesis (peek_curr_token (skip_token ts))) [
    | true ↦ some ([], skip_token (skip_token ts))
    | false ↦ arg_loop read lre_macro_argc_max (skip_token ts)
  ]
]

unfoldable pub lre_macro_arg_parse : Tokens → Option (List Word × Tokens)
unfolding arg_list
lre_macro_arg_parse = arg_list plain_keyword_of

unfoldable pub prase_macro_call_arg : Tokens → Option (List Word × Tokens)
unfolding arg_list
prase_macro_call_arg = arg_list keyword_of

-- The tokens of an argument list, in front of those that follow it.
unfoldable pub put_words : Word → List Word → Tokens → Tokens
put_words w [] ts = token_of_word w ∷ symbol Sym.end_parenthesis ∷ ts
put_words w (v ∷ vs) ts = token_of_word w ∷ symbol Sym.comma ∷ put_words v vs ts

unfoldable pub put_call_args : List Word → Tokens → Tokens
put_call_args [] ts = symbol Sym.start_parenthesis ∷ symbol Sym.end_parenthesis ∷ ts
put_call_args (w ∷ ws) ts = symbol Sym.start_parenthesis ∷ put_words w ws ts

-- Each word is read back from its token.
abbrev pub AllRead : (Option Token → Option Word) → List Word → Type 0
AllRead read [] = Unit
AllRead read (w ∷ ws) = (read (some (token_of_word w)) ≡ some w) × AllRead read ws

arg_loop-put_words :
    (read : Option Token → Option Word) (n : ℕ) (w : Word) (ws : List Word) (ts : Tokens)
    → AllRead read (w ∷ ws)
    → arg_loop read n (put_words w ws ts)
      ≡ (if leb (suc (length ws)) n then some (w ∷ ws, ts) else none)
unfolding arg_loop put_words
arg_loop-put_words read zero w [] ts h = ground arith
arg_loop-put_words read zero w (v ∷ vs) ts h = ground arith
arg_loop-put_words read (suc n) w [] ts h = rw (h.0, arg_loop) (ground arith)
arg_loop-put_words read (suc n) w (v ∷ vs) ts h =
    rw (h.0, arg_loop) (ground (arith, arg_loop-put_words read n v vs ts h.1))

token_is-token_of_word : (w : Word) → token_is Sym.end_parenthesis (some (token_of_word w)) ≡ false
unfolding token_of_word
token_is-token_of_word [] = refl
token_is-token_of_word (c ∷ cs) = ground arith

token_is-put_words :
    (w : Word) (ws : List Word) (ts : Tokens)
    → token_is Sym.end_parenthesis (peek_curr_token (put_words w ws ts)) ≡ false
unfolding put_words
token_is-put_words w [] ts = token_is-token_of_word w
token_is-put_words w (v ∷ vs) ts = token_is-token_of_word w

-- An argument list is read back from its tokens, if it has up to 16 words.
pub arg_list-put_call_args :
    (read : Option Token → Option Word) (ws : List Word) (ts : Tokens)
    → AllRead read ws
    → arg_list read (put_call_args ws ts)
      ≡ (if leb (length ws) lre_macro_argc_max then some (ws, ts) else none)
unfolding arg_list put_call_args
arg_list-put_call_args read [] ts h = refl
arg_list-put_call_args read (w ∷ ws) ts h =
    rw (token_is-put_words w ws ts, arg_list) (arg_loop-put_words read lre_macro_argc_max w ws ts h)

AllRead-keyword_of : (ws : List Word) → AllRead keyword_of ws
AllRead-keyword_of [] = tt
AllRead-keyword_of (w ∷ ws) = (keyword_of-token_of_word w, AllRead-keyword_of ws)

-- The arguments of a call are read back from their tokens, up to 16 of them, with the tokens that
-- follow; a call with more is refused.
pub prase_macro_call_arg-put_call_args :
    (ws : List Word) (ts : Tokens)
    → prase_macro_call_arg (put_call_args ws ts)
      ≡ (if leb (length ws) lre_macro_argc_max then some (ws, ts) else none)
unfolding prase_macro_call_arg
prase_macro_call_arg-put_call_args ws ts =
    arg_list-put_call_args keyword_of ws ts (AllRead-keyword_of ws)
