-- ===== src/Engine/Whole.antt =====
-- Whole runs of `interpreter_execute` (interpreter.c), from the text of a rule on.
use lre.Base.{
  ℕ, zero, suc, ◌-◌, ◌≤◌, ◌<◌, Bool, true, false, some, List, [], ◌∷◌, ◌++◌, ◌≡◌, refl, ap, ◌∙◌,
  length, take, arith,
}
use lre.Symbols.{Sym}
use lre.Token.{Word, Tokens, keyword, symbol}
use lre.Syntax.{Childs, block, ccons}
use lre.Lexer.{is_blank, is_word_char}
use lre.Lexer.Spelling.{All, Spelling, spell, tokens, IsSpelling}
use lre.Lexer.RoundTrip.{lexer_read_token-spell}
use lre.Reply.{ok}
use lre.Parser.{interp_syntax_parse}
use lre.Parser.Print.{put_childs, put_negative, NonEmptyChilds, IsWellChilds, EndsClosed}
use lre.Parser.RoundTrip.Whole.{interp_syntax_parse-put_childs}
use lre.Semantic.{interp_semantic_analysis}
use lre.Execute.{interp_execute}
use lre.Macro.{is_lre_macro}
use lre.Preprocess.{go_on, error, interp_preprocess}
use lre.Engine.{
  IsReady, Setup, Engine, out_of_rounds, preprocess, fail, finish, analysed, parsed, preprocessed,
  rounds, interpreter_execute,
}
use lre.Engine.Expands.{interpreter_execute-rounds, rounds-lexed}
use lre.Macro.{Macro, find_in}
use lre.Macro.Table.{added}
use lre.Macro.Content.{has_dollar, find_arg, code_size, lre_macro_content2token}
use lre.Macro.Content.Reference.{is_clean, substitute-no_dollar}
use lre.Macro.Args.{put_call_args}
use lre.Lexer.Spelling.{IsWordHead}
use lre.Engine.Expands.{expansion, interpreter_execute-expansion}

take-all : (n : ℕ) (w : Word) → length w ≤ n → take n w ≡ w
take-all zero [] h = refl
take-all zero (x ∷ w) h = absurd (omega arith)
take-all (suc n) [] h = refl
take-all (suc n) (x ∷ w) h = ap (λ l. x ∷ l) (take-all n w (omega arith))

-- A call of a macro without arguments, and its tokens with no blanks between them.
abbrev pub call_text : Word → Word
call_text k = k ++ b'(' ∷ b')' ∷ []

abbrev call_spelling : Word → Spelling
call_spelling k =
    (keyword k, []) ∷ (symbol Sym.start_parenthesis, []) ∷ (symbol Sym.end_parenthesis, []) ∷ []

plain-is_clean : (text : Word) → is_clean [] 0 text ≡ true
unfolding is_clean find_arg
plain-is_clean [] = refl
plain-is_clean (c ∷ cs) = ground (arith, plain-is_clean cs)

plain-call_text : (k : Word) → All is_word_char k → has_dollar (call_text k) ≡ false
unfolding has_dollar
plain-call_text [] h = refl
plain-call_text (c ∷ cs) h = ground (arith, h.0, plain-call_text cs h.1)

call_text-expansion :
    (k : Word) (m : Macro)
    → m.args ≡ []
    → All is_word_char k
    → length (call_text k) < code_size
    → expansion m (call_text k) [] ≡ call_text k
call_text-expansion k m a h fits = rw a (
    ap (take (code_size - 1)) (substitute-no_dollar [] [] (call_text k) (plain-call_text k h))
    ∙ take-all (code_size - 1) (call_text k) (omega arith))

module _ (s : Setup) where
  open s use {components, find, sub, root, table, works, stacksize}

  rounds-tokens :
      (n : ℕ) (e : Engine components) (b : Word) (r : Spelling)
      → All is_blank b
      → IsSpelling r
      → IsReady e
      → length (b ++ spell r) < e.codebuf.size
      → rounds s (suc n) (b ++ spell r) e
        ≡ preprocessed s (rounds s n) e (tokens r) (interp_preprocess table (tokens r))
  rounds-tokens n e b r hb hr i l =
      rounds-lexed s n (b ++ spell r) e i l ∙ rw (lexer_read_token-spell b r hb hr) refl

  passes :
      (k : Word) (ts : Tokens)
      → is_lre_macro table k ≡ false
      → interp_preprocess table (keyword k ∷ ts) ≡ go_on
  unfolding interp_preprocess
  passes k ts h = rw (h, interp_preprocess) refl

  refuses :
      (negative : Bool) (ts : Tokens)
      → interp_preprocess table (put_negative negative (symbol Sym.start_parenthesis ∷ ts)) ≡ error
  unfolding interp_preprocess
  refuses true ts = refl
  refuses false ts = refl

  -- A text that spells a well-formed rule, not empty, whose last node is a function or a block, and
  -- which begins with a keyword that is no macro, is executed: where the semantic analysis finds all
  -- names, the run is that of the resolved rule on the components. The interpreter is ready, and
  -- the text fits its code buffer.
  pub interpreter_execute-spell :
      (cs : Childs Word) (ds : Childs components.Stub) (k : Word) (ts : Tokens) (n : ℕ)
      (e : Engine components) (b : Word) (r : Spelling)
      → NonEmptyChilds cs
      → IsWellChilds cs
      → EndsClosed cs
      → All is_blank b
      → IsSpelling r
      → tokens r ≡ put_childs cs []
      → tokens r ≡ keyword k ∷ ts
      → is_lre_macro table k ≡ false
      → interp_semantic_analysis find sub root cs ≡ some ds
      → IsReady e
      → length (b ++ spell r) < e.codebuf.size
      → interpreter_execute s (suc n) e (b ++ spell r)
        ≡ finish s e (interp_execute components stacksize e.world ds)
  unfolding parsed analysed
  interpreter_execute-spell cs ds k ts n e b r ne w cl hb hr t u mac sem i fits =
      interpreter_execute-rounds s (suc n) e (b ++ spell r) i fits
      ∙ (rounds-tokens n e b r hb hr i fits
          ∙ (ap (preprocessed s (rounds s n) e (tokens r))
                (ap (interp_preprocess table) u ∙ passes k ts mac)
              ∙ (ap (parsed s e)
                    (ap interp_syntax_parse t ∙ interp_syntax_parse-put_childs cs ne w cl)
                  ∙ ap (analysed s e) sem)))

  -- A well-formed rule that begins with a block, negated or not, and ends in a function or a block,
  -- is refused by the preprocessor, though the parser takes its tokens and gives its tree. The
  -- interpreter is ready, and the text fits its code buffer.
  pub interpreter_execute-block :
      (negative : Bool) (ds cs : Childs Word) (o : Sym) (n : ℕ) (e : Engine components) (b : Word)
      (r : Spelling)
      → IsWellChilds (ccons (block negative ds) o cs)
      → EndsClosed (ccons (block negative ds) o cs)
      → All is_blank b
      → IsSpelling r
      → tokens r ≡ put_childs (ccons (block negative ds) o cs) []
      → IsReady e
      → length (b ++ spell r) < e.codebuf.size
      → (interp_syntax_parse (tokens r) ≡ ok (ccons (block negative ds) o cs) [])
        × (interpreter_execute s (suc n) e (b ++ spell r) ≡ fail s preprocess e)
  unfolding put_childs
  interpreter_execute-block negative ds cs o n e b r w cl hb hr t i fits = (
    ap interp_syntax_parse t
        ∙ interp_syntax_parse-put_childs (ccons (block negative ds) o cs) tt w cl,
    interpreter_execute-rounds s (suc n) e (b ++ spell r) i fits
        ∙ (rounds-tokens n e b r hb hr i fits
            ∙ rw t (
                ap (preprocessed s (rounds s n) e (put_childs (ccons (block negative ds) o cs) []))
                  (refuses negative _))),
  )

  none_left : (code : Word) (e : Engine components) → rounds s 0 code e ≡ out_of_rounds
  unfolding rounds
  none_left code e = refl

  -- A macro without arguments whose content is a call of itself never ends: its call has used up
  -- any number of rounds. The interpreter is ready, its code buffer has at least 4096 bytes, and the
  -- call fits.
  pub interpreter_execute-loops :
      (ms : List Macro) (k : Word) (m : Macro) (n : ℕ) (e : Engine components)
      → table ≡ added ms
      → find_in k 0 ms ≡ some m
      → m.args ≡ []
      → lre_macro_content2token [] (call_text k) ≡ some m.tokens
      → IsWordHead k
      → All is_word_char k
      → IsReady e
      → code_size ≤ e.codebuf.size
      → length (call_text k) < code_size
      → interpreter_execute s n e (call_text k) ≡ out_of_rounds
  unfolding put_call_args
  interpreter_execute-loops ms k m zero e u f a g hk hw i z fits =
      interpreter_execute-rounds s 0 e (call_text k) i (omega arith) ∙ none_left (call_text k) e
  interpreter_execute-loops ms k m (suc n) e u f a g hk hw i z fits =
      interpreter_execute-expansion s ms k m (call_text k) [] [] n e [] (call_spelling k) u f
        (rw a (plain-is_clean (call_text k))) (rw a g) (omega arith) tt
        ((hk, hw), tt, refl, (tt, tt, refl, (tt, tt, refl, tt))) refl i z (omega arith)
      ∙ (ap (interpreter_execute s n e) (call_text-expansion k m a hw fits)
          ∙ interpreter_execute-loops ms k m n e u f a g hk hw i z fits)
