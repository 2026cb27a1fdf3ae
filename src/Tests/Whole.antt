-- ===== src/Tests/Whole.antt =====
-- Runs of interpreter_execute (interpreter.c).
use lre.Base.{
  none, some, Option, ap, ℕ, ◌≡◌, true, false, some, Option, List, [], ◌∷◌, ◌++◌, refl,
  if◌then◌else◌, arith,
}
use lre.Base.Int.{pos}
use lre.Reply.{ok}
use lre.Parser.{interp_syntax_parse}
use lre.Symbols.{Sym}
use lre.Token.{Word, keyword, symbol}
use lre.Syntax.{Childs, word, vnil, vcons, anil, func, expr, block, cnil, ccons}
use lre.Lexer.Spelling.{Spelling, spell, tokens, IsSpelling}
use lre.Parser.Print.{put_childs, put_func_args, put_vals, token_of_word}
use lre.Semantic.{interp_semantic_analysis, semanitic_parse_childs, semanitic_parse_val}
use lre.Execute.{
  interp_execute, exec_child, exec_expr, exec_val, after_func_args, after_round, close_func, join,
  decided,
}
use lre.Value.{val2lre_value, peek_val_type, atoi, digits_value}
use lre.Utils.{is_digit}
use lre.Machine.{
  exec_ctx_push_handle, exec_ctx_get_handle, exec_ctx_pop_handle, expect_kind, combine,
}
use lre.Engine.Reports.{IsReport, lre_execute-IsReport}
use lre.Keyword.{same_word}
use lre.Macro.{word as macro_word, Macro, is_lre_macro, is_in, find_in}
use lre.Macro.Table.{added, lre_find_macro-added}
use lre.Macro.Content.{lre_macro_content2token, content_loop, has_dollar}
use lre.Macro.Args.{put_call_args, put_words}
use lre.Engine.{
  lre_execute, IsReady, interpreter_create, Setup, Engine, out_of_rounds, preprocess, fail, finish,
  interpreter_execute,
}
use lre.Engine.Expands.{expansion, interpreter_execute-expansion}
use lre.Engine.Whole.{
  call_text, interpreter_execute-spell, interpreter_execute-block, interpreter_execute-loops,
}
use lre.Tests.Sample.{codes}
use lre.Tests.Running.{counting}
use lre.Tests.Macros.{is_content, is_macro, is_macros, is_found, is_tokens, is_clean_content}

-- The word f names the function, and any other word an expression that holds.
abbrev named : Unit {0} → Word → Option ℕ
named s w = if same_word w (codes "f") then some 0 else some 1

abbrev pub setup : List Macro → Setup
setup ms = record {
  components = counting;
  Scope = Unit {0};
  find = named;
  sub = λ k. tt;
  root = tt;
  table = added ms;
  works = true;
  stacksize = 8192;
}

abbrev pub engine : Engine counting
engine = interpreter_create counting 0

engine-IsReady : IsReady engine
engine-IsReady = record { codebuf_room = refl; workmem_room = refl; enough = omega arith }

abbrev rule : Childs Word
rule =
    ccons
      (func (codes "f") anil (
        ccons (expr (codes "e") Sym.equal (vcons (word (codes "1")) Sym.reserved vnil)) Sym.reserved
          cnil))
      Sym.reserved cnil

abbrev resolved : Childs ℕ
resolved =
    ccons
      (func 0 anil
        (ccons (expr 1 Sym.equal (vcons (word (codes "1")) Sym.reserved vnil)) Sym.reserved cnil))
      Sym.reserved cnil

-- f {e==1}
abbrev rule_spelling : Spelling
rule_spelling =
    (keyword (codes "f"), codes " ")
    ∷ (symbol Sym.start_brace, [])
    ∷ (keyword (codes "e"), [])
    ∷ (symbol Sym.equal, [])
    ∷ (keyword (codes "1"), [])
    ∷ (symbol Sym.end_brace, [])
    ∷ []

rule_IsSpelling : IsSpelling rule_spelling
rule_IsSpelling = ground arith

rule-tokens : tokens rule_spelling ≡ put_childs rule []
unfolding put_childs put_func_args put_vals token_of_word
rule-tokens = refl

names_found : interp_semantic_analysis named (λ k. tt) tt rule ≡ some resolved
unfolding interp_semantic_analysis semanitic_parse_childs semanitic_parse_val same_word
names_found = refl

f_is_free : is_lre_macro (added is_macros) (codes "f") ≡ false
unfolding is_in same_word
f_is_free = (lre_find_macro-added is_macros (codes "f") 1).1

interpreter_execute-spell_example :
    interpreter_execute (setup is_macros) 1 engine (codes " " ++ spell rule_spelling)
    ≡ finish (setup is_macros) engine (interp_execute counting 8192 0 resolved)
interpreter_execute-spell_example =
    interpreter_execute-spell (setup is_macros) rule resolved (codes "f") _ 0 engine (codes " ")
      rule_spelling tt (ground arith) tt (ground arith) rule_IsSpelling rule-tokens refl f_is_free
      names_found engine-IsReady (ground arith)

-- !(f {e==1})
abbrev block_spelling : Spelling
block_spelling =
    (symbol Sym.not, [])
    ∷ (symbol Sym.start_parenthesis, [])
    ∷ (keyword (codes "f"), codes " ")
    ∷ (symbol Sym.start_brace, [])
    ∷ (keyword (codes "e"), [])
    ∷ (symbol Sym.equal, [])
    ∷ (keyword (codes "1"), [])
    ∷ (symbol Sym.end_brace, [])
    ∷ (symbol Sym.end_parenthesis, [])
    ∷ []

block-tokens : tokens block_spelling ≡ put_childs (ccons (block true rule) Sym.reserved cnil) []
unfolding put_childs put_func_args put_vals token_of_word
block-tokens = refl

interpreter_execute-block_example :
    (interp_syntax_parse (tokens block_spelling)
      ≡ ok (ccons (block true rule) Sym.reserved cnil) [])
    × (interpreter_execute (setup []) 3 engine (spell block_spelling)
        ≡ fail (setup []) preprocess engine)
interpreter_execute-block_example =
    interpreter_execute-block (setup []) true rule cnil Sym.reserved 2 engine [] block_spelling
      (ground arith) tt tt (ground arith) block-tokens engine-IsReady (ground arith)

-- is(1) && z
abbrev call_spelling : Spelling
call_spelling =
    (keyword (codes "is"), [])
    ∷ (symbol Sym.start_parenthesis, [])
    ∷ (keyword (codes "1"), [])
    ∷ (symbol Sym.end_parenthesis, codes " ")
    ∷ (symbol Sym.and, codes " ")
    ∷ (keyword (codes "z"), [])
    ∷ []

call-tokens :
    tokens call_spelling
    ≡ keyword (codes "is")
      ∷ put_call_args (codes "1" ∷ []) (symbol Sym.and ∷ keyword (codes "z") ∷ [])
unfolding put_call_args put_words token_of_word
call-tokens = refl

interpreter_execute-expansion_example :
    interpreter_execute (setup is_macros) 2 engine (spell call_spelling)
    ≡ interpreter_execute
        (setup is_macros)
        1
        engine
        (expansion is_macro is_content (codes "1" ∷ []))
interpreter_execute-expansion_example =
    interpreter_execute-expansion (setup is_macros) is_macros (codes "is") is_macro is_content
      (codes "1" ∷ []) (symbol Sym.and ∷ keyword (codes "z") ∷ []) 1 engine [] call_spelling refl
      is_found is_clean_content is_tokens (ground arith) tt (ground arith) call-tokens
      engine-IsReady (ground arith) (ground arith)

-- define me() "me()"
abbrev me_macro : Macro
me_macro = record { keyword = codes "me"; args = []; tokens = macro_word (codes "me()") ∷ [] }

me_found : find_in (codes "me") 0 (me_macro ∷ []) ≡ some me_macro
unfolding find_in same_word
me_found = refl

me_tokens : lre_macro_content2token [] (call_text (codes "me")) ≡ some me_macro.tokens
unfolding lre_macro_content2token content_loop has_dollar
me_tokens = refl

interpreter_execute-loops_example :
    interpreter_execute (setup (me_macro ∷ [])) 9 engine (codes "me()") ≡ out_of_rounds
interpreter_execute-loops_example =
    interpreter_execute-loops (setup (me_macro ∷ [])) (me_macro ∷ []) (codes "me") me_macro 9 engine
      refl me_found refl me_tokens tt (ground arith) engine-IsReady (ground arith) (ground arith)

rule_runs :
    lre_execute (interpreter_execute (setup is_macros) 1 engine (codes " " ++ spell rule_spelling))
    ≡ some (record { result = pos 1; errcode = none })
unfolding interp_execute exec_child exec_expr exec_val val2lre_value peek_val_type atoi digits_value
    is_digit exec_ctx_push_handle exec_ctx_get_handle exec_ctx_pop_handle expect_kind combine
    after_func_args after_round close_func join decided lre_execute
rule_runs = ap lre_execute (
    interpreter_execute-spell (setup is_macros) rule resolved (codes "f") _ 0 engine (codes " ")
      rule_spelling tt (ground arith) tt (ground arith) rule_IsSpelling rule-tokens refl f_is_free
      names_found engine-IsReady (ground arith))

lre_execute-IsReport_example : IsReport (pos 1) none
lre_execute-IsReport_example =
    lre_execute-IsReport (setup is_macros) 1 engine (codes " " ++ spell rule_spelling)
      (record { result = pos 1; errcode = none }) rule_runs
