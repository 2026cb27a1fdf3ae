-- ===== src/Tests/Front.antt =====
-- The theorems about lexer.c, syntax.c, semantic.c and interpreter.c at the sample rule.
use lre.Syntax.{Child, word, vcons, vnil, anil, func, expr, ccons, cnil}
use lre.Base.{List, true, Option, some, [], ◌∷◌, ◌++◌, ◌≡◌, ◌≢◌, refl, arith}
use lre.Symbols.{Sym}
use lre.Token.{Word, keyword, string, symbol}
use lre.Reply.{ok, out_of_fuel, crash}
use lre.Parser.{interp_syntax_parse}
use lre.Parser.Print.{put_childs, put_func_args, put_args, token_of_word}
use lre.Parser.RoundTrip.Whole.{interp_syntax_parse-put_childs}
use lre.Parser.Fuel.{interp_syntax_parse_terminates}
use lre.Parser.Faults.{bare_call, put_before, interp_syntax_parse_crash}
use lre.Lexer
use lre.Lexer.{
  lexer_read_token, lexer_loop, next_token, token_at, skip_blank, span_word, scan_string,
  scan_symbol,
}
use lre.Lexer.Spelling.{Spelling, spell, tokens, IsSpelling, rooms}
use lre.Lexer.RoundTrip.{lexer_read_token-spell}
use lre.Lexer.Fuel.{lexer_read_token_terminates}
use lre.Interp.{
  Buffer, interp_load_code, loaded, overrun, front_end, front_end-spell, interp_load_code_overrun,
}
use lre.Semantic.{interp_semantic_analysis, semanitic_parse_childs, semanitic_parse_val}
use lre.Tests.Sample.{codes, sample}

interp_syntax_parse-put_childs_example : interp_syntax_parse (put_childs sample []) ≡ ok sample []
interp_syntax_parse-put_childs_example = interp_syntax_parse-put_childs sample tt (ground arith) tt

interp_syntax_parse_terminates_example :
    interp_syntax_parse (keyword (codes "a") ∷ symbol Sym.gt ∷ symbol Sym.end_brace ∷ [])
    ≢ out_of_fuel
interp_syntax_parse_terminates_example =
    interp_syntax_parse_terminates (keyword (codes "a") ∷ symbol Sym.gt ∷ symbol Sym.end_brace ∷ [])

-- f{b == 1} && a == f()
abbrev before_call : List (Child Word × Sym)
before_call =
    (
      func (codes "f") anil (
          ccons (expr (codes "b") Sym.equal (vcons (word (codes "1")) Sym.reserved vnil))
            Sym.reserved cnil),
      Sym.and,
    )
    ∷ []

interp_syntax_parse_crash_example :
    interp_syntax_parse (put_before before_call (bare_call (codes "a") Sym.equal (codes "f")))
    ≡ crash
interp_syntax_parse_crash_example =
    interp_syntax_parse_crash before_call (codes "a") (codes "f") Sym.equal (ground arith) refl

-- file( path="a"){size>1 + 2 &&!(owner == "r")}
abbrev sample_spelling : Spelling
sample_spelling =
    (keyword (codes "file"), [])
    ∷ (symbol Sym.start_parenthesis, codes " ")
    ∷ (keyword (codes "path"), [])
    ∷ (symbol Sym.assign, [])
    ∷ (string (codes "\"a\""), [])
    ∷ (symbol Sym.end_parenthesis, [])
    ∷ (symbol Sym.start_brace, [])
    ∷ (keyword (codes "size"), [])
    ∷ (symbol Sym.gt, [])
    ∷ (keyword (codes "1"), codes " ")
    ∷ (symbol Sym.add, codes " ")
    ∷ (keyword (codes "2"), codes " ")
    ∷ (symbol Sym.and, [])
    ∷ (symbol Sym.not, [])
    ∷ (symbol Sym.start_parenthesis, [])
    ∷ (keyword (codes "owner"), codes " ")
    ∷ (symbol Sym.equal, codes " ")
    ∷ (string (codes "\"r\""), [])
    ∷ (symbol Sym.end_parenthesis, [])
    ∷ (symbol Sym.end_brace, codes " ")
    ∷ []

sample_IsSpelling : IsSpelling sample_spelling
sample_IsSpelling = ground arith

lexer_read_token-spell_example :
    lexer_read_token (codes "  " ++ spell sample_spelling)
    ≡ Lexer.ok (tokens sample_spelling) (rooms (tokens sample_spelling))
lexer_read_token-spell_example =
    lexer_read_token-spell (codes "  ") sample_spelling (ground arith) sample_IsSpelling

sample-tokens : tokens sample_spelling ≡ put_childs sample []
unfolding put_childs put_func_args put_args token_of_word
sample-tokens = refl

front_end-spell_example : front_end (codes "  " ++ spell sample_spelling) ≡ ok sample []
front_end-spell_example =
    front_end-spell sample (codes "  ") sample_spelling tt (ground arith) tt (ground arith)
      sample_IsSpelling sample-tokens

lexer_read_token_terminates_example : lexer_read_token (codes "a # b") ≢ Lexer.out_of_fuel
lexer_read_token_terminates_example = lexer_read_token_terminates (codes "a # b")

lexed :
    lexer_read_token (codes "ab >= \"c\"")
    ≡ Lexer.ok (keyword (codes "ab") ∷ symbol Sym.gt_or_equal ∷ string (codes "\"c\"") ∷ []) 7
unfolding lexer_read_token lexer_loop next_token token_at skip_blank span_word scan_string
    scan_symbol
lexed = refl

abbrev small : Buffer
small = record { size = 4; room = 4 }

interp_load_code_overrun_example : interp_load_code true small (codes "a == b") ≡ overrun
interp_load_code_overrun_example =
    interp_load_code_overrun small (codes "a == b") refl (omega arith) (omega arith)

small_loaded : interp_load_code true small (codes "a>b") ≡ loaded small
unfolding interp_load_code
small_loaded = refl

-- A table in which every word names itself.
abbrev self_find : Unit {0} → Word → Option Word
self_find s w = some w

sample_resolved : interp_semantic_analysis self_find (λ k. tt) tt sample ≡ some sample
unfolding interp_semantic_analysis semanitic_parse_childs semanitic_parse_val
sample_resolved = refl
