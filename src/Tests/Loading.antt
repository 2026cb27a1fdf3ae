-- ===== src/Tests/Loading.antt =====
-- Macro files for the theorems about the reading of macro files (macro.c).
use lre.Base.{false, Option, some, List, [], ◌∷◌, ◌≡◌, refl, arith}
use lre.Symbols.{Sym}
use lre.Token.{Word, keyword, string, symbol}
use lre.Lexer.Spelling.{Spelling}
use lre.Parser.Print.{token_of_word}
use lre.Macro.{MacroToken, MacroTable, arg, word, empty_table}
use lre.Macro.Table.{added}
use lre.Macro.Content.{
  lre_macro_content2token, content_loop, has_dollar, is_prefix, find_arg, code_size,
}
use lre.Macro.Args.{put_call_args, put_words}
use lre.Macro.Lines.{
  line, get_loop, got_line, xgetline, is_ignored, last_byte, chomp, deliver, join_next, after_chomp,
  after_get, read_macro_line,
}
use lre.Macro.Lines.Laws.{Reads, read_macro_line-Reads}
use lre.Macro.Load.{loaded, define_word, lre_macro_init}
use lre.Macro.Load.Laws.{
  Definition, IsDefinition, quoted, put_definitions, newest, lre_macro_init-put_definitions,
}
use lre.Tests.Sample.{codes}

-- A comment, an empty line, and a line that is continued on the next.
abbrev text : Word
text = codes "# macros\n  \nab\\\ncd\nx"

text_line : read_macro_line 30 false 0 code_size text ≡ line 4 (codes "abcd") (codes "x")
unfolding read_macro_line after_get after_chomp join_next deliver chomp is_ignored last_byte
    xgetline get_loop got_line lre.Value.cut_last
text_line = refl

read_macro_line-Reads_example : Reads code_size text (read_macro_line 30 false 0 code_size text)
read_macro_line-Reads_example =
    read_macro_line-Reads 30 false 0 code_size text (ground arith) (omega arith)

-- An empty line behind the byte 92 makes the function write in front of the buffer.
behind_backslash : read_macro_line 9 false b'\\' code_size (codes "\nx") ≡ lre.Macro.Lines.fault
unfolding read_macro_line after_get after_chomp join_next deliver chomp is_ignored last_byte
    xgetline get_loop got_line lre.Value.cut_last
behind_backslash = refl

-- define is(x) "f{e==$x}"
abbrev is_spelling : Spelling
is_spelling =
    (keyword define_word, codes " ")
    ∷ (keyword (codes "is"), [])
    ∷ (symbol Sym.start_parenthesis, [])
    ∷ (keyword (codes "x"), [])
    ∷ (symbol Sym.end_parenthesis, codes " ")
    ∷ (string (quoted (codes "f{e==$x}")), [])
    ∷ []

abbrev is_definition : Definition
is_definition = record {
  name = codes "is";
  args = codes "x" ∷ [];
  content = codes "f{e==$x}";
  blanks = codes " ";
  spelling = is_spelling;
}

abbrev is_tokens : List MacroToken
is_tokens = word (codes "f{e==") ∷ arg 0 ∷ word (codes "}") ∷ []

is_definition_lem : IsDefinition is_definition is_tokens
unfolding put_call_args put_words token_of_word lre_macro_content2token content_loop has_dollar
    is_prefix find_arg is_ignored last_byte
is_definition_lem = record {
  spelled = ground arith;
  blank = ground arith;
  few = ground arith;
  names = (refl, tt);
  defines = refl;
  has_room = refl;
  plain = record {
    one_line = ground arith;
    not_ignored = refl;
    not_continued = refl;
    fits = ground arith;
  };
}

abbrev definitions : List (Definition × List MacroToken)
definitions = (is_definition, is_tokens) ∷ []

abbrev files : Word → Option Word
files path = some (put_definitions definitions)

lre_macro_init-put_definitions_example :
    lre_macro_init files (codes "/etc/lre") 0 1 (codes "global_macro.lr")
    ≡ loaded (added (newest definitions []))
lre_macro_init-put_definitions_example =
    lre_macro_init-put_definitions files (codes "/etc/lre") 0 0 (codes "global_macro.lr")
      definitions refl (is_definition_lem, tt)
