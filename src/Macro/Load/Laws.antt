-- ===== src/Macro/Load/Laws.antt =====
-- What a macro file of definitions loads (macro.c).
use lre.Base.{
  ℕ, zero, suc, ◌≤◌, ◌<◌, false, Option, some, List, [], ◌∷◌, ◌++◌, ◌≡◌, refl, ◌∙◌, ◌==◌, length,
  length-append, arith,
}
use lre.Token.{Word, Tokens, keyword, string}
use lre.Lexer.{is_blank}
use lre.Lexer.Spelling.{All, Spelling, spell, tokens, IsSpelling}
use lre.Lexer.RoundTrip.{lexer_read_token-spell}
use lre.Keyword.{same_word}
use lre.Value.{cut_last, unquote}
use lre.Macro.{MacroToken, Macro, MacroTable, lre_macro_argc_max, lre_macro_add}
use lre.Macro.Table.{added}
use lre.Macro.Content.{lre_macro_content2token, code_size}
use lre.Macro.Args.{
  lre_macro_arg_parse, plain_keyword_of, put_call_args, AllRead, arg_list-put_call_args,
}
use lre.Macro.Lines.{after_get, xgetline, get_loop, got_line, is_ignored, line, read_macro_line}
use lre.Macro.Lines.Plain.{IsPlain, read_macro_line-plain, cut_last-append}
use lre.Macro.Load.{
  Loading, loaded, lre_macro_parse, statement, define_word, lre_macro_conf_parse, load_lines,
  full_path, lre_macro_conf_load, lre_macro_init,
}

-- A definition as the text of its line, with the tokens that the text spells.
pub record Definition : Type 0 where
  pub name : Word
  pub args : List Word
  pub content : Word
  pub blanks : Word
  pub spelling : Spelling

abbrev line_of : Definition → Word
line_of d = d.blanks ++ spell d.spelling

-- A content between its quotes.
abbrev pub quoted : Word → Word
quoted content = b'"' ∷ (content ++ b'"' ∷ [])

-- `define`, the name, the arguments and the quoted content, and that the line is read as it stands.
pub record IsDefinition (d : Definition) (ts : List MacroToken) : Type 0 where
  pub spelled : IsSpelling d.spelling
  pub blank : All is_blank d.blanks
  pub few : length d.args ≤ lre_macro_argc_max
  pub names : AllRead plain_keyword_of d.args
  pub defines :
      tokens d.spelling
      ≡ keyword define_word ∷ keyword d.name ∷ put_call_args d.args (string (quoted d.content) ∷ [])
  pub has_room : lre_macro_content2token d.args d.content ≡ some ts
  pub plain : IsPlain code_size (line_of d)

abbrev macro_of : Definition → List MacroToken → Macro
macro_of d ts = record { keyword = d.name; args = d.args; tokens = ts }

unquote-quoted : (content : Word) → unquote (quoted content) ≡ content
unfolding unquote cut_last
unquote-quoted [] = refl
unquote-quoted (c ∷ content) = cut_last-append c b'"' content

arg_parse-put_call_args :
    (ws : List Word) (ts : Tokens)
    → length ws ≤ lre_macro_argc_max
    → AllRead plain_keyword_of ws
    → lre_macro_arg_parse (put_call_args ws ts) ≡ some (ws, ts)
unfolding lre_macro_arg_parse
arg_parse-put_call_args ws ts l h = arg_list-put_call_args plain_keyword_of ws ts h ∙ ground arith

lre_macro_parse-define :
    (t : MacroTable) (d : Definition) (ts : List MacroToken)
    → IsDefinition d ts
    → lre_macro_parse t (keyword d.name ∷ put_call_args d.args (string (quoted d.content) ∷ []))
      ≡ loaded (lre_macro_add (macro_of d ts) t)
unfolding lre_macro_parse
lre_macro_parse-define t d ts h =
    rw
      (
        arg_parse-put_call_args d.args (string (quoted d.content) ∷ []) h.few h.names,
        lre_macro_parse,
      )
      (rw (unquote-quoted d.content) (rw h.has_room refl))

statement-define :
    (load : Word → MacroTable → Loading) (t : MacroTable) (ts : Tokens)
    → statement load t (keyword define_word ∷ ts) ≡ lre_macro_parse t ts
unfolding statement same_word
statement-define load t ts = refl

-- A line that defines a macro adds it to the table.
lre_macro_conf_parse-define :
    (load : Word → MacroTable → Loading) (t : MacroTable) (d : Definition) (ts : List MacroToken)
    → IsDefinition d ts
    → lre_macro_conf_parse load (line_of d) t ≡ loaded (lre_macro_add (macro_of d ts) t)
unfolding lre_macro_conf_parse
lre_macro_conf_parse-define load t d ts h =
    rw (lexer_read_token-spell d.blanks d.spelling h.blank h.spelled, lre_macro_conf_parse)
      (rw h.defines (statement-define load t _ ∙ lre_macro_parse-define t d ts h))

-- The text of a file of definitions, and the macros that it leaves, the newest first.
unfoldable pub put_definitions : List (Definition × List MacroToken) → Word
put_definitions [] = []
put_definitions ((d, ts) ∷ ds) = line_of d ++ b'\n' ∷ put_definitions ds

unfoldable pub newest : List (Definition × List MacroToken) → List Macro → List Macro
newest [] ms = ms
newest ((d, ts) ∷ ds) ms = newest ds (macro_of d ts ∷ ms)

abbrev AllDefinitions : List (Definition × List MacroToken) → Type 0
AllDefinitions [] = Unit
AllDefinitions ((d, ts) ∷ ds) = IsDefinition d ts × AllDefinitions ds

plain-nonempty :
    (d : Definition) → IsPlain code_size (line_of d) → (length (line_of d) == 0) ≡ false
unfolding is_ignored
plain-nonempty d h = go (line_of d) h
  where
    go : (w : Word) → IsPlain code_size w → (length w == 0) ≡ false
    go [] h = let e = h.not_ignored in cc
    go (c ∷ w) h = ground arith

end_of_file : (front : ℕ) → read_macro_line 1 false front code_size [] ≡ line 0 [] []
unfolding read_macro_line after_get xgetline get_loop got_line
end_of_file front = refl

load_lines-put_definitions :
    (front m : ℕ) (load : Word → MacroTable → Loading) (ds : List (Definition × List MacroToken))
    (ms : List Macro)
    → AllDefinitions ds
    → length (put_definitions ds) < m
    → load_lines front load m (put_definitions ds) (added ms) ≡ loaded (added (newest ds ms))
unfolding load_lines put_definitions newest added
load_lines-put_definitions front zero load ds ms h l = elim l [ ]
load_lines-put_definitions front (suc m) load [] ms h l = rw (end_of_file front, load_lines) refl
load_lines-put_definitions front (suc m) load ((d, ts) ∷ ds) ms h l =
    rw
      (
        read_macro_line-plain (length (line_of d ++ b'\n' ∷ put_definitions ds)) front code_size
            (line_of d) (put_definitions ds) (h.0).plain,
        load_lines,
      )
      (rw (plain-nonempty d (h.0).plain, load_lines)
        (rw (lre_macro_conf_parse-define load (added ms) d ts h.0, load_lines)
          (load_lines-put_definitions front m load ds (macro_of d ts ∷ ms) h.1
            (omega (arith, length-append (line_of d) (b'\n' ∷ put_definitions ds))))))

module _ (open_file : Word → Option Word) (conf_path : Word) (front : ℕ) where
  -- A file of definitions, one on each line, is loaded: the table holds their macros, with those of
  -- the later lines in front. Each line spells a definition with room for its tokens, and is no
  -- longer than the line buffer takes.
  pub lre_macro_init-put_definitions :
      (n : ℕ) (path : Word) (ds : List (Definition × List MacroToken))
      → open_file (full_path conf_path path) ≡ some (put_definitions ds)
      → AllDefinitions ds
      → lre_macro_init open_file conf_path front (suc n) path ≡ loaded (added (newest ds []))
  unfolding lre_macro_init lre_macro_conf_load added
  lre_macro_init-put_definitions n path ds o h =
      rw (o, lre_macro_conf_load)
        (load_lines-put_definitions front (suc (length (put_definitions ds)))
          (lre_macro_conf_load open_file conf_path front n) ds [] h (omega arith))
