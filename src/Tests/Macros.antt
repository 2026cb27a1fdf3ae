-- ===== src/Tests/Macros.antt =====
-- The theorems about macro.c and preprocess.c at small macros.
use lre.Base.{true, ◌-◌, none, some, List, [], ◌∷◌, ◌≡◌, refl, take}
use lre.Symbols.{Sym}
use lre.Token.{Word, keyword, symbol}
use lre.Keyword.{same_word}
use lre.Parser.Print.{token_of_word}
use lre.Macro.{arg, word, Macro, lre_find_macro, is_lre_macro, find_in, is_in}
use lre.Macro.Table.{added, lre_find_macro-added}
use lre.Macro.Content.{
  made, has_dollar, is_prefix, find_arg, content_loop, code_size, lre_macro_content2token,
  lre_create_code_by_macro,
}
use lre.Macro.Content.Reference.{substitute, is_clean}
use lre.Macro.Content.Expansion.{lre_create_code_by_macro-substitute}
use lre.Macro.Args.{
  lre_macro_arg_parse, arg_list, arg_loop, prase_macro_call_arg, put_call_args, put_words,
  prase_macro_call_arg-put_call_args,
}
use lre.Preprocess.{interp_preprocess}
use lre.Preprocess.Calls.{IsReplaced, interp_preprocess-IsReplaced}
use lre.Tests.Sample.{codes}

-- define is(x) "f{e==$x}"
abbrev pub is_content : Word
is_content = codes "f{e==$x}"

abbrev pub is_macro : Macro
is_macro = record {
  keyword = codes "is";
  args = codes "x" ∷ [];
  tokens = word (codes "f{e==") ∷ arg 0 ∷ word (codes "}") ∷ [];
}

abbrev pub is_macros : List Macro
is_macros = is_macro ∷ []

lre_find_macro-added_example :
    (lre_find_macro (added is_macros) (codes "is") 1 ≡ find_in (codes "is") 1 is_macros)
    × (is_lre_macro (added is_macros) (codes "is") ≡ is_in (codes "is") is_macros)
lre_find_macro-added_example = lre_find_macro-added is_macros (codes "is") 1

pub is_found : find_in (codes "is") 1 is_macros ≡ some is_macro
unfolding find_in same_word
is_found = refl

pub is_tokens : lre_macro_content2token is_macro.args is_content ≡ some is_macro.tokens
unfolding lre_macro_content2token content_loop has_dollar is_prefix find_arg
is_tokens = refl

pub is_clean_content : is_clean is_macro.args 0 is_content ≡ true
unfolding is_clean has_dollar is_prefix find_arg
is_clean_content = refl

lre_create_code_by_macro-substitute_example :
    lre_create_code_by_macro is_macro (codes "1" ∷ [])
    ≡ made (take (code_size - 1) (substitute is_macro.args (codes "1" ∷ []) 0 is_content))
lre_create_code_by_macro-substitute_example =
    lre_create_code_by_macro-substitute is_macro is_content (codes "1" ∷ []) is_clean_content
      is_tokens refl

is_substituted : substitute is_macro.args (codes "1" ∷ []) 0 is_content ≡ codes "f{e==1}"
unfolding substitute is_prefix find_arg
is_substituted = refl

-- define bad(x) "ex==$x": the name of the argument behind the letter e.
abbrev bad_macro : Macro
bad_macro = record {
  keyword = codes "bad";
  args = codes "x" ∷ [];
  tokens = word [] ∷ arg 0 ∷ word (codes "==") ∷ arg 0 ∷ word [] ∷ [];
}

bad_tokens : lre_macro_content2token bad_macro.args (codes "ex==$x") ≡ some bad_macro.tokens
unfolding lre_macro_content2token content_loop has_dollar is_prefix find_arg
bad_tokens = refl

bad_rest : (has_dollar (codes "==$x") ≡ true) × (is_clean (codes "x" ∷ []) 0 (codes "==$x") ≡ true)
unfolding is_clean has_dollar is_prefix find_arg
bad_rest = (refl, refl)

-- (1, 2) && z
prase_macro_call_arg-put_call_args_example :
    prase_macro_call_arg
      (put_call_args (codes "1" ∷ codes "2" ∷ []) (symbol Sym.and ∷ keyword (codes "z") ∷ []))
    ≡ some (codes "1" ∷ codes "2" ∷ [], symbol Sym.and ∷ keyword (codes "z") ∷ [])
prase_macro_call_arg-put_call_args_example =
    prase_macro_call_arg-put_call_args (codes "1" ∷ codes "2" ∷ [])
      (symbol Sym.and ∷ keyword (codes "z") ∷ [])

-- A string is no argument of a definition.
definition_refuses : lre_macro_arg_parse (put_call_args (codes "a" ∷ codes "\"b\"" ∷ []) []) ≡ none
unfolding lre_macro_arg_parse arg_list arg_loop put_call_args put_words token_of_word
definition_refuses = refl

is_known : is_lre_macro (added is_macros) (codes "is") ≡ true
unfolding is_in same_word
is_known = (lre_find_macro-added is_macros (codes "is") 1).1

interp_preprocess-IsReplaced_example : IsReplaced is_macros (codes "is") (codes "1" ∷ []) (
    interp_preprocess
      (added is_macros)
      (keyword (codes "is") ∷ put_call_args (codes "1" ∷ []) (symbol Sym.and ∷ [])))
interp_preprocess-IsReplaced_example =
    interp_preprocess-IsReplaced is_macros (codes "is") (codes "1" ∷ []) (symbol Sym.and ∷ [])
      is_known
