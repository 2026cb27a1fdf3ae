-- ===== src/Preprocess.antt =====
-- The macro preprocessor of preprocess.c.
pub mod Calls
use lre.Base.{true, Option, none, some, List, ◌∷◌, ◌≡◌, leb, if◌then◌else◌, length, arith}
use lre.Token.{Word, Tokens, keyword}
use lre.Macro.{Macro, MacroTable, lre_find_macro, is_lre_macro, lre_macro_argc_max}
use lre.Macro.Content.{Created, made, null, undefined, lre_create_code_by_macro}
use lre.Macro.Args.{prase_macro_call_arg, put_call_args, prase_macro_call_arg-put_call_args}

-- The rule goes on to the parser; it fails; the code is replaced and is to be read again; or a null
-- pointer is used, or a value that is not there.
pub data Preprocessed : Type 0 where
  go_on error crash : Preprocessed
  repeat : Word → Preprocessed

abbrev pub replace : Created → Preprocessed
replace (made code) = repeat code
replace null = crash
replace undefined = crash

abbrev pub call_macro : List Word → Option Macro → Preprocessed
call_macro vals none = error
call_macro vals (some m) = replace (lre_create_code_by_macro m vals)

-- `preprocess_content` behind the keyword, up to the new code.
unfoldable pub preprocess_content : MacroTable → Word → Tokens → Preprocessed
preprocess_content t key ts = elim (prase_macro_call_arg ts) [
  | none ↦ error
  | some (vals, rest) ↦ call_macro vals (lre_find_macro t key (length vals))
]

unfoldable pub interp_preprocess : MacroTable → Tokens → Preprocessed
interp_preprocess t (keyword w ∷ ts) = if is_lre_macro t w then preprocess_content t w ts else go_on
interp_preprocess t _ = error

preprocess_content-put_call_args :
    (t : MacroTable) (k : Word) (vals : List Word) (ts : Tokens)
    → preprocess_content t k (put_call_args vals ts) ≡ (
        if leb (length vals) lre_macro_argc_max
        then call_macro vals (lre_find_macro t k (length vals))
        else error)
unfolding preprocess_content
preprocess_content-put_call_args t k vals ts =
    rw (prase_macro_call_arg-put_call_args vals ts, preprocess_content) (ground arith)

-- A call of a macro with up to 16 values is replaced by the code of the macro that has the keyword
-- and as many arguments, and it is an error if there is none or if there are more values. What
-- stands behind the call is dropped.
pub interp_preprocess-put_call_args :
    (t : MacroTable) (k : Word) (vals : List Word) (ts : Tokens)
    → is_lre_macro t k ≡ true
    → interp_preprocess t (keyword k ∷ put_call_args vals ts) ≡ (
        if leb (length vals) lre_macro_argc_max
        then call_macro vals (lre_find_macro t k (length vals))
        else error)
unfolding interp_preprocess
interp_preprocess-put_call_args t k vals ts h =
    rw (h, interp_preprocess) (preprocess_content-put_call_args t k vals ts)
