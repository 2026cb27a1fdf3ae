-- ===== src/Macro/Load.antt =====
-- The loading of macros from files: `lre_macro_parse`, `lre_macro_conf_parse`, `lre_macro_conf_load`
-- and `lre_macro_init` of macro.c. The file system is a parameter, as is the path of the
-- configuration.
pub mod Laws
pub mod Ends
use lre.Base.{
  ℕ, zero, suc, ◌+◌, ◌-◌, Bool, true, false, Option, none, some, List, [], ◌∷◌, ◌++◌, ◌==◌, length,
  take,
}
use lre.Symbols.{get_symbol_str}
use lre.Token.{Word, Tokens, keyword, string, symbol}
use lre.Lexer.{LexReply, lexer_read_token}
use lre.Keyword.{same_word}
use lre.Value.{unquote}
use lre.Macro.{MacroToken, Macro, MacroTable, empty_table, lre_macro_add}
use lre.Macro.Content.{lre_macro_content2token, code_size}
use lre.Macro.Args.{lre_macro_arg_parse}
use lre.Macro.Lines.{Line, line, read_macro_line}

-- What becomes of the table.
pub data Loading : Type 0 where
  loaded : MacroTable → Loading
  undefined out_of_fuel : Loading

abbrev pub and_then : Loading → (MacroTable → Loading) → Loading
and_then (loaded t) k = k t
and_then r k = r

abbrev add_macro : MacroTable → Word → List Word → Option (List MacroToken) → Loading
add_macro t k args none = undefined
add_macro t k args (some ts) =
    loaded (lre_macro_add (record { keyword = k; args = args; tokens = ts }) t)

abbrev read_content : MacroTable → Word → Option (List Word × Tokens) → Loading
read_content t k (some (args, string w ∷ ts)) =
    add_macro t k args (lre_macro_content2token args (unquote w))
read_content t k _ = loaded t

-- `lre_macro_parse`; its caller reports no error, which leaves the table as it is.
unfoldable pub lre_macro_parse : MacroTable → Tokens → Loading
lre_macro_parse t (keyword k ∷ ts) = read_content t k (lre_macro_arg_parse ts)
lre_macro_parse t _ = loaded t

abbrev pub include_word : Word
include_word = b'i' ∷ b'n' ∷ b'c' ∷ b'l' ∷ b'u' ∷ b'd' ∷ b'e' ∷ []

abbrev pub define_word : Word
define_word = b'd' ∷ b'e' ∷ b'f' ∷ b'i' ∷ b'n' ∷ b'e' ∷ []

-- `lre_macro_conf_load`, which reads the file of the path.
abbrev Loader : Type 0
Loader = Word → MacroTable → Loading

abbrev include : Loader → MacroTable → Tokens → Loading
include load t (string w ∷ ts) = load (unquote w) t
include load t _ = loaded t

-- Only a keyword has the word `include` or `define`: a string keeps its quotes. A symbol without a
-- printed form has a null word, which `strcmp` reads.
abbrev symbol_statement : MacroTable → Option Word → Loading
symbol_statement t none = undefined
symbol_statement t (some w) = loaded t

unfoldable pub statement : Loader → MacroTable → Tokens → Loading
statement load t (keyword w ∷ ts) = elim (same_word w include_word) [
  | true ↦ include load t ts
  | false ↦ elim (same_word w define_word) [ true ↦ lre_macro_parse t ts | false ↦ loaded t ]
]
statement load t (symbol s ∷ ts) = symbol_statement t (get_symbol_str s)
statement load t _ = loaded t

-- `lre_macro_conf_parse`; a line is shorter than the code buffer, which so takes it as it is.
unfoldable pub lre_macro_conf_parse : Loader → Word → MacroTable → Loading
lre_macro_conf_parse load text t = elim (lexer_read_token text) [
  | LexReply.ok ts at ↦ statement load t ts
  | LexReply.einval ↦ loaded t
  | LexReply.out_of_fuel ↦ out_of_fuel
]

-- The loop over the lines of a file, on fuel; `front` is the byte in front of the line buffer.
unfoldable pub load_lines : ℕ → Loader → ℕ → Word → MacroTable → Loading
load_lines front load zero file t = out_of_fuel
load_lines front load (suc m) file t =
    elim (read_macro_line (suc (length file)) false front code_size file) [
      | Line.fault ↦ undefined
      | Line.out_of_fuel ↦ out_of_fuel
      | line len text rest ↦ elim (len == 0) [
        | true ↦ loaded t
        | false ↦ and_then (lre_macro_conf_parse load text t) (load_lines front load m rest)
      ]
    ]

abbrev opened : ℕ → Loader → Option Word → MacroTable → Loading
opened front load none t = loaded t
opened front load (some file) t = load_lines front load (suc (length file)) file t

-- `"%s/%s"`, cut at PATH_MAX.
abbrev pub full_path : Word → Word → Word
full_path conf_path path = take (4096 - 1) (conf_path ++ b'/' ∷ path)

module _ (open_file : Word → Option Word) (conf_path : Word) (front : ℕ) where
  -- `lre_macro_conf_load` on fuel, one unit for each file that includes another.
  unfoldable pub lre_macro_conf_load : ℕ → Word → MacroTable → Loading
  lre_macro_conf_load zero path t = out_of_fuel
  lre_macro_conf_load (suc n) path t =
      opened front (lre_macro_conf_load n) (open_file (full_path conf_path path)) t

  -- `lre_macro_init`, with the name of the file as bytes.
  unfoldable pub lre_macro_init : ℕ → Word → Loading
  lre_macro_init n global_macro_path = lre_macro_conf_load n global_macro_path empty_table
