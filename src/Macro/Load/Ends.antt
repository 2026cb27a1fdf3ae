-- ===== src/Macro/Load/Ends.antt =====
-- The loading of one macro file ends (macro.c).
use lre.Base.{
  ℕ, zero, suc, ◌<◌, Bool, true, false, Option, none, some, List, [], ◌∷◌, ◌≡◌, ◌≢◌, refl, ◌==◌,
  length, arith,
}
use lre.Symbols.{get_symbol_str}
use lre.Token.{Word, Tokens, keyword, string, symbol}
use lre.Lexer.{LexReply, lexer_read_token}
use lre.Lexer.Fuel.{lexer_read_token_terminates}
use lre.Keyword.{same_word}
use lre.Value.{unquote}
use lre.Macro.{MacroToken, MacroTable}
use lre.Macro.Content.{lre_macro_content2token, code_size}
use lre.Macro.Args.{lre_macro_arg_parse}
use lre.Macro.Lines.{Line, line, read_macro_line}
use lre.Macro.Lines.Laws.{Reads, read_macro_line-Reads}
use lre.Macro.Load.{
  Loading, loaded, undefined, out_of_fuel, and_then, add_macro, read_content, include,
  lre_macro_parse, statement, symbol_statement, define_word, include_word, lre_macro_conf_parse,
  load_lines,
}

abbrev Ended : Loading → Type 0
Ended (loaded t) = Unit
Ended undefined = Unit
Ended out_of_fuel = ⊥

Ended-read_content :
    (t : MacroTable) (k : Word) (o : Option (List Word × Tokens)) → Ended (read_content t k o)
Ended-read_content t k none = tt
Ended-read_content t k (some (args, [])) = tt
Ended-read_content t k (some (args, keyword w ∷ ts)) = tt
Ended-read_content t k (some (args, symbol w ∷ ts)) = tt
Ended-read_content t k (some (args, string w ∷ ts)) = go (lre_macro_content2token args (unquote w))
  where
    go : (o : Option (List MacroToken)) → Ended (add_macro t k args o)
    go none = tt
    go (some us) = tt

Ended-parse : (t : MacroTable) (ts : Tokens) → Ended (lre_macro_parse t ts)
unfolding lre_macro_parse
Ended-parse t [] = tt
Ended-parse t (string w ∷ ts) = tt
Ended-parse t (symbol w ∷ ts) = tt
Ended-parse t (keyword w ∷ ts) = Ended-read_content t w (lre_macro_arg_parse ts)

module _ (front : ℕ) (load : Word → MacroTable → Loading)
    (ends : (path : Word) (t : MacroTable) → Ended (load path t)) where
  Ended-include : (t : MacroTable) (ts : Tokens) → Ended (include load t ts)
  Ended-include t [] = tt
  Ended-include t (keyword w ∷ ts) = tt
  Ended-include t (symbol w ∷ ts) = tt
  Ended-include t (string w ∷ ts) = ends (unquote w) t

  Ended-statement : (t : MacroTable) (ts : Tokens) → Ended (statement load t ts)
  unfolding statement
  Ended-statement t [] = tt
  Ended-statement t (string w ∷ ts) = tt
  Ended-statement t (symbol s ∷ ts) = shown (get_symbol_str s)
    where
      shown : (o : Option Word) → Ended (symbol_statement t o)
      shown none = tt
      shown (some w) = tt
  Ended-statement t (keyword w ∷ ts) = go (same_word w include_word) (same_word w define_word)
    where
      go :
          (a b : Bool)
          → Ended (elim a as (λ _. Loading) [
            | true ↦ include load t ts
            | false ↦ elim b as (λ _. Loading) [ true ↦ lre_macro_parse t ts | false ↦ loaded t ]
          ])
      go true b = Ended-include t ts
      go false true = Ended-parse t ts
      go false false = tt

  Ended-conf_parse : (text : Word) (t : MacroTable) → Ended (lre_macro_conf_parse load text t)
  unfolding lre_macro_conf_parse
  Ended-conf_parse text t = go (lexer_read_token text) (lexer_read_token_terminates text)
    where
      go :
          (r : LexReply)
          → r ≢ LexReply.out_of_fuel
          → Ended (elim r as (λ _. Loading) [
            | LexReply.ok ts at ↦ statement load t ts
            | LexReply.einval ↦ loaded t
            | LexReply.out_of_fuel ↦ out_of_fuel
          ])
      go (LexReply.ok ts at) h = Ended-statement t ts
      go LexReply.einval h = tt
      go LexReply.out_of_fuel h = h refl

  Ended-load_lines :
      (m : ℕ) (file : Word) (t : MacroTable)
      → length file < m
      → Ended (load_lines front load m file t)
  unfolding load_lines
  Ended-load_lines zero file t h = elim h [ ]
  Ended-load_lines (suc m) file t h =
      go (read_macro_line (suc (length file)) false front code_size file)
        (read_macro_line-Reads (suc (length file)) false front code_size file (omega arith)
          (omega arith))
        (λ rest t' l. Ended-load_lines m rest t' l)
    where
      next :
          (text rest : Word) (r : Loading)
          → Ended r
          → ((t' : MacroTable) → Ended (load_lines front load m rest t'))
          → Ended (and_then r (load_lines front load m rest))
      next text rest (loaded t') e ih = ih t'
      next text rest undefined e ih = tt
      next text rest out_of_fuel e ih = e

      step :
          (len : ℕ) (text rest : Word) (b : Bool)
          → (len == 0) ≡ b
          → (0 < len → length rest < length file)
          → ((rest : Word) (t' : MacroTable)
              → length rest < m
              → Ended (load_lines front load m rest t'))
          → Ended (elim b as (λ _. Loading) [
            | true ↦ loaded t
            | false ↦ and_then (lre_macro_conf_parse load text t) (load_lines front load m rest)
          ])
      step len text rest true e k ih = tt
      step len text rest false e k ih =
          let positive : 0 < len = ground arith in
          next text rest (lre_macro_conf_parse load text t) (Ended-conf_parse text t)
            (λ t'. ih rest t' (omega (arith, k positive)))

      go :
          (r : Line)
          → Reads code_size file r
          → ((rest : Word) (t' : MacroTable)
              → length rest < m
              → Ended (load_lines front load m rest t'))
          → Ended (elim r as (λ _. Loading) [
            | Line.fault ↦ undefined
            | Line.out_of_fuel ↦ out_of_fuel
            | line len text rest ↦ elim (len == 0) as (λ _. Loading) [
              | true ↦ loaded t
              | false ↦ and_then (lre_macro_conf_parse load text t) (load_lines front load m rest)
            ]
          ])
      go Line.fault k ih = tt
      go Line.out_of_fuel k ih = k
      go (line len text rest) k ih = step len text rest (len == 0) refl k.2 ih

Ended-of : (r : Loading) → r ≢ out_of_fuel → Ended r
Ended-of (loaded t) h = tt
Ended-of undefined h = tt
Ended-of out_of_fuel h = h refl

-- If no included file makes the loading run out of fuel, the loop over the lines of a file does not
-- either, with one round more than the file has bytes.
load_lines_terminates :
    (front : ℕ) (load : Word → MacroTable → Loading) (m : ℕ) (file : Word) (t : MacroTable)
    → ((path : Word) (t' : MacroTable) → load path t' ≢ out_of_fuel)
    → length file < m
    → load_lines front load m file t ≢ out_of_fuel
load_lines_terminates front load m file t ends h q =
    ended (load_lines front load m file t)
      (Ended-load_lines front load (λ path t'. Ended-of (load path t') (ends path t')) m file t h) q
  where
    ended : (r : Loading) → Ended r → r ≢ out_of_fuel
    ended (loaded t') e x = cc
    ended undefined e x = cc
    ended out_of_fuel e x = e
