-- ===== src/Parser/Print.antt =====
-- The token form of a syntax tree, and the trees that have one that reads back. The printers put
-- a node in front of the tokens that follow it. Only what dump_syntax_tree prints is put down,
-- except that a call without arguments keeps its parentheses.
use lre.Base.{Bool, true, false, [], ◌∷◌, ◌≡◌, ◌≤◌, ◌==◌, if◌then◌else◌}
use lre.Symbols.{Sym, get_symbol_type}
use lre.Token.{Word, Token, Tokens, keyword, string, symbol, is_symbol, is_end_bracket}
use lre.Syntax.{
  Val, Vals, Args, Child, Childs, word, var, valblock, call, vnil, vcons, anil, acons, func, expr,
  block, cnil, ccons, count, syntax_arg_max,
}
use lre.Peek.{is_arith, is_comp, is_logic}

-- A word that begins with a quote comes from a quoted string, any other from a keyword.
unfoldable pub token_of_word : Word → Token
token_of_word [] = keyword []
token_of_word (c ∷ cs) = if c == b'"' then string (c ∷ cs) else keyword (c ∷ cs)

abbrev pub put_opt : Sym → Tokens → Tokens
put_opt Sym.reserved ts = ts
put_opt s ts = symbol s ∷ ts

unfoldable mutual
  pub put_val : Val Word → Tokens → Tokens
  put_val (word w) ts = token_of_word w ∷ ts
  put_val (var w) ts = symbol Sym.variable ∷ token_of_word w ∷ ts
  put_val (valblock vs) ts =
      symbol Sym.start_parenthesis ∷ put_vals vs (symbol Sym.end_parenthesis ∷ ts)
  put_val (call k as') ts = keyword k ∷ symbol Sym.start_parenthesis ∷ put_args as' ts

  pub put_vals : Vals Word → Tokens → Tokens
  put_vals vnil ts = ts
  put_vals (vcons v o vs) ts = put_val v (put_opt o (put_vals vs ts))

  -- The arguments behind the opening parenthesis, up to the closing one.
  pub put_args : Args Word → Tokens → Tokens
  put_args anil ts = symbol Sym.end_parenthesis ∷ ts
  put_args (acons k vs as') ts =
      token_of_word k ∷ symbol Sym.assign ∷ put_vals vs (put_more_args as' ts)

  pub put_more_args : Args Word → Tokens → Tokens
  put_more_args anil ts = symbol Sym.end_parenthesis ∷ ts
  put_more_args (acons k vs as') ts =
      symbol Sym.comma ∷ token_of_word k ∷ symbol Sym.assign ∷ put_vals vs (put_more_args as' ts)

unfoldable pub put_func_args : Args Word → Tokens → Tokens
put_func_args anil ts = ts
put_func_args (acons k vs as') ts = symbol Sym.start_parenthesis ∷ put_args (acons k vs as') ts

abbrev pub put_negative : Bool → Tokens → Tokens
put_negative true ts = symbol Sym.not ∷ ts
put_negative false ts = ts

unfoldable mutual
  pub put_child : Child Word → Tokens → Tokens
  put_child (func k as' cs) ts =
      keyword k
      ∷ put_func_args as' (symbol Sym.start_brace ∷ put_childs cs (symbol Sym.end_brace ∷ ts))
  put_child (expr k s vs) ts = keyword k ∷ symbol s ∷ put_vals vs ts
  put_child (block negative cs) ts =
      put_negative negative
        (symbol Sym.start_parenthesis ∷ put_childs cs (symbol Sym.end_parenthesis ∷ ts))

  pub put_childs : Childs Word → Tokens → Tokens
  put_childs cnil ts = ts
  put_childs (ccons c o cs) ts = put_child c (put_opt o (put_childs cs ts))

abbrev pub NonEmptyVals : Vals Word → Type 0
NonEmptyVals vnil = ⊥
NonEmptyVals (vcons v o vs) = Unit

abbrev pub NonEmptyChilds : Childs Word → Type 0
NonEmptyChilds cnil = ⊥
NonEmptyChilds (ccons c o cs) = Unit

-- An arithmetic operator stands between two values, and none behind the last.
abbrev pub ValLink : Sym → Vals Word → Type 0
ValLink o vnil = o ≡ Sym.reserved
ValLink o (vcons v p vs) = is_arith (get_symbol_type o) ≡ true

-- A logical operator stands between two nodes, and none behind the last.
abbrev pub ChildLink : Sym → Childs Word → Type 0
ChildLink o cnil = o ≡ Sym.reserved
ChildLink o (ccons c p cs) = is_logic (get_symbol_type o) ≡ true

abbrev mutual
  pub IsWellVal : Val Word → Type 0
  IsWellVal (word w) = Unit
  IsWellVal (var w) = Unit
  IsWellVal (valblock vs) = NonEmptyVals vs × IsWellVals vs
  IsWellVal (call k as') = (count as' ≤ syntax_arg_max) × IsWellArgs as'

  pub IsWellVals : Vals Word → Type 0
  IsWellVals vnil = Unit
  IsWellVals (vcons v o vs) = IsWellVal v × ValLink o vs × IsWellVals vs

  pub IsWellArgs : Args Word → Type 0
  IsWellArgs anil = Unit
  IsWellArgs (acons k vs as') = NonEmptyVals vs × IsWellVals vs × IsWellArgs as'

abbrev mutual
  pub IsWellChild : Child Word → Type 0
  IsWellChild (func k as' cs) =
      (count as' ≤ syntax_arg_max) × IsWellArgs as' × NonEmptyChilds cs × IsWellChilds cs
  IsWellChild (expr k s vs) = (is_comp (get_symbol_type s) ≡ true) × NonEmptyVals vs × IsWellVals vs
  IsWellChild (block negative cs) = NonEmptyChilds cs × IsWellChilds cs

  pub IsWellChilds : Childs Word → Type 0
  IsWellChilds cnil = Unit
  IsWellChilds (ccons c o cs) = IsWellChild c × ChildLink o cs × IsWellChilds cs

-- What may follow a list of values: a symbol that neither continues it nor opens a call.
abbrev pub Follows : Tokens → Type 0
Follows [] = ⊥
Follows (symbol s ∷ ts) =
    (is_arith (get_symbol_type s) ≡ false) × (is_symbol Sym.start_parenthesis s ≡ false)
Follows (_ ∷ ts) = ⊥

abbrev IsClosed : Child Word → Type 0
IsClosed (expr k s vs) = ⊥
IsClosed _ = Unit

-- The last node is a function or a block.
abbrev pub EndsClosed : Childs Word → Type 0
EndsClosed cnil = Unit
EndsClosed (ccons c o cnil) = IsClosed c
EndsClosed (ccons c o (ccons d p cs)) = EndsClosed (ccons d p cs)

-- What may follow a list of nodes: a closing bracket, or the end of the tokens.
abbrev pub Ends : Childs Word → Tokens → Type 0
Ends cs [] = EndsClosed cs
Ends cs (symbol s ∷ ts) = is_end_bracket s ≡ true
Ends cs (_ ∷ ts) = ⊥
