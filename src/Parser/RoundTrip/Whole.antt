-- ===== src/Parser/RoundTrip/Whole.antt =====
-- `interp_syntax_parse` on a printed tree: the fuel that it is given is enough.
use lre.Base.{◌+◌, ◌*◌, ◌≤◌, Bool, true, false, [], ◌∷◌, ◌≡◌, length, arith}
use lre.Symbols.{Sym}
use lre.Token.{Word, Tokens, symbol}
use lre.Syntax.{
  Val, Vals, Args, Child, Childs, word, var, valblock, call, vnil, vcons, anil, acons, func, expr,
  block, cnil, ccons,
}
use lre.Reply.{ok}
use lre.Parser.{interp_syntax_parse}
use lre.Parser.Print.{
  put_opt, put_val, put_vals, put_args, put_more_args, put_func_args, put_negative, put_child,
  put_childs, NonEmptyChilds, IsWellChilds, EndsClosed,
}
use lre.Parser.RoundTrip.Vals.{cost_val, cost_vals, cost_args}
use lre.Parser.RoundTrip.Childs.{cost_child, cost_childs, parse_block-put}

length-put_opt : (o : Sym) (ts : Tokens) → length ts ≤ length (put_opt o ts)
length-put_opt Sym.reserved ts = omega arith
length-put_opt _ ts = omega arith

mutual
  unfolding put_val

  cost_val-le :
      (v : Val Word) (ts : Tokens) → cost_val v + 4 * length ts + 1 ≤ 4 * length (put_val v ts)
  cost_val-le (word w) ts = omega arith
  cost_val-le (var w) ts = omega arith
  cost_val-le (valblock vs) ts = omega (arith, cost_vals-le vs (symbol Sym.end_parenthesis ∷ ts))
  cost_val-le (call k as') ts = omega (arith, cost_args-le as' ts)

  cost_vals-le :
      (vs : Vals Word) (ts : Tokens) → cost_vals vs + 4 * length ts ≤ 4 * length (put_vals vs ts)
  cost_vals-le vnil ts = omega arith
  cost_vals-le (vcons v o vs) ts = omega (
    arith,
    cost_val-le v (put_opt o (put_vals vs ts)),
    cost_vals-le vs ts,
    length-put_opt o (put_vals vs ts),
  )

  cost_args-le :
      (as' : Args Word) (ts : Tokens) → cost_args as' + 4 * length ts ≤ 4 * length (put_args as' ts)
  cost_args-le anil ts = omega arith
  cost_args-le (acons k vs as') ts =
      omega (arith, cost_vals-le vs (put_more_args as' ts), cost_more_args-le as' ts)

  cost_more_args-le :
      (as' : Args Word) (ts : Tokens)
      → cost_args as' + 4 * length ts ≤ 4 * length (put_more_args as' ts)
  cost_more_args-le anil ts = omega arith
  cost_more_args-le (acons k vs as') ts =
      omega (arith, cost_vals-le vs (put_more_args as' ts), cost_more_args-le as' ts)

cost_func_args-le :
    (as' : Args Word) (ts : Tokens)
    → cost_args as' + 4 * length ts ≤ 4 * length (put_func_args as' ts) + 1
unfolding put_func_args
cost_func_args-le anil ts = omega arith
cost_func_args-le (acons k vs as') ts = omega (arith, cost_args-le (acons k vs as') ts)

length-put_negative : (b : Bool) (ts : Tokens) → length ts ≤ length (put_negative b ts)
length-put_negative true ts = omega arith
length-put_negative false ts = omega arith

mutual
  unfolding put_child

  pub cost_child-le :
      (c : Child Word) (ts : Tokens)
      → cost_child c + 4 * length ts + 1 ≤ 4 * length (put_child c ts)
  cost_child-le (func k as' cs) ts = omega (
    arith,
    cost_func_args-le as' (symbol Sym.start_brace ∷ put_childs cs (symbol Sym.end_brace ∷ ts)),
    cost_childs-le cs (symbol Sym.end_brace ∷ ts),
  )
  cost_child-le (expr k s vs) ts = omega (arith, cost_vals-le vs ts)
  cost_child-le (block n cs) ts = omega (
    arith,
    cost_childs-le cs (symbol Sym.end_parenthesis ∷ ts),
    length-put_negative n
        (symbol Sym.start_parenthesis ∷ put_childs cs (symbol Sym.end_parenthesis ∷ ts)),
  )

  pub cost_childs-le :
      (cs : Childs Word) (ts : Tokens)
      → cost_childs cs + 4 * length ts ≤ 4 * length (put_childs cs ts) + 1
  cost_childs-le cnil ts = omega arith
  cost_childs-le (ccons c o cs) ts = omega (
    arith,
    cost_child-le c (put_opt o (put_childs cs ts)),
    cost_childs-le cs ts,
    length-put_opt o (put_childs cs ts),
  )

-- A well-formed tree, not empty, whose last node is a function or a block, is read back from its
-- tokens, and no token is left.
pub interp_syntax_parse-put_childs :
    (cs : Childs Word)
    → NonEmptyChilds cs
    → IsWellChilds cs
    → EndsClosed cs
    → interp_syntax_parse (put_childs cs []) ≡ ok cs []
unfolding interp_syntax_parse
interp_syntax_parse-put_childs cs n h e =
    parse_block-put cs _ [] n h (omega (arith, cost_childs-le cs [])) e
