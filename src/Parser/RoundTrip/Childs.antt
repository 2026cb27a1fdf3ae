-- ===== src/Parser/RoundTrip/Childs.antt =====
-- `__syntax_parse_block` and `syntax_parse_func` on printed nodes.
use lre.Base.{ℕ, zero, suc, ◌+◌, ◌≤◌, ◌<◌, Bool, true, false, [], ◌∷◌, ◌≡◌, refl, ◌∙◌, arith}
use lre.Symbols.{Sym, get_symbol_type, is_operator}
use lre.Token.{Word, Tokens, keyword, string, symbol, is_end_bracket}
use lre.Syntax.{
  Vals, Args, Child, Childs, anil, acons, func, expr, block, cnil, ccons, count, syntax_arg_max,
}
use lre.Reply.{Reply, ok, parsed}
use lre.Peek.{is_comp, is_logic, peek_expr_type, func_or_expr, ExprType}
use lre.Parser.{
  key_operator, expect_end, after_child, parse_val, parse_expr, parse_block, parse_func, parse_body,
}
use lre.Parser.Print.{
  put_opt, put_func_args, put_negative, put_child, put_childs, NonEmptyChilds, ChildLink,
  IsWellChild, IsWellChilds, IsWellArgs, Follows, Ends,
}
use lre.Parser.Steps.{comp-is_operator}
use lre.Parser.RoundTrip.Vals.{
  cost_vals, cost_args, parse_args-put, parse_vals-put, parse_args_loop-put,
}

abbrev mutual
  pub cost_child : Child Word → ℕ
  cost_child (func k as' cs) = 3 + cost_args as' + cost_childs cs
  cost_child (expr k s vs) = cost_vals vs
  cost_child (block negative cs) = cost_childs cs

  pub cost_childs : Childs Word → ℕ
  cost_childs cnil = 1
  cost_childs (ccons c o cs) = suc (cost_child c + cost_childs cs)

-- What must stand behind a node before the parser lets go of it.
abbrev pub Fits : Child Word → Tokens → Type 0
Fits (expr k s vs) ts = Follows ts
Fits _ ts = Unit

pub logic-is_operator : (o : Sym) → is_logic (get_symbol_type o) ≡ true → is_operator o ≡ true
logic-is_operator Sym.reserved h = cc
logic-is_operator _ h = cc

Follows-logic :
    (o : Sym) (ts : Tokens) → is_logic (get_symbol_type o) ≡ true → Follows (symbol o ∷ ts)
Follows-logic Sym.reserved ts h = cc
Follows-logic _ ts h = ground arith

Follows-end_bracket : (s : Sym) (ts : Tokens) → is_end_bracket s ≡ true → Follows (symbol s ∷ ts)
Follows-end_bracket Sym.reserved ts h = cc
Follows-end_bracket _ ts h = ground arith

end_bracket-not_operator : (s : Sym) → is_end_bracket s ≡ true → is_operator s ≡ false
end_bracket-not_operator Sym.reserved h = cc
end_bracket-not_operator _ h = cc

pub comp-normal :
    (s : Sym) → is_comp (get_symbol_type s) ≡ true → func_or_expr (symbol s) ≡ ExprType.normal
comp-normal Sym.reserved h = cc
comp-normal _ h = cc

put_opt-logic :
    (o : Sym) (ts : Tokens) → is_logic (get_symbol_type o) ≡ true → put_opt o ts ≡ symbol o ∷ ts
put_opt-logic Sym.reserved ts h = cc
put_opt-logic _ ts h = cc

Ends-tail :
    (c d : Child Word) (o p : Sym) (cs : Childs Word) (ts : Tokens)
    → Ends (ccons c o (ccons d p cs)) ts
    → Ends (ccons d p cs) ts
Ends-tail c d o p cs [] h = h
Ends-tail c d o p cs (symbol s ∷ ts) h = h
Ends-tail c d o p cs (keyword s ∷ ts) h = h
Ends-tail c d o p cs (string s ∷ ts) h = h

Ends-rest :
    (c : Child Word) (o : Sym) (cs : Childs Word) (ts : Tokens)
    → NonEmptyChilds cs
    → Ends (ccons c o cs) ts
    → Ends cs ts
Ends-rest c o cnil ts n h = absurd n
Ends-rest c o (ccons d p cs) ts n h = Ends-tail c d o p cs ts h

Fits-last : (c : Child Word) (ts : Tokens) → Ends (ccons c Sym.reserved cnil) ts → Fits c ts
Fits-last (func k as' cs) ts h = tt
Fits-last (block n cs) ts h = tt
Fits-last (expr k s vs) [] h = absurd h
Fits-last (expr k s vs) (symbol o ∷ ts) h = Follows-end_bracket o ts h
Fits-last (expr k s vs) (keyword o ∷ ts) h = absurd h
Fits-last (expr k s vs) (string o ∷ ts) h = absurd h

pub Fits-logic :
    (c : Child Word) (o : Sym) (ts : Tokens)
    → is_logic (get_symbol_type o) ≡ true
    → Fits c (symbol o ∷ ts)
Fits-logic (func k as' cs) o ts h = tt
Fits-logic (block n cs) o ts h = tt
Fits-logic (expr k s vs) o ts h = Follows-logic o ts h

Fits-put_opt :
    (c : Child Word) (o : Sym) (cs : Childs Word) (ts : Tokens)
    → ChildLink o cs
    → Ends (ccons c o cs) ts
    → Fits c (put_opt o (put_childs cs ts))
unfolding put_childs
Fits-put_opt c o cnil ts l h = rw l (Fits-last c ts (rw l at h))
Fits-put_opt c o (ccons d p cs) ts l h = rw (put_opt-logic o _ l) (Fits-logic c o _ l)

module _ (again : Tokens → Reply (Childs Word)) where
  after_child-logic :
      (c : Child Word) (o : Sym) (cs : Childs Word) (ts rest : Tokens)
      → is_logic (get_symbol_type o) ≡ true
      → again ts ≡ ok cs rest
      → after_child again c (symbol o ∷ ts) ≡ ok (ccons c o cs) rest
  unfolding after_child
  after_child-logic c o cs ts rest l h = ground (arith, logic-is_operator o l)

  after_child-last :
      (c : Child Word) (ts : Tokens)
      → Ends (ccons c Sym.reserved cnil) ts
      → again [] ≡ ok cnil []
      → after_child again c ts ≡ ok (ccons c Sym.reserved cnil) ts
  unfolding after_child
  after_child-last c [] e h = rw h refl
  after_child-last c (symbol s ∷ ts) e h = ground (arith, end_bracket-not_operator s e)
  after_child-last c (keyword s ∷ ts) e h = absurd e
  after_child-last c (string s ∷ ts) e h = absurd e

  after_child-opt :
      (c : Child Word) (o : Sym) (cs : Childs Word) (ts : Tokens)
      → ChildLink o cs
      → Ends (ccons c o cs) ts
      → (NonEmptyChilds cs → again (put_childs cs ts) ≡ ok cs ts)
      → again [] ≡ ok cnil []
      → after_child again c (put_opt o (put_childs cs ts)) ≡ ok (ccons c o cs) ts
  unfolding put_childs
  after_child-opt c o cnil ts l e ih h = rw l (after_child-last c ts (rw l at e) h)
  after_child-opt c o (ccons d p cs) ts l e ih h =
      rw (put_opt-logic o (put_childs (ccons d p cs) ts) l) (after_child-logic c o _ _ _ l (ih tt))

parse_expr-put :
    (f : ℕ) (k : Word) (s : Sym) (vs : Vals Word) (inner ts : Tokens)
    → is_comp (get_symbol_type s) ≡ true
    → parse_val f inner ≡ parsed vs ts
    → parse_expr f (keyword k ∷ symbol s ∷ inner) ≡ ok (expr k s vs) ts
unfolding parse_expr key_operator
parse_expr-put f k s vs inner ts c h = ground (arith, comp-is_operator s c)

parse_block-expr :
    (f : ℕ) (k : Word) (s : Sym) (vs : Vals Word) (inner ts : Tokens)
    → is_comp (get_symbol_type s) ≡ true
    → parse_val f inner ≡ parsed vs ts
    → parse_block (suc f) (keyword k ∷ symbol s ∷ inner)
      ≡ after_child (parse_block f) (expr k s vs) ts
unfolding parse_block peek_expr_type
parse_block-expr f k s vs inner ts c h =
    ground (arith, comp-normal s c, parse_expr-put f k s vs inner ts c h)

parse_block-block :
    (f : ℕ) (negative : Bool) (cs : Childs Word) (inner ts : Tokens)
    → parse_block f inner ≡ ok cs (symbol Sym.end_parenthesis ∷ ts)
    → parse_block (suc f) (put_negative negative (symbol Sym.start_parenthesis ∷ inner))
      ≡ after_child (parse_block f) (block negative cs) ts
unfolding parse_block peek_expr_type expect_end
parse_block-block f true cs inner ts h = rw h refl
parse_block-block f false cs inner ts h = rw h refl

parse_body-put :
    (f : ℕ) (k : Word) (as' : Args Word) (cs : Childs Word) (inner ts : Tokens)
    → parse_block f inner ≡ ok cs (symbol Sym.end_brace ∷ ts)
    → parse_body (suc f) k as' inner ≡ ok (func k as' cs) ts
unfolding parse_body expect_end
parse_body-put f k as' cs inner ts h = rw h refl

-- The arguments of a function and what stands behind them.
parse_func-put :
    (f : ℕ) (k : Word) (as' : Args Word) (inner : Tokens)
    → IsWellArgs as'
    → count as' ≤ syntax_arg_max
    → cost_args as' < f
    → parse_func (suc f) (keyword k ∷ put_func_args as' (symbol Sym.start_brace ∷ inner))
      ≡ parse_body f k as' inner
unfolding parse_func put_func_args
parse_func-put f k anil inner w b c = refl
parse_func-put zero k (acons j vs as') inner w b c = absurd (omega arith)
parse_func-put (suc f) k (acons j vs as') inner w b c =
    rw
      (parse_args-put f (acons j vs as') (symbol Sym.start_brace ∷ inner)
        (λ m. parse_args_loop-put (acons j vs as') syntax_arg_max f _ tt w b (omega arith)))
      refl

parse_block-func :
    (f : ℕ) (k : Word) (as' : Args Word) (cs : Childs Word) (inner ts : Tokens)
    → parse_func f (keyword k ∷ put_func_args as' (symbol Sym.start_brace ∷ inner))
      ≡ ok (func k as' cs) ts
    → parse_block (suc f) (keyword k ∷ put_func_args as' (symbol Sym.start_brace ∷ inner))
      ≡ after_child (parse_block f) (func k as' cs) ts
unfolding parse_block peek_expr_type put_func_args
parse_block-func f k anil cs inner ts h = rw h refl
parse_block-func f k (acons j vs as') cs inner ts h = rw h refl

parse_func-spend :
    (f : ℕ) (k : Word) (as' : Args Word) (cs : Childs Word) (inner ts : Tokens)
    → IsWellArgs as'
    → count as' ≤ syntax_arg_max
    → 3 + cost_args as' + cost_childs cs ≤ f
    → ((g : ℕ) → cost_childs cs ≤ g → parse_block g inner ≡ ok cs (symbol Sym.end_brace ∷ ts))
    → parse_func f (keyword k ∷ put_func_args as' (symbol Sym.start_brace ∷ inner))
      ≡ ok (func k as' cs) ts
parse_func-spend zero k as' cs inner ts w b c h = absurd (omega arith)
parse_func-spend (suc zero) k as' cs inner ts w b c h = absurd (omega arith)
parse_func-spend (suc (suc f)) k as' cs inner ts w b c h =
    parse_func-put (suc f) k as' inner w b (omega arith)
    ∙ parse_body-put f k as' cs inner ts (h f (omega arith))

parse_block-end : (f : ℕ) → 1 ≤ f → parse_block f [] ≡ ok cnil []
unfolding parse_block peek_expr_type
parse_block-end zero h = absurd (omega arith)
parse_block-end (suc f) h = refl

cost_childs_pos : (cs : Childs Word) → 1 ≤ cost_childs cs
cost_childs_pos cnil = omega arith
cost_childs_pos (ccons c o cs) = omega arith

mutual
  unfolding put_child

  pub parse_child-put :
      (c : Child Word) (f : ℕ) (ts : Tokens)
      → IsWellChild c
      → cost_child c ≤ f
      → Fits c ts
      → parse_block (suc f) (put_child c ts) ≡ after_child (parse_block f) c ts
  parse_child-put (func k as' cs) f ts h c w = parse_block-func f k as' cs _ ts (
      parse_func-spend f k as' cs _ ts h.1 h.0 c
        (λ g d. parse_block-put cs g (symbol Sym.end_brace ∷ ts) h.2 h.3 d refl))
  parse_child-put (expr k s vs) f ts h c w =
      parse_block-expr f k s vs _ ts h.0 (parse_vals-put vs f ts h.1 h.2 c w)
  parse_child-put (block n cs) f ts h c w =
      parse_block-block f n cs _ ts
        (parse_block-put cs f (symbol Sym.end_parenthesis ∷ ts) h.0 h.1 c refl)

  -- Printed nodes are read back in front of a closing bracket or at the end.
  pub parse_block-put :
      (cs : Childs Word) (f : ℕ) (ts : Tokens)
      → NonEmptyChilds cs
      → IsWellChilds cs
      → cost_childs cs ≤ f
      → Ends cs ts
      → parse_block f (put_childs cs ts) ≡ ok cs ts
  parse_block-put cnil f ts n h c e = absurd n
  parse_block-put (ccons c o cs) zero ts n h b e = absurd (omega arith)
  parse_block-put (ccons c o cs) (suc f) ts n h b e =
      parse_child-put c f (put_opt o (put_childs cs ts)) h.0 (omega arith)
        (Fits-put_opt c o cs ts h.1 e)
      ∙ after_child-opt (parse_block f) c o cs ts h.1 e
          (λ m. parse_block-put cs f ts m h.2 (omega arith) (Ends-rest c o cs ts m e))
          (parse_block-end f (omega (arith, cost_childs_pos cs)))
