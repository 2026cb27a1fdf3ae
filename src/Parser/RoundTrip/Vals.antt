-- ===== src/Parser/RoundTrip/Vals.antt =====
-- `syntax_parse_val`, `syntax_parse_call` and `syntax_parse_func_args` on printed values.
use lre.Base.{ℕ, zero, suc, ◌+◌, ◌≤◌, [], ◌∷◌, ◌≡◌, refl, ◌∙◌, arith}
use lre.Symbols.{Sym}
use lre.Token.{Word, Tokens, keyword, symbol}
use lre.Syntax.{
  Val, Vals, Args, word, var, valblock, call, vnil, vcons, anil, acons, count, syntax_arg_max,
}
use lre.Reply.{Reply, ok, ValReply, parsed}
use lre.Peek.{is_assign, peek_expr_val_type}
use lre.Parser.{
  after_val, close_valblock, after_call, after_arg, parse_val, parse_call, parse_args,
  parse_args_loop,
}
use lre.Parser.Print.{
  token_of_word, put_opt, put_val, put_vals, put_args, put_more_args, NonEmptyVals, ValLink,
  IsWellVal, IsWellVals, IsWellArgs, Follows,
}
use lre.Parser.Steps.{
  token_of_word_cases, key_operator-key, after_val-arith, after_val-Follows, put_opt-arith,
  NotParen, NotParen-put_opt, parse_val-word, parse_val-var,
}

-- The calls that a printed value takes.
abbrev mutual
  pub cost_val : Val Word → ℕ
  cost_val (word w) = 0
  cost_val (var w) = 0
  cost_val (valblock vs) = cost_vals vs
  cost_val (call k as') = 2 + cost_args as'

  pub cost_vals : Vals Word → ℕ
  cost_vals vnil = 0
  cost_vals (vcons v o vs) = suc (cost_val v + cost_vals vs)

  pub cost_args : Args Word → ℕ
  cost_args anil = 1
  cost_args (acons k vs as') = suc (cost_vals vs + cost_args as')

abbrev NonEmptyArgs : Args Word → Type 0
NonEmptyArgs anil = ⊥
NonEmptyArgs (acons k vs as') = Unit

after_val-opt :
    (again : Tokens → ValReply) (v : Val Word) (o : Sym) (vs : Vals Word) (ts : Tokens)
    → ValLink o vs
    → Follows ts
    → (NonEmptyVals vs → again (put_vals vs ts) ≡ parsed vs ts)
    → after_val again v (put_opt o (put_vals vs ts)) ≡ parsed (vcons v o vs) ts
unfolding put_vals
after_val-opt again v o vnil ts l h ih = rw l (after_val-Follows again v ts h)
after_val-opt again v o (vcons w p vs) ts l h ih =
    rw (put_opt-arith o (put_vals (vcons w p vs) ts) l)
      (rw (after_val-arith again v o (put_vals (vcons w p vs) ts) l) (rw (ih tt) refl))

after_arg-more :
    (again : Tokens → Reply (Args Word)) (k : Word) (vs : Vals Word) (as' : Args Word) (ts : Tokens)
    → (NonEmptyArgs as' → again (put_args as' ts) ≡ ok as' ts)
    → after_arg again k vs (put_more_args as' ts) ≡ ok (acons k vs as') ts
unfolding after_arg put_args
after_arg-more again k vs anil ts ih = refl
after_arg-more again k vs (acons j us as') ts ih = rw (ih tt) refl

Follows-put_more_args : (as' : Args Word) (ts : Tokens) → Follows (put_more_args as' ts)
unfolding put_args
Follows-put_more_args anil ts = (refl, refl)
Follows-put_more_args (acons k vs as') ts = (refl, refl)

pub parse_args-put :
    (f : ℕ) (as' : Args Word) (ts : Tokens)
    → (NonEmptyArgs as' → parse_args_loop f syntax_arg_max (put_args as' ts) ≡ ok as' ts)
    → parse_args (suc f) (put_args as' ts) ≡ ok as' ts
unfolding parse_args put_args
parse_args-put f anil ts h = refl
parse_args-put f (acons k vs as') ts h = ground (arith, token_of_word_cases k, h tt)

parse_call-put :
    (f : ℕ) (k : Word) (as' : Args Word) (ts : Tokens)
    → NotParen ts
    → parse_args f (put_args as' ts) ≡ ok as' ts
    → parse_call (suc f) (keyword k ∷ symbol Sym.start_parenthesis ∷ put_args as' ts)
      ≡ ok (k, as') ts
unfolding parse_call put_args
parse_call-put f k as' [] n h = absurd n
parse_call-put f k anil (t ∷ ts) n h = ground arith
parse_call-put f k (acons j vs as') (t ∷ ts) n h = ground arith

parse_val-valblock :
    (f : ℕ) (vs : Vals Word) (inner ts : Tokens)
    → parse_val f inner ≡ parsed vs (symbol Sym.end_parenthesis ∷ ts)
    → parse_val (suc f) (symbol Sym.start_parenthesis ∷ inner)
      ≡ after_val (parse_val f) (valblock vs) ts
unfolding parse_val close_valblock peek_expr_val_type
parse_val-valblock f vs inner ts h = rw h refl

parse_val-call :
    (f : ℕ) (k : Word) (as' : Args Word) (inner ts : Tokens)
    → parse_call f (keyword k ∷ symbol Sym.start_parenthesis ∷ inner) ≡ ok (k, as') ts
    → parse_val (suc f) (keyword k ∷ symbol Sym.start_parenthesis ∷ inner)
      ≡ after_val (parse_val f) (call k as') ts
unfolding parse_val after_call peek_expr_val_type
parse_val-call f k as' inner ts h = rw h refl

parse_args_loop-key :
    (f n : ℕ) (k : Word) (vs : Vals Word) (inner ts : Tokens)
    → parse_val f inner ≡ parsed vs ts
    → parse_args_loop (suc f) (suc n) (token_of_word k ∷ symbol Sym.assign ∷ inner)
      ≡ after_arg (parse_args_loop f n) k vs ts
unfolding parse_args_loop
parse_args_loop-key f n k vs inner ts h =
    rw (key_operator-key is_assign k Sym.assign inner _ refl refl) (rw h refl)

-- A call spends one unit of fuel on itself, one on its argument list and one on the loop.
parse_call-spend :
    (as' : Args Word) (f : ℕ) (k : Word) (ts : Tokens)
    → 2 + cost_args as' ≤ f
    → NotParen ts
    → ((g : ℕ)
        → cost_args as' ≤ g
        → NonEmptyArgs as'
        → parse_args_loop g syntax_arg_max (put_args as' ts) ≡ ok as' ts)
    → parse_call f (keyword k ∷ symbol Sym.start_parenthesis ∷ put_args as' ts) ≡ ok (k, as') ts
parse_call-spend as' zero k ts c n h = absurd (omega arith)
parse_call-spend as' (suc zero) k ts c n h = absurd (omega arith)
parse_call-spend as' (suc (suc f)) k ts c n h =
    parse_call-put (suc f) k as' ts n (parse_args-put f as' ts (h f (omega arith)))

mutual
  unfolding put_val

  parse_val-put :
      (v : Val Word) (f : ℕ) (ts : Tokens)
      → IsWellVal v
      → cost_val v ≤ f
      → NotParen ts
      → parse_val (suc f) (put_val v ts) ≡ after_val (parse_val f) v ts
  parse_val-put (word w) f ts h c n = parse_val-word f w ts n
  parse_val-put (var w) f ts h c n = parse_val-var f w ts
  parse_val-put (valblock vs) f ts h c n =
      parse_val-valblock f vs _ ts
        (parse_vals-put vs f (symbol Sym.end_parenthesis ∷ ts) h.0 h.1 c (refl, refl))
  parse_val-put (call k as') f ts h c n = parse_val-call f k as' _ ts (
      parse_call-spend as' f k ts c n
        (λ g d e. parse_args_loop-put as' syntax_arg_max g ts e h.1 h.0 d))

  pub parse_vals-put :
      (vs : Vals Word) (f : ℕ) (ts : Tokens)
      → NonEmptyVals vs
      → IsWellVals vs
      → cost_vals vs ≤ f
      → Follows ts
      → parse_val f (put_vals vs ts) ≡ parsed vs ts
  parse_vals-put vnil f ts n h c w = absurd n
  parse_vals-put (vcons v o vs) zero ts n h c w = absurd (omega arith)
  parse_vals-put (vcons v o vs) (suc f) ts n h c w =
      rw
        (parse_val-put v f (put_opt o (put_vals vs ts)) h.0 (omega arith)
          (NotParen-put_opt o vs ts h.1 w))
        (after_val-opt (parse_val f) v o vs ts h.1 w
          (λ m. parse_vals-put vs f ts m h.2 (omega arith) w))

  pub parse_args_loop-put :
      (as' : Args Word) (n f : ℕ) (ts : Tokens)
      → NonEmptyArgs as'
      → IsWellArgs as'
      → count as' ≤ n
      → cost_args as' ≤ f
      → parse_args_loop f n (put_args as' ts) ≡ ok as' ts
  parse_args_loop-put anil n f ts e h b c = absurd e
  parse_args_loop-put (acons k vs as') zero f ts e h b c = absurd (omega arith)
  parse_args_loop-put (acons k vs as') (suc n) zero ts e h b c = absurd (omega arith)
  parse_args_loop-put (acons k vs as') (suc n) (suc f) ts e h b c =
      parse_args_loop-key f n k vs _ (put_more_args as' ts) (
        parse_vals-put vs f (put_more_args as' ts) h.0 h.1 (omega arith)
          (Follows-put_more_args as' ts))
      ∙ after_arg-more (parse_args_loop f n) k vs as' ts
          (λ m. parse_args_loop-put as' n f ts m h.2 (omega arith) (omega arith))
