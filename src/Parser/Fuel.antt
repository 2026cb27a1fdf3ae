-- ===== src/Parser/Fuel.antt =====
-- The parsers of syntax.c return on every token list: they never run out of the fuel that
-- `interp_syntax_parse` gives, because each round reads a token.
mod Bounds
use lre.Base.{
  ℕ, zero, suc, ◌+◌, ◌*◌, ◌≤◌, ◌<◌, Bool, true, false, Option, none, some, [], ◌∷◌, ◌≡◌, ◌≢◌, refl,
  ap, length, arith,
}
use lre.Symbols.{Sym, SymType}
use lre.Token.{
  Word, Token, Tokens, keyword, string, symbol, skip_token, peek_curr_token, bracket_of,
}
use lre.Syntax.{
  Val, Vals, Args, Child, Childs, anil, acons, call, valblock, word, var, syntax_arg_max, expr,
  block, func,
}
use lre.Reply.{
  Reply, ok, einval, crash, out_of_fuel, ValReply, parsed, broken, vcrash, vout_of_fuel, bind,
  with_vals, add_val, whatever_vals,
}
use lre.Peek.{peek_expr_val_type, peek_expr_type, is_assign, is_comp}
use lre.Parser.{
  after_val, word_val, close_valblock, after_call, after_arg, key_operator, expect_end, after_child,
  parse_val, parse_call, parse_args, parse_args_loop, parse_expr, parse_block, parse_func,
  parse_body, interp_syntax_parse, enough,
}
use Bounds.{
  VWithin, Within, length-skip_token, Within-bind, Within-with_vals, VWithin-whatever_vals,
  VWithin-after_val, VWithin-word_val, VWithin-close_valblock, VWithin-after_call, Within-after_arg,
  Within-after_child, Within-key_operator, Within-expect_end,
}

-- A call whose argument list stands at `ts`.
parse_call-step :
    (f : ℕ) (k : Word) (t : Token) (ts : Tokens)
    → Within (length ts) (length ts) (parse_args f ts)
    → Within (length ts) (suc (suc (length ts))) (parse_call (suc f) (keyword k ∷ t ∷ ts))
unfolding parse_call
parse_call-step f k t [] h = ground arith
parse_call-step f k t (u ∷ []) h = ground arith
parse_call-step f k t (u ∷ v ∷ ts) h = ground (arith, args (u ∷ v ∷ ts) h)
  where
    args :
        (us : Tokens)
        → Within (length us) (length us) (parse_args f us)
        → Within {A = Word × Args Word}
            (length us)
            (suc (suc (length us)))
            (bind (parse_args f us) λ as' rest. ok (k, as') rest)
    args us h =
        Within-bind (length us) (length us) (length us) (suc (suc (length us))) (parse_args f us) _
          h (omega arith) (λ a xs l. l)

mutual
  unfolding parse_val peek_expr_val_type

  VWithin-parse_val :
      (f : ℕ) (ts : Tokens) → 4 * length ts + 2 ≤ f → VWithin (length ts) (parse_val f ts)
  VWithin-parse_val zero ts h = absurd (omega arith)
  VWithin-parse_val (suc f) [] h = omega arith
  VWithin-parse_val (suc f) (keyword k ∷ []) h = omega arith
  VWithin-parse_val (suc f) (keyword k ∷ t ∷ ts) h = ground (
    arith,
    VWithin-after_call (parse_val f) (length (keyword k ∷ t ∷ ts))
        (λ us l. VWithin-parse_val f us (omega arith)) (parse_call f (keyword k ∷ t ∷ ts))
        (length ts) (omega arith) (Within-parse_call f k t ts (omega arith)),
    VWithin-word_val (parse_val f) (length (keyword k ∷ t ∷ ts))
        (λ us l. VWithin-parse_val f us (omega arith)) word (keyword k ∷ t ∷ ts) (omega arith),
  )
  VWithin-parse_val (suc f) (string w ∷ ts) h =
      VWithin-word_val (parse_val f) _ (λ us l. VWithin-parse_val f us (omega arith)) word
        (string w ∷ ts) (omega arith)
  VWithin-parse_val (suc f) (symbol Sym.start_parenthesis ∷ ts) h =
      VWithin-whatever_vals (length ts) _ (parse_val f ts) _ (VWithin-parse_val f ts (omega arith))
        (λ vs us l.
          VWithin-close_valblock (parse_val f) _ (λ xs m. VWithin-parse_val f xs (omega arith)) vs
            us (omega arith))
  VWithin-parse_val (suc f) (symbol Sym.variable ∷ ts) h =
      VWithin-word_val (parse_val f) _ (λ us l. VWithin-parse_val f us (omega arith)) var ts
        (omega arith)
  VWithin-parse_val (suc f) (symbol _ ∷ ts) h = omega arith

  Within-parse_call :
      (f : ℕ) (k : Word) (t : Token) (ts : Tokens)
      → 4 * length ts + 9 ≤ f
      → Within (length ts) (suc (suc (length ts))) (parse_call f (keyword k ∷ t ∷ ts))
  Within-parse_call zero k t ts h = absurd (omega arith)
  Within-parse_call (suc f) k t ts h =
      parse_call-step f k t ts (Within-parse_args f ts (omega arith))

  Within-parse_args :
      (f : ℕ) (ts : Tokens)
      → 4 * length ts + 4 ≤ f
      → Within (length ts) (length ts) (parse_args f ts)
  Within-parse_args zero ts h = absurd (omega arith)
  Within-parse_args (suc f) [] h = Within-parse_args_loop f syntax_arg_max [] (omega arith)
  Within-parse_args (suc f) (t ∷ ts) h =
      ground (arith, Within-parse_args_loop f syntax_arg_max (t ∷ ts) (omega arith))

  Within-parse_args_loop :
      (f i : ℕ) (ts : Tokens)
      → 4 * length ts + 3 ≤ f
      → Within (length ts) (length ts) (parse_args_loop f i ts)
  Within-parse_args_loop zero i ts h = absurd (omega arith)
  Within-parse_args_loop (suc f) zero ts h = omega arith
  Within-parse_args_loop (suc f) (suc i) ts h =
      Within-key_operator is_assign _ _ ts _ (omega arith) (λ k s us l.
        Within-with_vals (length us) _ _ (parse_val f us) _ (VWithin-parse_val f us (omega arith))
          (omega arith)
          (λ vs xs m.
            Within-after_arg (parse_args_loop f i) (length ts) k vs xs
              (λ ys p. Within-parse_args_loop f i ys (omega arith)) (omega arith)))

Within-parse_expr :
    (f : ℕ) (ts : Tokens)
    → 4 * length ts + 2 ≤ f
    → (t : Token) (us : Tokens) → ts ≡ t ∷ us
    → Within (length us) (length ts) (parse_expr f ts)
unfolding parse_expr
Within-parse_expr f ts h t us e = Within-key_operator is_comp _ _ ts _ (omega arith) (λ k s xs l.
    Within-with_vals (length xs) _ _ (parse_val f xs) _ (VWithin-parse_val f xs (omega arith))
      (omega arith) (λ vs ys m. omega (arith, ap length e)))

Within-round :
    (again : Tokens → Reply (Childs Word)) (m n : ℕ) (r : Reply (Child Word))
    → Within m n r
    → m ≤ n
    → ((us : Tokens) → length us ≤ m → Within (length us) (length us) (again us))
    → Within n n (bind r (after_child again))
Within-round again m n r h l g =
    Within-bind m n n n r _ h (omega arith)
      (λ c us p. Within-after_child again n c us (λ xs q. g xs (omega arith)) (omega arith))

Within-closed :
    (s : Sym) (make : Childs Word → Child Word) (m : ℕ) (r : Reply (Childs Word))
    → Within m m r
    → Within m (suc m) (bind r λ cs rest. expect_end s (make cs) rest)
Within-closed s make m r h =
    Within-bind m m m (suc m) r _ h (omega arith)
      (λ cs us l. Within-expect_end s (make cs) m us (omega arith))

Within-wider : (m n n' : ℕ) (r : Reply (Child Word)) → n ≤ n' → Within m n r → Within m n' r
Within-wider m n n' (ok c ts) l h = h
Within-wider m n n' (einval ts) l h = omega arith
Within-wider m n n' crash l h = tt
Within-wider m n n' out_of_fuel l h = h

-- The body of a function behind its argument list, with an opening brace or without.
parse_func-step :
    (f : ℕ) (k : Word) (t : Token) (ts : Tokens)
    → Within (length ts) (length ts) (parse_args f ts)
    → ((as' : Args Word) (us : Tokens)
        → length us ≤ length ts
        → Within (length us) (suc (length us)) (parse_body f k as' us))
    → Within (length ts) (suc (suc (length ts))) (parse_func (suc f) (keyword k ∷ t ∷ ts))
unfolding parse_func
parse_func-step f k (keyword w) ts a b = omega arith
parse_func-step f k (string w) ts a b = omega arith
parse_func-step f k (symbol Sym.start_brace) ts a b = ground (arith, b anil ts (omega arith))
parse_func-step f k (symbol Sym.start_parenthesis) ts a b =
    Within-bind _ _ _ _ (parse_args f ts) _ a (omega arith) (λ as' us l. body as' us l)
  where
    body :
        (as' : Args Word) (us : Tokens)
        → length us ≤ length ts
        → Within {A = Child Word}
            (length ts)
            (suc (suc (length ts)))
            (elim (bracket_of (peek_curr_token us)) [
              | some Sym.start_brace ↦ parse_body f k as' (skip_token us)
              | _ ↦ einval (skip_token us)
            ])
    body as' [] l = omega arith
    body as' (keyword w ∷ us) l = omega arith
    body as' (string w ∷ us) l = omega arith
    body as' (symbol Sym.start_brace ∷ us) l = ground (arith, b as' us (omega arith))
    body as' (symbol _ ∷ us) l = omega arith
parse_func-step f k (symbol _) ts a b = omega arith

mutual
  unfolding parse_block peek_expr_type

  Within-parse_block :
      (f : ℕ) (ts : Tokens)
      → 4 * length ts + 4 ≤ f
      → Within (length ts) (length ts) (parse_block f ts)
  Within-parse_block zero ts h = absurd (omega arith)
  Within-parse_block (suc f) [] h = omega arith
  Within-parse_block (suc f) (keyword k ∷ []) h = omega arith
  Within-parse_block (suc f) (keyword k ∷ t ∷ ts) h = ground (
    arith,
    Within-round (parse_block f) (length ts) (length (keyword k ∷ t ∷ ts))
        (parse_func f (keyword k ∷ t ∷ ts)) (Within-parse_func f k t ts (omega arith)) (omega arith)
        (λ us l. Within-parse_block f us (omega arith)),
    Within-round (parse_block f) (length (t ∷ ts)) (length (keyword k ∷ t ∷ ts))
        (parse_expr f (keyword k ∷ t ∷ ts))
        (Within-parse_expr f (keyword k ∷ t ∷ ts) (omega arith) (keyword k) (t ∷ ts) refl)
        (omega arith) (λ us l. Within-parse_block f us (omega arith)),
  )
  Within-parse_block (suc f) (string w ∷ ts) h = omega arith
  Within-parse_block (suc f) (symbol Sym.start_parenthesis ∷ ts) h =
      Within-round (parse_block f) (length ts) _ _
        (Within-closed Sym.end_parenthesis (block false) (length ts) (parse_block f ts)
          (Within-parse_block f ts (omega arith)))
        (omega arith) (λ us l. Within-parse_block f us (omega arith))
  Within-parse_block (suc f) (symbol Sym.not ∷ []) h = omega arith
  Within-parse_block (suc f) (symbol Sym.not ∷ t ∷ ts) h = ground (
    arith,
    Within-round (parse_block f) (length ts) (length (symbol Sym.not ∷ t ∷ ts))
        (bind (parse_block f ts) λ cs rest. expect_end Sym.end_parenthesis (block true cs) rest)
        (Within-wider _ _ _ _ (omega arith) (
          Within-closed Sym.end_parenthesis (block true) (length ts) (parse_block f ts)
            (Within-parse_block f ts (omega arith))))
        (omega arith) (λ us l. Within-parse_block f us (omega arith)),
  )
  Within-parse_block (suc f) (symbol _ ∷ ts) h = omega arith

  Within-parse_func :
      (f : ℕ) (k : Word) (t : Token) (ts : Tokens)
      → 4 * length ts + 9 ≤ f
      → Within (length ts) (suc (suc (length ts))) (parse_func f (keyword k ∷ t ∷ ts))
  Within-parse_func zero k t ts h = absurd (omega arith)
  Within-parse_func (suc f) k t ts h =
      parse_func-step f k t ts (Within-parse_args f ts (omega arith))
        (λ as' us l. Within-parse_body f k as' us (omega arith))

  Within-parse_body :
      (f : ℕ) (k : Word) (as' : Args Word) (ts : Tokens)
      → 4 * length ts + 5 ≤ f
      → Within (length ts) (suc (length ts)) (parse_body f k as' ts)
  Within-parse_body zero k as' ts h = absurd (omega arith)
  Within-parse_body (suc f) k as' ts h =
      Within-closed Sym.end_brace (func k as') (length ts) (parse_block f ts)
        (Within-parse_block f ts (omega arith))

Within-ne-out_of_fuel : {A : Type 0} (m n : ℕ) (r : Reply A) → Within m n r → r ≢ out_of_fuel
Within-ne-out_of_fuel m n (ok a ts) h = cc
Within-ne-out_of_fuel m n (einval ts) h = cc
Within-ne-out_of_fuel m n crash h = cc
Within-ne-out_of_fuel m n out_of_fuel h = absurd h

-- The fuel that `interp_syntax_parse` gives is enough on every list of tokens.
pub interp_syntax_parse_terminates : (ts : Tokens) → interp_syntax_parse ts ≢ out_of_fuel
unfolding interp_syntax_parse
interp_syntax_parse_terminates ts =
    Within-ne-out_of_fuel _ _ _ (Within-parse_block (enough ts) ts (omega arith))
