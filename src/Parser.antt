-- ===== src/Parser.antt =====
-- The recursive descent of syntax.c. A parser takes the tokens that are left and returns the
-- node with the tokens after it. The C recursion has no bound of its own: each call of a parser
-- here takes one unit of fuel.
pub mod Print
pub mod Steps
pub mod RoundTrip
pub mod Fuel
pub mod Faults
use lre.Base.{ℕ, zero, suc, Bool, true, false, none, some, [], ◌∷◌, if◌then◌else◌, ◌+◌, ◌*◌, length}
use lre.Symbols.{Sym, SymType, get_symbol_type}
use lre.Token.{
  Word, Token, Tokens, keyword, string, symbol, peek_curr_token, peek_next_token, skip_token,
  token_is, keyword_of, operator_of, bracket_of, end_bracket_of,
}
use lre.Syntax.{
  Val, Vals, Args, Child, Childs, word, var, valblock, call, vnil, vcons, anil, acons, func, expr,
  block, cnil, ccons, syntax_arg_max,
}
use lre.Reply.{
  Reply, ValReply, ok, einval, crash, out_of_fuel, parsed, broken, vcrash, vout_of_fuel, bind,
  with_vals, whatever_vals, add_val,
}
use lre.Peek.{
  is_arith, is_comp, is_assign, is_logic, ExprValType, unknown, normal, variable, block_val,
  call_val, peek_expr_val_type, ExprType, eof, func_type, neg_block, block_type, func_or_expr,
  peek_expr_type,
}

-- The end of `syntax_parse_val`: go on behind an arithmetic operator.
unfoldable pub after_val : (Tokens → ValReply) → Val Word → Tokens → ValReply
after_val again v ts = elim (operator_of (peek_curr_token ts)) [
  | none ↦ parsed (vcons v Sym.reserved vnil) ts
  | some s ↦ elim (is_arith (get_symbol_type s)) [
    | true ↦ add_val v s (again (skip_token ts))
    | false ↦ parsed (vcons v Sym.reserved vnil) ts
  ]
]

-- The word of a plain value or of a variable; `ts` stands at it.
unfoldable pub word_val : (Tokens → ValReply) → (Word → Val Word) → Tokens → ValReply
word_val again make ts = elim (keyword_of (peek_curr_token ts)) [
  | none ↦ broken vnil (skip_token ts)
  | some w ↦ after_val again (make w) (skip_token ts)
]

-- Behind the values of a parenthesised list.
unfoldable pub close_valblock : (Tokens → ValReply) → Vals Word → Tokens → ValReply
close_valblock again vs ts = elim (token_is Sym.end_parenthesis (peek_curr_token ts)) [
  | true ↦ after_val again (valblock vs) (skip_token ts)
  | false ↦ broken vnil (skip_token ts)
]

unfoldable pub after_call : (Tokens → ValReply) → Reply (Word × Args Word) → ValReply
after_call again (ok (k, as') ts) = after_val again (call k as') ts
after_call again (einval ts) = broken vnil ts
after_call again crash = vcrash
after_call again out_of_fuel = vout_of_fuel

-- Behind an argument: a comma, the closing parenthesis, or neither, which is let pass.
unfoldable pub after_arg :
    (Tokens → Reply (Args Word)) → Word → Vals Word → Tokens → Reply (Args Word)
after_arg again k vs ts = elim (token_is Sym.comma (peek_curr_token ts)) [
  | true ↦ bind (again (skip_token ts)) λ as' rest. ok (acons k vs as') rest
  | false ↦ elim (token_is Sym.end_parenthesis (peek_curr_token ts)) [
    | true ↦ ok (acons k vs anil) (skip_token ts)
    | false ↦ bind (again ts) λ as' rest. ok (acons k vs as') rest
  ]
]

-- `read_keyword`, then `read_operator` with a test of its type.
unfoldable pub key_operator :
    {A : Type 0} → (SymType → Bool) → Tokens → (Word → Sym → Tokens → Reply A) → Reply A
key_operator test ts k = elim (keyword_of (peek_curr_token ts)) [
  | none ↦ einval (skip_token ts)
  | some w ↦ elim (operator_of (peek_curr_token (skip_token ts))) [
    | none ↦ einval (skip_token (skip_token ts))
    | some s ↦ elim (test (get_symbol_type s)) [
      | true ↦ k w s (skip_token (skip_token ts))
      | false ↦ einval (skip_token (skip_token ts))
    ]
  ]
]

-- `read_end_bracket` with a test for one bracket.
unfoldable pub expect_end : {A : Type 0} → Sym → A → Tokens → Reply A
expect_end s a ts = elim (token_is s (peek_curr_token ts)) [
  | true ↦ ok a (skip_token ts)
  | false ↦ einval (skip_token ts)
]

-- `syntax_parse_val`, `syntax_parse_call` and the loop of `syntax_parse_func_args`; the first
-- number of `parse_args_loop` is the fuel, the second the rounds that the loop has left.
unfoldable mutual
  pub parse_val : ℕ → Tokens → ValReply
  parse_val zero ts = vout_of_fuel
  parse_val (suc f) ts = elim (peek_expr_val_type ts) [
    | block_val ↦ whatever_vals (parse_val f (skip_token ts)) (close_valblock (parse_val f))
    | call_val ↦ after_call (parse_val f) (parse_call f ts)
    | variable ↦ word_val (parse_val f) var (skip_token ts)
    | normal ↦ word_val (parse_val f) word ts
    | unknown ↦ broken vnil ts
  ]

  pub parse_call : ℕ → Tokens → Reply (Word × Args Word)
  parse_call zero ts = out_of_fuel
  parse_call (suc f) ts = elim (keyword_of (peek_curr_token ts)) [
    | none ↦ einval (skip_token ts)
    | some k ↦ elim (token_is Sym.start_parenthesis (peek_curr_token (skip_token ts))) [
      | true ↦ elim (peek_next_token (skip_token (skip_token ts))) [
        | none ↦ crash
        | some t ↦ elim (token_is Sym.start_parenthesis (some t)) [
          | true ↦ ok (k, anil) (skip_token (skip_token ts))
          | false ↦ bind (parse_args f (skip_token (skip_token ts))) λ as' rest. ok (k, as') rest
        ]
      ]
      | false ↦ einval (skip_token (skip_token ts))
    ]
  ]

  pub parse_args : ℕ → Tokens → Reply (Args Word)
  parse_args zero ts = out_of_fuel
  parse_args (suc f) ts = elim (token_is Sym.end_parenthesis (peek_curr_token ts)) [
    | true ↦ ok anil (skip_token ts)
    | false ↦ parse_args_loop f syntax_arg_max ts
  ]

  pub parse_args_loop : ℕ → ℕ → Tokens → Reply (Args Word)
  parse_args_loop zero i ts = out_of_fuel
  parse_args_loop (suc f) zero ts = ok anil ts
  parse_args_loop (suc f) (suc i) ts =
      key_operator is_assign ts
        λ k s rest. with_vals (parse_val f rest) (after_arg (parse_args_loop f i) k)

-- `syntax_parse_expr`.
pub parse_expr : ℕ → Tokens → Reply (Child Word)
parse_expr f ts =
    key_operator is_comp ts
      λ k s rest. with_vals (parse_val f rest) λ vs more. ok (expr k s vs) more

-- The end of a round of `__syntax_parse_block`. An operator is read whatever it is, and must be
-- logical; a closing bracket ends the loop; else the next round follows without an operator.
unfoldable pub after_child :
    (Tokens → Reply (Childs Word)) → Child Word → Tokens → Reply (Childs Word)
after_child again c ts = elim (operator_of (peek_curr_token ts)) [
  | some s ↦ elim (is_logic (get_symbol_type s)) [
    | true ↦ bind (again (skip_token ts)) λ cs rest. ok (ccons c s cs) rest
    | false ↦ einval (skip_token ts)
  ]
  | none ↦ elim (end_bracket_of (peek_curr_token ts)) [
    | some s ↦ ok (ccons c Sym.reserved cnil) ts
    | none ↦ bind (again ts) λ cs rest. ok (ccons c Sym.reserved cs) rest
  ]
]

-- `__syntax_parse_block`, with the call of `syntax_parse_block` in it, and `syntax_parse_func`.
unfoldable mutual
  unfolding parse_expr

  pub parse_block : ℕ → Tokens → Reply (Childs Word)
  parse_block zero ts = out_of_fuel
  parse_block (suc f) ts = elim (peek_expr_type ts) [
    | eof ↦ ok cnil ts
    | unknown ↦ einval ts
    | func_type ↦ bind (parse_func f ts) (after_child (parse_block f))
    | neg_block ↦
        bind
          (bind (parse_block f (skip_token (skip_token ts)))
            λ cs rest. expect_end Sym.end_parenthesis (block true cs) rest)
          (after_child (parse_block f))
    | block_type ↦
        bind
          (bind (parse_block f (skip_token ts))
            λ cs rest. expect_end Sym.end_parenthesis (block false cs) rest)
          (after_child (parse_block f))
    | normal ↦ bind (parse_expr f ts) (after_child (parse_block f))
  ]

  pub parse_func : ℕ → Tokens → Reply (Child Word)
  parse_func zero ts = out_of_fuel
  parse_func (suc f) ts = elim (keyword_of (peek_curr_token ts)) [
    | none ↦ einval (skip_token ts)
    | some k ↦ elim (bracket_of (peek_curr_token (skip_token ts))) [
      | some Sym.start_brace ↦ parse_body f k anil (skip_token (skip_token ts))
      | some Sym.start_parenthesis ↦ bind (parse_args f (skip_token (skip_token ts))) λ as' rest.
          elim (bracket_of (peek_curr_token rest)) [
            | some Sym.start_brace ↦ parse_body f k as' (skip_token rest)
            | _ ↦ einval (skip_token rest)
          ]
      | _ ↦ einval (skip_token (skip_token ts))
    ]
  ]

  -- The call of `syntax_parse_func_body` and the closing brace.
  pub parse_body : ℕ → Word → Args Word → Tokens → Reply (Child Word)
  parse_body zero k as' ts = out_of_fuel
  parse_body (suc f) k as' ts =
      bind (parse_block f ts) λ cs rest. expect_end Sym.end_brace (func k as' cs) rest

-- Fuel for any token list: see Parser/Fuel.
abbrev pub enough : Tokens → ℕ
enough ts = 4 * length ts + 4

-- `syntax_parse_content`: what stands behind the parsed content is ignored.
unfoldable pub interp_syntax_parse : Tokens → Reply (Childs Word)
unfolding parse_block
interp_syntax_parse ts = parse_block (enough ts) ts
