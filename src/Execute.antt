-- ===== src/Execute.antt =====
-- The executor of execute.c on a resolved tree.
pub mod Groups
pub mod Stack
use lre.Base.{ℕ, Bool, true, false, Option, none, some, [], if◌then◌else◌}
use lre.Base.Int.{ℤ, pos, eqb_ℤ}
use lre.Symbols.{Sym}
use lre.Syntax.{
  Val, Vals, Args, Child, Childs, word, var, valblock, call, vnil, vcons, anil, acons, func, expr,
  block, cnil, ccons,
}
use lre.Calculate.{ret_dead_val, vaild_lre_results}
use lre.Value.{LreValue, unknown, val2lre_value}
use lre.Machine.{
  Components, func_stub, call_stub, arg_stub, expr_stub, var_stub, State, M, pure, fault, ◌>>=◌,
  ◌>>◌, in_world, change_world, exec_ctx_push_handle, exec_ctx_pop_handle, exec_ctx_get_handle,
  expect_kind, Combined, stop, go_on, bad, undefined, combine, val_uninitialized, not_int, and_int,
  or_int,
}

module _ (c : Components) where
  open c use {doubles, Stub, Handle, World}

  -- The rest of the round and of the loop; `again` goes on with the value so far.
  abbrev pub next_round :
      (LreValue doubles.Double → M (State c) (Option (LreValue doubles.Double)))
      → Combined doubles.Double
      → M (State c) (Option (LreValue doubles.Double))
  next_round again (stop v) = pure (some v)
  next_round again (go_on v) = again v
  next_round again bad = pure none
  next_round again undefined = fault

  -- How the loop over the arguments ends.
  pub data ArgsResult : Type 0 where
    args_ok val_failed handler_failed : ArgsResult

  -- The end of `execute_syntax_call`: destructor, pop.
  unfoldable pub close_call :
      Stub
      → Handle
      → Option (LreValue doubles.Double)
      → M (State c) (Option (LreValue doubles.Double))
  close_call k h r = do change_world c (c.call_destructor k h); exec_ctx_pop_handle c; pure r

  abbrev pub call_result : ℤ × LreValue doubles.Double → Option (LreValue doubles.Double)
  call_result (ret, v) = if eqb_ℤ ret (pos 0) then some v else none

  -- `execute_syntax_call` behind the arguments. A value that failed returns at once, with the
  -- handle on the stack.
  unfoldable pub after_call_args :
      Stub → Handle → ArgsResult → M (State c) (Option (LreValue doubles.Double))
  after_call_args k h val_failed = pure none
  after_call_args k h handler_failed = close_call k h none
  after_call_args k h args_ok = elim (c.call_exec k) [
    | none ↦ close_call k h none
    | some f ↦ do r ← in_world c (f h); close_call k h (call_result r)
  ]

  -- Behind the handler of an argument.
  abbrev pub next_arg : M (State c) ArgsResult → ℤ → M (State c) ArgsResult
  next_arg again ret = elim (eqb_ℤ ret (pos 0)) [ true ↦ again | false ↦ pure handler_failed ]

  -- `execute_syntax_val` (`exec_vals` is its loop), `execute_syntax_call` and the loop over the
  -- arguments, which `execute_syntax_func` has too.
  unfoldable mutual
    pub exec_val : Handle → Val Stub → M (State c) (Option (LreValue doubles.Double))
    exec_val h (word w) = elim (val2lre_value doubles w) [ none ↦ fault | some v ↦ pure (some v) ]
    exec_val h (var k) = do
      expect_kind c var_stub k
      v ← in_world c (c.var_handler k h)
      pure (some v)
    exec_val h (valblock vs) = do g ← exec_ctx_get_handle c; exec_vals g unknown Sym.reserved vs
    exec_val h (call k as') = do
      expect_kind c call_stub k
      new ← in_world c (c.call_constructor k)
      elim new [
        | none ↦ pure none
        | some g ↦ do exec_ctx_push_handle c g; r ← exec_args g as'; after_call_args k g r
      ]

    pub exec_vals :
        Handle
        → LreValue doubles.Double
        → Sym
        → Vals Stub
        → M (State c) (Option (LreValue doubles.Double))
    exec_vals h arg opt vnil = pure (some arg)
    exec_vals h arg opt (vcons v o vs) = do
      tmp ← exec_val h v
      elim tmp [
        | none ↦ pure none
        | some t ↦ next_round (λ arg'. exec_vals h arg' o vs) (combine doubles arg t opt)
      ]

    pub exec_args : Handle → Args Stub → M (State c) ArgsResult
    exec_args h anil = pure args_ok
    exec_args h (acons k vs as') = do
      expect_kind c arg_stub k
      g ← exec_ctx_get_handle c
      v ← exec_vals g unknown Sym.reserved vs
      elim v [
        | none ↦ pure val_failed
        | some a ↦ do ret ← in_world c (c.arg_handler k h a); next_arg (exec_args h as') ret
      ]

  abbrev pub valid_or_dead : ℤ → ℤ
  valid_or_dead ret = if vaild_lre_results ret then ret else ret_dead_val

  -- `execute_syntax_expr`.
  unfoldable pub exec_expr : Stub → Sym → Vals Stub → M (State c) ℤ
  exec_expr k o vs = do
    h ← exec_ctx_get_handle c
    expect_kind c expr_stub k
    g ← exec_ctx_get_handle c
    v ← exec_vals g unknown Sym.reserved vs
    elim v [
      | none ↦ pure ret_dead_val
      | some a ↦ do ret ← in_world c (c.expr_handler k h o a); pure (valid_or_dead ret)
    ]

  -- The end of `execute_syntax_func`: destructor, pop.
  unfoldable pub close_func : Stub → Handle → ℤ → M (State c) ℤ
  close_func k h r = do change_world c (c.func_destructor k h); exec_ctx_pop_handle c; pure r

  -- `execute_syntax_func` behind the arguments, with its body.
  unfoldable pub after_func_args : Stub → Handle → M (State c) ℤ → ArgsResult → M (State c) ℤ
  after_func_args k h body val_failed = close_func k h ret_dead_val
  after_func_args k h body handler_failed = close_func k h ret_dead_val
  after_func_args k h body args_ok = elim (c.func_exec k) [
    | none ↦ body >>= close_func k h
    | some f ↦ do
      ret ← in_world c (f h)
      elim (eqb_ℤ ret (pos 0)) [
        | true ↦ body >>= close_func k h
        | false ↦ close_func k h ret_dead_val
      ]
  ]

  -- The new `res` of a round of `execute_syntax_childs`; `none` where it returns the dead value.
  unfoldable pub join : ℤ → Sym → ℤ → Option ℤ
  join res opt ret =
      if eqb_ℤ res val_uninitialized
      then some ret
      else elim opt [ Sym.and ↦ some (and_int res ret) | Sym.or ↦ some (or_int res ret) | _ ↦ none ]

  -- The test that ends the loop early.
  unfoldable pub decided : Sym → ℤ → Bool
  decided Sym.and res = eqb_ℤ res (pos 0)
  decided Sym.or res = if eqb_ℤ res (pos 0) then false else true
  decided _ res = false

  -- The rest of a round, behind the node; `again` goes on with the new result.
  unfoldable pub after_round : (ℤ → M (State c) ℤ) → ℤ → Sym → Sym → ℤ → M (State c) ℤ
  after_round again res opt o ret = elim (vaild_lre_results ret) [
    | false ↦ pure ret_dead_val
    | true ↦ elim (join res opt ret) [
      | none ↦ pure ret_dead_val
      | some res' ↦ elim (decided o res') [ true ↦ pure res' | false ↦ again res' ]
    ]
  ]

  -- `execute_syntax_func`, `execute_syntax_block` and the loop of `execute_syntax_childs`.
  unfoldable mutual
    pub exec_child : Child Stub → M (State c) ℤ
    exec_child (func k as' cs) = do
      expect_kind c func_stub k
      new ← in_world c (c.func_constructor k)
      elim new [
        | none ↦ pure ret_dead_val
        | some h ↦ do
          exec_ctx_push_handle c h
          r ← exec_args h as'
          after_func_args k h (exec_childs val_uninitialized Sym.reserved cs) r
      ]
    exec_child (expr k o vs) = exec_expr k o vs
    exec_child (block negative cs) = do
      ret ← exec_childs val_uninitialized Sym.reserved cs
      pure (if negative then not_int ret else ret)

    pub exec_childs : ℤ → Sym → Childs Stub → M (State c) ℤ
    exec_childs res opt cnil = pure res
    exec_childs res opt (ccons ch o cs) = do
      ret ← exec_child ch
      after_round (λ res'. exec_childs res' o cs) res opt o ret

  -- `interp_execute`, on a stack of `stacksize`.
  unfoldable pub interp_execute : ℕ → World → Childs Stub → Option (ℤ × State c)
  interp_execute stacksize w tree =
      exec_childs val_uninitialized Sym.reserved tree
        (record { stack = []; stackdepth = stacksize; world = w })
