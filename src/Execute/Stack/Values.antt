-- ===== src/Execute/Stack/Values.antt =====
-- The handle stack under `execute_syntax_val`, `execute_syntax_call` and `execute_syntax_expr`.
use lre.Base.{◌+◌, Option, none, some, arith}
use lre.Symbols.{Sym}
use lre.Syntax.{Val, Vals, Args, word, var, valblock, call, vnil, vcons, anil, acons}
use lre.Calculate.{ret_dead_val}
use lre.Value.{LreValue, unknown, val2lre_value}
use lre.Machine.{
  Components, State, M, pure, fault, in_world, exec_ctx_get_handle, expect_kind, call_stub,
  arg_stub, expr_stub, var_stub, combine,
}
use lre.Execute.{
  val_failed, after_call_args, exec_val, exec_vals, exec_args, exec_expr, valid_or_dead,
}
use lre.Execute.Stack.{
  pushes_val, pushes_vals, pushes_args, leaks_val, leaks_vals, leaks_args, leaks_val-le,
  leaks_vals-le,
}
use lre.Execute.Stack.Runs.{
  Kept, Keeps, gone, kept, pushed, HasRoom, Kept-refl, Kept-trans, Keeps-bind, Keeps-after,
  Keeps-in_world, Keeps-expect_kind, Keeps-get_handle, Kept-HasRoom, Keeps-next_round,
  Keeps-next_arg, Keeps-call_exec, Keeps-after_call_args, Keeps-value, Keeps-pushed,
  Keeps-constructed,
}

module _ {c : Components} where
  open c use {doubles, Stub, Handle, World}

  mutual
    unfolding exec_vals leaks_val pushes_val

    Keeps-val :
        (h : Handle) (v : Val Stub) (st : State c)
        → HasRoom (pushes_val v) st
        → Keeps (leaks_val v) st (exec_val c h v st)
    Keeps-val h (word w) st r = go (val2lre_value doubles w)
      where
        go :
            (o : Option (LreValue doubles.Double))
            → Keeps {A = Option (LreValue doubles.Double)} 0 st (
                (elim o as (λ _. M (State c) (Option (LreValue doubles.Double))) [
                  | none ↦ fault
                  | some v ↦ pure (some v)
                ])
                  st)
        go none = gone
        go (some v) = kept (Kept-refl 0 st)
    Keeps-val h (var k) st r =
        Keeps-bind (expect_kind c var_stub k) _ st (Keeps-expect_kind var_stub k st) λ _ st' e.
          Keeps-bind (in_world c (c.var_handler k h)) (λ v. pure (some v)) st'
            (Keeps-in_world (c.var_handler k h) st') λ v st'' g. kept (Kept-trans e g)
    Keeps-val h (valblock vs) st r =
        Keeps-bind (exec_ctx_get_handle c) _ st (Keeps-get_handle st) λ g st' e.
          Keeps-after e (omega arith) (
            Keeps-vals g unknown Sym.reserved vs st'
              (Kept-HasRoom 0 (pushes_vals vs) _ e (omega arith) r))
    Keeps-val h (call k anil) st r =
        Keeps-constructed 0 call_stub k (c.call_constructor k) none _ st λ g st' e.
          Keeps-pushed 0 0 g _ st' st' (Kept-HasRoom 0 1 1 e (omega arith) r)
            λ room. Keeps-call_exec 0 k g st' (pushed g st') (Kept-refl 0 (pushed g st'))
    Keeps-val h (call k (acons k' vs as')) st r =
        Keeps-constructed _ call_stub k (c.call_constructor k) none _ st λ g st' e.
          Keeps-pushed (pushes_args (acons k' vs as')) _ g _ st' st'
            (Kept-HasRoom 0 _ _ e (omega arith) r)
            λ room.
              Keeps-bind (exec_args c g (acons k' vs as')) (after_call_args c k g) (pushed g st')
                (Keeps-args g (acons k' vs as') (pushed g st') room)
                λ a st'' f. Keeps-after_call_args _ k g a st' st'' f

    Keeps-vals :
        (h : Handle) (arg : LreValue doubles.Double) (opt : Sym) (vs : Vals Stub) (st : State c)
        → HasRoom (pushes_vals vs) st
        → Keeps (leaks_vals vs) st (exec_vals c h arg opt vs st)
    Keeps-vals h arg opt vnil st r = kept (Kept-refl 0 st)
    Keeps-vals h arg opt (vcons v o vs) st r =
        Keeps-bind (exec_val c h v) _ st (Keeps-val h v st (omega arith)) λ tmp st' e.
          Keeps-value (leaks_val v) (leaks_vals vs) _ tmp none _ st st' e (omega arith) λ t.
            Keeps-next_round 0 (leaks_vals vs) _ _ (combine doubles arg t opt) st' st'
              (Kept-refl 0 st') (omega arith)
              λ arg'.
                Keeps-vals h arg' o vs st' (
                  Kept-HasRoom (leaks_val v) (pushes_vals vs) _ e (omega (arith, leaks_val-le v)) r)

    pub Keeps-args :
        (h : Handle) (as' : Args Stub) (st : State c)
        → HasRoom (pushes_args as') st
        → Keeps (leaks_args as') st (exec_args c h as' st)
    Keeps-args h anil st r = kept (Kept-refl 0 st)
    Keeps-args h (acons k vs as') st r =
        Keeps-bind (expect_kind c arg_stub k) _ st (Keeps-expect_kind arg_stub k st) λ _ st1 e.
          Keeps-bind (exec_ctx_get_handle c) _ st1 (Keeps-get_handle st1) λ g st2 f.
            let e2 : Kept 0 st st2 = Kept-trans e f in
            Keeps-bind (exec_vals c g unknown Sym.reserved vs) _ st2
              (Keeps-vals g unknown Sym.reserved vs st2 (Kept-HasRoom 0 _ _ e2 (omega arith) r))
              λ v st3 x.
                let e3 : Kept (0 + leaks_vals vs) st st3 = Kept-trans e2 x in
                Keeps-value (0 + leaks_vals vs) (leaks_args as') _ v val_failed _ st st3 e3
                  (omega arith)
                  λ a.
                    Keeps-bind (in_world c (c.arg_handler k h a)) _ st3
                      (Keeps-in_world (c.arg_handler k h a) st3)
                      λ ret st4 y.
                        Keeps-next_arg 0 (leaks_args as') _ (exec_args c h as') ret st3 st4 y
                          (omega arith)
                          (Keeps-args h as' st4 (
                            Kept-HasRoom (0 + leaks_vals vs + 0) _ _ (Kept-trans e3 y)
                              (omega (arith, leaks_vals-le vs)) r))

  pub Keeps-exec_expr :
      (k : Stub) (o : Sym) (vs : Vals Stub) (st : State c)
      → HasRoom (pushes_vals vs) st
      → Keeps (leaks_vals vs) st (exec_expr c k o vs st)
  unfolding exec_expr
  Keeps-exec_expr k o vs st r =
      Keeps-bind (exec_ctx_get_handle c) _ st (Keeps-get_handle st) λ h st1 e.
        Keeps-bind (expect_kind c expr_stub k) _ st1 (Keeps-expect_kind expr_stub k st1) λ _ st2 f.
          Keeps-bind (exec_ctx_get_handle c) _ st2 (Keeps-get_handle st2) λ g st3 x.
            let e3 : Kept 0 st st3 = Kept-trans (Kept-trans e f) x in
            Keeps-bind (exec_vals c g unknown Sym.reserved vs) _ st3
              (Keeps-vals g unknown Sym.reserved vs st3 (Kept-HasRoom 0 _ _ e3 (omega arith) r))
              λ v st4 y.
                Keeps-value (0 + leaks_vals vs) 0 _ v ret_dead_val _ st st4 (Kept-trans e3 y)
                  (omega arith)
                  λ a.
                    Keeps-bind (in_world c (c.expr_handler k h o a))
                      (λ ret. pure (valid_or_dead c ret)) st4
                      (Keeps-in_world (c.expr_handler k h o a) st4) λ ret st5 z. kept z
