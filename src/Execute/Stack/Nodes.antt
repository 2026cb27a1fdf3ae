-- ===== src/Execute/Stack/Nodes.antt =====
-- The handle stack under `execute_syntax_func`, `execute_syntax_childs` and `interp_execute`: a run
-- never takes away a handle that stood on the stack before it.
use lre.Base.{
  ℕ, ◌+◌, ◌≤◌, ◌<◌, Bool, true, false, Option, none, some, ◌≡◌, if◌then◌else◌, length, arith, subst,
}
use lre.Base.Int.{ℤ, pos, eqb_ℤ}
use lre.Symbols.{Sym}
use lre.Syntax.{Child, Childs, func, expr, block, cnil, ccons}
use lre.Calculate.{ret_dead_val, vaild_lre_results}
use lre.Machine.{
  Components, State, M, pure, ◌>>=◌, in_world, exec_stack_gap, func_stub, val_uninitialized,
  not_int,
}
use lre.Execute.{
  ArgsResult, args_ok, val_failed, handler_failed, exec_args, close_func, after_func_args, join,
  decided, after_round, exec_child, exec_childs, interp_execute,
}
use lre.Execute.Stack.{
  Above, Above-length, pushes_args, pushes_child, pushes_childs, leaks_args, leaks_child,
  leaks_childs, leaks_args-le, leaks_child-le,
}
use lre.Execute.Stack.Runs.{
  Kept, Keeps, gone, kept, pushed, HasRoom, Kept-refl, Kept-trans, Kept-widen, Keeps-bind,
  Keeps-after, Keeps-in_world, Keeps-close_func, Kept-HasRoom, Keeps-widen, Keeps-pushed,
  Keeps-constructed,
}
use lre.Execute.Stack.Values.{Keeps-args, Keeps-exec_expr}

module _ {c : Components} where
  open c use {doubles, Stub, Handle, World}

  Keeps-body :
      (m n : ℕ) (s : Stub) (h : Handle) (body : M (State c) ℤ) (base st : State c)
      → Kept m (pushed h base) st
      → Keeps n st (body st)
      → Keeps (m + n) base ((body >>= close_func c s h) st)
  Keeps-body m n s h body base st k g =
      Keeps-bind body (close_func c s h) st g
        λ ret st' e. Keeps-close_func (m + n) s h ret base st' (Kept-trans k e)

  -- Behind the arguments of a function: the body, or none of it, and the end.
  Keeps-after_func_args :
      (m n : ℕ) (s : Stub) (h : Handle) (body : M (State c) ℤ) (r : ArgsResult c)
      (base st : State c)
      → Kept m (pushed h base) st
      → ((st' : State c) → Kept 0 st st' → Keeps n st' (body st'))
      → Keeps (m + n) base (after_func_args c s h body r st)
  unfolding after_func_args
  Keeps-after_func_args m n s h body val_failed base st k g =
      Keeps-widen (omega arith) (Keeps-close_func m s h ret_dead_val base st k)
  Keeps-after_func_args m n s h body handler_failed base st k g =
      Keeps-widen (omega arith) (Keeps-close_func m s h ret_dead_val base st k)
  Keeps-after_func_args m n s h body args_ok base st k g = has_exec (c.func_exec s)
    where
      checked_exec :
          (b : Bool) (st' : State c)
          → Kept 0 st st'
          → Keeps (m + n) base (
              (elim b as (λ _. M (State c) ℤ) [
                | true ↦ body >>= close_func c s h
                | false ↦ close_func c s h ret_dead_val
              ])
                st')
      checked_exec true st' e =
          Keeps-widen (omega arith)
            (Keeps-body (m + 0) n s h body base st' (Kept-trans k e) (g st' e))
      checked_exec false st' e =
          Keeps-widen (omega arith)
            (Keeps-close_func (m + 0) s h ret_dead_val base st' (Kept-trans k e))

      has_exec :
          (f : Option (Handle → World → ℤ × World))
          → Keeps (m + n) base (
              (elim f as (λ _. M (State c) ℤ) [
                | none ↦ body >>= close_func c s h
                | some f ↦ do
                  ret ← in_world c (f h)
                  elim (eqb_ℤ ret (pos 0)) as (λ _. M (State c) ℤ) [
                    | true ↦ body >>= close_func c s h
                    | false ↦ close_func c s h ret_dead_val
                  ]
              ])
                st)
      has_exec none = Keeps-body m n s h body base st k (g st (Kept-refl 0 st))
      has_exec (some f) =
          Keeps-bind (in_world c (f h)) _ st (Keeps-in_world (f h) st)
            λ ret st' e. checked_exec (eqb_ℤ ret (pos 0)) st' e

  -- The rest of a round, after the node.
  Keeps-after_round :
      (m n p : ℕ) (again : ℤ → M (State c) ℤ) (res : ℤ) (opt o : Sym) (ret : ℤ) (base st : State c)
      → Kept m base st
      → m + n ≤ p
      → ((res' : ℤ) → Keeps n st (again res' st))
      → Keeps p base (after_round c again res opt o ret st)
  unfolding after_round
  Keeps-after_round m n p again res opt o ret base st k l g = valid (vaild_lre_results ret)
    where
      over : (z : ℤ) → Keeps p base (pure z st)
      over z = kept (Kept-widen (omega arith) k)

      ended :
          (res' : ℤ) (b : Bool)
          → Keeps p base
              ((elim b as (λ _. M (State c) ℤ) [ true ↦ pure res' | false ↦ again res' ]) st)
      ended res' true = over res'
      ended res' false = Keeps-after k l (g res')

      joined :
          (j : Option ℤ)
          → Keeps p base (
              (elim j as (λ _. M (State c) ℤ) [
                | none ↦ pure ret_dead_val
                | some res' ↦ elim (decided c o res') as (λ _. M (State c) ℤ) [
                  | true ↦ pure res'
                  | false ↦ again res'
                ]
              ])
                st)
      joined none = over ret_dead_val
      joined (some res') = ended res' (decided c o res')

      valid :
          (b : Bool)
          → Keeps p base (
              (elim b as (λ _. M (State c) ℤ) [
                | false ↦ pure ret_dead_val
                | true ↦ elim (join c res opt ret) as (λ _. M (State c) ℤ) [
                  | none ↦ pure ret_dead_val
                  | some res' ↦ elim (decided c o res') as (λ _. M (State c) ℤ) [
                    | true ↦ pure res'
                    | false ↦ again res'
                  ]
                ]
              ])
                st)
      valid true = joined (join c res opt ret)
      valid false = over ret_dead_val

  mutual
    unfolding exec_childs leaks_child pushes_child

    Keeps-child :
        (ch : Child Stub) (st : State c)
        → HasRoom (pushes_child ch) st
        → Keeps (leaks_child ch) st (exec_child c ch st)
    Keeps-child (func k as' cs) st r =
        Keeps-constructed _ func_stub k (c.func_constructor k) ret_dead_val _ st λ h st1 e.
          Keeps-pushed (pushes_args as' + pushes_childs cs) _ h _ st1 st1
            (Kept-HasRoom 0 _ _ e (omega arith) r)
            λ room.
              Keeps-bind (exec_args c h as')
                (after_func_args c k h (exec_childs c val_uninitialized Sym.reserved cs))
                (pushed h st1) (Keeps-args h as' (pushed h st1) (omega arith))
                λ a st2 f.
                  Keeps-after_func_args (leaks_args as') (leaks_childs cs) k h _ a st1 st2 f
                    λ st3 g. Keeps-childs val_uninitialized Sym.reserved cs st3 (
                      Kept-HasRoom (leaks_args as' + 0) _ _ (Kept-trans f g)
                        (omega (arith, leaks_args-le as')) room)
    Keeps-child (expr k o vs) st r = Keeps-exec_expr k o vs st r
    Keeps-child (block negative cs) st r =
        Keeps-bind (exec_childs c val_uninitialized Sym.reserved cs)
          (λ ret. pure (if negative then not_int ret else ret)) st
          (Keeps-childs val_uninitialized Sym.reserved cs st r) λ ret st' e. kept e

    Keeps-childs :
        (res : ℤ) (opt : Sym) (cs : Childs Stub) (st : State c)
        → HasRoom (pushes_childs cs) st
        → Keeps (leaks_childs cs) st (exec_childs c res opt cs st)
    Keeps-childs res opt cnil st r = kept (Kept-refl 0 st)
    Keeps-childs res opt (ccons ch o cs) st r =
        Keeps-bind (exec_child c ch) _ st (Keeps-child ch st (omega arith)) λ ret st' e.
          Keeps-after_round (leaks_child ch) (leaks_childs cs) _ (λ res'. exec_childs c res' o cs)
            res opt o ret st st' e (omega arith)
            λ res'.
              Keeps-childs res' o cs st'
                (Kept-HasRoom (leaks_child ch) _ _ e (omega (arith, leaks_child-le ch)) r)

  Keeps-Above :
      {A : Type 0} {n : ℕ} {base : State c} {r : Option (A × State c)} {a : A} {st : State c}
      → Keeps n base r
      → r ≡ some (a, st)
      → Above n base.stack st.stack
  Keeps-Above gone e = cc
  Keeps-Above {n = n} {base} {st = st} (kept {st = s} k) e = same (cc)
    where
      same : s ≡ st → Above n base.stack st.stack
      same p = subst {A = State c} (λ t. Above n base.stack t.stack) p k.above

  -- A run that is defined, of a node for which the stack has room, leaves every handle where it was,
  -- with at most one new handle on top for each call in the node that has arguments.
  pub exec_child-Above :
      (ch : Child Stub) (st st' : State c) (r : ℤ)
      → HasRoom (pushes_child ch) st
      → exec_child c ch st ≡ some (r, st')
      → Above (leaks_child ch) st.stack st'.stack
  exec_child-Above ch st st' r room e = Keeps-Above (Keeps-child ch st room) e

  -- A run that is defined, of a rule for which the stack has room, leaves at most one handle on the
  -- stack for each call of the rule that has arguments; a rule without such calls leaves none.
  pub interp_execute-leaks :
      (size : ℕ) (w : World) (cs : Childs Stub) (r : ℤ) (st : State c)
      → pushes_childs cs + exec_stack_gap < size
      → interp_execute c size w cs ≡ some (r, st)
      → length st.stack ≤ leaks_childs cs
  unfolding interp_execute
  interp_execute-leaks size w cs r st room e =
      let h =
        Above-length
          (Keeps-Above (Keeps-childs val_uninitialized Sym.reserved cs _ (omega arith)) e) in
      omega arith
