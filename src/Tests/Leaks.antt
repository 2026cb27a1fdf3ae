-- ===== src/Tests/Leaks.antt =====
-- A rule of execute.c that leaves a handle on the stack: the argument of a call fails.
use lre.Base.{ℕ, zero, suc, ◌+◌, ◌≤◌, ◌<◌, none, some, [], ◌∷◌, ◌≡◌, refl, Option, arith}
use lre.Base.Int.{pos}
use lre.Symbols.{Sym}
use lre.Syntax.{Child, call, vnil, vcons, anil, acons, func, expr, cnil, ccons}
use lre.Calculate.{ret_dead_val}
use lre.Value.{unknown}
use lre.Machine.{
  Components, StubType, func_stub, call_stub, arg_stub, expr_stub, State, exec_ctx_push_handle,
  exec_ctx_get_handle, exec_ctx_pop_handle, exec_stack_gap, expect_kind, combine,
}
use lre.Execute.{
  exec_child, exec_expr, exec_val, interp_execute, after_func_args, after_call_args, after_round,
  close_func, close_call, join, decided,
}
use lre.Execute.Stack.{Above, pushes_child, pushes_childs, pushes_val, leaks_child, leaks_childs}
use lre.Execute.Stack.Runs.{HasRoom}
use lre.Execute.Stack.Nodes.{exec_child-Above, interp_execute-leaks}
use lre.Tests.Running.{no_doubles}

-- Stubs: 0 a function, 1 a call, 2 a call without a handle, 3 an argument, and expressions.
abbrev kind_of : ℕ → StubType
kind_of zero = func_stub
kind_of (suc zero) = call_stub
kind_of (suc (suc zero)) = call_stub
kind_of (suc (suc (suc zero))) = arg_stub
kind_of (suc (suc (suc (suc n)))) = expr_stub

abbrev make_call : ℕ → ℕ → Option ℕ × ℕ
make_call (suc zero) w = (some 6, w)
make_call _ w = (none, w)

abbrev failing_call : Components
failing_call = record {
  doubles = no_doubles;
  Stub = ℕ;
  Handle = ℕ;
  World = ℕ;
  kind = kind_of;
  func_constructor = λ k w. (some 5, w);
  func_exec = λ k. none;
  func_destructor = λ k h w. w;
  call_constructor = make_call;
  call_exec = λ k. none;
  call_destructor = λ k h w. w;
  arg_handler = λ k h v w. (pos 0, w);
  expr_handler = λ k h o v w. (pos 1, w);
  var_handler = λ k h w. (unknown, w);
}

-- f { e == g(a = h()) }
abbrev leaking : Child ℕ
leaking = func 0 anil (
    ccons
      (expr 4 Sym.equal
        (vcons (call 1 (acons 3 (vcons (call 2 anil) Sym.reserved vnil) anil)) Sym.reserved vnil))
      Sym.reserved cnil)

abbrev start : State failing_call
start = record { stack = 9 ∷ []; stackdepth = 8192; world = 0 }

abbrev left : State failing_call
left = record { stack = 5 ∷ 9 ∷ []; stackdepth = 8192; world = 0 }

abbrev left_alone : State failing_call
left_alone = record { stack = 5 ∷ []; stackdepth = 8192; world = 0 }

leaking-room : HasRoom (pushes_child leaking) start
unfolding pushes_child pushes_val
leaking-room = omega arith

leaking-runs : exec_child failing_call leaking start ≡ some (ret_dead_val, left)
unfolding exec_child exec_expr exec_val exec_ctx_push_handle exec_ctx_get_handle exec_ctx_pop_handle
    expect_kind combine after_func_args after_call_args after_round close_func close_call join
    decided
leaking-runs = refl

exec_child-Above_example : Above (leaks_child leaking) start.stack left.stack
exec_child-Above_example =
    exec_child-Above {c = failing_call} leaking start left ret_dead_val leaking-room leaking-runs

rule-room : pushes_childs (ccons leaking Sym.reserved cnil) + exec_stack_gap < 8192
unfolding pushes_child pushes_val
rule-room = omega arith

rule-runs :
    interp_execute failing_call 8192 0 (ccons leaking Sym.reserved cnil)
    ≡ some (ret_dead_val, left_alone)
unfolding interp_execute exec_child exec_expr exec_val exec_ctx_push_handle exec_ctx_get_handle
    exec_ctx_pop_handle expect_kind combine after_func_args after_call_args after_round close_func
    close_call join decided
rule-runs = refl

interp_execute-leaks_example : 1 ≤ leaks_childs (ccons leaking Sym.reserved cnil)
interp_execute-leaks_example =
    interp_execute-leaks {c = failing_call} 8192 0 (ccons leaking Sym.reserved cnil) ret_dead_val
      left_alone rule-room rule-runs
