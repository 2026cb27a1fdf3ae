-- ===== src/Tests/Running.antt =====
-- The theorems about execute.c at a small set of components.
use lre.Base.{ℕ, zero, suc, none, some, [], ◌∷◌, ◌≡◌, refl}
use lre.Base.Int.{ℤ, pos, negsuc}
use lre.Symbols.{Sym}
use lre.Syntax.{Childs, word, vnil, vcons, anil, func, expr, cnil, ccons}
use lre.Calculate.{ret_dead_val}
use lre.Value.{Doubles, unknown, val2lre_value, peek_val_type, atoi, digits_value}
use lre.Utils.{is_digit}
use lre.Machine.{
  Components, StubType, func_stub, expr_stub, State, val_uninitialized, exec_ctx_push_handle,
  exec_ctx_get_handle, exec_ctx_pop_handle, expect_kind, combine,
}
use lre.Execute.{
  exec_child, exec_childs, exec_expr, exec_val, interp_execute, after_func_args, after_round,
  close_func, join, decided,
}
use lre.Execute.Groups.{nested, interp_execute-nested}
use lre.Tests.Sample.{codes}

abbrev pub no_doubles : Doubles
no_doubles = record {
  Double = Unit {0};
  add_double = λ a b. tt;
  sub_double = λ a b. tt;
  mul_double = λ a b. tt;
  div_double = λ a b. tt;
  dead = tt;
  low_int = λ a. pos 0;
  atof = λ w. tt;
}

-- Stub 0 is a function; 1, 2 and any other are expressions that hold, do not, and fail.
abbrev kind_of : ℕ → StubType
kind_of zero = func_stub
kind_of (suc n) = expr_stub

abbrev answer : ℕ → ℤ
answer zero = ret_dead_val
answer (suc zero) = pos 1
answer (suc (suc zero)) = pos 0
answer (suc (suc (suc n))) = negsuc 0

-- The world counts the expressions that were evaluated.
abbrev pub counting : Components
counting = record {
  doubles = no_doubles;
  Stub = ℕ;
  Handle = ℕ;
  World = ℕ;
  kind = kind_of;
  func_constructor = λ k w. (some 5, w);
  func_exec = λ k. none;
  func_destructor = λ k h w. w;
  call_constructor = λ k w. (none, w);
  call_exec = λ k. none;
  call_destructor = λ k h w. w;
  arg_handler = λ k h v w. (pos 0, w);
  expr_handler = λ k h o v w. (answer k, suc w);
  var_handler = λ k h w. (unknown, w);
}

abbrev test : ℕ → Childs ℕ → Sym → Childs ℕ
test k rest o = ccons (expr k Sym.equal (vcons (word (codes "1")) Sym.reserved vnil)) o rest

-- f { 0 && 1 || 1 }, with the truth values for the tests
abbrev mixed : Childs ℕ
mixed =
    ccons (func 0 anil (test 2 (test 1 (test 1 cnil Sym.reserved) Sym.or) Sym.and)) Sym.reserved
      cnil

interp_execute-nested_example :
    interp_execute counting 8192 0 mixed
    ≡ nested counting mixed (record { stack = []; stackdepth = 8192; world = 0 })
interp_execute-nested_example = interp_execute-nested counting 8192 0 mixed tt (refl, tt)

abbrev inside : ℕ → State counting
inside n = record { stack = 5 ∷ []; stackdepth = 8192; world = n }

-- `0 && 1 || 1` is false, and one test is made.
mixed_runs :
    interp_execute counting 8192 0 mixed
    ≡ some (pos 0, record { stack = []; stackdepth = 8192; world = 1 })
unfolding interp_execute exec_child exec_expr exec_val val2lre_value peek_val_type atoi digits_value
    is_digit exec_ctx_push_handle exec_ctx_get_handle exec_ctx_pop_handle expect_kind combine
    after_func_args after_round close_func join decided
mixed_runs = refl

failing :
    exec_childs counting val_uninitialized Sym.reserved (test 3 cnil Sym.reserved) (inside 0)
    ≡ some (ret_dead_val, inside 1)
unfolding exec_child exec_expr exec_val val2lre_value peek_val_type atoi digits_value is_digit
    exec_ctx_get_handle expect_kind combine after_round
failing = refl
