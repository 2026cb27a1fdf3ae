-- ===== src/Machine.antt =====
-- What the executor of execute.c runs on: the components behind the keyword stubs, the stack of
-- handles, and the arithmetic on the values of a rule.
use lre.Base.{
  ◌≡◌, refl, ap, ℕ, ◌+◌, ◌*◌, Bool, true, false, Option, none, some, List, [], ◌∷◌, leb,
  if◌then◌else◌, length,
}
use lre.Base.Int.{ℤ, pos, eqb_ℤ}
use lre.Symbols.{Sym}
use lre.Calculate.{ret_dead_val, bool_int, lre_calc_int}
use lre.Value.{Doubles, LreValue, unknown, int, double, string}

pub data StubType : Type 0 where
  func_stub call_stub arg_stub expr_stub var_stub : StubType

-- The components (struct lrc_stub_func and its fellows, lre.h) as the executor sees them: what a
-- keyword stub's callbacks do to the world, which holds all that they may change. A constructor
-- may return no handle; a callback that may be a null pointer is an option.
pub record Components : Type 1 where
  pub doubles : Doubles
  pub Stub : Type 0
  pub Handle : Type 0
  pub World : Type 0
  pub kind : Stub → StubType
  pub func_constructor : Stub → World → Option Handle × World
  pub func_exec : Stub → Option (Handle → World → ℤ × World)
  pub func_destructor : Stub → Handle → World → World
  pub call_constructor : Stub → World → Option Handle × World
  pub call_exec : Stub → Option (Handle → World → (ℤ × LreValue doubles.Double) × World)
  pub call_destructor : Stub → Handle → World → World
  pub arg_handler : Stub → Handle → LreValue doubles.Double → World → ℤ × World
  pub expr_handler : Stub → Handle → Sym → LreValue doubles.Double → World → ℤ × World
  pub var_handler : Stub → Handle → World → LreValue doubles.Double × World

abbrev pub exec_stack_gap : ℕ
exec_stack_gap = 64

-- `sizeof(lrc_obj_t *)`.
abbrev pub handle_size : ℕ
handle_size = 8

-- `VAL_UNINITIALIZED`.
abbrev pub val_uninitialized : ℤ
val_uninitialized = pos 255

-- The C operator `!`.
abbrev pub not_int : ℤ → ℤ
not_int r = bool_int (eqb_ℤ r (pos 0))

abbrev pub and_int : ℤ → ℤ → ℤ
and_int a b = if eqb_ℤ a (pos 0) then pos 0 else bool_int (if eqb_ℤ b (pos 0) then false else true)

abbrev pub or_int : ℤ → ℤ → ℤ
or_int a b = if eqb_ℤ a (pos 0) then bool_int (if eqb_ℤ b (pos 0) then false else true) else pos 1

-- What `execute_syntax_val` does with a value: return it, go on with it, fail, or be undefined.
pub data Combined (D : Type 0) : Type 0 where
  stop : LreValue D → Combined D
  go_on : LreValue D → Combined D
  bad undefined : Combined D

-- `lre_calc_dobule`.
unfoldable pub lre_calc_dobule : (d : Doubles) → d.Double → d.Double → Sym → d.Double
lre_calc_dobule d a b Sym.add = d.add_double a b
lre_calc_dobule d a b Sym.sub = d.sub_double a b
lre_calc_dobule d a b Sym.mul = d.mul_double a b
lre_calc_dobule d a b Sym.div = d.div_double a b
lre_calc_dobule d a b _ = d.dead

abbrev pub int_result : {D : Type 0} → Option ℤ → Combined D
int_result none = undefined
int_result (some z) = if eqb_ℤ z ret_dead_val then bad else go_on (int z)

abbrev pub double_result : (d : Doubles) → d.Double → Combined d.Double
double_result d x = if eqb_ℤ (d.low_int x) ret_dead_val then bad else go_on (double x)

-- The end of a round: `arg` so far, then the new value and the operator before it. A double that
-- meets an `int` is computed from the other member of the union, so the outcome is undefined.
unfoldable pub combine :
    (d : Doubles) → LreValue d.Double → LreValue d.Double → Sym → Combined d.Double
combine d arg unknown opt = bad
combine d arg (string s) opt = stop (string s)
combine d unknown (int b) opt = go_on (int b)
combine d unknown (double b) opt = go_on (double b)
combine d (int a) (int b) opt = int_result (lre_calc_int a b opt)
combine d (double a) (double b) opt = double_result d (lre_calc_dobule d a b opt)
combine d _ _ opt = undefined

-- The handles in use, the last pushed first, and `stackdepth`, which is the size in bytes.
pub record State (c : Components) : Type 0 where
  pub stack : List c.Handle
  pub stackdepth : ℕ
  pub world : c.World

-- A computation on a state; `none` is undefined behaviour: the program may do anything.
abbrev pub M : Type 0 → Type 0 → Type 0
M S A = S → Option (A × S)

module _ {S : Type 0} where
  abbrev pub pure : {A : Type 0} → A → M S A
  pure a st = some (a, st)

  abbrev pub fault : {A : Type 0} → M S A
  fault st = none

  infixl 5 ◌>>=◌ ◌>>◌
  abbrev pub ◌>>=◌ : {A B : Type 0} → M S A → (A → M S B) → M S B
  ◌>>=◌ m k st = elim (m st) [ none ↦ none | some (a, st') ↦ k a st' ]

  abbrev pub ◌>>◌ : {A B : Type 0} → M S A → M S B → M S B
  m >> k = m >>= λ _. k

module _ (c : Components) where
  open c use {Stub, Handle, World}

  -- Run a callback on the world.
  abbrev pub in_world : {A : Type 0} → (World → A × World) → M (State c) A
  in_world f st = let (a, w) = f st.world in some (a, record st { world = w })

  abbrev pub change_world : (World → World) → M (State c) (Unit {0})
  change_world f st = some (tt, record st { world = f st.world })

  -- `exec_ctx_push_handle`; its callers do not look at the error. The test compares a number of
  -- handles with a size in bytes, so the slot may lie behind the stack, and to write it is undefined.
  unfoldable pub exec_ctx_push_handle : Handle → M (State c) (Unit {0})
  exec_ctx_push_handle h st =
      if leb st.stackdepth (length st.stack + exec_stack_gap)
      then some (tt, st)
      else if leb ((length st.stack + 1) * handle_size) st.stackdepth
      then some (tt, record st { stack = h ∷ st.stack })
      else none

  -- `exec_ctx_pop_handle` and `exec_ctx_get_handle`; at an empty stack they read in front of it.
  unfoldable pub exec_ctx_pop_handle : M (State c) (Unit {0})
  exec_ctx_pop_handle st = elim st.stack [
    | [] ↦ none
    | h ∷ hs ↦ some (tt, record st { stack = hs })
  ]

  unfoldable pub exec_ctx_get_handle : M (State c) Handle
  exec_ctx_get_handle st = elim st.stack [ [] ↦ none | h ∷ hs ↦ some (h, st) ]

  -- A stub's data is read as that of the expected kind, whatever its kind is.
  abbrev pub same_kind : StubType → StubType → Bool
  same_kind func_stub func_stub = true
  same_kind call_stub call_stub = true
  same_kind arg_stub arg_stub = true
  same_kind expr_stub expr_stub = true
  same_kind var_stub var_stub = true
  same_kind _ _ = false

  unfoldable pub expect_kind : StubType → Stub → M (State c) (Unit {0})
  expect_kind k s = if same_kind (c.kind s) k then pure tt else fault

-- Two continuations that agree everywhere give the same run.
pub bind_congr :
    {S A B : Type 0} (m : M S A) (k k' : A → M S B) (st : S)
    → ((a : A) (st' : S) → k a st' ≡ k' a st')
    → (m >>= k) st ≡ (m >>= k') st
bind_congr {S} {A} {B} m k k' st h = go (m st)
  where
    go :
        (r : Option (A × S))
        → ◌≡◌ {A = Option (B × S)}
            (elim r [ none ↦ none | some (a, st') ↦ k a st' ])
            (elim r [ none ↦ none | some (a, st') ↦ k' a st' ])
    go none = refl
    go (some (a, st')) = h a st'

pub bind-eq :
    {S A B : Type 0} (m : M S A) (k : A → M S B) (st st' : S) (a : A)
    → m st ≡ some (a, st')
    → (m >>= k) st ≡ k a st'
bind-eq {S} {A} {B} m k st st' a h =
    ap {B = Option (B × S)} (λ r. elim r [ none ↦ none | some (x, s) ↦ k x s ]) h
