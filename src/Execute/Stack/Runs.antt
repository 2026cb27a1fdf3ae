-- ===== src/Execute/Stack/Runs.antt =====
-- What a run of the executor of execute.c may do to the handle stack, step by step.
use lre.Base.{
  ap, leb, if◌then◌else◌, ◌*◌, Bool, true, false, ℕ, suc, ◌+◌, ◌≤◌, ◌<◌, Bool, true, false, Option,
  none, some, List, [], ◌∷◌, ◌≡◌, refl, if◌then◌else◌, length, arith, ◌∙◌, sym, subst,
}
use lre.Base.Int.{ℤ, pos, eqb_ℤ}
use lre.Value.{LreValue}
use lre.Machine.{
  Components, State, M, pure, fault, ◌>>=◌, ◌>>◌, in_world, change_world, exec_ctx_push_handle,
  exec_ctx_pop_handle, exec_ctx_get_handle, exec_stack_gap, handle_size, expect_kind, StubType,
  Combined, stop, go_on, bad, undefined, same_kind,
}
use lre.Execute.{
  next_round, ArgsResult, args_ok, val_failed, handler_failed, close_call, call_result,
  after_call_args, next_arg, close_func,
}
use lre.Execute.Stack.{
  Above, Above-refl, Above-trans, Above-widen, Above-length, Above-leak, Above-pop,
}

module _ {c : Components} where
  open c use {doubles, Stub, Handle, World}

  -- From `base` on at most `n` handles were left, and the room for handles is as before.
  pub record Kept (n : ℕ) (base st : State c) : Type 0 where
    depth : st.stackdepth ≡ base.stackdepth
    pub above : Above n base.stack st.stack

  -- A run that is defined ends so.
  pub data Keeps {A : Type 0} (n : ℕ) (base : State c) : Option (A × State c) → Type 0 where
    gone : Keeps n base none
    kept : {a : A} {st : State c} → Kept n base st → Keeps n base (some (a, st))

  pub Kept-refl : (n : ℕ) (st : State c) → Kept n st st
  Kept-refl n st = record { depth = refl; above = Above-refl n st.stack }

  pub Kept-trans : {m n : ℕ} {a b d : State c} → Kept m a b → Kept n b d → Kept (m + n) a d
  Kept-trans h g = record { depth = g.depth ∙ h.depth; above = Above-trans h.above g.above }

  pub Kept-widen : {m n : ℕ} {a b : State c} → m ≤ n → Kept m a b → Kept n a b
  Kept-widen l h = record { depth = h.depth; above = Above-widen l h.above }

  pub Keeps-bind :
      {A B : Type 0} {m n : ℕ} {base base' : State c} (run : M (State c) A) (k : A → M (State c) B)
      (st : State c)
      → Keeps m base (run st)
      → ((a : A) (st' : State c) → Kept m base st' → Keeps n base' (k a st'))
      → Keeps n base' ((run >>= k) st)
  Keeps-bind {A} {B} {m} {n} {base} {base'} run k st h g = go (run st) h
    where
      go :
          (r : Option (A × State c))
          → Keeps m base r
          → Keeps {A = B} n base' (elim r [ none ↦ none | some (a, st') ↦ k a st' ])
      go none _ = gone
      go (some (a, st')) (kept x) = g a st' x

  pub Keeps-after :
      {A : Type 0} {m n p : ℕ} {base st : State c} {r : Option (A × State c)}
      → Kept m base st
      → m + n ≤ p
      → Keeps n st r
      → Keeps p base r
  Keeps-after h l gone = gone
  Keeps-after h l (kept g) = kept (Kept-widen l (Kept-trans h g))

  pub Keeps-in_world :
      {A : Type 0} (f : World → A × World) (st : State c) → Keeps 0 st (in_world c f st)
  Keeps-in_world f st = kept (record { depth = refl; above = Above-refl 0 st.stack })

  Keeps-change_world : (f : World → World) (st : State c) → Keeps 0 st (change_world c f st)
  Keeps-change_world f st = kept (record { depth = refl; above = Above-refl 0 st.stack })

  pub Keeps-expect_kind :
      (k : StubType) (s : Stub) (st : State c) → Keeps 0 st (expect_kind c k s st)
  unfolding expect_kind
  Keeps-expect_kind k s st = go (same_kind c (c.kind s) k)
    where
      go : (b : Bool) → Keeps {A = Unit {0}} 0 st ((if b then pure tt else fault) st)
      go true = kept (Kept-refl 0 st)
      go false = gone

  pub Keeps-get_handle : (st : State c) → Keeps 0 st (exec_ctx_get_handle c st)
  unfolding exec_ctx_get_handle
  Keeps-get_handle st = go st.stack
    where
      go :
          (s : List Handle) → Keeps {A = Handle} 0 st (elim s [ [] ↦ none | h ∷ hs ↦ some (h, st) ])
      go [] = gone
      go (h ∷ hs) = kept (Kept-refl 0 st)

  -- The state with a handle on top.
  abbrev pub pushed : Handle → State c → State c
  pushed h st = record st { stack = h ∷ st.stack }

  -- With room for it, a push puts the handle on the stack, if the slot lies in the memory.
  push_handle-eq :
      (h : Handle) (st : State c)
      → length st.stack + exec_stack_gap < st.stackdepth
      → exec_ctx_push_handle c h st ≡ (
          if leb ((length st.stack + 1) * handle_size) st.stackdepth
          then some (tt, pushed h st)
          else none)
  unfolding exec_ctx_push_handle
  push_handle-eq h st l = ground arith

  Keeps-pop_handle :
      (n : ℕ) (h : Handle) (base st : State c)
      → Kept n (pushed h base) st
      → Keeps n base (exec_ctx_pop_handle c st)
  unfolding exec_ctx_pop_handle
  Keeps-pop_handle n h base st k = go st.stack k.above
    where
      go :
          (s : List Handle)
          → Above n (h ∷ base.stack) s
          → Keeps {A = Unit {0}} n base
              (elim s [ [] ↦ none | g ∷ gs ↦ some (tt, record st { stack = gs }) ])
      go [] a = gone
      go (g ∷ gs) a = kept (record { depth = k.depth; above = Above-pop a })

  pub Keeps-close_func :
      (n : ℕ) (s : Stub) (h : Handle) (r : ℤ) (base st : State c)
      → Kept n (pushed h base) st
      → Keeps n base (close_func c s h r st)
  unfolding close_func
  Keeps-close_func n s h r base st k =
      Keeps-bind (change_world c (c.func_destructor s h)) _ st
        (Keeps-change_world (c.func_destructor s h) st)
        λ _ st' e.
          Keeps-bind (exec_ctx_pop_handle c) (λ _. pure r) st'
            (Keeps-pop_handle (n + 0) h base st' (Kept-trans k e))
            λ _ st'' g. kept (Kept-widen (omega arith) g)

  Keeps-close_call :
      (n : ℕ) (s : Stub) (h : Handle) (r : Option (LreValue doubles.Double)) (base st : State c)
      → Kept n (pushed h base) st
      → Keeps n base (close_call c s h r st)
  unfolding close_call
  Keeps-close_call n s h r base st k =
      Keeps-bind (change_world c (c.call_destructor s h)) _ st
        (Keeps-change_world (c.call_destructor s h) st)
        λ _ st' e.
          Keeps-bind (exec_ctx_pop_handle c) (λ _. pure r) st'
            (Keeps-pop_handle (n + 0) h base st' (Kept-trans k e))
            λ _ st'' g. kept (Kept-widen (omega arith) g)

  -- There is room for `n` more handles.
  abbrev pub HasRoom : ℕ → State c → Type 0
  HasRoom n st = length st.stack + n + exec_stack_gap < st.stackdepth

  pub Kept-HasRoom :
      (m n p : ℕ) {base st : State c} → Kept m base st → m + n ≤ p → HasRoom p base → HasRoom n st
  Kept-HasRoom m n p {base} {st} k l r = rw k.depth (omega (arith, Above-length k.above))

  pub Keeps-next_round :
      (m n p : ℕ) (again : LreValue doubles.Double → M (State c) (Option (LreValue doubles.Double)))
      (r : Combined doubles.Double) (base st : State c)
      → Kept m base st
      → m + n ≤ p
      → ((a : LreValue doubles.Double) → Keeps n st (again a st))
      → Keeps p base (next_round c again r st)
  Keeps-next_round m n p again (stop v) base st k l g = kept (Kept-widen (omega arith) k)
  Keeps-next_round m n p again (go_on v) base st k l g = Keeps-after k l (g v)
  Keeps-next_round m n p again bad base st k l g = kept (Kept-widen (omega arith) k)
  Keeps-next_round m n p again undefined base st k l g = gone

  pub Keeps-next_arg :
      (m n p : ℕ) (again : M (State c) (ArgsResult c)) (ret : ℤ) (base st : State c)
      → Kept m base st
      → m + n ≤ p
      → Keeps n st (again st)
      → Keeps p base (next_arg c again ret st)
  Keeps-next_arg m n p again ret base st k l g = go (eqb_ℤ ret (pos 0))
    where
      go :
          (b : Bool)
          → Keeps {A = ArgsResult c} p base (
              (elim b as (λ _. M (State c) (ArgsResult c)) [
                | true ↦ again
                | false ↦ pure handler_failed
              ])
                st)
      go true = Keeps-after k l g
      go false = kept (Kept-widen (omega arith) k)

  pub Keeps-widen :
      {A : Type 0} {m n : ℕ} {base : State c} {r : Option (A × State c)}
      → m ≤ n
      → Keeps m base r
      → Keeps n base r
  Keeps-widen l gone = gone
  Keeps-widen l (kept h) = kept (Kept-widen l h)

  pub Keeps-call_exec :
      (n : ℕ) (s : Stub) (h : Handle) (base st : State c)
      → Kept n (pushed h base) st
      → Keeps n base (after_call_args c s h args_ok st)
  unfolding after_call_args
  Keeps-call_exec n s h base st k =
      elim (c.call_exec s)
        as (λ e. Keeps n base (
          (elim e as (λ _. M (State c) (Option (LreValue doubles.Double))) [
            | none ↦ close_call c s h none
            | some f ↦ do r ← in_world c (f h); close_call c s h (call_result c r)
          ])
            st)) [
              | none ↦ Keeps-close_call n s h none base st k
              | some f ↦ Keeps-bind (in_world c (f h)) _ st (Keeps-in_world (f h) st) λ r st' e.
                  Keeps-widen (omega arith)
                    (Keeps-close_call (n + 0) s h (call_result c r) base st' (Kept-trans k e))
            ]

  pub Keeps-after_call_args :
      (n : ℕ) (s : Stub) (h : Handle) (r : ArgsResult c) (base st : State c)
      → Kept n (pushed h base) st
      → Keeps (suc n) base (after_call_args c s h r st)
  unfolding after_call_args
  Keeps-after_call_args n s h args_ok base st k =
      Keeps-widen (omega arith) (Keeps-call_exec n s h base st k)
  Keeps-after_call_args n s h val_failed base st k =
      kept (record { depth = k.depth; above = Above-leak k.above })
  Keeps-after_call_args n s h handler_failed base st k =
      Keeps-widen (omega arith) (Keeps-close_call n s h none base st k)

  -- Behind a value, whose failure ends the run.
  pub Keeps-value :
      {A B : Type 0} (m n p : ℕ) (v : Option A) (fallback : B) (k : A → M (State c) B)
      (base st : State c)
      → Kept m base st
      → m + n ≤ p
      → ((a : A) → Keeps n st (k a st))
      → Keeps p base ((elim v as (λ _. M (State c) B) [ none ↦ pure fallback | some a ↦ k a ]) st)
  Keeps-value m n p none fallback k base st h l g = kept (Kept-widen (omega arith) h)
  Keeps-value m n p (some a) fallback k base st h l g = Keeps-after h l (g a)

  -- A handle is pushed where there is room for it.
  pub Keeps-pushed :
      {B : Type 0} (n p : ℕ) (g : Handle) (k : M (State c) B) (base st : State c)
      → HasRoom (suc n) st
      → (HasRoom n (pushed g st) → Keeps p base (k (pushed g st)))
      → Keeps p base ((exec_ctx_push_handle c g >> k) st)
  Keeps-pushed {B} n p g k base st r h =
      subst (Keeps p base)
        (sym (ap {B = Option (B × State c)} rest (push_handle-eq g st (omega arith))))
        (go (leb ((length st.stack + 1) * handle_size) st.stackdepth))
    where
      rest : Option (Unit {0} × State c) → Option (B × State c)
      rest r = elim r [ none ↦ none | some (_, st') ↦ k st' ]

      go : (b : Bool) → Keeps p base (rest (if b then some (tt, pushed g st) else none))
      go true = h (omega arith)
      go false = gone

  -- A constructor is run, and the rest if there is a handle.
  pub Keeps-constructed :
      {B : Type 0} (n : ℕ) (t : StubType) (s : Stub) (make : World → Option Handle × World)
      (fallback : B) (k : Handle → M (State c) B) (st : State c)
      → ((g : Handle) (st' : State c) → Kept 0 st st' → Keeps n st' (k g st'))
      → Keeps n st (
          (expect_kind c t s
              >> (in_world c make >>= λ new. elim new as (λ _. M (State c) B) [
                | none ↦ pure fallback
                | some g ↦ k g
              ]))
            st)
  Keeps-constructed n t s make fallback k st h =
      Keeps-bind (expect_kind c t s) _ st (Keeps-expect_kind t s st) λ _ st' e.
        Keeps-bind (in_world c make) _ st' (Keeps-in_world make st') λ new st'' f.
          Keeps-value 0 n n new fallback k st st'' (Kept-trans e f) (omega arith)
            λ g. h g st'' (Kept-trans e f)
