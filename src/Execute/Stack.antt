-- ===== src/Execute/Stack.antt =====
-- The handle stack under the executor of execute.c: what a run leaves on it.
pub mod Runs
pub mod Values
pub mod Nodes
use lre.Base.{
  ℕ, suc, ◌+◌, ◌≤◌, ◌<◌, Bool, true, false, Option, none, some, List, [], ◌∷◌, ◌++◌, ◌≡◌, refl, ap,
  if◌then◌else◌, length, length-append, arith, ◌∙◌, sym, append_assoc,
}
use lre.Base.Int.{ℤ}
use lre.Symbols.{Sym}
use lre.Syntax.{
  Val, Vals, Args, Child, Childs, word, var, valblock, call, vnil, vcons, anil, acons, func, expr,
  block, cnil, ccons,
}
use lre.Value.{LreValue}
use lre.Machine.{
  Components, State, M, pure, fault, ◌>>=◌, in_world, change_world, exec_ctx_push_handle,
  exec_ctx_pop_handle, exec_ctx_get_handle, exec_stack_gap, expect_kind, StubType, Combined, stop,
  go_on, bad, undefined,
}

-- `new` is `old` with at most `n` handles on top.
pub record Above {H : Type 0} (n : ℕ) (old new : List H) : Type 0 where
  pub extra : List H
  pub few : length extra ≤ n
  pub split : new ≡ extra ++ old

module _ {K : Type 0} where
  -- The handles that an evaluation may push, one for each function and call.
  unfoldable mutual
    pub pushes_val : Val K → ℕ
    pushes_val (word w) = 0
    pushes_val (var k) = 0
    pushes_val (valblock vs) = pushes_vals vs
    pushes_val (call k as') = suc (pushes_args as')

    pub pushes_vals : Vals K → ℕ
    pushes_vals vnil = 0
    pushes_vals (vcons v o vs) = pushes_val v + pushes_vals vs

    pub pushes_args : Args K → ℕ
    pushes_args anil = 0
    pushes_args (acons k vs as') = pushes_vals vs + pushes_args as'

  unfoldable mutual
    pub pushes_child : Child K → ℕ
    pushes_child (func k as' cs) = suc (pushes_args as' + pushes_childs cs)
    pushes_child (expr k o vs) = pushes_vals vs
    pushes_child (block negative cs) = pushes_childs cs

    pub pushes_childs : Childs K → ℕ
    pushes_childs cnil = 0
    pushes_childs (ccons c o cs) = pushes_child c + pushes_childs cs

  -- The calls with arguments: each may leave one handle.
  unfoldable mutual
    pub leaks_val : Val K → ℕ
    leaks_val (word w) = 0
    leaks_val (var k) = 0
    leaks_val (valblock vs) = leaks_vals vs
    leaks_val (call k anil) = 0
    leaks_val (call k (acons k' vs as')) = suc (leaks_vals vs + leaks_args as')

    pub leaks_vals : Vals K → ℕ
    leaks_vals vnil = 0
    leaks_vals (vcons v o vs) = leaks_val v + leaks_vals vs

    pub leaks_args : Args K → ℕ
    leaks_args anil = 0
    leaks_args (acons k vs as') = leaks_vals vs + leaks_args as'

  unfoldable mutual
    pub leaks_child : Child K → ℕ
    leaks_child (func k as' cs) = leaks_args as' + leaks_childs cs
    leaks_child (expr k o vs) = leaks_vals vs
    leaks_child (block negative cs) = leaks_childs cs

    pub leaks_childs : Childs K → ℕ
    leaks_childs cnil = 0
    leaks_childs (ccons c o cs) = leaks_child c + leaks_childs cs

  mutual
    unfolding leaks_val pushes_val

    pub leaks_val-le : (v : Val K) → leaks_val v ≤ pushes_val v
    leaks_val-le (word w) = omega arith
    leaks_val-le (var k) = omega arith
    leaks_val-le (valblock vs) = leaks_vals-le vs
    leaks_val-le (call k anil) = omega arith
    leaks_val-le (call k (acons k' vs as')) = omega (arith, leaks_vals-le vs, leaks_args-le as')

    pub leaks_vals-le : (vs : Vals K) → leaks_vals vs ≤ pushes_vals vs
    leaks_vals-le vnil = omega arith
    leaks_vals-le (vcons v o vs) = omega (arith, leaks_val-le v, leaks_vals-le vs)

    pub leaks_args-le : (as' : Args K) → leaks_args as' ≤ pushes_args as'
    leaks_args-le anil = omega arith
    leaks_args-le (acons k vs as') = omega (arith, leaks_vals-le vs, leaks_args-le as')

  mutual
    unfolding leaks_child pushes_child

    pub leaks_child-le : (ch : Child K) → leaks_child ch ≤ pushes_child ch
    leaks_child-le (func k as' cs) = omega (arith, leaks_args-le as', leaks_childs-le cs)
    leaks_child-le (expr k o vs) = leaks_vals-le vs
    leaks_child-le (block negative cs) = leaks_childs-le cs

    leaks_childs-le : (cs : Childs K) → leaks_childs cs ≤ pushes_childs cs
    leaks_childs-le cnil = omega arith
    leaks_childs-le (ccons ch o cs) = omega (arith, leaks_child-le ch, leaks_childs-le cs)

module _ {H : Type 0} where
  Above-refl : (n : ℕ) (s : List H) → Above n s s
  Above-refl n s = record { extra = []; few = omega arith; split = refl }

  Above-trans : {m n : ℕ} {a b d : List H} → Above m a b → Above n b d → Above (m + n) a d
  Above-trans {a = a} h g = record {
    extra = g.extra ++ h.extra;
    few = omega (arith, length-append g.extra h.extra, h.few, g.few);
    split = g.split ∙ (ap (λ l. g.extra ++ l) h.split ∙ sym (append_assoc g.extra h.extra a));
  }

  Above-widen : {m n : ℕ} {a b : List H} → m ≤ n → Above m a b → Above n a b
  Above-widen l h = record { extra = h.extra; few = omega (arith, h.few); split = h.split }

  Above-length : {n : ℕ} {a b : List H} → Above n a b → length b ≤ length a + n
  Above-length {a = a} h = rw h.split (omega (arith, length-append h.extra a, h.few))

  -- A handle that was pushed and never popped.
  Above-leak : {n : ℕ} {x : H} {a b : List H} → Above n (x ∷ a) b → Above (suc n) a b
  Above-leak {x = x} {a} h = record {
    extra = h.extra ++ x ∷ [];
    few = omega (arith, length-append h.extra (x ∷ []), h.few);
    split = h.split ∙ sym (append_assoc h.extra (x ∷ []) a);
  }

  -- A pop takes off the handle on top, which is the own one where nothing was left above it.
  Above-pop : {n : ℕ} {x y : H} {a b : List H} → Above n (x ∷ a) (y ∷ b) → Above n a b
  Above-pop {n} {x} {y} {a} {b} h = go h.extra h.few h.split
    where
      go : (e : List H) → length e ≤ n → y ∷ b ≡ e ++ x ∷ a → Above n a b
      go [] l s = record { extra = []; few = omega arith; split = cc }
      go (z ∷ zs) l s = record {
        extra = zs ++ x ∷ [];
        few = omega (arith, length-append zs (x ∷ []));
        split = tail s ∙ sym (append_assoc zs (x ∷ []) a);
      }
        where
          tail : y ∷ b ≡ z ∷ (zs ++ x ∷ a) → b ≡ zs ++ x ∷ a
          tail p = cc
