-- ===== src/Lrc/Builtin/Words.antt =====
-- An argument that is a word, and the stack, in a run on the components of lrc/.
use lre.Base.{
  true, ◌∙◌, ◌+◌, ◌*◌, ◌≤◌, arith, ℕ, List, get_elem?, ◌+◌, false, Option, none, some, ◌∷◌, ◌≡◌, ap,
  ◌∙◌, leb, if◌then◌else◌, length,
}
use lre.Base.Int.{ℤ, pos}
use lre.Symbols.{Sym}
use lre.Token.{Word}
use lre.Syntax.{Vals, Args, word, vnil, vcons, acons}
use lre.Value.{LreValue, unknown, string, val2lre_value}
use lre.Machine.{
  arg_stub, handle_size, bind-eq, State, same_kind, in_world, M, fault, pure, exec_ctx_push_handle,
  exec_stack_gap, exec_ctx_get_handle, expect_kind, combine,
}
use lre.Execute.{next_arg, exec_val, exec_vals, exec_args}
use lre.Lrc.Builtin.{Stub, System, World, builtin, kind, set_arg}

abbrev pub only : Word → Vals Stub
only w = vcons (word w) Sym.reserved vnil

module _ (s : System) where
  abbrev pub at : List ℕ → ℕ → World → State (builtin s)
  at hs n w = record { stack = hs; stackdepth = n; world = w }

  -- A word as a value.
  exec_vals-only :
      (g : ℕ) (t b : Word) (st : State (builtin s))
      → val2lre_value s.doubles t ≡ some (string b)
      → exec_vals (builtin s) g unknown Sym.reserved (only t) st ≡ some (some (string b), st)
  unfolding exec_vals exec_val combine
  exec_vals-only g t b st h = bind-eq (exec_val (builtin s) g (word t)) _ st st (some (string b)) (
      ap {B = Option (Option (LreValue s.doubles.Double) × State (builtin s))}
        (λ o.
          (elim o as (λ _. M (State (builtin s)) (Option (LreValue s.doubles.Double))) [
            | none ↦ fault
            | some v ↦ pure (some v)
          ])
            st)
        h)

  pub exec_args-only :
      (h n : ℕ) (hs : List ℕ) (w w' : World) (k : Stub) (t b : Word) (rest : Args Stub)
      → val2lre_value s.doubles t ≡ some (string b)
      → kind k ≡ arg_stub
      → set_arg s k h (string b) w (get_elem? w.objects h) ≡ (pos 0, w')
      → exec_args (builtin s) h (acons k (only t) rest) (at (h ∷ hs) n w)
        ≡ exec_args (builtin s) h rest (at (h ∷ hs) n w')
  unfolding exec_args expect_kind exec_ctx_get_handle
  exec_args-only h n hs w w' k t b rest e f r =
      bind-eq (expect_kind (builtin s) arg_stub k) _ (at (h ∷ hs) n w) (at (h ∷ hs) n w) tt (
        ap {B = Option (Unit {0} × State (builtin s))}
          (λ x. (if same_kind (builtin s) x arg_stub then pure tt else fault) (at (h ∷ hs) n w)) f)
      ∙ bind-eq (exec_vals (builtin s) h unknown Sym.reserved (only t)) _ (at (h ∷ hs) n w)
          (at (h ∷ hs) n w) (some (string b)) (exec_vals-only h t b (at (h ∷ hs) n w) e)
      ∙ bind-eq (in_world (builtin s) (λ x. set_arg s k h (string b) x (get_elem? x.objects h)))
          (next_arg (builtin s) (exec_args (builtin s) h rest)) (at (h ∷ hs) n w) (at (h ∷ hs) n w')
          (pos 0) (ap {B = Option (ℤ × State (builtin s))} (λ a. some (a.0, at (h ∷ hs) n a.1)) r)

  pub exec_ctx_push_handle-at :
      (h n : ℕ) (hs : List ℕ) (w : World)
      → leb n (length hs + exec_stack_gap) ≡ false
      → length hs ≤ 1
      → exec_ctx_push_handle (builtin s) h (at hs n w) ≡ some (tt, at (h ∷ hs) n w)
  unfolding exec_ctx_push_handle
  exec_ctx_push_handle-at h n hs w r few =
      let fits : leb ((length hs + 1) * handle_size) n ≡ true = ground arith in
      ap {B = Option (Unit {0} × State (builtin s))}
        (λ full.
          if full
          then some (tt, at hs n w)
          else if leb ((length hs + 1) * handle_size) n
          then some (tt, at (h ∷ hs) n w)
          else none)
        r
      ∙ ap {B = Option (Unit {0} × State (builtin s))}
          (λ b. if b then some (tt, at (h ∷ hs) n w) else none) fits
