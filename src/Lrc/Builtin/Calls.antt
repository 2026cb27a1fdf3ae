-- ===== src/Lrc/Builtin/Calls.antt =====
-- The call `splicepath` as the argument of `file`, run by the executor.
use lre.Base.{
  arith, ℕ, List, ◌-◌, ◌++◌, false, Option, none, some, [], ◌∷◌, ◌≡◌, refl, ap, ◌∙◌, leb, take,
}
use lre.Token.{Word}
use lre.Syntax.{Args, call, anil, acons}
use lre.Value.{LreValue, unknown, string, val2lre_value}
use lre.Machine.{bind-eq, State, exec_ctx_push_handle, exec_ctx_pop_handle, expect_kind}
use lre.Execute.{args_ok, call_result, exec_val, exec_args, after_call_args, close_call}
use lre.Lrc.Values.{path_max, lre_ret_ok}
use lre.Lrc.Splicepath.{Splicepath, splicepath_execute-given, spliced}
use lre.Lrc.File.{File}
use lre.Lrc.Builtin.{Stub, Object, file_object, splicepath_object, freed, System, World, builtin}
use lre.Lrc.Builtin.Words.{at, only, exec_args-only, exec_ctx_push_handle-at}

abbrev pub opened : File → List Object → World
opened f os = record { objects = file_object f ∷ os; details = []; faulted = false }

abbrev pub parts : Option Word → Option Word → List Object
parts base path = splicepath_object (record { basepath = base; path = path }) ∷ []

abbrev pub splice_args : Word → Word → Args Stub
splice_args base path =
    acons Stub.splice_basepath (only base) (acons Stub.splice_path (only path) anil)

abbrev pub joined : Word → Word → Word
joined base path = take (path_max - 1) (base ++ b'/' ∷ path)

module _ (s : System) where
  spliced-cons :
      (x : ℕ) (t : Word)
      → spliced {D = s.doubles.Double} (take (path_max - 1) (x ∷ t)) unknown
        ≡ (lre_ret_ok, string (take (path_max - 1) (x ∷ t)))
  spliced-cons x t = refl

  -- The arguments of `splicepath`, then the call itself.
  after_call_args-splicepath :
      (n x y : ℕ) (f : File) (b p : Word)
      → after_call_args
          (builtin s)
          Stub.splicepath
          1
          args_ok
          (at s (1 ∷ 0 ∷ []) n (opened f (parts (some (x ∷ b)) (some (y ∷ p)))))
        ≡ some (some (string (joined (x ∷ b) (y ∷ p))), at s (0 ∷ []) n (opened f (freed ∷ [])))
  unfolding after_call_args close_call exec_ctx_pop_handle
  after_call_args-splicepath n x y f b p =
      let o : Splicepath = record { basepath = some (x ∷ b); path = some (y ∷ p) } in
      ap {B = Option (Option (LreValue s.doubles.Double) × State (builtin s))}
        (λ r.
          close_call (builtin s) Stub.splicepath 1 (call_result (builtin s) r)
            (at s (1 ∷ 0 ∷ []) n (opened f (parts (some (x ∷ b)) (some (y ∷ p))))))
        (splicepath_execute-given o unknown ∙ spliced-cons x (b ++ b'/' ∷ y ∷ p))

  exec_args-splicepath :
      (n x y : ℕ) (f : File) (base path b p : Word)
      → val2lre_value s.doubles base ≡ some (string (x ∷ b))
      → val2lre_value s.doubles path ≡ some (string (y ∷ p))
      → exec_args
          (builtin s)
          1
          (splice_args base path)
          (at s (1 ∷ 0 ∷ []) n (opened f (parts none none)))
        ≡ some (args_ok, at s (1 ∷ 0 ∷ []) n (opened f (parts (some (x ∷ b)) (some (y ∷ p)))))
  unfolding exec_args
  exec_args-splicepath n x y f base path b p hb hp =
      exec_args-only s 1 n (0 ∷ []) (opened f (parts none none))
        (opened f (parts (some (x ∷ b)) none)) Stub.splice_basepath base (x ∷ b)
        (acons Stub.splice_path (only path) anil) hb refl refl
      ∙ exec_args-only s 1 n (0 ∷ []) (opened f (parts (some (x ∷ b)) none))
          (opened f (parts (some (x ∷ b)) (some (y ∷ p)))) Stub.splice_path path (y ∷ p) anil hp
          refl refl

  -- `splicepath(basepath=..., path=...)` as the value of an argument of `file`.
  pub exec_val-splicepath :
      (n x y : ℕ) (f : File) (base path b p : Word)
      → leb n 65 ≡ false
      → val2lre_value s.doubles base ≡ some (string (x ∷ b))
      → val2lre_value s.doubles path ≡ some (string (y ∷ p))
      → exec_val
          (builtin s)
          0
          (call Stub.splicepath (splice_args base path))
          (at s (0 ∷ []) n (opened f []))
        ≡ some (some (string (joined (x ∷ b) (y ∷ p))), at s (0 ∷ []) n (opened f (freed ∷ [])))
  unfolding exec_val expect_kind
  exec_val-splicepath n x y f base path b p room hb hp =
      bind-eq (exec_ctx_push_handle (builtin s) 1) _ (at s (0 ∷ []) n (opened f (parts none none)))
        (at s (1 ∷ 0 ∷ []) n (opened f (parts none none))) tt
        (exec_ctx_push_handle-at s 1 n (0 ∷ []) (opened f (parts none none)) room (omega arith))
      ∙ bind-eq (exec_args (builtin s) 1 (splice_args base path))
          (after_call_args (builtin s) Stub.splicepath 1)
          (at s (1 ∷ 0 ∷ []) n (opened f (parts none none)))
          (at s (1 ∷ 0 ∷ []) n (opened f (parts (some (x ∷ b)) (some (y ∷ p))))) args_ok
          (exec_args-splicepath n x y f base path b p hb hp)
      ∙ after_call_args-splicepath n x y f b p
