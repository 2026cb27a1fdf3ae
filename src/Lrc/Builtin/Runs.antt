-- ===== src/Lrc/Builtin/Runs.antt =====
-- Rules about files, run by the executor (execute.c) on the components of lrc/.
use lre.Base.{
  arith, ℕ, List, ◌-◌, ◌<◌, ◌++◌, Bool, false, Option, none, some, [], ◌∷◌, ◌≡◌, refl, ap, ◌∙◌, leb,
  take, arith,
}
use lre.Base.Int.{ℤ}
use lre.Symbols.{Sym}
use lre.Token.{Word}
use lre.Syntax.{Childs, Args, call, vnil, vcons, anil, acons, func, expr, cnil, ccons}
use lre.Utils.{is_digit}
use lre.Value.{unknown, string, val2lre_value, peek_val_type, atoi, digits_value}
use lre.Calculate.{bool_int, lre_compare_int}
use lre.Machine.{
  bind-eq, ◌>>=◌, val_uninitialized, State, M, exec_ctx_push_handle, exec_ctx_get_handle,
  exec_ctx_pop_handle, expect_kind, combine,
}
use lre.Execute.{
  exec_child, args_ok, exec_childs, exec_expr, exec_val, exec_vals, exec_args, interp_execute,
  after_func_args, after_round, close_func, join, decided,
}
use lre.Lrc.Strings.{text}
use lre.Lrc.Values.{path_max, details_unit_max}
use lre.Lrc.File.{
  File, omitted, file_constructor, stat_file, Stat, stated, enoent, failed, file_execute,
  expr_exist_handler,
}
use lre.Lrc.File.Facts.{is_stated}
use lre.Lrc.Builtin.{Stub, file_object, freed, System, World, builtin}
use lre.Lrc.Builtin.Words.{at, only, exec_ctx_push_handle-at}
use lre.Lrc.Builtin.Calls.{opened, splice_args, joined, exec_val-splicepath}

-- file(path=splicepath(basepath=..., path=...)){exist == 1}
abbrev pub exists_rule : Word → Word → Childs Stub
exists_rule base path =
    ccons
      (func Stub.file
        (acons Stub.path
          (vcons
            (call Stub.splicepath
              (acons Stub.splice_basepath (only base) (acons Stub.splice_path (only path) anil)))
            Sym.reserved vnil)
          anil)
        (ccons (expr Stub.exist Sym.equal (only (b'1' ∷ []))) Sym.reserved cnil))
      Sym.reserved cnil

abbrev pub fresh : World
fresh = record { objects = []; details = []; faulted = false }

abbrev file_args : Word → Word → Args Stub
file_args base path =
    acons Stub.path (vcons (call Stub.splicepath (splice_args base path)) Sym.reserved vnil) anil

-- The file that was executed, with what `stat` said.
abbrev looked_at : Stat → File → Word → World
looked_at q f j = record {
  objects = file_object (stat_file q (record f { path = some j })) ∷ freed ∷ [];
  details =
      take (details_unit_max - 1) (text "file '" ++ omitted (details_unit_max - 32) j ++ text "'")
      ∷ [];
  faulted = false;
}

abbrev test_exist : Childs Stub
test_exist = ccons (expr Stub.exist Sym.equal (only (b'1' ∷ []))) Sym.reserved cnil

module _ (s : System) where
  -- The argument of `file`.
  exec_args-file :
      (n x y : ℕ) (f : File) (base path b p : Word)
      → leb n 65 ≡ false
      → val2lre_value s.doubles base ≡ some (string (x ∷ b))
      → val2lre_value s.doubles path ≡ some (string (y ∷ p))
      → exec_args (builtin s) 0 (file_args base path) (at s (0 ∷ []) n (opened f []))
        ≡ some (
          args_ok,
          at s (0 ∷ []) n (opened (record f { path = some (joined (x ∷ b) (y ∷ p)) }) (freed ∷ [])),
        )
  unfolding exec_args exec_vals expect_kind exec_ctx_get_handle combine
  exec_args-file n x y f base path b p room hb hp =
      let j : Word = joined (x ∷ b) (y ∷ p) in
      bind-eq
        (exec_vals (builtin s) 0 unknown Sym.reserved
          (vcons (call Stub.splicepath (splice_args base path)) Sym.reserved vnil))
        _ (at s (0 ∷ []) n (opened f [])) (at s (0 ∷ []) n (opened f (freed ∷ [])))
        (some (string j))
        (bind-eq (exec_val (builtin s) 0 (call Stub.splicepath (splice_args base path))) _
          (at s (0 ∷ []) n (opened f [])) (at s (0 ∷ []) n (opened f (freed ∷ [])))
          (some (string j)) (exec_val-splicepath s n x y f base path b p room hb hp))

  after_func_args-file :
      (n : ℕ) (f : File) (j : Word)
      → after_func_args
          (builtin s)
          Stub.file
          0
          (exec_childs (builtin s) val_uninitialized Sym.reserved test_exist)
          args_ok
          (at s (0 ∷ []) n (opened (record f { path = some j }) (freed ∷ [])))
        ≡ (exec_childs (builtin s) val_uninitialized Sym.reserved test_exist
              >>= close_func (builtin s) Stub.file 0)
            (at s (0 ∷ []) n (looked_at (s.stat j) f j))
  unfolding after_func_args file_execute
  after_func_args-file n f j = refl

  -- The value of a run, the handles on the stack and whether a callback was undefined.
  abbrev pub summary : Option (ℤ × State (builtin s)) → Option (ℤ × List ℕ × Bool)
  summary none = none
  summary (some (r, st)) = some (r, st.stack, st.world.faulted)

  abbrev last_round : M (State (builtin s)) ℤ → M (State (builtin s)) ℤ
  last_round m =
      m
      >>= after_round (builtin s) (λ r. exec_childs (builtin s) r Sym.reserved cnil)
          val_uninitialized Sym.reserved Sym.reserved

  last_round-file :
      (n : ℕ) (f : File) (j : Word) (q : Stat)
      → summary (
          last_round
            (exec_childs (builtin s) val_uninitialized Sym.reserved test_exist
              >>= close_func (builtin s) Stub.file 0)
            (at s (0 ∷ []) n (looked_at q f j)))
        ≡ some (bool_int (is_stated q), [], false)
  unfolding exec_childs exec_expr exec_vals exec_ctx_get_handle expect_kind val2lre_value
      peek_val_type is_digit atoi digits_value combine expr_exist_handler lre_compare_int close_func
      exec_ctx_pop_handle after_round join decided
  last_round-file n f j (stated uid gid mode) = refl
  last_round-file n f j enoent = refl
  last_round-file n f j failed = refl

  last_round-bind :
      (m : M (State (builtin s)) ℤ) (st : State (builtin s)) (m' : M (State (builtin s)) ℤ)
      (st' : State (builtin s))
      → m st ≡ m' st'
      → summary (last_round m st) ≡ summary (last_round m' st')
  last_round-bind m st m' st' h =
      ap
        (λ r. summary (elim r as (λ _. Option (ℤ × State (builtin s))) [
          | none ↦ none
          | some (v, t) ↦
              after_round (builtin s) (λ r'. exec_childs (builtin s) r' Sym.reserved cnil)
                val_uninitialized Sym.reserved Sym.reserved v t
        ]))
        h

  exec_child-file :
      (n x y : ℕ) (base path b p : Word)
      → leb n 64 ≡ false
      → leb n 65 ≡ false
      → val2lre_value s.doubles base ≡ some (string (x ∷ b))
      → val2lre_value s.doubles path ≡ some (string (y ∷ p))
      → exec_child (builtin s) (func Stub.file (file_args base path) test_exist) (at s [] n fresh)
        ≡ (exec_childs (builtin s) val_uninitialized Sym.reserved test_exist
              >>= close_func (builtin s) Stub.file 0)
            (at s (0 ∷ []) n (
              looked_at
                (s.stat (joined (x ∷ b) (y ∷ p)))
                (file_constructor s.memory)
                (joined (x ∷ b) (y ∷ p))))
  unfolding exec_child expect_kind
  exec_child-file n x y base path b p room room' hb hp =
      let f : File = file_constructor s.memory in
      let j : Word = joined (x ∷ b) (y ∷ p) in
      bind-eq (exec_ctx_push_handle (builtin s) 0) _ (at s [] n (opened f []))
        (at s (0 ∷ []) n (opened f [])) tt
        (exec_ctx_push_handle-at s 0 n [] (opened f []) room (omega arith))
      ∙ bind-eq (exec_args (builtin s) 0 (file_args base path))
          (after_func_args (builtin s) Stub.file 0
            (exec_childs (builtin s) val_uninitialized Sym.reserved test_exist))
          (at s (0 ∷ []) n (opened f []))
          (at s (0 ∷ []) n (opened (record f { path = some j }) (freed ∷ []))) args_ok
          (exec_args-file n x y f base path b p room' hb hp)
      ∙ after_func_args-file n f j

  -- Run on the components of lrc/, the rule file(path=splicepath(basepath=..., path=...)){exist
  -- == 1}, whose two words are strings that are not empty, gives 1 if `stat` finds the joined
  -- path, cut to the size of the buffer, and 0 otherwise; no handle stays on the stack, and no
  -- callback was undefined. The stack has more than 65 bytes.
  pub interp_execute-exists_rule :
      (n x y : ℕ) (base path b p : Word)
      → 65 < n
      → val2lre_value s.doubles base ≡ some (string (x ∷ b))
      → val2lre_value s.doubles path ≡ some (string (y ∷ p))
      → summary (interp_execute (builtin s) n fresh (exists_rule base path))
        ≡ some (
          bool_int (is_stated (s.stat (take (path_max - 1) ((x ∷ b) ++ b'/' ∷ y ∷ p)))),
          [],
          false,
        )
  unfolding interp_execute exec_childs
  interp_execute-exists_rule n x y base path b p room hb hp =
      let f : File = file_constructor s.memory in
      let j : Word = joined (x ∷ b) (y ∷ p) in
      last_round-bind (exec_child (builtin s) (func Stub.file (file_args base path) test_exist))
        (at s [] n fresh)
        (exec_childs (builtin s) val_uninitialized Sym.reserved test_exist
          >>= close_func (builtin s) Stub.file 0)
        (at s (0 ∷ []) n (looked_at (s.stat j) f j))
        (exec_child-file n x y base path b p (ground arith) (ground arith) hb hp)
      ∙ last_round-file n f j (s.stat j)
