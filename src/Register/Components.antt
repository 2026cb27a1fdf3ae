-- ===== src/Register/Components.antt =====
-- What a registered function, call or module is found by (lre.c).
use lre.Base.{
  Bool-cases, inl, inr, ℕ, Bool, true, false, none, some, List, [], ◌∷◌, ◌++◌, append_assoc,
  append-nil, ◌≡◌, refl, ap, sym, ◌∙◌, if◌then◌else◌, length,
}
use lre.Vector.{vector_init}
use lre.Keyword.{func_type, call_type, arg_type, expr_type, var_type, Table, keyword_install}
use lre.Register.{
  LrcFunc, LrcCall, LrcModule, Registry, Outcome, done, einval, lrc_func_register, install_call,
  lrc_call_register, register_funcs, register_calls, lrc_module_register, registered,
}
use lre.Register.Scope.{Entry, root_scope}
use lre.Register.Packed.{IsPacked}
use lre.Register.Adds.{entry}
use lre.Register.Laws.{
  entries_of, func_members, call_members, Registers, Registers-Adds, rooted_table, opened,
  IsPacked-rooted, install_all-Adds, Adds-append,
}

abbrev pub func_entry : LrcFunc → Entry
func_entry f = entry func_type f.stub.keyword f.stub.handler

abbrev call_entry : LrcCall → Entry
call_entry c = entry call_type c.stub.keyword c.stub.handler

-- Registering a function succeeds: the root has it as its last keyword, its own scope holds its
-- arguments, expressions, variables and sub-functions in this order, and no scope that was there
-- has changed. The vectors of the table have no null slots among those in use.
pub lrc_func_register-Registers :
    (f : LrcFunc) (t : Table)
    → IsPacked t
    → (t' : Table) × (lrc_func_register f t ≡ done t')
      × Registers t t' (func_entry f) (func_members f)
unfolding lrc_func_register keyword_install
lrc_func_register-Registers f t h =
    let p : ℕ = length t.heap in
    let t0 : Table = rooted_table t h func_type f.stub.keyword f.stub.handler refl in
    let (t1, e1, a1) =
      install_all-Adds arg_type p f.args t0 (vector_init 0)
        (IsPacked-rooted t h func_type f.stub.keyword f.stub.handler refl)
        (opened t h func_type f.stub.keyword f.stub.handler refl) in
    let (v1, o1) = a1.open_scope in
    let (t2, e2, a2) = install_all-Adds expr_type p f.exprs t1 v1 a1.packed o1 in
    let (v2, o2) = a2.open_scope in
    let (t3, e3, a3) = install_all-Adds var_type p f.vars t2 v2 a2.packed o2 in
    let (v3, o3) = a3.open_scope in
    let (t4, e4, a4) = install_all-Adds func_type p f.funcs t3 v3 a3.packed o3 in
    (
      t4,
      rw e1 (rw e2 (rw e3 e4)),
      Registers-Adds t h func_type f.stub.keyword f.stub.handler refl t4 (func_members f) (
          Adds-append t0 t1 t4 p (entries_of arg_type f.args) _ a1 (
            Adds-append t1 t2 t4 p (entries_of expr_type f.exprs) _ a2 (
              Adds-append t2 t3 t4 p (entries_of var_type f.vars) (entries_of func_type f.funcs) a3
                a4))),
    )

call_runs :
    (c : LrcCall) (t : Table)
    → c.has_exec ≡ true
    → lrc_call_register c t
      ≡ install_call c (keyword_install t call_type c.stub.keyword c.stub.handler none)
unfolding lrc_call_register
call_runs c t x = rw (x, lrc_call_register) refl

call_refused : (c : LrcCall) (t : Table) → c.has_exec ≡ false → lrc_call_register c t ≡ einval t
unfolding lrc_call_register
call_refused c t x = rw (x, lrc_call_register) refl

-- Registering a call that has an exec callback succeeds in the same way.
lrc_call_register-Registers :
    (c : LrcCall) (t : Table)
    → c.has_exec ≡ true
    → IsPacked t
    → (t' : Table) × (lrc_call_register c t ≡ done t')
      × Registers t t' (call_entry c) (call_members c)
unfolding install_call keyword_install
lrc_call_register-Registers c t x h =
    let p : ℕ = length t.heap in
    let t0 : Table = rooted_table t h call_type c.stub.keyword c.stub.handler refl in
    let (t1, e1, a1) =
      install_all-Adds arg_type p c.args t0 (vector_init 0)
        (IsPacked-rooted t h call_type c.stub.keyword c.stub.handler refl)
        (opened t h call_type c.stub.keyword c.stub.handler refl) in
    let (v1, o1) = a1.open_scope in
    let (t2, e2, a2) = install_all-Adds var_type p c.vars t1 v1 a1.packed o1 in
    (
      t2,
      call_runs c t x ∙ rw e1 e2,
      Registers-Adds t h call_type c.stub.keyword c.stub.handler refl t2 (call_members c)
          (Adds-append t0 t1 t2 p (entries_of arg_type c.args) (entries_of var_type c.vars) a1 a2),
    )

-- Whether all calls have an exec callback, and the calls up to the first that has none.
unfoldable pub all_exec : List LrcCall → Bool
all_exec [] = true
all_exec (c ∷ cs) = let rest = all_exec cs in if c.has_exec then rest else false

unfoldable pub until_no_exec : List LrcCall → List Entry
until_no_exec [] = []
until_no_exec (c ∷ cs) =
    let rest = until_no_exec cs in if c.has_exec then call_entry c ∷ rest else []

unfoldable pub func_entries : List LrcFunc → List Entry
func_entries [] = []
func_entries (f ∷ fs) = func_entry f ∷ func_entries fs

abbrev outcome : Bool → Table → Outcome
outcome true t = done t
outcome false t = einval t

register_funcs-root :
    (fs : List LrcFunc) (t : Table)
    → IsPacked t
    → (t' : Table) × (register_funcs fs t ≡ done t')
      × IsPacked t'
      × (root_scope t' ≡ root_scope t ++ func_entries fs)
unfolding register_funcs func_entries
register_funcs-root [] t h = (t, refl, h, sym (append-nil (root_scope t)))
register_funcs-root (f ∷ fs) t h =
    let (t1, e, r) = lrc_func_register-Registers f t h in
    let (t2, d, k, g) = register_funcs-root fs t1 r.packed in
    (
      t2,
      rw e d,
      k,
      g
          ∙ (ap (λ x. x ++ func_entries fs) r.rooted
              ∙ append_assoc (root_scope t) (func_entry f ∷ []) (func_entries fs)),
    )

-- The calls up to the first without an exec callback come at the end of the root.
abbrev CallsRoot : List LrcCall → Table → Type 0
CallsRoot cs t =
    (t' : Table) × (register_calls cs t ≡ outcome (all_exec cs) t')
    × IsPacked t'
    × (root_scope t' ≡ root_scope t ++ until_no_exec cs)

CallsRoot-true :
    (c : LrcCall) (cs : List LrcCall) (t : Table)
    → c.has_exec ≡ true
    → IsPacked t
    → ((t' : Table) → IsPacked t' → CallsRoot cs t')
    → CallsRoot (c ∷ cs) t
unfolding register_calls all_exec until_no_exec
CallsRoot-true c cs t x h ih =
    let (t1, e, r) = lrc_call_register-Registers c t x h in
    let (t2, d, k, g) = ih t1 r.packed in
    let all : all_exec (c ∷ cs) ≡ all_exec cs = rw (x, all_exec) refl in
    let more : until_no_exec (c ∷ cs) ≡ call_entry c ∷ until_no_exec cs =
      rw (x, until_no_exec) refl in
    (
      t2,
      rw e (d ∙ ap (λ b. outcome b t2) (sym all)),
      k,
      g
          ∙ (ap (λ y. y ++ until_no_exec cs) r.rooted
              ∙ (append_assoc (root_scope t) (call_entry c ∷ []) (until_no_exec cs)
                  ∙ ap (λ y. root_scope t ++ y) (sym more))),
    )

CallsRoot-false :
    (c : LrcCall) (cs : List LrcCall) (t : Table)
    → c.has_exec ≡ false
    → IsPacked t
    → CallsRoot (c ∷ cs) t
unfolding register_calls all_exec until_no_exec
CallsRoot-false c cs t x h =
    let all : all_exec (c ∷ cs) ≡ false = rw (x, all_exec) refl in
    let none_more : until_no_exec (c ∷ cs) ≡ [] = rw (x, until_no_exec) refl in
    (
      t,
      rw (call_refused c t x) (ap (λ b. outcome b t) (sym all)),
      h,
      sym (append-nil (root_scope t)) ∙ ap (λ y. root_scope t ++ y) (sym none_more),
    )

register_calls-root : (cs : List LrcCall) (t : Table) → IsPacked t → CallsRoot cs t
unfolding register_calls all_exec until_no_exec
register_calls-root [] t h = (t, refl, h, sym (append-nil (root_scope t)))
register_calls-root (c ∷ cs) t h = elim (Bool-cases c.has_exec) [
  | inl x ↦ CallsRoot-true c cs t x h (λ t' k. register_calls-root cs t' k)
  | inr x ↦ CallsRoot-false c cs t x h
]

-- Registering a module succeeds if all of its calls have an exec callback, and the module is then
-- listed. In both cases the root has got its functions and its calls, up to the first call without
-- the callback: nothing is taken back. The vectors of the table have no null slots among those in
-- use.
pub lrc_module_register-root :
    (r : Registry) (m : LrcModule)
    → IsPacked r.table
    → (t' : Table) × (lrc_module_register r m
        ≡ some (
          all_exec m.calls,
          record {
            table = t';
            modules = if all_exec m.calls then r.modules ++ m.id ∷ [] else r.modules;
          },
        ))
      × IsPacked t'
      × (root_scope t' ≡ root_scope r.table ++ (func_entries m.funcs ++ until_no_exec m.calls))
unfolding lrc_module_register
lrc_module_register-root r m h =
    let (t1, e, k, g) = register_funcs-root m.funcs r.table h in
    let (t2, d, l, f) = register_calls-root m.calls t1 k in
    (
      t2,
      rw e (rw d (by_flag (all_exec m.calls) t2)),
      l,
      f
          ∙ (ap (λ y. y ++ until_no_exec m.calls) g
              ∙ append_assoc (root_scope r.table) (func_entries m.funcs) (until_no_exec m.calls)),
    )
  where
    by_flag :
        (b : Bool) (t : Table)
        → registered r m (outcome b t)
          ≡ some
              (b, record { table = t; modules = if b then r.modules ++ m.id ∷ [] else r.modules })
    by_flag true t = refl
    by_flag false t = refl
