-- ===== src/Register.antt =====
-- The registration of components: lre.c, with the structs of lre.h. The `handler` of a stub stands
-- for the address of the struct that it is registered from.
pub mod Scope
pub mod Packed
pub mod Adds
pub mod Laws
pub mod Components
pub mod Removal
use lre.Base.{ℕ, zero, suc, Bool, true, false, Option, none, some, List, [], ◌∷◌, ◌++◌, ◌==◌}
use lre.Token.{Word}
use lre.Keyword.{
  KeystubType, func_type, call_type, arg_type, expr_type, var_type, Table, keyword_install,
  keyword_uninstall, find_stub_by_keyword,
}

-- An argument, an expression, a variable or a sub-function: of each only the keyword is read.
pub record LrcStub : Type 0 where
  pub keyword : Word
  pub handler : ℕ

-- `has_exec` is whether the `exec` callback is there.
pub record LrcCall : Type 0 where
  pub stub : LrcStub
  pub has_exec : Bool
  pub args : List LrcStub
  pub vars : List LrcStub

pub record LrcFunc : Type 0 where
  pub stub : LrcStub
  pub args : List LrcStub
  pub exprs : List LrcStub
  pub vars : List LrcStub
  pub funcs : List LrcStub

-- `id` is the address of the module.
pub record LrcModule : Type 0 where
  pub id : ℕ
  pub funcs : List LrcFunc
  pub calls : List LrcCall

-- The keyword table and `lre_modulelists`.
pub record Registry : Type 0 where
  pub table : Table
  pub modules : List ℕ

-- The code goes on, returns -EINVAL, or uses a null pointer.
pub data Outcome : Type 0 where
  done einval : Table → Outcome
  fault : Outcome

abbrev pub and_then : Outcome → (Table → Outcome) → Outcome
and_then (done t) k = k t
and_then r k = r

-- One of the loops over the members of a component; `keyword_install` returns no null pointer.
unfoldable pub install_all : KeystubType → ℕ → List LrcStub → Table → Outcome
install_all ty parent [] t = done t
install_all ty parent (s ∷ ss) t = elim (keyword_install t ty s.keyword s.handler (some parent)) [
  | none ↦ fault
  | some (t', p) ↦ install_all ty parent ss t'
]

unfoldable install_func : LrcFunc → Option (Table × ℕ) → Outcome
install_func f none = fault
install_func f (some (t, p)) = and_then (install_all arg_type p f.args t) (λ t1.
    and_then (install_all expr_type p f.exprs t1)
      (λ t2. and_then (install_all var_type p f.vars t2) (install_all func_type p f.funcs)))

unfoldable pub lrc_func_register : LrcFunc → Table → Outcome
unfolding install_func
lrc_func_register f t =
    install_func f (keyword_install t func_type f.stub.keyword f.stub.handler none)

unfoldable pub install_call : LrcCall → Option (Table × ℕ) → Outcome
install_call c none = fault
install_call c (some (t, p)) =
    and_then (install_all arg_type p c.args t) (install_all var_type p c.vars)

unfoldable pub lrc_call_register : LrcCall → Table → Outcome
unfolding install_call
lrc_call_register c t = elim c.has_exec [
  | false ↦ einval t
  | true ↦ install_call c (keyword_install t call_type c.stub.keyword c.stub.handler none)
]

unfoldable pub register_funcs : List LrcFunc → Table → Outcome
register_funcs [] t = done t
register_funcs (f ∷ fs) t = and_then (lrc_func_register f t) (register_funcs fs)

unfoldable pub register_calls : List LrcCall → Table → Outcome
register_calls [] t = done t
register_calls (c ∷ cs) t = and_then (lrc_call_register c t) (register_calls cs)

-- The result of `lrc_module_register`: whether it returns 0, and the registry; `none` is the use of a
-- null pointer. What was installed before an error stays.
abbrev pub registered : Registry → LrcModule → Outcome → Option (Bool × Registry)
registered r m (done t) = some (true, record { table = t; modules = r.modules ++ m.id ∷ [] })
registered r m (einval t) = some (false, record { table = t; modules = r.modules })
registered r m fault = none

unfoldable pub lrc_module_register : Registry → LrcModule → Option (Bool × Registry)
lrc_module_register r m =
    registered r m (and_then (register_funcs m.funcs r.table) (register_calls m.calls))

-- `lrc_func_unregister` and `lrc_call_unregister`, which differ in the type of the component alone.
unfoldable pub unregister : Word → Table → Option Table
unregister w t = elim (find_stub_by_keyword t.heap t.root w) [
  | none ↦ some t
  | some p ↦ keyword_uninstall t p
]

unfoldable pub unregister_all : List Word → Table → Option Table
unregister_all [] t = some t
unregister_all (w ∷ ws) t = elim (unregister w t) [ none ↦ none | some t' ↦ unregister_all ws t' ]

-- `lre_module_delete`, which ends at the first entry of the module.
unfoldable pub lre_module_delete : ℕ → List ℕ → List ℕ
lre_module_delete m [] = []
lre_module_delete m (n ∷ ns) = elim (n == m) [ true ↦ ns | false ↦ n ∷ lre_module_delete m ns ]

abbrev call_keywords : List LrcCall → List Word
call_keywords [] = []
call_keywords (c ∷ cs) = c.stub.keyword ∷ call_keywords cs

abbrev func_keywords : List LrcFunc → List Word → List Word
func_keywords [] ws = ws
func_keywords (f ∷ fs) ws = f.stub.keyword ∷ func_keywords fs ws

unfoldable pub lrc_module_unregister : Registry → LrcModule → Option Registry
lrc_module_unregister r m =
    elim (unregister_all (func_keywords m.funcs (call_keywords m.calls)) r.table) [
      | none ↦ none
      | some t ↦ some (record { table = t; modules = lre_module_delete m.id r.modules })
    ]
