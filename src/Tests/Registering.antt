-- ===== src/Tests/Registering.antt =====
-- A component of two functions and two calls, for the theorems about lre.c.
use lre.Base.{true, false, none, some, [], ◌∷◌, ◌++◌, ◌≡◌, refl, if◌then◌else◌}
use lre.Keyword.{KeywordStub, func_type, Table, lre_keyword_init}
use lre.Vector.{Vector, vector_set}
use lre.Register.{
  LrcFunc, LrcCall, LrcModule, Registry, done, lrc_func_register, lrc_module_register,
}
use lre.Register.Scope.{root_scope}
use lre.Register.Packed.{IsPacked, lre_keyword_init-IsPacked}
use lre.Register.Laws.{func_members, Registers}
use lre.Register.Components.{
  func_entry, func_entries, all_exec, until_no_exec, lrc_func_register-Registers,
  lrc_module_register-root,
}
use lre.Tests.Sample.{codes}

-- file(path){size}
abbrev file_func : LrcFunc
file_func = record {
  stub = record { keyword = codes "file"; handler = 100 };
  args = record { keyword = codes "path"; handler = 101 } ∷ [];
  exprs = record { keyword = codes "size"; handler = 102 } ∷ [];
  vars = [];
  funcs = [];
}

abbrev proc_func : LrcFunc
proc_func = record {
  stub = record { keyword = codes "proc"; handler = 200 };
  args = [];
  exprs = record { keyword = codes "pid"; handler = 201 } ∷ [];
  vars = [];
  funcs = [];
}

abbrev good_call : LrcCall
good_call = record {
  stub = record { keyword = codes "join"; handler = 300 };
  has_exec = true;
  args = [];
  vars = [];
}

abbrev bad_call : LrcCall
bad_call = record {
  stub = record { keyword = codes "bad"; handler = 400 };
  has_exec = false;
  args = [];
  vars = [];
}

abbrev component : LrcModule
component = record { id = 7; funcs = file_func ∷ proc_func ∷ []; calls = good_call ∷ bad_call ∷ [] }

abbrev start : Registry
start = record { table = lre_keyword_init; modules = 3 ∷ [] }

lrc_func_register-Registers_example :
    (t' : Table) × (lrc_func_register file_func lre_keyword_init ≡ done t')
    × Registers lre_keyword_init t' (func_entry file_func) (func_members file_func)
lrc_func_register-Registers_example =
    lrc_func_register-Registers file_func lre_keyword_init lre_keyword_init-IsPacked

lrc_module_register-root_example :
    (t' : Table) × (lrc_module_register start component
      ≡ some (
        all_exec component.calls,
        record {
          table = t';
          modules =
              if all_exec component.calls
              then start.modules ++ component.id ∷ []
              else start.modules;
        },
      ))
    × IsPacked t'
    × (root_scope t'
        ≡ root_scope start.table ++ (func_entries component.funcs ++ until_no_exec component.calls))
lrc_module_register-root_example =
    lrc_module_register-root start component lre_keyword_init-IsPacked

refused : all_exec component.calls ≡ false
unfolding all_exec
refused = refl

-- Two functions without members.
abbrev func_stub_of : LrcFunc → KeywordStub
func_stub_of f = record {
  type = func_type;
  keyword = f.stub.keyword;
  handler = f.stub.handler;
  parent = none;
  subvec = none;
}

abbrev both : Table
both = record {
  heap = func_stub_of file_func ∷ func_stub_of proc_func ∷ [];
  root = record { active = 2; slots = some 0 ∷ some 1 ∷ none ∷ none ∷ [] };
}
