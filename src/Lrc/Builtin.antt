-- ===== src/Lrc/Builtin.antt =====
-- Components for the executor: `file`, `splicepath` and `fuzzypath` (lrc/lrc_file.c,
-- lrc/lrc_c_splicepath.c, lrc/lrc_c_fuzzypath.c) behind their tables of stubs.
pub mod Words
pub mod Calls
pub mod Runs
use lre.Base.{ℕ, Bool, true, false, Option, none, some, List, [], ◌∷◌, ◌++◌, length, get_elem?, set}
use lre.Base.Int.{ℤ, pos}
use lre.Symbols.{Sym}
use lre.Token.{Word}
use lre.Value.{Doubles, LreValue, unknown}
use lre.Machine.{Components, StubType, func_stub, call_stub, arg_stub, expr_stub}
use lre.Lrc.Values.{Answer, lre_ret_error}
use lre.Lrc.File.{
  File, Stat, file_constructor, file_arg_path_handler, file_execute, expr_exist_handler,
  expr_owner_handler, expr_permission_handler,
}
use lre.Lrc.Splicepath as Splicepath
use lre.Lrc.Splicepath.{Splicepath, splicepath_constructor, splicepath_execute}
use lre.Lrc.Fuzzypath.Call as Fuzzypath
use lre.Lrc.Fuzzypath.Call.{Fuzzypath, fuzzypath_constructor, fuzzypath_execute}
use lre.Lrc.Fuzzypath.Search.{Files}

-- The entries of the tables.
pub data Stub : Type 0 where
  file path exist owner permission : Stub
  splicepath splice_basepath splice_path : Stub
  fuzzypath fuzzy_basepath fuzzy_path : Stub

abbrev pub kind : Stub → StubType
kind file = func_stub
kind path = arg_stub
kind exist = expr_stub
kind owner = expr_stub
kind permission = expr_stub
kind splicepath = call_stub
kind splice_basepath = arg_stub
kind splice_path = arg_stub
kind fuzzypath = call_stub
kind fuzzy_basepath = arg_stub
kind fuzzy_path = arg_stub

-- What a handle points to.
pub data Object : Type 0 where
  file_object : File → Object
  splicepath_object : Splicepath → Object
  fuzzypath_object : Fuzzypath → Object
  freed : Object

-- The system: `stat`, `getpwuid`, the directories, and what the memory of a new object holds.
pub record System : Type 1 where
  pub doubles : Doubles
  pub stat : Word → Stat
  pub getpwuid : ℕ → Option Word
  pub files : Files
  pub memory : File

-- The objects by their handles, the details that were put out, the newest first, and whether a
-- callback was undefined, after which nothing is claimed.
pub record World : Type 0 where
  pub objects : List Object
  pub details : List Word
  pub faulted : Bool

abbrev put_details : Option Word → World → World
put_details none w = w
put_details (some d) w = record w { details = d ∷ w.details }

abbrev new_object : Object → World → Option ℕ × World
new_object o w = (some (length w.objects), record w { objects = w.objects ++ o ∷ [] })

abbrev put_object : ℕ → Object → World → World
put_object h o w = record w { objects = set w.objects h o }

abbrev fault_world : World → World
fault_world w = record w { faulted = true }

abbrev pub answered : Option Answer → World → ℤ × World
answered none w = (lre_ret_error, fault_world w)
answered (some (ret, d)) w = (ret, put_details d w)

module _ (s : System) where
  abbrev pub Value : Type 0
  Value = LreValue s.doubles.Double

  abbrev pub func_constructor : Stub → World → Option ℕ × World
  func_constructor k w = new_object (file_object (file_constructor s.memory)) w

  abbrev exec_file : ℕ → World → Option Object → ℤ × World
  exec_file h w (some (file_object f)) =
      let ((ret, d), f') = file_execute s.stat f in
      (ret, put_details d (put_object h (file_object f') w))
  exec_file h w o = (lre_ret_error, fault_world w)

  abbrev pub call_constructor : Stub → World → Option ℕ × World
  call_constructor splicepath w = new_object (splicepath_object splicepath_constructor) w
  call_constructor fuzzypath w = new_object (fuzzypath_object fuzzypath_constructor) w
  call_constructor k w = (none, w)

  abbrev pub called : World → Option (ℤ × Value) → (ℤ × Value) × World
  called w none = ((lre_ret_error, unknown), fault_world w)
  called w (some r) = (r, w)

  abbrev exec_call : World → Option Object → (ℤ × Value) × World
  exec_call w (some (splicepath_object o)) = (splicepath_execute o unknown, w)
  exec_call w (some (fuzzypath_object o)) = called w (fuzzypath_execute s.files o unknown)
  exec_call w o = ((lre_ret_error, unknown), fault_world w)

  abbrev pub set_arg : Stub → ℕ → Value → World → Option Object → ℤ × World
  set_arg path h v w (some (file_object f)) =
      let (ret, f') = file_arg_path_handler f v in (ret, put_object h (file_object f') w)
  set_arg splice_basepath h v w (some (splicepath_object o)) =
      let (ret, o') = Splicepath.arg_basepath_handler o v in
      (ret, put_object h (splicepath_object o') w)
  set_arg splice_path h v w (some (splicepath_object o)) =
      let (ret, o') = Splicepath.arg_path_handler o v in
      (ret, put_object h (splicepath_object o') w)
  set_arg fuzzy_basepath h v w (some (fuzzypath_object o)) =
      let (ret, o') = Fuzzypath.arg_basepath_handler o v in
      (ret, put_object h (fuzzypath_object o') w)
  set_arg fuzzy_path h v w (some (fuzzypath_object o)) =
      let (ret, o') = Fuzzypath.arg_path_handler o v in (ret, put_object h (fuzzypath_object o') w)
  set_arg k h v w o = (lre_ret_error, fault_world w)

  abbrev ask_file : Stub → Sym → Value → World → Option Object → ℤ × World
  ask_file exist opt v w (some (file_object f)) = answered (some (expr_exist_handler f opt v)) w
  ask_file owner opt v w (some (file_object f)) = answered (expr_owner_handler s.getpwuid f opt v) w
  ask_file permission opt v w (some (file_object f)) = answered (expr_permission_handler f opt v) w
  ask_file k opt v w o = (lre_ret_error, fault_world w)

  -- A handler's destructor frees its object.
  abbrev pub builtin : Components
  builtin = record {
    doubles = s.doubles;
    Stub = Stub;
    Handle = ℕ;
    World = World;
    kind = kind;
    func_constructor = func_constructor;
    func_exec = λ k. some (λ h w. exec_file h w (get_elem? w.objects h));
    func_destructor = λ k h w. put_object h freed w;
    call_constructor = call_constructor;
    call_exec = λ k. some (λ h w. exec_call w (get_elem? w.objects h));
    call_destructor = λ k h w. put_object h freed w;
    arg_handler = λ k h v w. set_arg k h v w (get_elem? w.objects h);
    expr_handler = λ k h opt v w. ask_file k opt v w (get_elem? w.objects h);
    var_handler = λ k h w. (unknown, fault_world w);
  }
