-- ===== src/Lrc/Process.antt =====
-- The object of `process` and its calls (lrc/lrc_process.c): the processes that it stands for, and
-- the function `process`.
pub mod Info
pub mod Exprs
pub mod Cmdline
pub mod Dirs
pub mod Distinct
pub mod Stat
pub mod Args
pub mod Paths
use lre.Base.{
  ℕ, zero, suc, ◌+◌, ◌-◌, Bool, true, false, not, ◌&&◌, ◌||◌, Option, none, some, List, [], ◌∷◌,
  ◌++◌, ltb, leb, ◌==◌, if◌then◌else◌, length, drop,
}
use lre.Base.Int.{ℤ, pos}
use lre.Symbols.{Sym}
use lre.Token.{Word}
use lre.Value.{LreValue, unknown, int, double, string}
use lre.Macro.Content.{is_prefix}
use lre.Calculate.{bool_int, lre_compare_int}
use lre.Lrc.Strings.{text, show_int, same_string, empty_buffer, xsnprintf}
use lre.Lrc.Values.{
  lre_ret_ok, lre_ret_error, minus_einval, string_handler, int_handler, Answer, silent, report,
  answer, not_word, details_unit_max,
}

-- struct process_info. The command line is the `cmdlen` bytes, zeros among them.
pub record ProcessInfo : Type 0 where
  pub pid : ℤ
  pub ppid : ℤ
  pub name : Option Word
  pub user : Word
  pub binpath : Option Word
  pub cmdline : Word

-- struct lrc_process; `psinfo` holds `count` processes, `extract` is FLAGS_CMDLINE_EXTRACT, and
-- `state` that the execution was a success.
pub record Process : Type 0 where
  pub procname : Option Word
  pub procpath : Option Word
  pub excludepath : Option Word
  pub argindex : ℤ
  pub argkey : Option Word
  pub psinfo : List ProcessInfo
  pub state : Bool
  pub extract : Bool

abbrev pub process_count_max : ℕ
process_count_max = 1024

-- The memory that `malloc` gives holds anything.
abbrev process_constructor : Process → Process
process_constructor memory = record memory {
  procname = none;
  procpath = none;
  excludepath = none;
  psinfo = [];
  extract = false;
}

abbrev processdir_constructor : Process → Process
processdir_constructor = process_constructor

abbrev cmdline_extract_constructor : Process → Process
cmdline_extract_constructor memory = record memory {
  procname = none;
  procpath = none;
  excludepath = none;
  psinfo = [];
  argkey = none;
  argindex = pos 0;
  extract = true;
}

module _ {D : Type 0} where
  abbrev arg_procname_handler : Process → LreValue D → ℤ × Process
  arg_procname_handler = string_handler (λ w p. record p { procname = some w })

  abbrev arg_procpath_handler : Process → LreValue D → ℤ × Process
  arg_procpath_handler = string_handler (λ w p. record p { procpath = some w })

  abbrev arg_excludepath_handler : Process → LreValue D → ℤ × Process
  arg_excludepath_handler = string_handler (λ w p. record p { excludepath = some w })

  abbrev arg_argkey_handler : Process → LreValue D → ℤ × Process
  arg_argkey_handler p v =
      if p.extract
      then string_handler (λ w q. record q { argkey = some w }) p v
      else (lre_ret_error, p)

  abbrev arg_argindex_handler : Process → LreValue D → ℤ × Process
  arg_argindex_handler p v =
      if p.extract then int_handler (λ z q. record q { argindex = z }) p v else (lre_ret_error, p)

-- Does the path of a binary stand at the front of a list of paths, or behind one of its `;`?
unfoldable pub behind_semicolons : Word → Word → Bool
behind_semicolons binpath [] = false
behind_semicolons binpath (c ∷ cs) =
    (c == b';' && is_prefix binpath cs) || behind_semicolons binpath cs

abbrev pub fits_paths : Word → Word → Bool
fits_paths paths binpath = is_prefix binpath paths || behind_semicolons binpath paths

abbrev pub name_fits : Option Word → Option Word → Bool
name_fits none name = true
name_fits (some w) none = false
name_fits (some w) (some n) = same_string w n

abbrev pub path_fits : Option Word → Option Word → Bool
path_fits none binpath = true
path_fits (some w) none = false
path_fits (some w) (some b) = fits_paths w b

abbrev not_excluded : Option Word → Option Word → Bool
not_excluded none binpath = true
not_excluded (some w) none = true
not_excluded (some w) (some b) = not (fits_paths w b)

-- The processes of the list that the object stands for.
unfoldable spec_processes : Process → List ProcessInfo → List ProcessInfo
spec_processes p [] = []
spec_processes p (i ∷ is) =
    let rest = spec_processes p is in
    if name_fits p.procname i.name
      && (path_fits p.procpath i.binpath && not_excluded p.excludepath i.binpath)
    then i ∷ rest
    else rest

-- `none` is a write behind the array `psinfo`.
unfoldable pub fill_spec_process : Process → List ProcessInfo → Option Process
unfolding spec_processes
fill_spec_process p is =
    if leb (length (spec_processes p is)) process_count_max
    then some (record p { psinfo = spec_processes p is })
    else none

-- The global `processlist`: the list, or a pointer to what `processes_info_release` freed.
pub data Processlist : Type 0 where
  loaded : List ProcessInfo → Processlist
  dangling : Processlist

-- A list that is empty is loaded again: `found` is what `processes_info_load` reads.
abbrev ensure_loaded : List ProcessInfo → Processlist → Processlist
ensure_loaded found (loaded []) = loaded found
ensure_loaded found (loaded (i ∷ is)) = loaded (i ∷ is)
ensure_loaded found dangling = dangling

-- `lrc_process_release`, as far as the list goes.
abbrev lrc_process_release : Processlist → Processlist
lrc_process_release (loaded []) = loaded []
lrc_process_release _ = dangling

-- The processes to choose from; `none` is a read of freed memory.
abbrev pub processes_of : Processlist → Option (List ProcessInfo)
processes_of (loaded is) = some is
processes_of dangling = none

abbrev pub has_name_or_path : Process → Bool
has_name_or_path p = elim p.procname [
  | some w ↦ true
  | none ↦ elim p.procpath [ some w ↦ true | none ↦ false ]
]

-- The end of the path, in quotes.
abbrev shown_path : Option Word → Word
shown_path none = []
shown_path (some w) =
    text " '"
    ++ ((if ltb 32 (length w) then text "..." ++ drop (length w - 32) w else w) ++ text "'")

abbrev shown_name : Option Word → Word
shown_name none = []
shown_name (some w) = text " '" ++ (w ++ text "'")

abbrev pub executed : Option Process → Option (Answer × Process)
executed none = none
executed (some p) = some (
  report lre_ret_ok (text "process" ++ (shown_name p.procname ++ shown_path p.procpath)),
  record p { state = true },
)

-- `process_execute` behind the loading of the list; `none` is undefined behaviour.
unfoldable process_execute : Processlist → Process → Option (Answer × Process)
process_execute ps p =
    if has_name_or_path p
    then elim (processes_of ps) [ none ↦ none | some is ↦ executed (fill_spec_process p is) ]
    else some (silent minus_einval, record p { state = false })
