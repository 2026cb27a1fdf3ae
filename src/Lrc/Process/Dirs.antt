-- ===== src/Lrc/Process/Dirs.antt =====
-- The call `processdir` (lrc/lrc_process.c): the directories of the processes that are chosen.
use lre.Base.{
  ◌-◌, Bool, true, false, ◌&&◌, ◌||◌, Option, none, some, List, [], ◌∷◌, ◌++◌, leb, if◌then◌else◌,
  length, take,
}
use lre.Base.Int.{ℤ, pos}
use lre.Token.{Word}
use lre.Value.{LreValue, string}
use lre.Lrc.Strings.{same_string, Buffer, empty_buffer, xsnprintf}
use lre.Lrc.Values.{minus_einval}
use lre.Lrc.Fuzzypath.{path_arr_max}
use lre.Lrc.Process.{
  ProcessInfo, Process, Processlist, processes_of, has_name_or_path, name_fits, path_fits,
  process_count_max,
}
use lre.Lrc.Process.Info.{path2dir}

unfoldable pub has_path : Word → List Word → Bool
has_path w [] = false
has_path w (v ∷ vs) = same_string v w || has_path w vs

-- A path that is not yet in the array goes behind the others. With the array full, the loop ends.
abbrev pub add_path : List Word → Word → Option (List Word)
add_path paths w =
    if has_path w paths
    then some paths
    else if leb process_count_max (length paths)
    then none
    else some (paths ++ w ∷ [])

abbrev pub chosen_path : Process → ProcessInfo → Option Word
chosen_path p i =
    if name_fits p.procname i.name && path_fits p.procpath i.binpath then i.binpath else none

-- The loop over the processes, with the paths collected so far; the excluded paths are not asked.
unfoldable pub collect_paths : Process → List ProcessInfo → List Word → List Word
collect_paths p [] paths = paths
collect_paths p (i ∷ is) paths = elim (chosen_path p i) [
  | none ↦ collect_paths p is paths
  | some w ↦ elim (add_path paths w) [ none ↦ paths | some paths' ↦ collect_paths p is paths' ]
]

unfoldable pub print_dirs : List Word → Buffer → Buffer
unfolding path2dir
print_dirs [] b = b
print_dirs (w ∷ ws) b = print_dirs ws (xsnprintf path_arr_max b (path2dir w ++ b';' ∷ []))

-- With no process chosen the value is as it was, and the call is a success.
abbrev processdir_value :
    {D : Type 0} → List Word → LreValue D → Process → (ℤ × LreValue D) × Process
processdir_value [] val p = ((pos 0, val), p)
processdir_value (w ∷ ws) val p =
    let b = print_dirs (w ∷ ws) empty_buffer in
    ((pos 0, string (take (b.len - 1) b.text)), record p { state = true })

-- `processdir_execute` behind the loading of the list; `none` is undefined behaviour.
unfoldable pub processdir_execute :
    {D : Type 0} → Processlist → Process → LreValue D → Option ((ℤ × LreValue D) × Process)
unfolding collect_paths
processdir_execute ps p val =
    if has_name_or_path p
    then elim (processes_of ps) [
      | none ↦ none
      | some is ↦ some (processdir_value (collect_paths p is []) val p)
    ]
    else some ((minus_einval, val), record p { state = false })
