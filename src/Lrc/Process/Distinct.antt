-- ===== src/Lrc/Process/Distinct.antt =====
-- The paths that `processdir` collects (lrc/lrc_process.c), and the calls of `process` that are
-- undefined.
use lre.Base.{
  ◌≤◌, ◌<◌, Bool, true, false, not, ◌&&◌, Option, none, some, List, [], ◌∷◌, ◌++◌, ◌≡◌, refl, ap,
  leb, if◌then◌else◌, arith, length, length-append, append-nil,
}
use lre.Base.Int.{pos}
use lre.Token.{Word}
use lre.Value.{LreValue, string}
use lre.Lrc.Strings.{same_string, join, Buffer, empty_buffer}
use lre.Lrc.Process.{ProcessInfo, Process, loaded, process_count_max, has_name_or_path}
use lre.Lrc.Process.Dirs.{
  has_path, add_path, chosen_path, collect_paths, print_dirs, processdir_execute,
}
use lre.Lrc.Process.Info.{path2dir}
use lre.Lrc.Fuzzypath.{path_arr_max}
use lre.Lrc.Strings.Printing.{
  IsPrinted, empty_buffer-IsPrinted, xsnprintf-IsPrinted, IsPrinted-put_list, put_list, cut_printed,
}

-- No path stands twice in the list.
unfoldable distinct : List Word → Bool
distinct [] = true
distinct (w ∷ ws) = not (has_path w ws) && distinct ws

same_string-sym : (v w : Word) → same_string v w ≡ same_string w v
unfolding same_string
same_string-sym [] [] = refl
same_string-sym [] (d ∷ w) = refl
same_string-sym (c ∷ v) [] = refl
same_string-sym (c ∷ v) (d ∷ w) = ground (arith, same_string-sym v w)

has_path-append :
    (v : Word) (ws : List Word) (w : Word)
    → has_path v ws ≡ false
    → same_string w v ≡ false
    → has_path v (ws ++ w ∷ []) ≡ false
unfolding has_path
has_path-append v [] w h k = rw k refl
has_path-append v (u ∷ ws) w h k = ground (arith, has_path-append v ws w)

distinct-append :
    (ws : List Word) (w : Word)
    → distinct ws ≡ true
    → has_path w ws ≡ false
    → distinct (ws ++ w ∷ []) ≡ true
unfolding distinct has_path
distinct-append [] w d h = refl
distinct-append (v ∷ ws) w d h =
    ground (arith, distinct-append ws w, has_path-append v ws w, same_string-sym v w)

-- What holds of the array of paths: no path is in it twice, and it has not overrun.
pub IsCollected : List Word → Type 0
IsCollected paths = (distinct paths ≡ true) × (length paths ≤ process_count_max)

add_path-IsCollected :
    (paths paths' : List Word) (w : Word)
    → add_path paths w ≡ some paths'
    → IsCollected paths
    → IsCollected paths'
unfolding IsCollected
add_path-IsCollected paths paths' w h (d, l) =
    go (has_path w paths) refl (leb process_count_max (length paths)) refl h
  where
    go :
        (b : Bool)
        → has_path w paths ≡ b
        → (c : Bool) → leb process_count_max (length paths) ≡ c
        → (if b then some paths else if c then none else some (paths ++ w ∷ [])) ≡ some paths'
        → IsCollected paths'
    go true e c f k = let q : paths ≡ paths' = cc in rw⁻¹ q (d, l)
    go false e true f k = absurd cc
    go false e false f k =
        let q : paths ++ w ∷ [] ≡ paths' = cc in
        rw⁻¹ q (distinct-append paths w d e, ground (arith, length-append paths (w ∷ [])))

module _ (p : Process) where
  collect_paths-step :
      (is : List ProcessInfo) (paths : List Word) (w : Word)
      → ((ps : List Word) → IsCollected ps → IsCollected (collect_paths p is ps))
      → IsCollected paths
      → IsCollected (elim (add_path paths w) as (λ _. List Word) [
        | none ↦ paths
        | some paths' ↦ collect_paths p is paths'
      ])
  collect_paths-step is paths w ih h = go (add_path paths w) refl
    where
      go :
          (q : Option (List Word))
          → add_path paths w ≡ q
          → IsCollected (elim q as (λ _. List Word) [
            | none ↦ paths
            | some paths' ↦ collect_paths p is paths'
          ])
      go none e = h
      go (some paths') e = ih paths' (add_path-IsCollected paths paths' w e h)

  collect_paths-IsCollected :
      (is : List ProcessInfo) (paths : List Word)
      → IsCollected paths
      → IsCollected (collect_paths p is paths)
  unfolding collect_paths
  collect_paths-IsCollected [] paths h = h
  collect_paths-IsCollected (i ∷ is) paths h = go (chosen_path p i) (collect_paths-IsCollected is)
    where
      go :
          (r : Option Word)
          → ((ps : List Word) → IsCollected ps → IsCollected (collect_paths p is ps))
          → IsCollected (elim r as (λ _. List Word) [
            | none ↦ collect_paths p is paths
            | some w ↦ elim (add_path paths w) as (λ _. List Word) [
              | none ↦ paths
              | some paths' ↦ collect_paths p is paths'
            ]
          ])
      go none ih = ih paths h
      go (some w) ih = collect_paths-step is paths w ih h

-- `processdir` collects no path twice, and at most 1024.
pub collect_paths-distinct :
    (p : Process) (is : List ProcessInfo) → IsCollected (collect_paths p is [])
unfolding IsCollected distinct
collect_paths-distinct p is = collect_paths-IsCollected p is [] (refl, omega arith)

abbrev dirs : List Word → List Word
dirs [] = []
dirs (w ∷ ws) = path2dir w ∷ dirs ws

print_dirs-IsPrinted :
    (ws : List Word) (t : Word) (b : Buffer)
    → IsPrinted path_arr_max t b
    → IsPrinted path_arr_max (t ++ put_list (dirs ws)) (print_dirs ws b)
unfolding print_dirs put_list
print_dirs-IsPrinted [] t b h = rw (append-nil t) h
print_dirs-IsPrinted (w ∷ ws) t b h = IsPrinted-put_list path_arr_max t (path2dir w) (dirs ws) _ (
    print_dirs-IsPrinted ws (t ++ (path2dir w ++ b';' ∷ [])) _
      (xsnprintf-IsPrinted path_arr_max t (path2dir w ++ b';' ∷ []) b h))

-- Where some process is chosen, `processdir` gives the directories of the collected paths with `;`
-- between, if they have room.
processdir_execute-join :
    (D : Type 0) (is : List ProcessInfo) (p : Process) (val : LreValue D) (w : Word)
    (ws : List Word)
    → has_name_or_path p ≡ true
    → collect_paths p is [] ≡ w ∷ ws
    → length (put_list (dirs (w ∷ ws))) < path_arr_max
    → processdir_execute (loaded is) p val
      ≡ some ((pos 0, string (join b';' (dirs (w ∷ ws)))), record p { state = true })
unfolding processdir_execute
processdir_execute-join D is p val w ws h e l =
    rw (h, e)
      (ap (λ x. some ((pos 0, string x), record p { state = true }))
        (cut_printed path_arr_max (path2dir w) (dirs ws) _
          (print_dirs-IsPrinted (w ∷ ws) [] empty_buffer (empty_buffer-IsPrinted path_arr_max)) l))
