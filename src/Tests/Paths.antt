-- ===== src/Tests/Paths.antt =====
-- The calls `fuzzypath` and `splicepath` at small inputs.
use lre.Base.{
  true, false, some, none, List, [], ◌∷◌, ◌≡◌, refl, if◌then◌else◌, Option, ◌↔◌, ◌<◌, length, arith,
}
use mathlib.Core.List.{Memᴰ}
use lre.Token.{Word}
use lre.Value.{string, unknown}
use lre.Macro.Content.{is_prefix}
use lre.Lrc.Values.{lre_ret_ok}
use lre.Lrc.Strings.{same_string, strstr, split, join, cut_end, xsnprintf}
use lre.Lrc.Strings.Printing.{put_list}
use lre.Lrc.Fuzzypath.{
  Fuzzydirent, normal, fuzzy, fragments, ends_with_star, parse_dirent, matches_name, find_frags,
}
use lre.Lrc.Fuzzypath.Search.{
  Files, directory, parse_dirents, fuzzy2path, recurse_dir, visit_entries, visit_entry, entry_type,
  path_add, real_path,
}
use lre.Lrc.Fuzzypath.Glob.{Glob, matches_name-Glob, taken}
use lre.Lrc.Fuzzypath.Overlap.{taken-overlap, no_star}
use lre.Lrc.Fuzzypath.Walk.{walk, add_all}
use lre.Lrc.Fuzzypath.Found.{IsFound, recurse_dir-IsFound}
use lre.Lrc.Fuzzypath.Call.{Fuzzypath, fuzzypath_execute, split_paths, path_cuts}
use lre.Lrc.Fuzzypath.Result.{hits, hits_of, fuzzypath_execute-join}
use lre.Lrc.Splicepath.{splicepath_execute}
use lre.Tests.Sample.{codes}

-- /usr with lib, lost and bin in it.
abbrev names_of : Word → Option (List Word)
names_of path =
    if same_string path (codes "/usr")
    then some (codes "lib" ∷ codes "lost" ∷ codes "bin" ∷ [])
    else none

abbrev tree : Files
tree = record { readdir = names_of; lstat = λ path. some directory }

abbrev call : Fuzzypath
call = record { basepath = none; path = some (codes "/usr/l*"); isabspath = true }

call_hits :
    hits_of tree call (split_paths path_cuts (codes "/usr/l*"))
    ≡ some (codes "/usr/lib;/usr/lost" ∷ [])
unfolding hits split_paths parse_dirent matches_name split fragments find_frags ends_with_star
    is_prefix strstr same_string parse_dirents fuzzy2path recurse_dir visit_entries visit_entry
    entry_type path_add real_path xsnprintf cut_end
call_hits = refl

call_fits : length (put_list (codes "/usr/lib;/usr/lost" ∷ [])) < 40960
unfolding put_list
call_fits = omega arith

fuzzypath_execute-join_example :
    fuzzypath_execute {D = Word} tree call unknown
    ≡ some (lre_ret_ok, string (join b';' (codes "/usr/lib;/usr/lost" ∷ [])))
fuzzypath_execute-join_example =
    fuzzypath_execute-join Word tree call unknown (codes "/usr/l*") (codes "/usr/lib;/usr/lost") []
      refl call_hits call_fits

recurse_dir-IsFound_example :
    (recurse_dir tree (normal (codes "bin") ∷ []) (codes "/usr") []
      ≡ add_all (walk tree (normal (codes "bin") ∷ []) (codes "/usr")) [])
    × (Memᴰ (codes "/usr/bin") (walk tree (normal (codes "bin") ∷ []) (codes "/usr"))
        ↔ IsFound tree (normal (codes "bin") ∷ []) (codes "/usr") (codes "/usr/bin"))
recurse_dir-IsFound_example =
    recurse_dir-IsFound tree (normal (codes "bin") ∷ []) (codes "/usr") [] (codes "/usr/bin")

abbrev ends_in_star : Fuzzydirent
ends_in_star = fuzzy (record {
  first_str = codes "l";
  strs = codes "b" ∷ [] ∷ [];
  start_fuzzy = false;
  end_fuzzy = true;
})

ends_in_star_parsed : parse_dirent (codes "l*b*") ≡ some ends_in_star
unfolding parse_dirent split fragments ends_with_star
ends_in_star_parsed = refl

libc_fits : Glob (split b'*' (codes "l*b*")) (codes "libc")
unfolding split Glob
libc_fits = (codes "i", codes "bc", refl, (codes "c", [], refl, refl))

star_at_end : ends_with_star (codes "l*b*") ≡ true
unfolding ends_with_star
star_at_end = refl

matches_name-Glob_example : matches_name ends_in_star (codes "libc") ≡ true
matches_name-Glob_example =
    matches_name-Glob (codes "l*b*") (codes "libc") star_at_end ends_in_star ends_in_star_parsed
      libc_fits

ab_plain : no_star (codes "ab") ≡ true
unfolding no_star
ab_plain = refl

taken-overlap_example :
    (taken (parse_dirent (codes "ab*ab")) (codes "ab") ≡ some true)
    × (¬ (Glob (split b'*' (codes "ab*ab")) (codes "ab")))
taken-overlap_example = taken-overlap b'a' (codes "b") ab_plain

-- A name that ends in the text behind the star, which stands in it twice, is refused.
twice : taken (parse_dirent (codes "*b")) (codes "bab") ≡ some false
unfolding parse_dirent matches_name split fragments find_frags ends_with_star is_prefix strstr
    same_string
twice = refl

spliced_path :
    splicepath_execute {D = Word}
      (record { basepath = some (codes "/usr"); path = some (codes "bin") })
      unknown
    ≡ (lre_ret_ok, string (codes "/usr/bin"))
unfolding splicepath_execute xsnprintf
spliced_path = refl
