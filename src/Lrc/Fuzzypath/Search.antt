-- ===== src/Lrc/Fuzzypath/Search.antt =====
-- The search of `fuzzypath` through the file system: `path_add`, `recurse_dir` and `fuzzy2path`
-- (lrc/lrc_c_fuzzypath.c).
use lre.Base.{
  ℕ, suc, ◌+◌, ◌-◌, Bool, true, false, ◌||◌, Option, none, some, List, [], ◌∷◌, ◌++◌, ltb, leb,
  ◌==◌, if◌then◌else◌, length, take,
}
use lre.Token.{Word}
use lre.Lrc.Values.{path_max}
use lre.Lrc.Strings.{same_string, split, cut_end, Buffer, empty_buffer, xsnprintf}
use lre.Lrc.Fuzzypath.{
  path_arr_max, dir_depth_max, Fuzzydirent, normal, fuzzy, parse_dirent, matches_name,
}

-- What `lstat` says of a path: S_ISREG, S_ISDIR, or neither of them.
pub data FileType : Type 0 where
  regular directory other : FileType

-- The file system, as the C library shows it: the names that `readdir` lists in a directory that
-- `opendir` opens, and `lstat`.
pub record Files : Type 0 where
  pub readdir : Word → Option (List Word)
  pub lstat : Word → Option FileType

-- A path behind those that were found before, with `;` behind it.
unfoldable pub path_add : Word → Word → Word
path_add path new = path ++ take (path_arr_max - length path - 1) (new ++ b';' ∷ [])

abbrev pub subpath_of : Word → Word → Word
subpath_of path name = path ++ b'/' ∷ name

abbrev is_dots : Word → Bool
is_dots name = same_string name (b'.' ∷ []) || same_string name (b'.' ∷ b'.' ∷ [])

-- The type of an entry that the search looks at: not the directory itself or its parent, not too
-- long, and a regular file or a directory.
unfoldable pub entry_type : Files → Word → Word → Option FileType
entry_type fs path name =
    if is_dots name || ltb path_max (length name + length path + 2)
    then none
    else elim (fs.lstat (subpath_of path name)) [
      | none ↦ none
      | some regular ↦ some regular
      | some directory ↦ some directory
      | some other ↦ none
    ]

abbrev pub is_last : List Fuzzydirent → Bool
is_last [] = true
is_last (d ∷ ds) = false

-- One entry of a directory. `deeper` searches a directory for the names that follow.
abbrev pub visit : Bool → (Word → Word → Word) → Word → FileType → Word → Word
visit true deeper sub kind out = path_add out sub
visit false deeper sub directory out = deeper sub out
visit false deeper sub kind out = out

unfoldable pub visit_entry :
    Files → Fuzzydirent → Bool → (Word → Word → Word) → Word → Word → Word → Word
visit_entry fs d last deeper path name out = elim (entry_type fs path name) [
  | none ↦ out
  | some kind ↦
      if matches_name d name then visit last deeper (subpath_of path name) kind out else out
]

unfoldable pub visit_entries :
    Files → Fuzzydirent → Bool → (Word → Word → Word) → Word → List Word → Word → Word
visit_entries fs d last deeper path [] out = out
visit_entries fs d last deeper path (name ∷ names) out =
    visit_entries fs d last deeper path names (visit_entry fs d last deeper path name out)

-- `recurse_dir` for the names from `fdir` to `depthmax`, which its callers give one of: the text in
-- `outpath`. Its callers do not look at its error.
unfoldable pub recurse_dir : Files → List Fuzzydirent → Word → Word → Word
recurse_dir fs [] path out = out
recurse_dir fs (d ∷ ds) path out = elim (fs.readdir path) [
  | none ↦ out
  | some names ↦ visit_entries fs d (is_last ds) (λ sub o. recurse_dir fs ds sub o) path names out
]

-- The names of a path, with `cnt` of them found: those that are empty are skipped. `none` is the
-- return of `-EINVAL`.
unfoldable pub parse_dirents : ℕ → List Word → Option (List Fuzzydirent)
unfolding parse_dirent
parse_dirents cnt [] = some []
parse_dirents cnt ([] ∷ ws) = parse_dirents cnt ws
parse_dirents cnt ((c ∷ w) ∷ ws) =
    let rest = parse_dirents (suc cnt) ws in
    elim (parse_dirent (c ∷ w)) [
      | none ↦ none
      | some d ↦
          if leb dir_depth_max (suc cnt)
          then none
          else elim rest [ none ↦ none | some ds ↦ some (d ∷ ds) ]
    ]

-- The loop over the names in front that have no star: the buffer, and the names that are left.
unfoldable pub real_path : List Fuzzydirent → Buffer → Buffer × List Fuzzydirent
real_path [] b = (b, [])
real_path (normal w ∷ ds) b = real_path ds (xsnprintf path_max b (w ++ b'/' ∷ []))
real_path (fuzzy f ∷ ds) b = (b, fuzzy f ∷ ds)

-- The string in `outpath`, the return of `-EINVAL`, or undefined behaviour.
pub data Searched : Type 0 where
  found : Word → Searched
  einval undefined : Searched

-- The end of `fuzzy2path` behind a search.
abbrev pub searched : Word → Searched
searched [] = einval
searched (c ∷ cs) = found (cut_end b';' (c ∷ cs))

-- The directory to search, with the slash at its end cut if names were put into the buffer. `none`
-- is a buffer that nothing was put into.
abbrev base_dir : Bool → Bool → Buffer → Option Word
base_dir walked absolute b =
    if walked then some (take (b.len - 1) b.text) else if absolute then some b.text else none

abbrev search_from : Files → List Fuzzydirent → Option Word → Searched
search_from fs ds none = undefined
search_from fs [] (some dir) = found dir
search_from fs (d ∷ ds) (some dir) = searched (recurse_dir fs (d ∷ ds) dir [])

abbrev pub starts_with_slash : Word → Bool
starts_with_slash [] = false
starts_with_slash (c ∷ cs) = c == b'/'

unfoldable pub fuzzy2path : Files → Word → Searched
fuzzy2path fs path = elim (parse_dirents 0 (split b'/' path)) [
  | none ↦ einval
  | some ds ↦
      let absolute = starts_with_slash path in
      let start = if absolute then record { text = b'/' ∷ []; len = 1 } else empty_buffer in
      let (b, rest) = real_path ds start in
      search_from fs rest (base_dir (ltb (length rest) (length ds)) absolute b)
]
