-- ===== src/Lrc/Fuzzypath.antt =====
-- The call `fuzzypath` (lrc/lrc_c_fuzzypath.c): paths whose names have stars are replaced by the
-- paths of the file system that they stand for.
pub mod Glob
pub mod Overlap
pub mod Walk
pub mod Found
pub mod Search
pub mod Call
pub mod Result
use lre.Base.{
  ℕ, suc, ◌+◌, ◌-◌, Bool, true, false, not, ◌&&◌, ◌||◌, Option, none, some, List, [], ◌∷◌, ◌++◌,
  ltb, leb, ◌==◌, if◌then◌else◌, length, take,
}
use lre.Token.{Word}
use lre.Lrc.Strings.{same_string, strstr, split, Buffer, empty_buffer, xsnprintf}

abbrev pub path_arr_max : ℕ
path_arr_max = 40960

abbrev pub dir_depth_max : ℕ
dir_depth_max = 128

abbrev pub fuzzy_point_max : ℕ
fuzzy_point_max = 4

-- struct frag: the fragments, the first and the others, and the flags.
pub record Frag : Type 0 where
  pub first_str : Word
  pub strs : List Word
  pub start_fuzzy : Bool
  pub end_fuzzy : Bool

-- struct fuzzydirent.
pub data Fuzzydirent : Type 0 where
  normal : Word → Fuzzydirent
  fuzzy : Frag → Fuzzydirent

-- The loop that collects the fragments between the stars, with `j` of them found: those that are
-- empty are skipped, but for the last. `none` is the return of `-EINVAL`.
unfoldable pub fragments : ℕ → List Word → Option (List Word)
fragments j [] = some []
fragments j (w ∷ []) = some (w ∷ [])
fragments j ([] ∷ u ∷ ws) = fragments j (u ∷ ws)
fragments j ((c ∷ w) ∷ u ∷ ws) =
    let rest = fragments (suc j) (u ∷ ws) in
    if leb fuzzy_point_max (suc j)
    then none
    else elim rest [ none ↦ none | some vs ↦ some ((c ∷ w) ∷ vs) ]

abbrev pub starts_with_star : Word → Bool
starts_with_star [] = false
starts_with_star (c ∷ cs) = c == b'*'

unfoldable pub ends_with_star : Word → Bool
ends_with_star [] = false
ends_with_star (c ∷ []) = c == b'*'
ends_with_star (c ∷ d ∷ cs) = ends_with_star (d ∷ cs)

abbrev pub frag_of : Word → List Word → Fuzzydirent
frag_of token [] = normal token
frag_of token (w ∷ ws) = fuzzy (record {
  first_str = w;
  strs = ws;
  start_fuzzy = starts_with_star token;
  end_fuzzy = ends_with_star token;
})

-- A name of the path, with the pieces between its stars.
abbrev pub dirent_of : Word → List Word → Option Fuzzydirent
dirent_of token [] = some (normal token)
dirent_of token (w ∷ []) = some (normal token)
dirent_of token (w ∷ u ∷ ws) = elim (fragments 0 (w ∷ u ∷ ws)) [
  | none ↦ none
  | some vs ↦ some (frag_of token vs)
]

unfoldable pub parse_dirent : Word → Option Fuzzydirent
unfolding split
parse_dirent token = dirent_of token (split b'*' token)

-- The loop over the fragments behind the first: each is sought from where the one before it was
-- found, and the text from the last of them on is the result.
unfoldable pub find_frags : List Word → Word → Option Word
find_frags [] ptr = some ptr
find_frags (w ∷ ws) ptr = elim (strstr ptr w) [ none ↦ none | some p ↦ find_frags ws p ]

abbrev last_str : Word → List Word → Word
last_str w [] = w
last_str w (u ∷ ws) = last_str u ws

abbrev pub ends_well : Frag → Option Word → Bool
ends_well f none = false
ends_well f (some p) = f.end_fuzzy || same_string p (last_str f.first_str f.strs)

abbrev pub matches_frag : Frag → Word → Bool
matches_frag f name = elim (strstr name f.first_str) [
  | none ↦ false
  | some p ↦ (f.start_fuzzy || length p == length name) && ends_well f (find_frags f.strs p)
]

-- Does an entry of a directory have a name that the name of the path stands for?
unfoldable pub matches_name : Fuzzydirent → Word → Bool
matches_name (normal w) name = same_string w name
matches_name (fuzzy f) name = matches_frag f name
