-- ===== src/Lrc/Fuzzypath/Call.antt =====
-- The object of a call of `fuzzypath`, its arguments, and `fuzzypath_execute`
-- (lrc/lrc_c_fuzzypath.c).
use lre.Base.{
  ℕ, zero, suc, Bool, true, false, Option, none, some, List, [], ◌∷◌, ◌++◌, leb, ◌==◌, ◌-◌,
  if◌then◌else◌, take,
}
use lre.Base.Int.{ℤ}
use lre.Token.{Word}
use lre.Value.{LreValue, string}
use lre.Lrc.Strings.{add_first, Buffer, empty_buffer, xsnprintf}
use lre.Lrc.Values.{path_max, lre_ret_ok, minus_einval, string_handler}
use lre.Lrc.Fuzzypath.{path_arr_max}
use lre.Lrc.Fuzzypath.Search.{
  Files, starts_with_slash, Searched, found, einval, undefined, fuzzy2path,
}

-- struct lrc_fuzzypath.
pub record Fuzzypath : Type 0 where
  pub basepath : Option Word
  pub path : Option Word
  pub isabspath : Bool

abbrev pub fuzzypath_constructor : Fuzzypath
fuzzypath_constructor = record { basepath = none; path = none; isabspath = false }

abbrev set_path : Word → Fuzzypath → Fuzzypath
set_path w f = record f {
  path = some w;
  isabspath = if starts_with_slash w then true else f.isabspath;
}

module _ {D : Type 0} where
  abbrev pub arg_basepath_handler : Fuzzypath → LreValue D → ℤ × Fuzzypath
  arg_basepath_handler = string_handler (λ w f. record f { basepath = some w })

  abbrev pub arg_path_handler : Fuzzypath → LreValue D → ℤ × Fuzzypath
  arg_path_handler = string_handler set_path

-- `PATH_CNT_MAX - 1`: so many paths are cut off a list of paths, and the last takes what is left.
abbrev pub path_cuts : ℕ
path_cuts = 1023

-- The loop that cuts a list of paths at `;`, up to `n` times.
unfoldable pub split_paths : ℕ → Word → List Word
split_paths zero w = w ∷ []
split_paths (suc n) [] = [] ∷ []
split_paths (suc n) (c ∷ cs) =
    if c == b';' then [] ∷ split_paths n cs else add_first c (split_paths (suc n) cs)

abbrev path_start : Option Word → Buffer
path_start none = empty_buffer
path_start (some w) = xsnprintf path_max empty_buffer (w ++ b'/' ∷ [])

-- The string in `path`, which is searched for. `none` is a write behind its end.
abbrev pub path_of : Option Word → Word → Option Word
path_of basepath path =
    let b = xsnprintf path_max (path_start basepath) path in
    if leb path_max b.len then none else some b.text

-- One round: `outpath` behind the search for a path.
abbrev pub collect : Buffer → Searched → Option Buffer
collect out (found w) = some (xsnprintf path_arr_max out (w ++ b';' ∷ []))
collect out einval = some out
collect out undefined = none

unfoldable pub search_path : Files → Option Word → Word → Buffer → Option Buffer
search_path fs basepath path out = elim (path_of basepath path) [
  | none ↦ none
  | some w ↦ collect out (fuzzy2path fs w)
]

-- The loop over the paths behind one base path.
unfoldable pub search_paths : Files → Option Word → List Word → Buffer → Option Buffer
search_paths fs basepath [] out = some out
search_paths fs basepath (p ∷ ps) out = elim (search_path fs basepath p out) [
  | none ↦ none
  | some out' ↦ search_paths fs basepath ps out'
]

unfoldable pub search_all : Files → List Word → List Word → Buffer → Option Buffer
search_all fs [] paths out = some out
search_all fs (b ∷ bs) paths out = elim (search_paths fs (some b) paths out) [
  | none ↦ none
  | some out' ↦ search_all fs bs paths out'
]

-- `outpath[outlen - 1] = '\0'`, if anything was written.
abbrev pub out_text : Buffer → Word
out_text b = if leb b.len 0 then b.text else take (b.len - 1) b.text

abbrev pub search_bases : Files → Fuzzypath → List Word → Option Buffer
search_bases fs f paths =
    if f.isabspath then search_paths fs none paths empty_buffer else elim f.basepath [
      | none ↦ search_paths fs none paths empty_buffer
      | some b ↦ search_all fs (split_paths path_cuts b) paths empty_buffer
    ]

-- What it returns and the value that it sets; `none` is undefined behaviour.
unfoldable pub fuzzypath_execute :
    {D : Type 0} → Files → Fuzzypath → LreValue D → Option (ℤ × LreValue D)
fuzzypath_execute fs f val = elim f.path [
  | none ↦ some (minus_einval, val)
  | some p ↦ elim (search_bases fs f (split_paths path_cuts p)) [
    | none ↦ none
    | some out ↦ some (lre_ret_ok, string (out_text out))
  ]
]
