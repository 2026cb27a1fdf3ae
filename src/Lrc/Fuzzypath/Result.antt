-- ===== src/Lrc/Fuzzypath/Result.antt =====
-- The value that a call of `fuzzypath` gives (lrc/lrc_c_fuzzypath.c).
use lre.Base.{
  ℕ, ◌<◌, Bool, true, false, Option, none, some, List, [], ◌∷◌, ◌++◌, ◌≡◌, refl, sym, ap, ◌∙◌,
  subst, leb, if◌then◌else◌, arith, length, length-append, append_assoc, append-nil,
}
use lre.Base.Int.{ℤ}
use lre.Token.{Word}
use lre.Value.{LreValue, string}
use lre.Lrc.Strings.{join, Buffer, empty_buffer}
use lre.Lrc.Strings.Printing.{
  IsPrinted, empty_buffer-IsPrinted, xsnprintf-IsPrinted, IsPrinted-put_list, put_list,
  put_list-append, cut_printed,
}
use lre.Lrc.Values.{lre_ret_ok, minus_einval}
use lre.Lrc.Fuzzypath.{path_arr_max}
use lre.Lrc.Fuzzypath.Search.{Files, Searched, found, einval, undefined, fuzzy2path}
use lre.Lrc.Fuzzypath.Call.{
  Fuzzypath, path_cuts, split_paths, path_of, collect, search_path, search_paths, search_all,
  search_bases, out_text, fuzzypath_execute,
}

-- What the searches for some paths find, one after the other; `none` is an undefined one.
abbrev pub with_hit : Searched → Option (List Word) → Option (List Word)
with_hit (found w) none = none
with_hit (found w) (some vs) = some (w ∷ vs)
with_hit einval hits = hits
with_hit undefined hits = none

abbrev pub searched_for : Files → Option Word → Searched
searched_for fs none = undefined
searched_for fs (some w) = fuzzy2path fs w

unfoldable pub hits : Files → Option Word → List Word → Option (List Word)
hits fs basepath [] = some []
hits fs basepath (p ∷ ps) = with_hit (searched_for fs (path_of basepath p)) (hits fs basepath ps)

abbrev pub both : Option (List Word) → Option (List Word) → Option (List Word)
both (some vs) (some ws) = some (vs ++ ws)
both _ _ = none

unfoldable pub all_hits : Files → List Word → List Word → Option (List Word)
all_hits fs [] paths = some []
all_hits fs (b ∷ bs) paths = both (hits fs (some b) paths) (all_hits fs bs paths)

abbrev pub hits_of : Files → Fuzzypath → List Word → Option (List Word)
hits_of fs f paths = if f.isabspath then hits fs none paths else elim f.basepath [
  | none ↦ hits fs none paths
  | some b ↦ all_hits fs (split_paths path_cuts b) paths
]

-- The run of the searches ends with a buffer to which the paths were printed.
pub Prints : Word → List Word → Option Buffer → Type 0
Prints t vs r = (b : Buffer) × (r ≡ some b) × IsPrinted path_arr_max (t ++ put_list vs) b

abbrev and_then : Option Buffer → (Buffer → Option Buffer) → Option Buffer
and_then none k = none
and_then (some b) k = k b

search_path-collect :
    (fs : Files) (basepath : Option Word) (p : Word) (out : Buffer)
    → search_path fs basepath p out ≡ collect out (searched_for fs (path_of basepath p))
unfolding search_path
search_path-collect fs basepath p out = go (path_of basepath p)
  where
    go :
        (o : Option Word)
        → (elim o as (λ _. Option Buffer) [ none ↦ none | some w ↦ collect out (fuzzy2path fs w) ])
          ≡ collect out (searched_for fs o)
    go none = refl
    go (some w) = refl

search_paths-step :
    (fs : Files) (basepath : Option Word) (p : Word) (ps : List Word) (out : Buffer)
    → search_paths fs basepath (p ∷ ps) out
      ≡ and_then (collect out (searched_for fs (path_of basepath p))) (search_paths fs basepath ps)
unfolding search_paths
search_paths-step fs basepath p ps out =
    go (search_path fs basepath p out)
    ∙ ap (λ r. and_then r (search_paths fs basepath ps)) (search_path-collect fs basepath p out)
  where
    go :
        (r : Option Buffer)
        → (elim r as (λ _. Option Buffer) [
          | none ↦ none
          | some out' ↦ search_paths fs basepath ps out'
        ])
          ≡ and_then r (search_paths fs basepath ps)
    go none = refl
    go (some b) = refl

-- One search, with the others behind it.
and_then-Prints :
    (s : Searched) (r : Option (List Word)) (vs : List Word) (t : Word) (b : Buffer)
    (rest : Buffer → Option Buffer)
    → ((us : List Word) (u : Word) (c : Buffer)
        → r ≡ some us
        → IsPrinted path_arr_max u c
        → Prints u us (rest c))
    → with_hit s r ≡ some vs
    → IsPrinted path_arr_max t b
    → Prints t vs (and_then (collect b s) rest)
unfolding Prints
and_then-Prints (found w) none vs t b rest ih e h = absurd cc
and_then-Prints (found w) (some us) vs t b rest ih e h =
    let q : w ∷ us ≡ vs = cc in
    let (c, f, k) =
      ih us (t ++ (w ++ b';' ∷ [])) _ refl
        (xsnprintf-IsPrinted path_arr_max t (w ++ b';' ∷ []) b h) in
    (
      c,
      f,
      subst (λ x. IsPrinted path_arr_max (t ++ put_list x) c) q
          (IsPrinted-put_list path_arr_max t w us c k),
    )
and_then-Prints einval r vs t b rest ih e h = ih vs t b e h
and_then-Prints undefined r vs t b rest ih e h = absurd cc

search_paths-Prints :
    (fs : Files) (basepath : Option Word) (ps : List Word) (vs : List Word) (t : Word) (b : Buffer)
    → hits fs basepath ps ≡ some vs
    → IsPrinted path_arr_max t b
    → Prints t vs (search_paths fs basepath ps b)
unfolding Prints hits search_paths put_list
search_paths-Prints fs basepath [] vs t b e h =
    let q : [] ≡ vs = cc in
    (b, refl, subst (λ x. IsPrinted path_arr_max (t ++ put_list x) b) q (rw (append-nil t) h))
search_paths-Prints fs basepath (p ∷ ps) vs t b e h =
    let (c, f, k) =
      and_then-Prints (searched_for fs (path_of basepath p)) (hits fs basepath ps) vs t b
        (search_paths fs basepath ps) (λ us u c. search_paths-Prints fs basepath ps us u c) e h in
    (c, search_paths-step fs basepath p ps b ∙ f, k)

both-some :
    (r q : Option (List Word)) (vs : List Word)
    → both r q ≡ some vs
    → (us : List Word) × (ws : List Word) × (r ≡ some us) × (q ≡ some ws) × (us ++ ws ≡ vs)
both-some none q vs h = absurd cc
both-some (some us) none vs h = absurd cc
both-some (some us) (some ws) vs h = (us, ws, refl, refl, cc)

search_all-step :
    (fs : Files) (base : Word) (bs ps : List Word) (b : Buffer)
    → search_all fs (base ∷ bs) ps b
      ≡ and_then (search_paths fs (some base) ps b) (search_all fs bs ps)
unfolding search_all
search_all-step fs base bs ps b = go (search_paths fs (some base) ps b)
  where
    go :
        (r : Option Buffer)
        → (elim r as (λ _. Option Buffer) [ none ↦ none | some b' ↦ search_all fs bs ps b' ])
          ≡ and_then r (search_all fs bs ps)
    go none = refl
    go (some c) = refl

search_all-Prints :
    (fs : Files) (bs ps : List Word) (vs : List Word) (t : Word) (b : Buffer)
    → all_hits fs bs ps ≡ some vs
    → IsPrinted path_arr_max t b
    → Prints t vs (search_all fs bs ps b)
unfolding Prints all_hits search_all put_list
search_all-Prints fs [] ps vs t b e h =
    let q : [] ≡ vs = cc in
    (b, refl, subst (λ x. IsPrinted path_arr_max (t ++ put_list x) b) q (rw (append-nil t) h))
search_all-Prints fs (base ∷ bs) ps vs t b e h =
    let (us, ws, r, q, g) = both-some (hits fs (some base) ps) (all_hits fs bs ps) vs e in
    let (c, f, k) = search_paths-Prints fs (some base) ps us t b r h in
    let (d, f', k') = search_all-Prints fs bs ps ws (t ++ put_list us) c q k in
    (
      d,
      search_all-step fs base bs ps b ∙ ap (λ o. and_then o (search_all fs bs ps)) f ∙ f',
      subst (λ x. IsPrinted path_arr_max x d)
          (append_assoc t (put_list us) (put_list ws)
            ∙ ap (λ x. t ++ x) (sym (put_list-append us ws) ∙ ap put_list g))
          k',
    )

search_bases-Prints :
    (fs : Files) (f : Fuzzypath) (ps vs : List Word)
    → hits_of fs f ps ≡ some vs
    → Prints [] vs (search_bases fs f ps)
search_bases-Prints fs f ps vs e = go f.isabspath f.basepath e
  where
    go :
        (abs : Bool) (o : Option Word)
        → (if abs then hits fs none ps else elim o as (λ _. Option (List Word)) [
          | none ↦ hits fs none ps
          | some b ↦ all_hits fs (split_paths path_cuts b) ps
        ])
          ≡ some vs
        → Prints [] vs (
            if abs then search_paths fs none ps empty_buffer else elim o as (λ _. Option Buffer) [
              | none ↦ search_paths fs none ps empty_buffer
              | some b ↦ search_all fs (split_paths path_cuts b) ps empty_buffer
            ])
    go true o h =
        search_paths-Prints fs none ps vs [] empty_buffer h (empty_buffer-IsPrinted path_arr_max)
    go false none h =
        search_paths-Prints fs none ps vs [] empty_buffer h (empty_buffer-IsPrinted path_arr_max)
    go false (some b) h =
        search_all-Prints fs (split_paths path_cuts b) ps vs [] empty_buffer h
          (empty_buffer-IsPrinted path_arr_max)

not-leb : (n : ℕ) → 0 < n → leb n 0 ≡ false
not-leb n h = ground arith

out_text-join :
    (v : Word) (vs : List Word) (b : Buffer)
    → IsPrinted path_arr_max (put_list (v ∷ vs)) b
    → length (put_list (v ∷ vs)) < path_arr_max
    → out_text b ≡ join b';' (v ∷ vs)
unfolding put_list
out_text-join v vs b k l =
    let m = length-append v (b';' ∷ put_list vs) in
    let some_len : 0 < b.len = omega (arith, k.len_eq, m) in
    rw (not-leb b.len some_len) (cut_printed path_arr_max v vs b k l)

-- A call gives what the searches find for each base path with each path, in this order, with `;`
-- between, where something is found, no search is undefined, and the paths have room.
pub fuzzypath_execute-join :
    (D : Type 0) (fs : Files) (f : Fuzzypath) (val : LreValue D) (p v : Word) (vs : List Word)
    → f.path ≡ some p
    → hits_of fs f (split_paths path_cuts p) ≡ some (v ∷ vs)
    → length (put_list (v ∷ vs)) < path_arr_max
    → fuzzypath_execute fs f val ≡ some (lre_ret_ok, string (join b';' (v ∷ vs)))
unfolding fuzzypath_execute Prints
fuzzypath_execute-join D fs f val p v vs h e l =
    let (b, g, k) = search_bases-Prints fs f (split_paths path_cuts p) (v ∷ vs) e in
    ap {B = Option (ℤ × LreValue D)}
      (λ o. elim o as (λ _. Option (ℤ × LreValue D)) [
        | none ↦ some (minus_einval, val)
        | some q ↦ given (search_bases fs f (split_paths path_cuts q))
      ])
      h
    ∙ ap given g
    ∙ ap (λ x. some (lre_ret_ok, string x)) (out_text-join v vs b k l)
  where
    given : Option Buffer → Option (ℤ × LreValue D)
    given r = elim r as (λ _. Option (ℤ × LreValue D)) [
      | none ↦ none
      | some out ↦ some (lre_ret_ok, string (out_text out))
    ]
