-- ===== src/Lrc/Fuzzypath/Glob.antt =====
-- What a name with stars stands for, and which names `recurse_dir` (lrc/lrc_c_fuzzypath.c) takes.
use lre.Base.{
  ℕ, suc, Bool, true, false, ◌&&◌, ◌||◌, Option, none, some, List, [], ◌∷◌, ◌++◌, ◌≡◌, refl, sym,
  ap, ◌∙◌, leb, ◌==◌, if◌then◌else◌, length, ==_refl, append_assoc, append-nil, Bool-cases, inl,
  inr,
}
use lre.Token.{Word}
use lre.Macro.Content.{is_prefix}
use lre.Macro.Content.Expansion.{is_prefix-append}
use lre.Lrc.Strings.{same_string, strstr, split, join, join-split, IsPieces, pieces, add_first}
use lre.Lrc.Fuzzypath.{
  fuzzy_point_max, Frag, Fuzzydirent, normal, fragments, starts_with_star, ends_with_star, frag_of,
  dirent_of, parse_dirent, find_frags, ends_well, matches_frag, matches_name,
}

-- The names that a name with stars stands for, given by the pieces between the stars: any text may
-- stand in place of a star.
unfoldable pub Glob : List Word → Word → Type 0
Glob [] name = ⊥
Glob (w ∷ []) name = name ≡ w
Glob (w ∷ u ∷ ws) name =
    (gap : Word) × (rest : Word) × (name ≡ w ++ (gap ++ rest)) × Glob (u ∷ ws) rest

-- The fragments that are kept: all but the empty ones, and the last.
unfoldable pub kept : List Word → List Word
kept [] = []
kept (w ∷ []) = w ∷ []
kept ([] ∷ u ∷ ws) = kept (u ∷ ws)
kept ((c ∷ w) ∷ u ∷ ws) = (c ∷ w) ∷ kept (u ∷ ws)

fragments-kept : (j : ℕ) (ws vs : List Word) → fragments j ws ≡ some vs → vs ≡ kept ws
unfolding fragments kept
fragments-kept j [] vs h = cc
fragments-kept j (w ∷ []) vs h = cc
fragments-kept j ([] ∷ u ∷ ws) vs h = fragments-kept j (u ∷ ws) vs h
fragments-kept j ((c ∷ w) ∷ u ∷ ws) vs h =
    go (leb fuzzy_point_max (suc j)) (fragments (suc j) (u ∷ ws)) (fragments-kept (suc j) (u ∷ ws))
      h
  where
    go :
        (b : Bool) (r : Option (List Word))
        → ((us : List Word) → r ≡ some us → us ≡ kept (u ∷ ws))
        → (if b then none else elim r [ none ↦ none | some us ↦ some ((c ∷ w) ∷ us) ]) ≡ some vs
        → vs ≡ (c ∷ w) ∷ kept (u ∷ ws)
    go true r ih e = cc
    go false none ih e = cc
    go false (some us) ih e = let k = ih us refl in cc

pub strstr-front : (t w : Word) → is_prefix w t ≡ true → strstr t w ≡ some t
unfolding strstr
strstr-front [] w h = rw h refl
strstr-front (c ∷ t) w h = rw h refl

-- A word that stands in the text is found, there or before.
strstr-found :
    (x w post : Word) → (y : Word) × (strstr (x ++ (w ++ post)) w ≡ some (y ++ (w ++ post)))
unfolding strstr
strstr-found [] w post = ([], strstr-front (w ++ post) w (is_prefix-append w post))
strstr-found (c ∷ x) w post = go (is_prefix w (c ∷ (x ++ (w ++ post)))) (strstr-found x w post)
  where
    go :
        (b : Bool)
        → (y : Word) × (strstr (x ++ (w ++ post)) w ≡ some (y ++ (w ++ post)))
        → (y : Word) × ((if b then some (c ∷ (x ++ (w ++ post))) else strstr (x ++ (w ++ post)) w)
            ≡ some (y ++ (w ++ post)))
    go true ih = (c ∷ x, refl)
    go false ih = ih

find_frags-step :
    (ws : List Word) (t w p : Word) → strstr t w ≡ some p → find_frags (w ∷ ws) t ≡ find_frags ws p
unfolding find_frags
find_frags-step ws t w p h = rw (h, find_frags) refl

-- The fragments of a name that fits are found in it, whatever stands before it.
find_frags-Glob :
    (ws : List Word) (x name : Word)
    → Glob ws name
    → (p : Word) × (find_frags (kept ws) (x ++ name) ≡ some p)
unfolding Glob kept find_frags
find_frags-Glob [] x name h = elim h [ ]
find_frags-Glob (w ∷ []) x name h =
    let (y, e) = strstr-found x w [] in
    (
      y ++ (w ++ []),
      find_frags-step [] (x ++ name) w _ (ap (λ n. strstr (x ++ n) w) (h ∙ sym (append-nil w)) ∙ e),
    )
find_frags-Glob ([] ∷ u ∷ ws) x name (gap, rest, e, h) =
    let (p, q) = find_frags-Glob (u ∷ ws) (x ++ gap) rest h in
    (p, ap (find_frags (kept (u ∷ ws))) (ap (λ n. x ++ n) e ∙ sym (append_assoc x gap rest)) ∙ q)
find_frags-Glob ((c ∷ w) ∷ u ∷ ws) x name (gap, rest, e, h) =
    let (y, f) = strstr-found x (c ∷ w) (gap ++ rest) in
    let (p, q) = find_frags-Glob (u ∷ ws) (y ++ ((c ∷ w) ++ gap)) rest h in
    (
      p,
      find_frags-step _ (x ++ name) (c ∷ w) _ (ap (λ n. strstr (x ++ n) (c ∷ w)) e ∙ f)
          ∙ ap (find_frags (kept (u ∷ ws))) (
              sym (
                append_assoc y ((c ∷ w) ++ gap) rest
                ∙ ap (λ t. y ++ t) (append_assoc (c ∷ w) gap rest)))
          ∙ q,
    )

add_first-ne : (c : ℕ) (ws vs : List Word) → add_first c ws ≡ [] ∷ vs → ⊥
add_first-ne c [] vs h = cc
add_first-ne c (w ∷ ws) vs h = cc

-- A first piece that is empty, with others behind it, stands before a star at the front.
starts-split :
    (t u : Word) (ws : List Word) → split b'*' t ≡ [] ∷ u ∷ ws → starts_with_star t ≡ true
unfolding split
starts-split [] u ws h = cc
starts-split (c ∷ t) u ws h = elim (Bool-cases (c == b'*')) [
  | inl e ↦ e
  | inr e ↦ absurd (
      add_first-ne c (split b'*' t) (u ∷ ws) (
        ap {B = List Word} (λ b. if b then [] ∷ split b'*' t else add_first c (split b'*' t))
          (sym e)
        ∙ h))
]

pub same_string_refl : (w : Word) → same_string w w ≡ true
unfolding same_string
same_string_refl [] = refl
same_string_refl (c ∷ w) = rw (==_refl c) (same_string_refl w)

pub or_true : (b : Bool) → (b || true) ≡ true
or_true true = refl
or_true false = refl

-- A name that begins with a star.
matches_frag-open :
    (f : Frag) (name p : Word)
    → f.start_fuzzy ≡ true
    → f.end_fuzzy ≡ true
    → find_frags (f.first_str ∷ f.strs) name ≡ some p
    → matches_frag f name ≡ true
unfolding find_frags
matches_frag-open f name p s e h = go (strstr name f.first_str) h
  where
    go :
        (r : Option Word)
        → (elim r [ none ↦ none | some q ↦ find_frags f.strs q ]) ≡ some p
        → (elim r [
          | none ↦ false
          | some q ↦ (f.start_fuzzy || length q == length name) && ends_well f (find_frags f.strs q)
        ])
          ≡ true
    go none k = cc
    go (some q) k = rw (s, k, e) refl

-- A name that begins with a fragment.
matches_frag-front :
    (f : Frag) (name p : Word)
    → f.end_fuzzy ≡ true
    → is_prefix f.first_str name ≡ true
    → find_frags f.strs name ≡ some p
    → matches_frag f name ≡ true
matches_frag-front f name p e s h =
    rw
      (
        strstr-front name f.first_str s,
        h,
        e,
        ==_refl (length name),
        or_true f.start_fuzzy,
        matches_frag,
      )
      refl

kept-IsPieces : (u : Word) (ws : List Word) → IsPieces (kept (u ∷ ws))
unfolding kept
kept-IsPieces u [] = pieces u []
kept-IsPieces [] (v ∷ ws) = kept-IsPieces v ws
kept-IsPieces (c ∷ u) (v ∷ ws) = pieces _ _

dirent-kept :
    (token : Word) (d : Fuzzydirent) (w u : Word) (ws : List Word)
    → dirent_of token (w ∷ u ∷ ws) ≡ some d
    → d ≡ frag_of token (kept (w ∷ u ∷ ws))
dirent-kept token d w u ws h = go (fragments 0 (w ∷ u ∷ ws)) (fragments-kept 0 (w ∷ u ∷ ws)) h
  where
    go :
        (r : Option (List Word))
        → ((us : List Word) → r ≡ some us → us ≡ kept (w ∷ u ∷ ws))
        → (elim r [ none ↦ none | some us ↦ some (frag_of token us) ]) ≡ some d
        → d ≡ frag_of token (kept (w ∷ u ∷ ws))
    go none k e = cc
    go (some us) k e = let f = k us refl in cc

module _ (token name : Word) (ends : ends_with_star token ≡ true) where
  matches_name-open :
      (vs : List Word) (p : Word)
      → IsPieces vs
      → starts_with_star token ≡ true
      → find_frags vs name ≡ some p
      → matches_name (frag_of token vs) name ≡ true
  unfolding matches_name
  matches_name-open _ p (pieces w ws) s h = matches_frag-open _ name p s ends h

  matches_name-kept :
      (w u : Word) (ws : List Word)
      → split b'*' token ≡ w ∷ u ∷ ws
      → Glob (w ∷ u ∷ ws) name
      → matches_name (frag_of token (kept (w ∷ u ∷ ws))) name ≡ true
  unfolding matches_name kept Glob
  matches_name-kept [] u ws cut h =
      let (p, e) = find_frags-Glob ([] ∷ u ∷ ws) [] name h in
      matches_name-open (kept (u ∷ ws)) p (kept-IsPieces u ws) (starts-split token u ws cut) e
  matches_name-kept (c ∷ w) u ws cut (gap, rest, e, h) =
      let (p, f) = find_frags-Glob (u ∷ ws) ((c ∷ w) ++ gap) rest h in
      matches_frag-front _ name p ends
        (ap (is_prefix (c ∷ w)) e ∙ is_prefix-append (c ∷ w) (gap ++ rest))
        (ap (find_frags (kept (u ∷ ws))) (e ∙ sym (append_assoc (c ∷ w) gap rest)) ∙ f)

  matches_name-dirent :
      (d : Fuzzydirent) (ws : List Word)
      → split b'*' token ≡ ws
      → dirent_of token ws ≡ some d
      → Glob ws name
      → matches_name d name ≡ true
  unfolding Glob matches_name join
  matches_name-dirent d [] cut h g = absurd g
  matches_name-dirent d (w ∷ []) cut h g =
      let whole : w ≡ token = sym (ap (join b'*') cut) ∙ join-split b'*' token in
      let plain : d ≡ normal token = cc in
      ap (λ x. matches_name x name) plain
      ∙ ap (same_string token) (g ∙ whole)
      ∙ same_string_refl token
  matches_name-dirent d (w ∷ u ∷ ws) cut h g =
      ap (λ x. matches_name x name) (dirent-kept token d w u ws h) ∙ matches_name-kept w u ws cut g

  -- A name whose last byte is a star takes every name that it stands for.
  pub matches_name-Glob :
      (d : Fuzzydirent)
      → parse_dirent token ≡ some d
      → Glob (split b'*' token) name
      → matches_name d name ≡ true
  unfolding parse_dirent
  matches_name-Glob d h g = matches_name-dirent d (split b'*' token) refl h g

-- Is a name taken for a name of the path? `none` is a name of the path that is refused.
abbrev pub taken : Option Fuzzydirent → Word → Option Bool
taken none name = none
taken (some d) name = some (matches_name d name)
