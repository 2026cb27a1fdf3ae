-- ===== src/Lrc/Fuzzypath/Overlap.antt =====
-- Names with one star, as `fuzzy2path` and `recurse_dir` (lrc/lrc_c_fuzzypath.c) take them: a prefix
-- is exact, but the fragments around a star may overlap, and a name is refused if its end stands
-- in it twice.
use lre.Base.{
  ℕ, Bool, true, false, ◌&&◌, ◌||◌, Option, none, some, List, [], ◌∷◌, ◌++◌, ◌≡◌, refl, sym, ap,
  ◌∙◌, subst, ◌<◌, ◌≤◌, length-append, ◌==◌, if◌then◌else◌, length, arith, ==_refl, append-nil,
  Bool-cases, inl, inr,
}
use lre.Token.{Word}
use lre.Macro.Content.{is_prefix}
use lre.Macro.Content.Expansion.{is_prefix-append}
use lre.Lrc.Strings.{same_string, strstr, split}
use lre.Lrc.Fuzzypath.{
  Frag, fuzzy, fragments, ends_with_star, parse_dirent, find_frags, ends_well, matches_frag,
  matches_name,
}
use lre.Lrc.Fuzzypath.Glob.{Glob, strstr-front, or_true, same_string_refl, taken}

unfoldable pub no_star : Word → Bool
no_star [] = true
no_star (c ∷ cs) = if c == b'*' then false else no_star cs

split-plain : (w : Word) → no_star w ≡ true → split b'*' w ≡ w ∷ []
unfolding split no_star
split-plain [] h = refl
split-plain (c ∷ w) h = ground (arith, split-plain w)

split-star : (w t : Word) → no_star w ≡ true → split b'*' (w ++ b'*' ∷ t) ≡ w ∷ split b'*' t
unfolding split no_star
split-star [] t h = refl
split-star (c ∷ w) t h = ground (arith, split-star w t)

ends_with_star-plain : (w : Word) → no_star w ≡ true → ends_with_star w ≡ false
unfolding ends_with_star no_star
ends_with_star-plain [] h = refl
ends_with_star-plain (c ∷ []) h = ground arith
ends_with_star-plain (c ∷ d ∷ w) h = ground (arith, ends_with_star-plain (d ∷ w))

ends_with_star-append :
    (w : Word) (c : ℕ) (t : Word) → ends_with_star (w ++ c ∷ t) ≡ ends_with_star (c ∷ t)
unfolding ends_with_star
ends_with_star-append [] c t = refl
ends_with_star-append (a ∷ []) c t = refl
ends_with_star-append (a ∷ b ∷ w) c t = ends_with_star-append (b ∷ w) c t

same_string-eq : (v w : Word) → same_string v w ≡ true → v ≡ w
unfolding same_string
same_string-eq [] [] h = refl
same_string-eq [] (d ∷ w) h = cc
same_string-eq (c ∷ v) [] h = cc
same_string-eq (c ∷ v) (d ∷ w) h = ground (arith, same_string-eq v w)

longer : (c : ℕ) (w : Word) → same_string ((c ∷ w) ++ (c ∷ w)) (c ∷ w) ≡ false
longer c w = elim (Bool-cases (same_string ((c ∷ w) ++ (c ∷ w)) (c ∷ w))) [
  | inr h ↦ h
  | inl h ↦
      let e = ap length (same_string-eq ((c ∷ w) ++ (c ∷ w)) (c ∷ w) h) in
      absurd (omega (arith, e, length-append w (c ∷ w)))
]

is_prefix_refl : (w : Word) → is_prefix w w ≡ true
is_prefix_refl w = ap (is_prefix w) (sym (append-nil w)) ∙ is_prefix-append w []

no_star-first : (c : ℕ) (w : Word) → no_star (c ∷ w) ≡ true → (c == b'*') ≡ false
unfolding no_star
no_star-first c w h = ground arith

strstr-length : (t w p : Word) → strstr t w ≡ some p → length p ≤ length t
unfolding strstr
strstr-length [] w p h = go (is_prefix w []) h
  where
    go : (b : Bool) → (if b then some [] else none) ≡ some p → length p ≤ 0
    go true e = let q : p ≡ [] = cc in let l = ap length q in omega arith
    go false e = ground arith
strstr-length (c ∷ t) w p h = ground (arith, strstr-length t w p)

abbrev first_only : Bool → Word → List Word → Bool → Frag
first_only start w ws ends = record {
  first_str = w;
  strs = ws;
  start_fuzzy = start;
  end_fuzzy = ends;
}

abbrev around : Word → Word → Bool → Frag
around w u ends = first_only false w (u ∷ []) ends

-- Fragments that stand at the front.
matches_frag-front :
    (w u name : Word) (ends : Bool)
    → is_prefix w name ≡ true
    → is_prefix u name ≡ true
    → matches_frag (around w u ends) name ≡ (ends || same_string name u)
unfolding find_frags
matches_frag-front w u name ends h k =
    rw
      (
        strstr-front name w h,
        strstr-front name u k,
        ==_refl (length name),
        find_frags,
        matches_frag,
      )
      refl

matches_frag-end :
    (w name : Word)
    → is_prefix w name ≡ true
    → matches_frag (first_only true w [] false) name ≡ same_string name w
unfolding find_frags
matches_frag-end w name h = rw (strstr-front name w h, matches_frag) refl

-- A word that does not stand at the front is found further on.
strstr-later : (t w p : Word) → is_prefix w t ≡ false → strstr t w ≡ some p → length p < length t
unfolding strstr
strstr-later [] w p h e = ground arith
strstr-later (c ∷ t) w p h e = ground (arith, strstr-length t w p)

matches_frag-prefix : (w name : Word) → matches_frag (around w [] true) name ≡ is_prefix w name
unfolding is_prefix
matches_frag-prefix w name = elim (Bool-cases (is_prefix w name)) [
  | inl h ↦ matches_frag-front w [] name true h refl ∙ sym h
  | inr h ↦ go (strstr name w) (λ p. strstr-later name w p h) ∙ sym h
]
  where
    go :
        (r : Option Word)
        → ((p : Word) → r ≡ some p → length p < length name)
        → elim r [
          | none ↦ false
          | some p ↦
              length p == length name && ends_well (around w [] true) (find_frags ([] ∷ []) p)
        ]
          ≡ false
    go none k = refl
    go (some p) k = let l = k p refl in ground arith

module _ (c : ℕ) (w : Word) (plain : no_star (c ∷ w) ≡ true) where
  split-around : split b'*' ((c ∷ w) ++ b'*' ∷ c ∷ w) ≡ (c ∷ w) ∷ (c ∷ w) ∷ []
  split-around =
      split-star (c ∷ w) (c ∷ w) plain ∙ ap (λ l. (c ∷ w) ∷ l) (split-plain (c ∷ w) plain)

  parse_dirent-around :
      (t : Word)
      → no_star t ≡ true
      → parse_dirent ((c ∷ w) ++ b'*' ∷ t)
        ≡ some (fuzzy (around (c ∷ w) t (ends_with_star (b'*' ∷ t))))
  unfolding parse_dirent fragments
  parse_dirent-around t h =
      rw
        (
          split-star (c ∷ w) t plain,
          split-plain t h,
          ends_with_star-append (c ∷ w) b'*' t,
          no_star-first c w plain,
        )
        refl

  Glob-short : ¬ (Glob ((c ∷ w) ∷ (c ∷ w) ∷ []) (c ∷ w))
  unfolding Glob
  Glob-short (gap, rest, e, f) =
      let lengths = ap length e in
      let rests = ap length f in
      omega (arith, lengths, rests, length-append w (gap ++ rest), length-append gap rest)

  -- The two fragments around a star may be the same text: a name that is only the first of them is
  -- taken, though it is not what the path stands for.
  pub taken-overlap :
      (taken (parse_dirent ((c ∷ w) ++ b'*' ∷ c ∷ w)) (c ∷ w) ≡ some true)
      × (¬ (Glob (split b'*' ((c ∷ w) ++ b'*' ∷ c ∷ w)) (c ∷ w)))
  unfolding matches_name
  taken-overlap = (
    rw (parse_dirent-around (c ∷ w) plain) (
        ap some (
          matches_frag-front (c ∷ w) (c ∷ w) (c ∷ w) _ (is_prefix_refl (c ∷ w))
            (is_prefix_refl (c ∷ w))
          ∙ rw (same_string_refl (c ∷ w)) (or_true _))),
    λ g. Glob-short (subst (λ l. Glob l (c ∷ w)) split-around g),
  )

  parse_dirent-end : parse_dirent (b'*' ∷ c ∷ w) ≡ some (fuzzy (first_only true (c ∷ w) [] false))
  unfolding parse_dirent fragments ends_with_star
  parse_dirent-end = rw (split-plain (c ∷ w) plain, ends_with_star-plain (c ∷ w) plain, split) refl

  split-end : split b'*' (b'*' ∷ c ∷ w) ≡ [] ∷ (c ∷ w) ∷ []
  unfolding split
  split-end = ap (λ l. [] ∷ l) (split-plain (c ∷ w) plain)

  -- A name that ends in the text behind a star is refused if it also begins with that text.
  taken-repeated :
      (taken (parse_dirent (b'*' ∷ c ∷ w)) ((c ∷ w) ++ (c ∷ w)) ≡ some false)
      × Glob (split b'*' (b'*' ∷ c ∷ w)) ((c ∷ w) ++ (c ∷ w))
  unfolding Glob matches_name find_frags
  taken-repeated = (
    rw parse_dirent-end (
        ap some (
          matches_frag-end (c ∷ w) ((c ∷ w) ++ (c ∷ w)) (is_prefix-append (c ∷ w) (c ∷ w))
          ∙ longer c w)),
    subst (λ l. Glob l ((c ∷ w) ++ (c ∷ w))) (sym split-end) (c ∷ w, c ∷ w, refl, refl),
  )

  -- A name that ends in its only star takes the names that begin with the text before it.
  taken-prefix :
      (name : Word)
      → taken (parse_dirent ((c ∷ w) ++ b'*' ∷ [])) name ≡ some (is_prefix (c ∷ w) name)
  unfolding no_star matches_name ends_with_star
  taken-prefix name = rw (parse_dirent-around [] refl) (ap some (matches_frag-prefix (c ∷ w) name))
