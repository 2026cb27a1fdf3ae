-- ===== src/Lrc/Fuzzypath/Walk.antt =====
-- The paths that the search of `fuzzypath` finds, against a relation that says which those are.
use lre.Base.{
  Bool, true, false, Option, none, some, List, [], ◌∷◌, ◌++◌, ◌≡◌, refl, sym, ap, ◌∙◌,
  if◌then◌else◌,
}
use lre.Token.{Word}
use lre.Lrc.Fuzzypath.{Fuzzydirent, matches_name}
use lre.Lrc.Fuzzypath.Search.{
  FileType, regular, directory, other, Files, path_add, subpath_of, entry_type, is_last, visit,
  visit_entry, visit_entries, recurse_dir,
}

-- Paths added one after the other.
unfoldable pub add_all : List Word → Word → Word
add_all [] out = out
add_all (p ∷ ps) out = add_all ps (path_add out p)

add_all-append :
    (ps qs : List Word) (out : Word) → add_all (ps ++ qs) out ≡ add_all qs (add_all ps out)
unfolding add_all
add_all-append [] qs out = refl
add_all-append (p ∷ ps) qs out = add_all-append ps qs (path_add out p)

-- What an entry of a directory adds to the paths: itself, or what is found in it.
abbrev pub visited : Bool → (Word → List Word) → Word → FileType → List Word
visited true deeper sub kind = sub ∷ []
visited false deeper sub directory = deeper sub
visited false deeper sub kind = []

abbrev pub walk_entry : Files → Fuzzydirent → Bool → (Word → List Word) → Word → Word → List Word
walk_entry fs d last deeper path name = elim (entry_type fs path name) [
  | none ↦ []
  | some kind ↦ if matches_name d name then visited last deeper (subpath_of path name) kind else []
]

unfoldable pub walk_entries :
    Files → Fuzzydirent → Bool → (Word → List Word) → Word → List Word → List Word
walk_entries fs d last deeper path [] = []
walk_entries fs d last deeper path (name ∷ names) =
    walk_entry fs d last deeper path name ++ walk_entries fs d last deeper path names

-- The paths found, in their order.
unfoldable pub walk : Files → List Fuzzydirent → Word → List Word
unfolding walk_entries
walk fs [] path = []
walk fs (d ∷ ds) path = elim (fs.readdir path) [
  | none ↦ []
  | some names ↦ walk_entries fs d (is_last ds) (λ sub. walk fs ds sub) path names
]

visit-visited :
    (last : Bool) (deeper : Word → Word → Word) (deeper' : Word → List Word) (sub : Word)
    (kind : FileType) (out : Word)
    → ((p o : Word) → deeper p o ≡ add_all (deeper' p) o)
    → visit last deeper sub kind out ≡ add_all (visited last deeper' sub kind) out
unfolding add_all
visit-visited true deeper deeper' sub kind out h = refl
visit-visited false deeper deeper' sub directory out h = h sub out
visit-visited false deeper deeper' sub regular out h = refl
visit-visited false deeper deeper' sub other out h = refl

module _ (fs : Files) (d : Fuzzydirent) (last : Bool) where
  visit_entry-walk :
      (deeper : Word → Word → Word) (deeper' : Word → List Word) (path name out : Word)
      → ((p o : Word) → deeper p o ≡ add_all (deeper' p) o)
      → visit_entry fs d last deeper path name out
        ≡ add_all (walk_entry fs d last deeper' path name) out
  unfolding visit_entry add_all
  visit_entry-walk deeper deeper' path name out h =
      go (entry_type fs path name) (matches_name d name)
    where
      go :
          (t : Option FileType) (b : Bool)
          → elim t [
            | none ↦ out
            | some kind ↦ if b then visit last deeper (subpath_of path name) kind out else out
          ]
            ≡ add_all
                (elim t [
                  | none ↦ []
                  | some kind ↦ if b then visited last deeper' (subpath_of path name) kind else []
                ])
                out
      go none b = refl
      go (some kind) false = refl
      go (some kind) true = visit-visited last deeper deeper' (subpath_of path name) kind out h

  visit_entries-walk :
      (deeper : Word → Word → Word) (deeper' : Word → List Word) (path : Word) (names : List Word)
      (out : Word)
      → ((p o : Word) → deeper p o ≡ add_all (deeper' p) o)
      → visit_entries fs d last deeper path names out
        ≡ add_all (walk_entries fs d last deeper' path names) out
  unfolding visit_entries walk_entries add_all
  visit_entries-walk deeper deeper' path [] out h = refl
  visit_entries-walk deeper deeper' path (name ∷ names) out h =
      visit_entries-walk deeper deeper' path names _ h
      ∙ ap (add_all (walk_entries fs d last deeper' path names))
          (visit_entry-walk deeper deeper' path name out h)
      ∙ sym (
          add_all-append (walk_entry fs d last deeper' path name)
            (walk_entries fs d last deeper' path names) out)

-- The search adds the paths that it finds to the text, one after the other, and nothing else.
pub recurse_dir-walk :
    (fs : Files) (ds : List Fuzzydirent) (path out : Word)
    → recurse_dir fs ds path out ≡ add_all (walk fs ds path) out
unfolding recurse_dir walk add_all
recurse_dir-walk fs [] path out = refl
recurse_dir-walk fs (d ∷ ds) path out = go (fs.readdir path) (recurse_dir-walk fs ds)
  where
    go :
        (r : Option (List Word))
        → ((p o : Word) → recurse_dir fs ds p o ≡ add_all (walk fs ds p) o)
        → elim r [
          | none ↦ out
          | some names ↦
              visit_entries fs d (is_last ds) (λ sub o. recurse_dir fs ds sub o) path names out
        ]
          ≡ add_all
              (elim r [
                | none ↦ []
                | some names ↦ walk_entries fs d (is_last ds) (λ sub. walk fs ds sub) path names
              ])
              out
    go none h = refl
    go (some names) h = visit_entries-walk fs d (is_last ds) _ _ path names out h
