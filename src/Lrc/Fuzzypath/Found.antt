-- ===== src/Lrc/Fuzzypath/Found.antt =====
-- Which paths the search of `fuzzypath` finds.
use lre.Base.{
  Bool, true, false, Option, none, some, List, [], ◌∷◌, ◌≡◌, refl, sym, subst, if◌then◌else◌, inl,
  inr, ◌↔◌,
}
use mathlib.Core.List.Memᴰ
use mathlib.Core.List.{Memᴰ}
use lre.Token.{Word}
use lre.Lrc.Fuzzypath.{Fuzzydirent, matches_name}
use lre.Lrc.Fuzzypath.Search.{
  FileType, regular, directory, other, Files, subpath_of, entry_type, is_last, recurse_dir,
}
use lre.Lrc.Fuzzypath.Walk.{visited, walk_entry, walk_entries, walk, add_all, recurse_dir-walk}

-- A path that the names stand for, from a directory on: each name takes an entry of the directory
-- that the names before it lead to, and all but the last entry are directories.
pub data IsFound (fs : Files) : List Fuzzydirent → Word → Word → Type 0 where
  entry :
      {d : Fuzzydirent} {path : Word} (names : List Word) (name : Word) (kind : FileType)
      → fs.readdir path ≡ some names
      → Memᴰ name names
      → entry_type fs path name ≡ some kind
      → matches_name d name ≡ true
      → IsFound fs (d ∷ []) path (subpath_of path name)
  inside :
      {d e : Fuzzydirent} {ds : List Fuzzydirent} {path p : Word} (names : List Word) (name : Word)
      → fs.readdir path ≡ some names
      → Memᴰ name names
      → entry_type fs path name ≡ some directory
      → matches_name d name ≡ true
      → IsFound fs (e ∷ ds) (subpath_of path name) p
      → IsFound fs (d ∷ e ∷ ds) path p

module _ (fs : Files) where
  module _ (d : Fuzzydirent) (last : Bool) (deeper : Word → List Word) (path p : Word) where
    Memᴰ-walk_entries :
        (name : Word) (names : List Word)
        → Memᴰ name names
        → Memᴰ p (walk_entry fs d last deeper path name)
        → Memᴰ p (walk_entries fs d last deeper path names)
    unfolding walk_entries
    Memᴰ-walk_entries name [] k m = absurd (Memᴰ.not-nil k)
    Memᴰ-walk_entries name (n ∷ names) (Memᴰ.head e) m =
        Memᴰ.append_left _ (subst (λ x. Memᴰ p (walk_entry fs d last deeper path x)) e m)
    Memᴰ-walk_entries name (n ∷ names) (Memᴰ.tail k) m =
        Memᴰ.append_right (walk_entry fs d last deeper path n) (Memᴰ-walk_entries name names k m)

    walk_entries-Memᴰ :
        (names : List Word)
        → Memᴰ p (walk_entries fs d last deeper path names)
        → (name : Word) × Memᴰ name names × Memᴰ p (walk_entry fs d last deeper path name)
    unfolding walk_entries
    walk_entries-Memᴰ [] m = absurd (Memᴰ.not-nil m)
    walk_entries-Memᴰ (n ∷ names) m =
        elim (Memᴰ.append_cases (walk_entry fs d last deeper path n) m) [
          | inl h ↦ (n, Memᴰ.head refl, h)
          | inr h ↦ let (name, k, e) = walk_entries-Memᴰ names h in (name, Memᴰ.tail k, e)
        ]

    walk_entry-eq :
        (name : Word) (kind : FileType)
        → entry_type fs path name ≡ some kind
        → matches_name d name ≡ true
        → walk_entry fs d last deeper path name ≡ visited last deeper (subpath_of path name) kind
    walk_entry-eq name kind t h = rw (t, h, walk_entry) refl

  walk-eq :
      (d : Fuzzydirent) (ds : List Fuzzydirent) (path : Word) (names : List Word)
      → fs.readdir path ≡ some names
      → walk fs (d ∷ ds) path ≡ walk_entries fs d (is_last ds) (λ sub. walk fs ds sub) path names
  unfolding walk
  walk-eq d ds path names h = rw (h, walk) refl

  walk-Memᴰ :
      (d : Fuzzydirent) (ds : List Fuzzydirent) (path p name : Word) (names : List Word)
      (kind : FileType)
      → fs.readdir path ≡ some names
      → Memᴰ name names
      → entry_type fs path name ≡ some kind
      → matches_name d name ≡ true
      → Memᴰ p (visited (is_last ds) (λ sub. walk fs ds sub) (subpath_of path name) kind)
      → Memᴰ p (walk fs (d ∷ ds) path)
  walk-Memᴰ d ds path p name names kind r k t h m =
      subst (Memᴰ p) (sym (walk-eq d ds path names r)) (
        Memᴰ-walk_entries d (is_last ds) _ path p name names k
          (subst (Memᴰ p) (sym (walk_entry-eq d (is_last ds) _ path p name kind t h)) m))

  -- Every such path is found.
  IsFound-walk :
      (ds : List Fuzzydirent) (path p : Word) → IsFound fs ds path p → Memᴰ p (walk fs ds path)
  IsFound-walk _ path _ (entry {d} names name kind r k t h) =
      walk-Memᴰ d [] path (subpath_of path name) name names kind r k t h (Memᴰ.head refl)
  IsFound-walk _ path p (inside {d} {e} {ds} names name r k t h f) =
      walk-Memᴰ d (e ∷ ds) path p name names directory r k t h (IsFound-walk (e ∷ ds) _ p f)

  visited-IsFound :
      (d : Fuzzydirent) (ds : List Fuzzydirent) (path p name : Word) (names : List Word)
      (kind : FileType)
      → ((sub : Word) → Memᴰ p (walk fs ds sub) → IsFound fs ds sub p)
      → fs.readdir path ≡ some names
      → Memᴰ name names
      → entry_type fs path name ≡ some kind
      → matches_name d name ≡ true
      → Memᴰ p (visited (is_last ds) (λ sub. walk fs ds sub) (subpath_of path name) kind)
      → IsFound fs (d ∷ ds) path p
  visited-IsFound d [] path p name names kind ih r k t h m =
      subst (IsFound fs (d ∷ []) path) (sym (Memᴰ.eq_of_singleton m))
        (entry names name kind r k t h)
  visited-IsFound d (e ∷ ds) path p name names directory ih r k t h m =
      inside names name r k t h (ih _ m)
  visited-IsFound d (e ∷ ds) path p name names regular ih r k t h m = absurd (Memᴰ.not-nil m)
  visited-IsFound d (e ∷ ds) path p name names other ih r k t h m = absurd (Memᴰ.not-nil m)

  walk_entry-IsFound :
      (d : Fuzzydirent) (ds : List Fuzzydirent) (path p name : Word) (names : List Word)
      → ((sub : Word) → Memᴰ p (walk fs ds sub) → IsFound fs ds sub p)
      → fs.readdir path ≡ some names
      → Memᴰ name names
      → Memᴰ p (walk_entry fs d (is_last ds) (λ sub. walk fs ds sub) path name)
      → IsFound fs (d ∷ ds) path p
  walk_entry-IsFound d ds path p name names ih r k m =
      go (entry_type fs path name) refl (matches_name d name) refl m
    where
      go :
          (t : Option FileType)
          → entry_type fs path name ≡ t
          → (b : Bool) → matches_name d name ≡ b
          → Memᴰ p (elim t [
            | none ↦ []
            | some kind ↦
                if b
                then visited (is_last ds) (λ sub. walk fs ds sub) (subpath_of path name) kind
                else []
          ])
          → IsFound fs (d ∷ ds) path p
      go none t b h n = absurd (Memᴰ.not-nil n)
      go (some kind) t false h n = absurd (Memᴰ.not-nil n)
      go (some kind) t true h n = visited-IsFound d ds path p name names kind ih r k t h n

  -- Only such paths are found.
  walk-IsFound :
      (ds : List Fuzzydirent) (path p : Word) → Memᴰ p (walk fs ds path) → IsFound fs ds path p
  unfolding walk
  walk-IsFound [] path p m = absurd (Memᴰ.not-nil m)
  walk-IsFound (d ∷ ds) path p m = go (fs.readdir path) refl (λ sub. walk-IsFound ds sub p) m
    where
      go :
          (r : Option (List Word))
          → fs.readdir path ≡ r
          → ((sub : Word) → Memᴰ p (walk fs ds sub) → IsFound fs ds sub p)
          → Memᴰ p (elim r [
            | none ↦ []
            | some names ↦ walk_entries fs d (is_last ds) (λ sub. walk fs ds sub) path names
          ])
          → IsFound fs (d ∷ ds) path p
      go none r ih n = absurd (Memᴰ.not-nil n)
      go (some names) r ih n =
          let (name, k, e) = walk_entries-Memᴰ d (is_last ds) _ path p names n in
          walk_entry-IsFound d ds path p name names ih r k e

-- The search adds paths to the text, one after the other, and nothing else; they are those that the
-- names stand for.
pub recurse_dir-IsFound :
    (fs : Files) (ds : List Fuzzydirent) (path out p : Word)
    → (recurse_dir fs ds path out ≡ add_all (walk fs ds path) out)
      × (Memᴰ p (walk fs ds path) ↔ IsFound fs ds path p)
recurse_dir-IsFound fs ds path out p =
    (recurse_dir-walk fs ds path out, (walk-IsFound fs ds path p, IsFound-walk fs ds path p))
