-- ===== src/Lrc/Process/Paths.antt =====
-- Which processes a list of paths stands for.
use lre.Base.{
  ℕ, Bool, true, false, ◌||◌, List, [], ◌∷◌, ◌≡◌, refl, sym, ap, ◌==◌, if◌then◌else◌, arith,
  Bool-cases, inl, inr,
}
use lre.Token.{Word}
use lre.Macro.Content.{is_prefix}
use lre.Lrc.Strings.{split, add_first, IsPieces, pieces, split-IsPieces}
use lre.Lrc.Process.{behind_semicolons, fits_paths}

-- Is the path of a binary the front of one of the paths?
unfoldable pub fits_one : Word → List Word → Bool
fits_one binpath [] = false
fits_one binpath (w ∷ ws) = is_prefix binpath w || fits_one binpath ws

unfoldable pub no_semicolon : Word → Bool
no_semicolon [] = true
no_semicolon (c ∷ cs) = if c == b';' then false else no_semicolon cs

first_piece : List Word → Word
first_piece [] = []
first_piece (w ∷ ws) = w

other_pieces : List Word → List Word
other_pieces [] = []
other_pieces (w ∷ ws) = ws

first_piece-add_first : (c : ℕ) (ws : List Word) → first_piece (add_first c ws) ≡ c ∷ first_piece ws
unfolding first_piece
first_piece-add_first c [] = refl
first_piece-add_first c (w ∷ ws) = refl

other_pieces-add_first : (c : ℕ) (ws : List Word) → other_pieces (add_first c ws) ≡ other_pieces ws
unfolding other_pieces
other_pieces-add_first c [] = refl
other_pieces-add_first c (w ∷ ws) = refl

fits_one-pieces :
    (b : Word) (ws : List Word)
    → IsPieces ws
    → fits_one b ws ≡ (is_prefix b (first_piece ws) || fits_one b (other_pieces ws))
unfolding fits_one first_piece other_pieces
fits_one-pieces b _ (pieces w ws) = refl

-- The front of a text without `;` is the front of its first piece.
is_prefix-first_piece :
    (b paths : Word)
    → no_semicolon b ≡ true
    → is_prefix b paths ≡ is_prefix b (first_piece (split b';' paths))
unfolding is_prefix no_semicolon split first_piece
is_prefix-first_piece [] paths h = refl
is_prefix-first_piece (d ∷ b) [] h = refl
is_prefix-first_piece (d ∷ b) (c ∷ cs) h = elim (Bool-cases (c == b';')) [
  | inl e ↦ rw e (ground arith)
  | inr e ↦
      rw (e, first_piece-add_first c (split b';' cs))
        (ap (λ x. if d == c then x else false) (is_prefix-first_piece b cs (ground arith)))
]

behind_semicolons-other_pieces :
    (b paths : Word)
    → no_semicolon b ≡ true
    → behind_semicolons b paths ≡ fits_one b (other_pieces (split b';' paths))
unfolding behind_semicolons split other_pieces fits_one
behind_semicolons-other_pieces b [] h = refl
behind_semicolons-other_pieces b (c ∷ cs) h = elim (Bool-cases (c == b';')) [
  | inl e ↦
      rw (e, is_prefix-first_piece b cs h, behind_semicolons-other_pieces b cs h)
        (sym (fits_one-pieces b (split b';' cs) (split-IsPieces b';' cs)))
  | inr e ↦ rw (e, other_pieces-add_first c (split b';' cs)) (behind_semicolons-other_pieces b cs h)
]

-- A list of paths, which only `;` separates, takes the binaries whose path is the front of one of
-- its paths, where the path of the binary has no `;` in it.
pub fits_paths-split :
    (b paths : Word) → no_semicolon b ≡ true → fits_paths paths b ≡ fits_one b (split b';' paths)
fits_paths-split b paths h =
    rw (is_prefix-first_piece b paths h, behind_semicolons-other_pieces b paths h)
      (sym (fits_one-pieces b (split b';' paths) (split-IsPieces b';' paths)))
