-- ===== src/Lrc/Strings.antt =====
-- The C library's string functions that the components call, on strings without their terminating
-- zero, and the printing into a buffer that is cut at its size (`xsnprintf`, utils.c).
pub mod Printing
use lre.Base.{
  ℕ, zero, suc, ◌/◌, ◌%◌, ltb, ◌+◌, ◌-◌, Bool, true, false, Option, none, some, List, [], ◌∷◌, ◌++◌,
  ◌≡◌, ◌≢◌, refl, sym, ap, ◌∙◌, ◌==◌, if◌then◌else◌, length, take, arith, Bool-cases, inl, inr,
}
use Prim.Native.Nat.{min}
use Prim.Native.Char.{code}
use Prim.Native.String.{String}
use lre.Base.Int.{ℤ, pos, negsuc}
use lre.Token.{Word}
use lre.Macro.Content.{is_prefix}

-- The bytes of a literal.
abbrev pub text : String → Word
text String.[] = []
text (String.◌∷◌ c s) = code c ∷ text s

-- `sprintf` of an `int`, which has up to ten digits.
unfoldable pub show_digits : ℕ → ℕ → Word → Word
show_digits zero n acc = acc
show_digits (suc k) n acc =
    let rest = show_digits k (n / 10) ((b'0' + n % 10) ∷ acc) in
    if ltb n 10 then (b'0' + n) ∷ acc else rest

unfoldable pub show_int : ℤ → Word
unfolding show_digits
show_int (pos n) = show_digits 10 n []
show_int (negsuc n) = b'-' ∷ show_digits 10 (suc n) []

-- Two strings are the same, as `strcmp` has it.
unfoldable pub same_string : Word → Word → Bool
same_string [] [] = true
same_string [] (d ∷ ds) = false
same_string (c ∷ cs) [] = false
same_string (c ∷ cs) (d ∷ ds) = let rest = same_string cs ds in if c == d then rest else false

-- `strstr`: the text from the first occurrence of the word on.
unfoldable pub strstr : Word → Word → Option Word
unfolding is_prefix
strstr [] w = if is_prefix w [] then some [] else none
strstr (c ∷ cs) w = let rest = strstr cs w in if is_prefix w (c ∷ cs) then some (c ∷ cs) else rest

abbrev pub add_first : ℕ → List Word → List Word
add_first c [] = (c ∷ []) ∷ []
add_first c (w ∷ ws) = (c ∷ w) ∷ ws

-- The pieces between the bytes `sep`, as a loop over `strchr` or `strsep` cuts them.
unfoldable pub split : ℕ → Word → List Word
split sep [] = [] ∷ []
split sep (c ∷ cs) = let rest = split sep cs in if c == sep then [] ∷ rest else add_first c rest

-- A text without the byte `sep` at its end.
unfoldable pub cut_end : ℕ → Word → Word
cut_end sep [] = []
cut_end sep (c ∷ []) = if c == sep then [] else c ∷ []
cut_end sep (c ∷ d ∷ cs) = c ∷ cut_end sep (d ∷ cs)

-- The text in a buffer that was zero, and the length that its writer counts.
pub record Buffer : Type 0 where
  pub text : Word
  pub len : ℕ

abbrev pub empty_buffer : Buffer
empty_buffer = record { text = []; len = 0 }

-- `len += xsnprintf(buf + len, size - len, "%s", w)`.
unfoldable pub xsnprintf : ℕ → Buffer → Word → Buffer
xsnprintf size b w = record {
  text = b.text ++ take (size - b.len - 1) w;
  len = b.len + min (length w) (size - b.len);
}

-- The text of which `split` gives the pieces.
unfoldable pub join : ℕ → List Word → Word
join sep [] = []
join sep (w ∷ []) = w
join sep (w ∷ u ∷ ws) = w ++ sep ∷ join sep (u ∷ ws)

pub data IsPieces : List Word → Type 0 where
  pieces : (w : Word) (ws : List Word) → IsPieces (w ∷ ws)

pub split-IsPieces : (sep : ℕ) (t : Word) → IsPieces (split sep t)
unfolding split
split-IsPieces sep [] = pieces [] []
split-IsPieces sep (c ∷ cs) = go (c == sep) (split sep cs)
  where
    go : (b : Bool) (ws : List Word) → IsPieces (if b then [] ∷ ws else add_first c ws)
    go true ws = pieces [] ws
    go false [] = pieces (c ∷ []) []
    go false (w ∷ ws) = pieces (c ∷ w) ws

join-pieces : (sep : ℕ) (ws : List Word) → IsPieces ws → join sep ([] ∷ ws) ≡ sep ∷ join sep ws
unfolding join
join-pieces sep _ (pieces w ws) = refl

join-add_first : (sep c : ℕ) (ws : List Word) → join sep (add_first c ws) ≡ c ∷ join sep ws
unfolding join
join-add_first sep c [] = refl
join-add_first sep c (w ∷ []) = refl
join-add_first sep c (w ∷ u ∷ ws) = refl

-- Cutting a text at a byte loses nothing.
pub join-split : (sep : ℕ) (t : Word) → join sep (split sep t) ≡ t
unfolding split join
join-split sep [] = refl
join-split sep (c ∷ cs) = elim (Bool-cases (c == sep)) [
  | inl h ↦
      let e : sep ≡ c = ground arith in
      rw (h, split)
        (join-pieces sep (split sep cs) (split-IsPieces sep cs)
          ∙ ap (λ l. sep ∷ l) (join-split sep cs)
          ∙ ap {B = Word} (λ k. k ∷ cs) e)
  | inr h ↦
      rw (h, split) (join-add_first sep c (split sep cs) ∙ ap (λ l. c ∷ l) (join-split sep cs))
]
