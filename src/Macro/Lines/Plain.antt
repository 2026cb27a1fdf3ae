-- ===== src/Macro/Lines/Plain.antt =====
-- The lines of a file without comments, empty lines and continued lines (macro.c, utils.c).
use lre.Base.{
  ℕ, zero, suc, ◌+◌, ◌≤◌, ◌<◌, false, some, [], ◌∷◌, ◌++◌, ◌≡◌, refl, ap, ◌∙◌, ◌==◌, length, arith,
}
use lre.Token.{Word}
use lre.Value.{cut_last}
use lre.Macro.Lines.{
  eol, with_byte, get_loop, got, got_line, xgetline, is_ignored, last_byte, shorten, chomp, line,
  deliver, after_chomp, after_get, read_macro_line,
}

abbrev NoNewline : Word → Type 0
NoNewline [] = Unit
NoNewline (c ∷ text) = ((c == b'\n') ≡ false) × NoNewline text

-- A line that is read as it stands.
pub record IsPlain (size : ℕ) (text : Word) : Type 0 where
  pub one_line : NoNewline text
  pub not_ignored : is_ignored text ≡ false
  pub not_continued : (last_byte 0 text == b'\\') ≡ false
  pub fits : length text + 2 ≤ size

get_loop-line :
    (n : ℕ) (text rest : Word)
    → NoNewline text
    → length text < n
    → get_loop n (text ++ b'\n' ∷ rest) ≡ (text ++ b'\n' ∷ [], eol, rest)
unfolding get_loop
get_loop-line zero text rest h l = elim l [ ]
get_loop-line (suc n) [] rest h l = refl
get_loop-line (suc n) (c ∷ text) rest h l =
    rw (h.0, get_loop) (ap (with_byte c) (get_loop-line n text rest h.1 (omega arith)))

last_byte-append : (front c : ℕ) (text : Word) → last_byte front (text ++ c ∷ []) ≡ c
unfolding last_byte
last_byte-append front c [] = refl
last_byte-append front c (d ∷ text) = last_byte-append d c text

pub cut_last-append : (c d : ℕ) (text : Word) → cut_last (c ∷ (text ++ d ∷ [])) ≡ c ∷ text
unfolding cut_last
cut_last-append c d [] = refl
cut_last-append c d (e ∷ text) = ap (λ w. c ∷ w) (cut_last-append e d text)

shorten-append : (d : ℕ) (text : Word) → shorten (text ++ d ∷ []) ≡ some text
unfolding cut_last
shorten-append d [] = refl
shorten-append d (c ∷ text) = ap some (cut_last-append c d text)

chomp-line : (front : ℕ) (text : Word) → chomp front (text ++ b'\n' ∷ []) ≡ some text
unfolding chomp
chomp-line front text = rw (last_byte-append front b'\n' text, chomp) (shorten-append b'\n' text)

got_line-line :
    (text rest : Word) → got_line (text ++ b'\n' ∷ [], eol, rest) ≡ got (text ++ b'\n' ∷ []) rest
unfolding got_line
got_line-line [] rest = refl
got_line-line (c ∷ text) rest = refl

xgetline-line :
    (size : ℕ) (text rest : Word)
    → NoNewline text
    → length text + 2 ≤ size
    → xgetline size (text ++ b'\n' ∷ rest) ≡ got (text ++ b'\n' ∷ []) rest
unfolding xgetline
xgetline-line zero text rest h l = absurd (omega arith)
xgetline-line (suc n) text rest h l =
    ap got_line (get_loop-line n text rest h (omega arith)) ∙ got_line-line text rest

-- What stands in front of a line that is not empty does not show.
last_byte-front :
    (front : ℕ) (text : Word) → is_ignored text ≡ false → last_byte front text ≡ last_byte 0 text
unfolding is_ignored last_byte
last_byte-front front [] h = cc
last_byte-front front (c ∷ text) h = refl

-- A plain line is read as it stands, without its newline.
pub read_macro_line-plain :
    (m front size : ℕ) (text rest : Word)
    → IsPlain size text
    → read_macro_line (suc m) false front size (text ++ b'\n' ∷ rest) ≡ line (length text) text rest
unfolding read_macro_line after_get after_chomp deliver
read_macro_line-plain m front size text rest h =
    rw (xgetline-line size text rest h.one_line h.fits, read_macro_line)
      (rw (chomp-line front text, after_get)
        (rw (last_byte-front front text h.not_ignored, after_chomp)
          (rw (h.not_continued, after_chomp) (rw (h.not_ignored, deliver) refl))))
