-- ===== src/Lrc/Strings/Printing.antt =====
-- What a buffer holds behind any number of prints: the whole text, cut at the buffer's size.
use lre.Base.{
  ℕ, zero, suc, ◌-◌, ◌<◌, ◌≤◌, List, [], ◌∷◌, ◌++◌, ◌≡◌, refl, sym, ap, ◌∙◌, subst, length, take,
  arith, take-append, append_assoc, length-append,
}
use Prim.Native.Nat.{min}
use lre.Token.{Word}
use lre.Lrc.Strings.{join, Buffer, empty_buffer, xsnprintf}

-- The buffer holds what fits of the text, with room for the zero behind it, and its writer counts
-- the bytes of the text, up to the size.
pub record IsPrinted (size : ℕ) (t : Word) (b : Buffer) : Type 0 where
  pub text_eq : b.text ≡ take (size - 1) t
  pub len_eq : b.len ≡ min (length t) size

take-nil : (n : ℕ) → take {A = ℕ} n [] ≡ []
take-nil zero = refl
take-nil (suc n) = refl

pub empty_buffer-IsPrinted : (size : ℕ) → IsPrinted size [] empty_buffer
empty_buffer-IsPrinted size = record { text_eq = sym (take-nil (size - 1)); len_eq = omega arith }

pub xsnprintf-IsPrinted :
    (size : ℕ) (t w : Word) (b : Buffer)
    → IsPrinted size t b
    → IsPrinted size (t ++ w) (xsnprintf size b w)
unfolding xsnprintf
xsnprintf-IsPrinted size t w b h =
    let room : size - b.len - 1 ≡ size - 1 - length t = omega (arith, h.len_eq) in
    record {
      text_eq =
          ap {B = Word} (λ x. x ++ take (size - b.len - 1) w) h.text_eq
          ∙ ap {B = Word} (λ n. take (size - 1) t ++ take n w) room
          ∙ sym (take-append (size - 1) t w);
      len_eq = omega (arith, h.len_eq, length-append t w);
    }

-- Words with `;` behind each.
unfoldable pub put_list : List Word → Word
put_list [] = []
put_list (w ∷ ws) = w ++ b';' ∷ put_list ws

pub put_list-append : (vs ws : List Word) → put_list (vs ++ ws) ≡ put_list vs ++ put_list ws
unfolding put_list
put_list-append [] ws = refl
put_list-append (v ∷ vs) ws =
    ap (λ t. v ++ b';' ∷ t) (put_list-append vs ws)
    ∙ sym (append_assoc v (b';' ∷ put_list vs) (put_list ws))

-- A buffer to which the first of some words was printed, and then the others.
pub IsPrinted-put_list :
    (size : ℕ) (t w : Word) (ws : List Word) (b : Buffer)
    → IsPrinted size ((t ++ (w ++ b';' ∷ [])) ++ put_list ws) b
    → IsPrinted size (t ++ put_list (w ∷ ws)) b
unfolding put_list
IsPrinted-put_list size t w ws b h =
    subst (λ x. IsPrinted size x b)
      (append_assoc t (w ++ b';' ∷ []) (put_list ws)
        ∙ ap (λ x. t ++ x) (append_assoc w (b';' ∷ []) (put_list ws)))
      h

put_list-join : (w : Word) (ws : List Word) → put_list (w ∷ ws) ≡ join b';' (w ∷ ws) ++ b';' ∷ []
unfolding put_list join
put_list-join w [] = refl
put_list-join w (v ∷ ws) =
    ap (λ t. w ++ b';' ∷ t) (put_list-join v ws)
    ∙ sym (append_assoc w (b';' ∷ join b';' (v ∷ ws)) (b';' ∷ []))

take-length : (w t : Word) → take (length w) (w ++ t) ≡ w
take-length [] t = refl
take-length (c ∷ w) t = ap (λ x. c ∷ x) (take-length w t)

take-all : (n : ℕ) (w : Word) → length w ≤ n → take n w ≡ w
take-all n [] l = take-nil n
take-all zero (c ∷ w) l = absurd (omega arith)
take-all (suc n) (c ∷ w) l = ap (λ x. c ∷ x) (take-all n w (omega arith))

-- With the last `;` cut, a buffer that had room for the words holds them with `;` between.
pub cut_printed :
    (size : ℕ) (w : Word) (ws : List Word) (b : Buffer)
    → IsPrinted size (put_list (w ∷ ws)) b
    → length (put_list (w ∷ ws)) < size
    → take (b.len - 1) b.text ≡ join b';' (w ∷ ws)
cut_printed size w ws b h l =
    let e = put_list-join w ws in
    let m = ap length e in
    let n : b.len - 1 ≡ length (join b';' (w ∷ ws)) =
      omega (arith, h.len_eq, m, length-append (join b';' (w ∷ ws)) (b';' ∷ [])) in
    ap (λ k. take k b.text) n
    ∙ ap (take (length (join b';' (w ∷ ws))))
        (h.text_eq ∙ take-all (size - 1) (put_list (w ∷ ws)) (omega arith) ∙ e)
    ∙ take-length (join b';' (w ∷ ws)) (b';' ∷ [])
