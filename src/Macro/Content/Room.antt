-- ===== src/Macro/Content/Room.antt =====
-- The code array of `lre_create_code_by_macro` (macro.c) holds what fits of the tokens' text.
use lre.Base.{
  ℕ, zero, suc, ◌+◌, ◌-◌, ◌<◌, Bool, true, false, Option, none, some, List, [], ◌∷◌, ◌++◌, ◌≡◌,
  refl, ap, sym, ◌∙◌, length, length-append, get_elem?, take, take-append, append_assoc, append-nil,
  arith,
}
use Prim.Native.Nat.{min}
use lre.Token.{Word}
use lre.Macro.{MacroToken, arg, word}
use lre.Macro.Content.{
  has_dollar, find_arg, add_char, content_loop, code_size, Code, code_append, code_loop,
}
use lre.Macro.Content.Reference.{value, render}

-- The values of the arguments are there.
abbrev pub AllBelow : ℕ → List MacroToken → Type 0
AllBelow n [] = Unit
AllBelow n (word w ∷ ts) = AllBelow n ts
AllBelow n (arg i ∷ ts) = (i < n) × AllBelow n ts

find_arg-lt :
    (args : List Word) (j : ℕ) (text : Word) (i len : ℕ)
    → find_arg args j text ≡ some (i, len)
    → i < j + length args
unfolding find_arg
find_arg-lt [] j text i len h = cc
find_arg-lt (a ∷ args) j text i len h = ground (arith, find_arg-lt args (suc j) text i len)

AllBelow-add_char : (n c : ℕ) (ts : List MacroToken) → AllBelow n ts → AllBelow n (add_char c ts)
AllBelow-add_char n c [] h = h
AllBelow-add_char n c (word w ∷ ts) h = h
AllBelow-add_char n c (arg i ∷ ts) h = h

pub AllBelow-content_loop :
    (args : List Word) (k : ℕ) (text : Word) → AllBelow (length args) (content_loop args k text)
unfolding content_loop
AllBelow-content_loop args k [] = tt
AllBelow-content_loop args (suc k) (c ∷ cs) = AllBelow-content_loop args k cs
AllBelow-content_loop args zero (c ∷ cs) =
    go (has_dollar (c ∷ cs)) (find_arg args 0 cs) refl
      (AllBelow-add_char (length args) c (content_loop args 0 cs) (AllBelow-content_loop args 0 cs))
      (λ len. AllBelow-content_loop args len cs)
  where
    go :
        (b : Bool) (o : Option (ℕ × ℕ))
        → find_arg args 0 cs ≡ o
        → AllBelow (length args) (add_char c (content_loop args 0 cs))
        → ((len : ℕ) → AllBelow (length args) (content_loop args len cs))
        → AllBelow (length args) (elim b as (λ _. List MacroToken) [
          | false ↦ word (c ∷ cs) ∷ []
          | true ↦ elim o as (λ _. List MacroToken) [
            | none ↦ add_char c (content_loop args 0 cs)
            | some (i, len) ↦ word [] ∷ arg i ∷ content_loop args len cs
          ]
        ])
    go false o e h more = tt
    go true none e h more = h
    go true (some (i, len)) e h more = (omega (arith, find_arg-lt args 0 cs i len e), more len)

-- The state of the array when a text was written to it, as far as it fits.
abbrev code_of : Word → Code
code_of t = record { text = take (code_size - 1) t; len = min (length t) code_size }

take-room :
    (s : ℕ) (t w : Word)
    → take (s - 1) t ++ take (s - min (length t) s - 1) w ≡ take (s - 1) (t ++ w)
take-room s t w =
    ap (λ k. take (s - 1) t ++ take k w) {x = s - min (length t) s - 1} {y = s - 1 - length t}
      (omega arith)
    ∙ sym (take-append (s - 1) t w)

len-room :
    (s : ℕ) (t w : Word)
    → min (length t) s + min (length w) (s - min (length t) s) ≡ min (length (t ++ w)) s
len-room s t w = omega (arith, length-append t w)

code_append-code_of : (t w : Word) → code_append (code_of t) w ≡ code_of (t ++ w)
unfolding code_append
code_append-code_of t w =
    λ i. record { text = take-room code_size t w i; len = len-room code_size t w i }

value-at : (vals : List Word) (i : ℕ) → i < length vals → get_elem? vals i ≡ some (value vals i)
value-at [] i h = elim h [ ]
value-at (v ∷ vals) zero h = refl
value-at (v ∷ vals) (suc i) h = value-at vals i (omega arith)

pub code_loop-render :
    (vals : List Word) (ts : List MacroToken) (t : Word)
    → AllBelow (length vals) ts
    → code_loop vals ts (code_of t) ≡ some (code_of (t ++ render vals ts))
unfolding code_loop render
code_loop-render vals [] t h = ap (λ x. some (code_of x)) (sym (append-nil t))
code_loop-render vals (word w ∷ ts) t h = rw (code_append-code_of t w) (
    code_loop-render vals ts (t ++ w) h
    ∙ ap (λ x. some (code_of x)) (append_assoc t w (render vals ts)))
code_loop-render vals (arg i ∷ ts) t h =
    rw (value-at vals i h.0, code_loop)
      (rw (code_append-code_of t (value vals i)) (
        code_loop-render vals ts (t ++ value vals i) h.1
        ∙ ap (λ x. some (code_of x)) (append_assoc t (value vals i) (render vals ts))))
