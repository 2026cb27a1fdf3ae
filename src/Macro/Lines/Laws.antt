-- ===== src/Macro/Lines/Laws.antt =====
-- What `read_macro_line` (macro.c) makes of the lines of a file.
use lre.Base.{
  ℕ, zero, suc, ◌+◌, ◌-◌, ◌≤◌, ◌<◌, Bool, true, false, Option, none, some, [], ◌∷◌, ◌++◌, ◌≡◌, refl,
  ap, ◌==◌, length, length-append, arith,
}
use lre.Token.{Word}
use lre.Value.{cut_last}
use lre.Macro.Lines.{
  Stop, eol, eof, full, with_byte, get_loop, skip_line, Got, got, null, got_line, xgetline,
  is_ignored, last_byte, shorten, chomp, Line, line, fault, out_of_fuel, put_front, deliver,
  join_next, after_chomp, after_get, read_macro_line,
}

-- The loop of `xgetline` splits the file; a line has at least its newline.
abbrev Split : Word → Word × Stop × Word → Type 0
Split file (text, eol, rest) = (length text + length rest ≡ length file) × (1 ≤ length text)
Split file (text, eof, rest) = length text + length rest ≡ length file
Split file (text, full, rest) = length text + length rest ≡ length file

Split-with_byte :
    (c : ℕ) (file : Word) (r : Word × Stop × Word) → Split file r → Split (c ∷ file) (with_byte c r)
Split-with_byte c file (text, eol, rest) h = (omega (arith, h.0), omega arith)
Split-with_byte c file (text, eof, rest) h = omega arith
Split-with_byte c file (text, full, rest) h = omega arith

Split-get_loop : (n : ℕ) (file : Word) → Split file (get_loop n file)
unfolding get_loop
Split-get_loop zero file = omega arith
Split-get_loop (suc n) [] = omega arith
Split-get_loop (suc n) (c ∷ file) =
    go (c == b'\n') (Split-with_byte c file (get_loop n file) (Split-get_loop n file))
  where
    go :
        (b : Bool)
        → Split (c ∷ file) (with_byte c (get_loop n file))
        → Split (c ∷ file) (elim b as (λ _. Word × Stop × Word) [
          | true ↦ (c ∷ [], eol, file)
          | false ↦ with_byte c (get_loop n file)
        ])
    go true h = (omega arith, omega arith)
    go false h = h

skip_line-lt : (file rest : Word) → skip_line file ≡ some rest → length rest < length file
unfolding skip_line
skip_line-lt [] rest h = cc
skip_line-lt (c ∷ file) rest h = ground (arith, skip_line-lt file rest)

length-get_loop : (n : ℕ) (file : Word) → length (get_loop n file).0 ≤ n
unfolding get_loop
length-get_loop zero file = omega arith
length-get_loop (suc n) [] = omega arith
length-get_loop (suc n) (c ∷ file) = go (c == b'\n') (length-get_loop n file)
  where
    go :
        (b : Bool)
        → length (get_loop n file).0 ≤ n
        → length
            (elim b as (λ _. Word × Stop × Word) [
              | true ↦ (c ∷ [], eol, file)
              | false ↦ with_byte c (get_loop n file)
            ]).0
          ≤ suc n
    go true h = omega arith
    go false h = omega arith

-- The text fits the buffer, and a line that was read has taken a byte of the file.
abbrev Shrinks : ℕ → Word → Got → Type 0
Shrinks n file (got text rest) = (length text ≤ n) × (length rest < length file)
Shrinks n file (null text rest) = (length text ≤ n) × (length rest ≤ length file)

Shrinks-skip :
    (n : ℕ) (file text rest : Word)
    → length text + length rest ≡ length file
    → length text ≤ n
    → Shrinks n file (got_line (text, full, rest))
unfolding got_line
Shrinks-skip n file text rest h l = go (skip_line rest) refl
  where
    go :
        (o : Option Word)
        → skip_line rest ≡ o
        → Shrinks n file (elim o as (λ _. Got) [ none ↦ null text [] | some r ↦ got [] r ])
    go none e = (l, omega arith)
    go (some r) e = (omega arith, omega (arith, skip_line-lt rest r e))

Shrinks-got_line :
    (n : ℕ) (file : Word) (r : Word × Stop × Word)
    → Split file r
    → length r.0 ≤ n
    → Shrinks n file (got_line r)
unfolding got_line
Shrinks-got_line n file ([], eof, rest) h l = (l, omega arith)
Shrinks-got_line n file (c ∷ text, eof, rest) h l = (l, omega arith)
Shrinks-got_line n file (text, eol, rest) h l = (l, omega (arith, h.0, h.1))
Shrinks-got_line n file (text, full, rest) h l = Shrinks-skip n file text rest h l

Shrinks-xgetline : (n : ℕ) (file : Word) → Shrinks n file (xgetline (suc n) file)
unfolding xgetline
Shrinks-xgetline n file =
    Shrinks-got_line n file (get_loop n file) (Split-get_loop n file) (length-get_loop n file)

length-cut_last : (c : ℕ) (text : Word) → length (cut_last (c ∷ text)) ≡ length text
unfolding cut_last
length-cut_last c [] = refl
length-cut_last c (d ∷ text) = ap suc (length-cut_last d text)

length-shorten : (text u : Word) → shorten text ≡ some u → suc (length u) ≡ length text
length-shorten [] u h = cc
length-shorten (c ∷ text) u h = ground (arith, length-cut_last c text)

length-chomp : (front : ℕ) (text u : Word) → chomp front text ≡ some u → length u ≤ length text
unfolding chomp
length-chomp front text u h = ground (arith, length-shorten text u)

-- The text fits the buffer, and a line that is not empty has taken a byte of the file.
abbrev pub Reads : ℕ → Word → Line → Type 0
Reads size file (line len text rest) =
    (length text < size) × (length rest ≤ length file) × (0 < len → length rest < length file)
Reads size file fault = Unit
Reads size file out_of_fuel = ⊥

Reads-weaken :
    (size : ℕ) (file rest : Word) (r : Line)
    → length rest < length file
    → Reads size rest r
    → Reads size file r
Reads-weaken size file rest (line len text left) l h =
    (h.0, omega (arith, h.1), λ z. omega (arith, h.1))
Reads-weaken size file rest fault l h = tt
Reads-weaken size file rest out_of_fuel l h = h

Reads-deliver :
    (size : ℕ) (again : Word → Line) (follow : Bool) (len : ℕ) (text rest file : Word)
    → length text < size
    → length rest < length file
    → Reads size rest (again rest)
    → Reads size file (deliver again follow len text rest)
unfolding deliver
Reads-deliver size again follow len text rest file l h ih = go (is_ignored text) follow
  where
    go :
        (b follow : Bool)
        → Reads size file (elim b as (λ _. Line) [
          | false ↦ line len text rest
          | true ↦ elim follow as (λ _. Line) [ true ↦ line len text rest | false ↦ again rest ]
        ])
    go false follow = (l, omega arith, λ z. h)
    go true true = (l, omega arith, λ z. h)
    go true false = Reads-weaken size file rest (again rest) h ih

Reads-put_front :
    (size : ℕ) (again : Word → Line) (follow : Bool) (u rest file : Word) (r : Line)
    → length u < size
    → length rest < length file
    → Reads (size - length u) rest r
    → ((left : Word) → length left ≤ length rest → Reads size left (again left))
    → Reads size file (put_front u (deliver again follow) r)
Reads-put_front size again follow u rest file (line len text left) hu l h ih =
    Reads-deliver size again follow (length u + len) (u ++ text) left file
      (omega (arith, length-append u text, h.0)) (omega (arith, h.1)) (ih left h.1)
Reads-put_front size again follow u rest file fault hu l h ih = tt
Reads-put_front size again follow u rest file out_of_fuel hu l h ih = h

module _ (again : Word → Line) (next : ℕ → ℕ → Word → Line) (follow : Bool) (front size : ℕ)
    (file : Word)
    (again-Reads : (left : Word) → length left < length file → Reads size left (again left))
    (next-Reads : (front' size' : ℕ) (left : Word)
      → length left < length file
      → 0 < size'
      → Reads size' left (next front' size' left)) where
  Reads-join_next :
      (t rest : Word) (o : Option Word)
      → shorten t ≡ o
      → length t < size
      → length rest < length file
      → Reads size file (join_next again next follow front size rest o)
  unfolding join_next
  Reads-join_next t rest none e k l = tt
  Reads-join_next t rest (some u) e k l =
      let shorter : suc (length u) ≡ length t = length-shorten t u e in
      Reads-put_front size again follow u rest file
        (next (last_byte front u) (size - length u) rest) (omega arith) l
        (next-Reads (last_byte front u) (size - length u) rest l (omega arith))
        (λ left q. again-Reads left (omega arith))

  Reads-after_chomp :
      (text rest : Word) (o : Option Word)
      → chomp front text ≡ o
      → length text < size
      → length rest < length file
      → Reads size file (after_chomp again next follow front size rest o)
  unfolding after_chomp
  Reads-after_chomp text rest none e k l = tt
  Reads-after_chomp text rest (some t) e k l =
      let shorter : length t ≤ length text = length-chomp front text t e in
      go (last_byte front t == b'\\') (omega arith)
    where
      go :
          (b : Bool)
          → length t < size
          → Reads size file (elim b as (λ _. Line) [
            | false ↦ deliver again follow (length t) t rest
            | true ↦ join_next again next follow front size rest (shorten t)
          ])
      go false m = Reads-deliver size again follow (length t) t rest file m l (again-Reads rest l)
      go true m = Reads-join_next t rest (shorten t) refl m l

  Reads-after_get :
      (n : ℕ) (g : Got)
      → n < size
      → Shrinks n file g
      → Reads size file (after_get again next follow front size g)
  unfolding after_get
  Reads-after_get n (null text rest) h k = (omega (arith, k.0), k.1, λ z. absurd (omega arith))
  Reads-after_get n (got text rest) h k =
      Reads-after_chomp text rest (chomp front text) refl (omega (arith, k.0)) k.1

-- One round more than the file has bytes is enough for `read_macro_line` to end, its text fits the
-- buffer, and a line that is not empty has taken a byte of the file. The buffer has a byte.
pub read_macro_line-Reads :
    (m : ℕ) (follow : Bool) (front size : ℕ) (file : Word)
    → length file < m
    → 0 < size
    → Reads size file (read_macro_line m follow front size file)
unfolding read_macro_line
read_macro_line-Reads zero follow front size file h p = elim h [ ]
read_macro_line-Reads (suc m) follow front zero file h p = elim p [ ]
read_macro_line-Reads (suc m) follow front (suc n) file h p =
    Reads-after_get (read_macro_line m false front (suc n)) (read_macro_line m true) follow front
      (suc n) file
      (λ left l. read_macro_line-Reads m false front (suc n) left (omega arith) (omega arith))
      (λ front' size' left l q. read_macro_line-Reads m true front' size' left (omega arith) q) n
      (xgetline (suc n) file) (omega arith) (Shrinks-xgetline n file)
