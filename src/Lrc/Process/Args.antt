-- ===== src/Lrc/Process/Args.antt =====
-- The arguments that `cmd2args` finds in a command line.
use lre.Base.{
  ℕ, zero, suc, ◌-◌, ◌*◌, ◌≤◌, Bool, true, false, Option, none, some, List, [], ◌∷◌, ◌++◌, ◌≡◌,
  refl, sym, ap, ◌∙◌, ◌==◌, if◌then◌else◌, arith, Bool-cases, Option-cases, inl, inr, length,
  length-append,
}
use lre.Token.{Word}
use lre.Lrc.Process.Cmdline.{process_arg_max, c_string, cmd_loop, cmd2args}

-- A text that is no argument: empty, or with a zero in it.
unfoldable pub no_zero : Word → Bool
no_zero [] = true
no_zero (c ∷ cs) = if c == 0 then false else no_zero cs

unfoldable pub IsArgs : List Word → Type 0
IsArgs [] = Unit
IsArgs ([] ∷ ws) = ⊥
IsArgs ((c ∷ w) ∷ ws) = (no_zero (c ∷ w) ≡ true) × IsArgs ws

-- The command line of some arguments: each with a zero behind it.
unfoldable pub put_args : List Word → Word
put_args [] = []
put_args (w ∷ ws) = w ++ 0 ∷ put_args ws

c_string-put : (w t : Word) → no_zero w ≡ true → c_string (w ++ 0 ∷ t) ≡ some w
unfolding c_string no_zero
c_string-put [] t h = refl
c_string-put (c ∷ w) t h = ground (arith, c_string-put w t)

cmd_loop-skip : (w t : Word) → cmd_loop (length w) (w ++ t) ≡ cmd_loop 0 t
unfolding cmd_loop
cmd_loop-skip [] [] = refl
cmd_loop-skip [] (c ∷ t) = refl
cmd_loop-skip (c ∷ w) t = cmd_loop-skip w t

first-no_zero : (c : ℕ) (w : Word) → no_zero (c ∷ w) ≡ true → (c == 0) ≡ false
unfolding no_zero
first-no_zero c w h = ground arith

abbrev with_arg : Word → Option (List Word) → Option (List Word)
with_arg w none = none
with_arg w (some args) = some (w ∷ args)

cmd_loop-arg :
    (c : ℕ) (t w : Word)
    → (c == 0) ≡ false
    → c_string (c ∷ t) ≡ some w
    → cmd_loop 0 (c ∷ t) ≡ with_arg w (cmd_loop (length w - 1) t)
unfolding cmd_loop
cmd_loop-arg c t w e h = rw (e, h, cmd_loop) (go (cmd_loop (length w - 1) t))
  where
    go :
        (r : Option (List Word))
        → (elim r as (λ _. Option (List Word)) [ none ↦ none | some args ↦ some (w ∷ args) ])
          ≡ with_arg w r
    go none = refl
    go (some args) = refl

suc-minus : (n : ℕ) → suc n - 1 ≡ n
suc-minus n = omega arith

cmd_loop-put : (ws : List Word) → IsArgs ws → cmd_loop 0 (put_args ws) ≡ some ws
unfolding cmd_loop put_args IsArgs
cmd_loop-put [] h = refl
cmd_loop-put ([] ∷ ws) h = absurd h
cmd_loop-put ((c ∷ w) ∷ ws) (h, k) =
    cmd_loop-arg c (w ++ 0 ∷ put_args ws) (c ∷ w) (first-no_zero c w h)
      (c_string-put (c ∷ w) (put_args ws) h)
    ∙ ap (λ k. with_arg (c ∷ w) (cmd_loop k (w ++ 0 ∷ put_args ws))) (suc-minus (length w))
    ∙ ap (with_arg (c ∷ w)) (cmd_loop-skip w (0 ∷ put_args ws) ∙ cmd_loop-put ws k)

-- Arguments that are not empty are read back from a command line.
pub cmd2args-put_args : (ws : List Word) → IsArgs ws → cmd2args (put_args ws) ≡ some ws
unfolding cmd2args
cmd2args-put_args ws h = cmd_loop-put ws h

c_string-cut : (t w : Word) → c_string t ≡ some w → (rest : Word) × (t ≡ w ++ 0 ∷ rest)
unfolding c_string
c_string-cut [] w h = absurd cc
c_string-cut (c ∷ t) w h = go (c == 0) refl (c_string t) refl (c_string-cut t) h
  where
    go :
        (b : Bool)
        → (c == 0) ≡ b
        → (r : Option Word) → c_string t ≡ r
        → ((v : Word) → c_string t ≡ some v → (rest : Word) × (t ≡ v ++ 0 ∷ rest))
        → (if b then some [] else elim r [ none ↦ none | some v ↦ some (c ∷ v) ]) ≡ some w
        → (rest : Word) × (c ∷ t ≡ w ++ 0 ∷ rest)
    go true e r f ih k =
        let q : w ≡ [] = cc in
        let z : c ≡ 0 = ground arith in
        (t, ap {B = Word} (λ x. x ∷ t) z ∙ ap {B = Word} (λ x. x ++ 0 ∷ t) (sym q))
    go false e none f ih k = absurd cc
    go false e (some v) f ih k =
        let q : w ≡ c ∷ v = cc in
        let (rest, g) = ih v f in
        (rest, ap {B = Word} (λ x. c ∷ x) g ∙ ap {B = Word} (λ x. x ++ 0 ∷ rest) (sym q))

cmd_loop-zero : (c : ℕ) (t : Word) → (c == 0) ≡ true → cmd_loop 0 (c ∷ t) ≡ cmd_loop 0 t
unfolding cmd_loop
cmd_loop-zero c t e = rw (e, cmd_loop) refl

c_string-unended :
    (c : ℕ) (t : Word) → (c == 0) ≡ false → c_string t ≡ none → c_string (c ∷ t) ≡ none
unfolding c_string
c_string-unended c t e f = rw (e, f, c_string) refl

cmd_loop-unended :
    (c : ℕ) (t : Word) → (c == 0) ≡ false → c_string t ≡ none → cmd_loop 0 (c ∷ t) ≡ none
unfolding cmd_loop
cmd_loop-unended c t e f = rw (e, c_string-unended c t e f, cmd_loop) refl

c_string-step :
    (c : ℕ) (t v : Word) → (c == 0) ≡ false → c_string t ≡ some v → c_string (c ∷ t) ≡ some (c ∷ v)
unfolding c_string
c_string-step c t v e f = rw (e, f, c_string) refl

-- An argument, and what stands behind its zero.
cmd_loop-rest :
    (c : ℕ) (t v rest : Word)
    → (c == 0) ≡ false
    → c_string t ≡ some v
    → t ≡ v ++ 0 ∷ rest
    → cmd_loop 0 (c ∷ t) ≡ with_arg (c ∷ v) (cmd_loop 0 rest)
unfolding cmd_loop
cmd_loop-rest c t v rest e f g =
    cmd_loop-arg c t (c ∷ v) e (c_string-step c t v e f)
    ∙ ap (λ k. with_arg (c ∷ v) (cmd_loop k t)) (suc-minus (length v))
    ∙ ap (λ x. with_arg (c ∷ v) (cmd_loop (length v) x)) g
    ∙ ap (with_arg (c ∷ v)) (cmd_loop-skip v (0 ∷ rest))

with_arg-some :
    (w : Word) (r : Option (List Word)) (args : List Word)
    → with_arg w r ≡ some args
    → (others : List Word) × (r ≡ some others) × (args ≡ w ∷ others)
with_arg-some w none args h = absurd cc
with_arg-some w (some others) args h = (others, refl, cc)

none-some : (args : List Word) → none ≡ some args → ⊥
none-some args h = cc

-- Each argument takes a byte at least, and the zero behind it another.
cmd_loop-bound :
    (n : ℕ) (t : Word) (args : List Word)
    → length t ≤ n
    → cmd_loop 0 t ≡ some args
    → 2 * length args ≤ length t
unfolding cmd_loop
cmd_loop-bound n [] args l h = let q : args ≡ [] = cc in let e = ap length q in omega arith
cmd_loop-bound zero (c ∷ t) args l h = absurd (omega arith)
cmd_loop-bound (suc n) (c ∷ t) args l h = elim (Bool-cases (c == 0)) [
  | inl e ↦
      let k = cmd_loop-bound n t args (omega arith) (sym (cmd_loop-zero c t e) ∙ h) in omega arith
  | inr e ↦ elim (Option-cases (c_string t)) [
    | inl f ↦ absurd (none-some args (sym (cmd_loop-unended c t e f) ∙ h))
    | inr (v, f) ↦
        let (rest, g) = c_string-cut t v f in
        let (others, k, m) =
          with_arg-some (c ∷ v) (cmd_loop 0 rest) args (sym (cmd_loop-rest c t v rest e f g) ∙ h) in
        let lengths = ap length g in
        let counts = ap length m in
        let shorter : length rest ≤ n = omega (arith, lengths, length-append v (0 ∷ rest)) in
        let b = cmd_loop-bound n rest others shorter k in
        omega (arith, lengths, counts, length-append v (0 ∷ rest))
  ]
]

-- The array of 1024 arguments has room for those of a command line of up to 2048 bytes.
cmd2args-bound :
    (cmdline : Word) (args : List Word)
    → cmd2args cmdline ≡ some args
    → length cmdline ≤ 2 * process_arg_max
    → length args ≤ process_arg_max
unfolding cmd2args
cmd2args-bound cmdline args h l =
    let k = cmd_loop-bound (length cmdline) cmdline args (omega arith) h in omega arith
