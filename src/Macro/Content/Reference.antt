-- ===== src/Macro/Content/Reference.antt =====
-- The content of a macro of macro.c with values in the places of its arguments: the reference, and
-- the tokens of the content as a text.
use lre.Base.{
  ℕ, zero, suc, Bool, true, false, Option, none, some, List, [], ◌∷◌, ◌++◌, ◌≡◌, refl, ◌==◌,
  get_elem?, append-nil, arith,
}
use lre.Token.{Word}
use lre.Macro.{MacroToken, arg, word}
use lre.Macro.Content.{has_dollar, find_arg, add_char, content_loop}

abbrev pub value : List Word → ℕ → Word
value vals i = elim (get_elem? vals i) [ none ↦ [] | some v ↦ v ]

-- The reference: at each `$` that an argument's name follows, both are replaced by the value.
unfoldable pub substitute : List Word → List Word → ℕ → Word → Word
substitute args vals skip [] = []
substitute args vals (suc skip) (c ∷ cs) = substitute args vals skip cs
substitute args vals zero (c ∷ cs) = elim (c == b'$') [
  | false ↦ c ∷ substitute args vals 0 cs
  | true ↦ elim (find_arg args 0 cs) [
    | none ↦ c ∷ substitute args vals 0 cs
    | some (i, len) ↦ value vals i ++ substitute args vals len cs
  ]
]

-- Up to the last `$` no name of an argument stands behind another byte than `$`.
unfoldable pub is_clean : List Word → ℕ → Word → Bool
is_clean args skip [] = true
is_clean args (suc skip) (c ∷ cs) = is_clean args skip cs
is_clean args zero (c ∷ cs) = elim (has_dollar (c ∷ cs)) [
  | false ↦ true
  | true ↦ elim (find_arg args 0 cs) [
    | none ↦ is_clean args 0 cs
    | some (i, len) ↦ elim (c == b'$') [ true ↦ is_clean args len cs | false ↦ false ]
  ]
]

-- The text that a list of tokens stands for.
unfoldable pub render : List Word → List MacroToken → Word
render vals [] = []
render vals (word w ∷ ts) = w ++ render vals ts
render vals (arg i ∷ ts) = value vals i ++ render vals ts

-- The loop gives a word first.
data StartsWord : List MacroToken → Type 0 where
  starts : {w : Word} {ts : List MacroToken} → StartsWord (word w ∷ ts)

StartsWord-add_char : (c : ℕ) (ts : List MacroToken) → StartsWord ts → StartsWord (add_char c ts)
StartsWord-add_char c [] h = elim h [ ]
StartsWord-add_char c (arg i ∷ ts) h = elim h [ ]
StartsWord-add_char c (word w ∷ ts) h = starts

StartsWord-content_loop :
    (args : List Word) (k : ℕ) (text : Word) → StartsWord (content_loop args k text)
unfolding content_loop
StartsWord-content_loop args k [] = starts
StartsWord-content_loop args (suc k) (c ∷ cs) = StartsWord-content_loop args k cs
StartsWord-content_loop args zero (c ∷ cs) =
    go (has_dollar (c ∷ cs)) (find_arg args 0 cs)
      (StartsWord-add_char c _ (StartsWord-content_loop args 0 cs))
  where
    go :
        (b : Bool) (o : Option (ℕ × ℕ))
        → StartsWord (add_char c (content_loop args 0 cs))
        → StartsWord (elim b as (λ _. List MacroToken) [
          | false ↦ word (c ∷ cs) ∷ []
          | true ↦ elim o as (λ _. List MacroToken) [
            | none ↦ add_char c (content_loop args 0 cs)
            | some (i, len) ↦ word [] ∷ arg i ∷ content_loop args len cs
          ]
        ])
    go false o h = starts
    go true none h = h
    go true (some (i, len)) h = starts

render-add_char :
    (vals : List Word) (c : ℕ) (ts : List MacroToken)
    → StartsWord ts
    → render vals (add_char c ts) ≡ c ∷ render vals ts
unfolding render
render-add_char vals c [] h = elim h [ ]
render-add_char vals c (arg i ∷ ts) h = elim h [ ]
render-add_char vals c (word w ∷ ts) h = refl

pub substitute-no_dollar :
    (args vals : List Word) (text : Word)
    → has_dollar text ≡ false
    → substitute args vals 0 text ≡ text
unfolding substitute has_dollar
substitute-no_dollar args vals [] h = refl
substitute-no_dollar args vals (c ∷ cs) h = ground (arith, substitute-no_dollar args vals cs)

no_dollar-cons :
    (c : ℕ) (cs : Word)
    → has_dollar (c ∷ cs) ≡ false
    → ((c == b'$') ≡ false) × (has_dollar cs ≡ false)
unfolding has_dollar
no_dollar-cons c cs h = (ground arith, ground arith)

pub render-content_loop :
    (args vals : List Word) (k : ℕ) (text : Word)
    → is_clean args k text ≡ true
    → render vals (content_loop args k text) ≡ substitute args vals k text
unfolding render content_loop substitute is_clean
render-content_loop args vals k [] h = refl
render-content_loop args vals (suc k) (c ∷ cs) h = render-content_loop args vals k cs h
render-content_loop args vals zero (c ∷ cs) h =
    go (has_dollar (c ∷ cs)) (find_arg args 0 cs) refl h (render-content_loop args vals 0 cs)
      (λ len. render-content_loop args vals len cs)
  where
    go :
        (b : Bool) (o : Option (ℕ × ℕ))
        → has_dollar (c ∷ cs) ≡ b
        → ◌≡◌ {A = Bool}
            (elim b [
              | false ↦ true
              | true ↦ elim o [
                | none ↦ is_clean args 0 cs
                | some (i, len) ↦ elim (c == b'$') [ true ↦ is_clean args len cs | false ↦ false ]
              ]
            ])
            true
        → (is_clean args 0 cs ≡ true
            → render vals (content_loop args 0 cs) ≡ substitute args vals 0 cs)
        → ((len : ℕ)
            → is_clean args len cs ≡ true
            → render vals (content_loop args len cs) ≡ substitute args vals len cs)
        → render vals (elim b as (λ _. List MacroToken) [
          | false ↦ word (c ∷ cs) ∷ []
          | true ↦ elim o as (λ _. List MacroToken) [
            | none ↦ add_char c (content_loop args 0 cs)
            | some (i, len) ↦ word [] ∷ arg i ∷ content_loop args len cs
          ]
        ])
          ≡ (elim (c == b'$') as (λ _. Word) [
            | false ↦ c ∷ substitute args vals 0 cs
            | true ↦ elim o as (λ _. Word) [
              | none ↦ c ∷ substitute args vals 0 cs
              | some (i, len) ↦ value vals i ++ substitute args vals len cs
            ]
          ])
    go false o e k ih more =
        let (d, n) = no_dollar-cons c cs e in
        ground (arith, d, append-nil cs, substitute-no_dollar args vals cs)
    go true none e k ih more =
        rw (render-add_char vals c _ (StartsWord-content_loop args 0 cs)) (ground (arith, ih k))
    go true (some (i, len)) e k ih more = ground (arith, more len)
