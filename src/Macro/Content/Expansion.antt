-- ===== src/Macro/Content/Expansion.antt =====
-- What a macro of macro.c expands to.
use lre.Base.{
  ℕ, ◌-◌, Bool, true, false, none, some, List, [], ◌∷◌, ◌++◌, ◌≡◌, refl, ap, ◌∙◌, if◌then◌else◌,
  length, take, arith, ==_refl,
}
use lre.Token.{Word}
use lre.Macro.{MacroToken, arg, word, Macro, argc}
use lre.Macro.Content.{
  has_dollar, is_prefix, find_arg, content_loop, lre_macro_content2token, code_size, made, created,
  lre_create_code_by_macro,
}
use lre.Macro.Content.Reference.{substitute, is_clean, render, render-content_loop}
use lre.Macro.Content.Room.{AllBelow, AllBelow-content_loop, code_loop-render}

guarded : (b : Bool) (ts us : List MacroToken) → (if b then some ts else none) ≡ some us → us ≡ ts
guarded true ts us h = cc
guarded false ts us h = cc

lre_create_code_by_macro-render :
    (m : Macro) (content : Word) (vals : List Word)
    → lre_macro_content2token m.args content ≡ some m.tokens
    → length vals ≡ argc m
    → lre_create_code_by_macro m vals
      ≡ made (take (code_size - 1) (render vals (content_loop m.args 0 content)))
unfolding lre_create_code_by_macro lre_macro_content2token
lre_create_code_by_macro-render m content vals e n =
    let tokens : m.tokens ≡ content_loop m.args 0 content = guarded _ _ _ e in
    let below : AllBelow (length vals) m.tokens =
      rw (n, tokens) (AllBelow-content_loop m.args 0 content) in
    rw (n, ==_refl (argc m))
      (ap created (code_loop-render vals m.tokens [] below)
        ∙ ap (λ x. made (take (code_size - 1) (render vals x))) tokens)

-- A macro whose content is clean, called with as many values as it has arguments, stands for its
-- content with the values in place of the arguments, cut at the size of the code array. Its tokens
-- are those of the content, which has room for 16 uses of arguments.
pub lre_create_code_by_macro-substitute :
    (m : Macro) (content : Word) (vals : List Word)
    → is_clean m.args 0 content ≡ true
    → lre_macro_content2token m.args content ≡ some m.tokens
    → length vals ≡ argc m
    → lre_create_code_by_macro m vals
      ≡ made (take (code_size - 1) (substitute m.args vals 0 content))
lre_create_code_by_macro-substitute m content vals h e n =
    lre_create_code_by_macro-render m content vals e n
    ∙ ap (λ x. made (take (code_size - 1) x)) (render-content_loop m.args vals 0 content h)

pub is_prefix-append : (a rest : Word) → is_prefix a (a ++ rest) ≡ true
unfolding is_prefix
is_prefix-append [] rest = refl
is_prefix-append (c ∷ a) rest = ground (arith, is_prefix-append a rest)

has_dollar-append : (a rest : Word) → has_dollar rest ≡ true → has_dollar (a ++ rest) ≡ true
unfolding has_dollar
has_dollar-append [] rest h = h
has_dollar-append (c ∷ a) rest h = ground (arith, has_dollar-append a rest)

content_loop-skip :
    (args : List Word) (a rest : Word)
    → content_loop args (length a) (a ++ rest) ≡ content_loop args 0 rest
unfolding content_loop
content_loop-skip args [] rest = refl
content_loop-skip args (c ∷ a) rest = content_loop-skip args a rest

find_arg-append : (a rest : Word) → find_arg (a ∷ []) 0 (a ++ rest) ≡ some (0, length a)
unfolding find_arg
find_arg-append a rest = rw (is_prefix-append a rest) refl

content_loop-any_byte :
    (a : Word) (c : ℕ) (rest : Word)
    → has_dollar rest ≡ true
    → content_loop (a ∷ []) 0 (c ∷ (a ++ rest)) ≡ word [] ∷ arg 0 ∷ content_loop (a ∷ []) 0 rest
unfolding content_loop
content_loop-any_byte a c rest h =
    rw (has_dollar-append (c ∷ a) rest h, content_loop)
      (rw (find_arg-append a rest, content_loop)
        (ap (λ ts. word [] ∷ arg 0 ∷ ts) (content_loop-skip (a ∷ []) a rest)))

-- Where `$` stands anywhere behind it, the name of an argument is replaced behind any byte, and that
-- byte is lost.
lre_create_code_by_macro-any_byte :
    (m : Macro) (a v rest : Word) (c : ℕ)
    → m.args ≡ a ∷ []
    → has_dollar rest ≡ true
    → is_clean (a ∷ []) 0 rest ≡ true
    → lre_macro_content2token m.args (c ∷ (a ++ rest)) ≡ some m.tokens
    → lre_create_code_by_macro m (v ∷ [])
      ≡ made (take (code_size - 1) (v ++ substitute (a ∷ []) (v ∷ []) 0 rest))
unfolding render
lre_create_code_by_macro-any_byte m a v rest c one h k e =
    lre_create_code_by_macro-render m (c ∷ (a ++ rest)) (v ∷ []) e (rw one refl)
    ∙ rw one (
        rw (content_loop-any_byte a c rest h) (
          ap (λ x. made (take (code_size - 1) (v ++ x)))
            (render-content_loop (a ∷ []) (v ∷ []) 0 rest k)))
