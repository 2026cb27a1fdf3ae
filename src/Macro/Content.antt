-- ===== src/Macro/Content.antt =====
-- The content of a macro as tokens, and the code that a call of it stands for: macro.c.
pub mod Reference
pub mod Room
pub mod Expansion
use lre.Base.{
  ℕ, zero, suc, ◌+◌, ◌*◌, ◌-◌, Bool, true, false, ◌||◌, Option, none, some, List, [], ◌∷◌, ◌++◌,
  leb, ◌==◌, if◌then◌else◌, length, get_elem?, take,
}
use Prim.Native.Nat.{min}
use lre.Token.{Word}
use lre.Macro.{lre_macro_argc_max, MacroToken, arg, word, Macro, argc}

-- `strchr(ptr, '$')`.
unfoldable pub has_dollar : Word → Bool
has_dollar [] = false
has_dollar (c ∷ cs) = c == b'$' || has_dollar cs

-- `!strncmp(ptr, keyword, wordlen)`, with the keyword first.
unfoldable pub is_prefix : Word → Word → Bool
is_prefix [] text = true
is_prefix (c ∷ cs) [] = false
is_prefix (c ∷ cs) (d ∷ text) = let rest = is_prefix cs text in if c == d then rest else false

-- The first argument, from number `i` on, whose keyword stands at the front, and its length.
unfoldable pub find_arg : List Word → ℕ → Word → Option (ℕ × ℕ)
find_arg [] i text = none
find_arg (a ∷ args) i text =
    let rest = find_arg args (suc i) text in if is_prefix a text then some (i, length a) else rest

abbrev pub add_char : ℕ → List MacroToken → List MacroToken
add_char c (word w ∷ ts) = word (c ∷ w) ∷ ts
add_char c ts = ts

-- The loop of `lre_macro_content2token`. `skip` counts the bytes of an argument's name that are
-- still to be passed. Where a name follows the byte at the pointer, that byte becomes the zero
-- which ends the word before it, whatever the byte is.
unfoldable pub content_loop : List Word → ℕ → Word → List MacroToken
content_loop args skip [] = word [] ∷ []
content_loop args (suc skip) (c ∷ cs) = content_loop args skip cs
content_loop args zero (c ∷ cs) = elim (has_dollar (c ∷ cs)) [
  | false ↦ word (c ∷ cs) ∷ []
  | true ↦ elim (find_arg args 0 cs) [
    | none ↦ add_char c (content_loop args 0 cs)
    | some (i, len) ↦ word [] ∷ arg i ∷ content_loop args len cs
  ]
]

-- `none` is a write behind the array of tokens on the stack, which has 2 * 16 + 1 of them.
unfoldable pub lre_macro_content2token : List Word → Word → Option (List MacroToken)
lre_macro_content2token args content =
    let ts = content_loop args 0 content in
    if leb (length ts) (2 * lre_macro_argc_max + 1) then some ts else none

abbrev pub code_size : ℕ
code_size = 4096

-- The text in the array `code`, and `len`.
pub record Code : Type 0 where
  pub text : Word
  pub len : ℕ

-- `len += xsnprintf(code + len, DEFAULT_CODEBUF_SIZE - len, "%s", w)`.
unfoldable pub code_append : Code → Word → Code
code_append b w = record {
  text = b.text ++ take (code_size - b.len - 1) w;
  len = b.len + min (length w) (code_size - b.len);
}

-- `none` is the use of an argument that was not given.
unfoldable pub code_loop : List Word → List MacroToken → Code → Option Code
unfolding code_append
code_loop vals [] b = some b
code_loop vals (word w ∷ ts) b = code_loop vals ts (code_append b w)
code_loop vals (arg i ∷ ts) b = elim (get_elem? vals i) [
  | none ↦ none
  | some v ↦ code_loop vals ts (code_append b v)
]

-- The code, the null pointer, or undefined behaviour.
pub data Created : Type 0 where
  made : Word → Created
  null undefined : Created

abbrev pub created : Option Code → Created
created none = undefined
created (some b) = made b.text

unfoldable pub lre_create_code_by_macro : Macro → List Word → Created
lre_create_code_by_macro m vals =
    if argc m == length vals
    then created (code_loop vals m.tokens (record { text = []; len = 0 }))
    else null
