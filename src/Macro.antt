-- ===== src/Macro.antt =====
-- Macros: `struct lre_macro` and the hash table of macro.c. A bucket is a list, its newest macro
-- first. The argument count of a macro is the length of its argument list.
pub mod Table
pub mod Content
pub mod Args
pub mod Lines
pub mod Load
use lre.Base.{
  ℕ, ◌+◌, ◌*◌, ◌/◌, ◌%◌, ◌^◌, ◌-◌, Bool, true, false, ◌&&◌, Option, none, some, List, [], ◌∷◌, ltb,
  ◌==◌, if◌then◌else◌, length, get_elem?, set, replicate,
}
use lre.Token.{Word}
use lre.Keyword.{same_word}

abbrev pub lre_macro_argc_max : ℕ
lre_macro_argc_max = 16

-- The tokens of a macro's content: text, or the argument to put there.
pub data MacroToken : Type 0 where
  arg : ℕ → MacroToken
  word : Word → MacroToken

pub record Macro : Type 0 where
  pub keyword : Word
  pub args : List Word
  pub tokens : List MacroToken

abbrev pub argc : Macro → ℕ
argc m = length m.args

-- A byte as the C type `char`, which is signed, converted to 32 bits.
abbrev pub char_value : ℕ → ℕ
char_value c = if ltb c 128 then c else 2 ^ 32 - 256 + c

unfoldable pub hash_loop : ℕ → Word → ℕ
hash_loop hash [] = hash
hash_loop hash (c ∷ cs) = hash_loop ((hash * 131 + char_value c) % 2 ^ 32) cs

-- `hash_str` of utils.h at the table's eight bits.
unfoldable pub hash_str : Word → ℕ
unfolding hash_loop
hash_str w = hash_loop 0 w / 2 ^ 24

-- `macro_hlists` and `macro_count`.
pub record MacroTable : Type 0 where
  pub buckets : List (List Macro)
  pub count : ℕ

unfoldable pub empty_table : MacroTable
empty_table = record { buckets = replicate 256 []; count = 0 }

abbrev pub bucket_or_nil : Option (List Macro) → List Macro
bucket_or_nil none = []
bucket_or_nil (some b) = b

unfoldable pub bucket : MacroTable → Word → List Macro
bucket t w = bucket_or_nil (get_elem? t.buckets (hash_str w))

unfoldable pub lre_macro_add : Macro → MacroTable → MacroTable
lre_macro_add m t = record {
  buckets = set t.buckets (hash_str m.keyword) (m ∷ bucket t m.keyword);
  count = t.count + 1;
}

unfoldable pub find_in : Word → ℕ → List Macro → Option Macro
find_in w n [] = none
find_in w n (m ∷ ms) =
    let rest = find_in w n ms in if same_word m.keyword w && argc m == n then some m else rest

unfoldable pub is_in : Word → List Macro → Bool
is_in w [] = false
is_in w (m ∷ ms) = let rest = is_in w ms in if same_word m.keyword w then true else rest

-- `lre_find_macro`.
unfoldable pub lre_find_macro : MacroTable → Word → ℕ → Option Macro
lre_find_macro t w n = find_in w n (bucket t w)

-- `is_lre_macro`.
unfoldable pub is_lre_macro : MacroTable → Word → Bool
is_lre_macro t w = is_in w (bucket t w)
