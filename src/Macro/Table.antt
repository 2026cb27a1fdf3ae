-- ===== src/Macro/Table.antt =====
-- The hash table of macro.c looks macros up as a plain list of them, the newest first.
use lre.Base.{
  get_elem?-set, ℕ, zero, suc, ◌+◌, ◌*◌, ◌<◌, ◌%◌, ◌^◌, true, List, [], ◌∷◌, ◌≡◌, refl, ap, ◌∙◌,
  ◌==◌, length, get_elem?, replicate, length-set, length-replicate, arith, if◌then◌else◌,
}
use lre.Token.{Word}
use lre.Keyword.{same_word}
use lre.Keyword.Laws.{same_word-eq}
use lre.Macro.{
  Macro, MacroTable, hash_loop, hash_str, char_value, empty_table, bucket, bucket_or_nil,
  lre_macro_add, find_in, is_in, lre_find_macro, is_lre_macro,
}

-- The table behind the additions of a list of macros, its last first.
unfoldable pub added : List Macro → MacroTable
added [] = empty_table
added (m ∷ ms) = lre_macro_add m (added ms)

hash_loop-lt : (h : ℕ) (w : Word) → h < 2 ^ 32 → hash_loop h w < 2 ^ 32
unfolding hash_loop
hash_loop-lt h [] l = l
hash_loop-lt h (c ∷ cs) l = hash_loop-lt ((h * 131 + char_value c) % 2 ^ 32) cs (omega arith)

hash_str-lt : (w : Word) → hash_str w < 256
unfolding hash_str
hash_str-lt w = omega (arith, hash_loop-lt 0 w (omega arith))

length-buckets : (ms : List Macro) → length (added ms).buckets ≡ 256
unfolding added empty_table lre_macro_add
length-buckets [] = length-replicate {A = List Macro} 256 []
length-buckets (m ∷ ms) = length-set (added ms).buckets _ _ ∙ length-buckets ms

bucket-add :
    (m : Macro) (ms : List Macro) (w : Word)
    → bucket (lre_macro_add m (added ms)) w
      ≡ (if hash_str m.keyword == hash_str w then m ∷ bucket (added ms) w else bucket (added ms) w)
unfolding bucket lre_macro_add
bucket-add m ms w = ground (
  arith,
  get_elem?-set (added ms).buckets (hash_str m.keyword) (hash_str w)
      (m ∷ bucket (added ms) m.keyword) (omega (arith, length-buckets ms, hash_str-lt m.keyword)),
)

bucket-empty : (w : Word) → bucket empty_table w ≡ []
unfolding bucket empty_table
bucket-empty w = go 256 (hash_str w)
  where
    go : (n i : ℕ) → bucket_or_nil (get_elem? (replicate n []) i) ≡ []
    go zero i = refl
    go (suc n) zero = refl
    go (suc n) (suc i) = go n i

same_word-hash : (a b : Word) → same_word a b ≡ true → hash_str a ≡ hash_str b
same_word-hash a b h = ap hash_str (same_word-eq a b h)

find_in-bucket :
    (w : Word) (n : ℕ) (ms : List Macro) → find_in w n (bucket (added ms) w) ≡ find_in w n ms
unfolding added find_in
find_in-bucket w n [] = rw (bucket-empty w) refl
find_in-bucket w n (m ∷ ms) =
    rw (bucket-add m ms w) (ground (arith, find_in-bucket w n ms, same_word-hash m.keyword w))

is_in-bucket : (w : Word) (ms : List Macro) → is_in w (bucket (added ms) w) ≡ is_in w ms
unfolding added is_in
is_in-bucket w [] = rw (bucket-empty w) refl
is_in-bucket w (m ∷ ms) =
    rw (bucket-add m ms w) (ground (arith, is_in-bucket w ms, same_word-hash m.keyword w))

-- The hash table behind any additions, looked up by keyword and argument count or by keyword alone,
-- gives what the plain list of the macros gives, the newest first.
pub lre_find_macro-added :
    (ms : List Macro) (w : Word) (n : ℕ)
    → (lre_find_macro (added ms) w n ≡ find_in w n ms) × (is_lre_macro (added ms) w ≡ is_in w ms)
unfolding lre_find_macro is_lre_macro
lre_find_macro-added ms w n = (find_in-bucket w n ms, is_in-bucket w ms)
