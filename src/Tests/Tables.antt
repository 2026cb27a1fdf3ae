-- ===== src/Tests/Tables.antt =====
-- The theorems about vector.c, keyword.c, calculate.c and utils.c at small inputs.
use lre.Base.{ℕ, suc, ◌≤◌, false, none, some, List, [], ◌∷◌, ◌≡◌, refl, arith}
use lre.Token.{Word}
use lre.Vector.{Vector}
use lre.Vector.Slots.{slot_at}
use lre.Vector.Laws.{IsValid}
use lre.Keyword.{
  KeywordStub, expr_type, find_stub_by_keyword, semantic_find_keystub, find_loop, same_word,
}
use lre.Utils.{is_double_digit, is_double_digit-eq-false}
use lre.Tests.Sample.{codes}

-- A full vector of one slot, which grows when a value is added.
abbrev full : Vector ℕ
full = record { active = 1; slots = some 7 ∷ [] }

full-IsValid : IsValid full
full-IsValid = record { has_slot = omega arith; in_range = omega arith; null_beyond = beyond }
  where
    beyond : (i : ℕ) → 1 ≤ i → slot_at full.slots i ≡ none
    beyond ℕ.zero h = absurd (omega arith)
    beyond (suc i) h = refl

abbrev stub : Word → KeywordStub
stub w = record { type = expr_type; keyword = w; handler = 0; parent = none; subvec = none }

-- Three keywords, the second of which was taken out of the vector.
abbrev heap : List KeywordStub
heap = stub (codes "size") ∷ stub (codes "mode") ∷ stub (codes "owner") ∷ []

abbrev holed : Vector ℕ
holed = record { active = 3; slots = some 0 ∷ none ∷ some 2 ∷ none ∷ [] }

owner_hidden : find_stub_by_keyword heap holed (codes "owner") ≡ none
unfolding find_stub_by_keyword find_loop same_word
owner_hidden = refl

size_found : find_stub_by_keyword heap holed (codes "size") ≡ some 0
unfolding find_stub_by_keyword find_loop same_word
size_found = refl

size_found_in_scope : semantic_find_keystub heap (some holed) (codes "size") ≡ some 0
unfolding semantic_find_keystub
size_found_in_scope = size_found

is_double_digit-eq-false_example : is_double_digit (codes "1.5") ≡ false
is_double_digit-eq-false_example = is_double_digit-eq-false (codes "1.5")
