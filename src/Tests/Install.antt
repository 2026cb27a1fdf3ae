-- ===== src/Tests/Install.antt =====
-- Installing a third keyword in the table of keyword.c.
use lre.Base.{ℕ, zero, suc, ◌≤◌, none, some, [], ◌∷◌, ◌≡◌, refl, arith}
use lre.Vector.{
  vector_ensure, vector_ensure_fuel, first_empty, vector_empty_slot, vector_set_index, vector_set,
}
use lre.Vector.Laws.{IsValid}
use lre.Vector.Slots.{slot_at}
use lre.Keyword.{expr_type, KeywordStub, Table, same_word, keyword_stub_create, keyword_install}
use lre.Keyword.Install.{Others}
use lre.Tests.Sample.{codes}

abbrev size_stub : KeywordStub
size_stub = record {
  type = expr_type;
  keyword = codes "size";
  handler = 0;
  parent = none;
  subvec = none;
}

abbrev mode_stub : KeywordStub
mode_stub = record {
  type = expr_type;
  keyword = codes "mode";
  handler = 1;
  parent = none;
  subvec = none;
}

abbrev owner_stub : KeywordStub
owner_stub = record {
  type = expr_type;
  keyword = codes "owner";
  handler = 2;
  parent = none;
  subvec = none;
}

abbrev two_words : Table
two_words = record {
  heap = size_stub ∷ mode_stub ∷ [];
  root = record { active = 2; slots = some 0 ∷ some 1 ∷ [] };
}

abbrev three_words : Table
three_words = record {
  heap = size_stub ∷ mode_stub ∷ owner_stub ∷ [];
  root = record { active = 3; slots = some 0 ∷ some 1 ∷ some 2 ∷ none ∷ [] };
}

two_words-IsValid : IsValid two_words.root
two_words-IsValid = record { has_slot = omega arith; in_range = omega arith; null_beyond = beyond }
  where
    beyond : (i : ℕ) → 2 ≤ i → slot_at two_words.root.slots i ≡ none
    beyond zero h = absurd (omega arith)
    beyond (suc zero) h = absurd (omega arith)
    beyond (suc (suc i)) h = refl

two_words-Others : Others two_words.heap (codes "owner") 2 two_words.root.slots
unfolding same_word
two_words-Others zero l = (0, size_stub, refl, refl, refl)
two_words-Others (suc zero) l = (1, mode_stub, refl, refl, refl)
two_words-Others (suc (suc j)) l = absurd (omega arith)

owner-installed : keyword_install two_words expr_type (codes "owner") 2 none ≡ some (three_words, 2)
unfolding keyword_install keyword_stub_create vector_set vector_empty_slot first_empty
    vector_set_index vector_ensure vector_ensure_fuel
owner-installed = refl
