-- ===== src/Register/Scope.antt =====
-- The keyword table of keyword.c as lists: what each vector holds, in order.
use lre.Base.{
  ℕ, zero, suc, true, false, Option, none, some, List, [], ◌∷◌, ◌≡◌, refl, get_elem?, arith,
}
use lre.Token.{Word}
use lre.Vector.{Vector}
use lre.Keyword.{
  KeystubType, KeywordStub, Table, same_word, find_loop, find_stub_by_keyword, subvec_of,
}

-- A stub without its links.
pub record Entry : Type 0 where
  pub type : KeystubType
  pub keyword : Word
  pub handler : ℕ

abbrev pub entry_of : KeywordStub → Entry
entry_of s = record { type = s.type; keyword = s.keyword; handler = s.handler }

abbrev pub entry_at : List KeywordStub → ℕ → Option Entry
entry_at heap p = elim (get_elem? heap p) [ none ↦ none | some s ↦ some (entry_of s) ]

unfoldable pub entries_loop : List KeywordStub → ℕ → List (Option ℕ) → List Entry
entries_loop heap zero slots = []
entries_loop heap (suc n) [] = []
entries_loop heap (suc n) (none ∷ slots) = []
entries_loop heap (suc n) (some p ∷ slots) = elim (entry_at heap p) [
  | none ↦ []
  | some e ↦ e ∷ entries_loop heap n slots
]

unfoldable pub entries : List KeywordStub → Vector ℕ → List Entry
entries heap v = entries_loop heap v.active v.slots

-- The keywords that the root holds, and those in the scope of a stub.
unfoldable pub root_scope : Table → List Entry
root_scope t = entries t.heap t.root

unfoldable pub scope_of : Table → ℕ → List Entry
scope_of t q = elim (subvec_of t.heap q) [ none ↦ [] | some v ↦ entries t.heap v ]

unfoldable pub first : Word → List Entry → Option Entry
first w [] = none
first w (e ∷ es) = elim (same_word e.keyword w) [ true ↦ some e | false ↦ first w es ]

abbrev pub found : List KeywordStub → Option ℕ → Option Entry
found heap none = none
found heap (some p) = entry_at heap p

find_loop-entries :
    (heap : List KeywordStub) (n : ℕ) (slots : List (Option ℕ)) (w : Word)
    → found heap (find_loop heap n slots w) ≡ first w (entries_loop heap n slots)
unfolding find_loop entries_loop first
find_loop-entries heap zero slots w = refl
find_loop-entries heap (suc n) [] w = refl
find_loop-entries heap (suc n) (none ∷ slots) w = refl
find_loop-entries heap (suc n) (some p ∷ slots) w = ground (arith, find_loop-entries heap n slots w)

-- `find_stub_by_keyword` finds the first stub of the vector that has the keyword.
find_stub_by_keyword-first :
    (heap : List KeywordStub) (v : Vector ℕ) (w : Word)
    → found heap (find_stub_by_keyword heap v w) ≡ first w (entries heap v)
unfolding find_stub_by_keyword entries
find_stub_by_keyword-first heap v w = find_loop-entries heap v.active v.slots w
