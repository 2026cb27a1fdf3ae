-- ===== src/Keyword/Laws.antt =====
-- What `find_stub_by_keyword` (keyword.c) finds.
use lre.Base.{
  ℕ, zero, suc, ◌<◌, true, Option, none, some, List, [], ◌∷◌, ◌≡◌, ◌⊎◌, inl, inr, refl, ap,
  if◌then◌else◌, get_elem?, Bool-cases, arith,
}
use lre.Token.{Word}
use lre.Vector.{Vector}
use lre.Vector.Slots.{slot_at}
use lre.Keyword.{KeywordStub, same_word, find_loop, find_stub_by_keyword, semantic_find_keystub}

pub same_word-eq : (a b : Word) → same_word a b ≡ true → a ≡ b
unfolding same_word
same_word-eq [] [] h = refl
same_word-eq [] (c ∷ b) h = cc
same_word-eq (c ∷ a) [] h = cc
same_word-eq (c ∷ a) (d ∷ b) h = ground (arith, same_word-eq a b)

pub same_word_self : (a : Word) → same_word a a ≡ true
unfolding same_word
same_word_self [] = refl
same_word_self (c ∷ a) = ground (arith, same_word_self a)

some-eq : (a b : ℕ) → some a ≡ some b → a ≡ b
some-eq a b h = cc

find_loop-HasKeyword :
    (heap : List KeywordStub) (n : ℕ) (slots : List (Option ℕ)) (w : Word) (p : ℕ)
    → find_loop heap n slots w ≡ some p
    → (s : KeywordStub) × (get_elem? heap p ≡ some s) × (s.keyword ≡ w)
unfolding find_loop
find_loop-HasKeyword heap zero slots w p h = cc
find_loop-HasKeyword heap (suc n) [] w p h = cc
find_loop-HasKeyword heap (suc n) (none ∷ slots) w p h = cc
find_loop-HasKeyword heap (suc n) (some q ∷ slots) w p h =
    go (get_elem? heap q) refl h (find_loop-HasKeyword heap n slots w p)
  where
    here :
        (s : KeywordStub)
        → get_elem? heap q ≡ some s
        → q ≡ p
        → same_word s.keyword w ≡ true
        → (s : KeywordStub) × (get_elem? heap p ≡ some s) × (s.keyword ≡ w)
    here s e j t = (s, rw (← j) e, same_word-eq s.keyword w t)

    go :
        (o : Option KeywordStub)
        → get_elem? heap q ≡ o
        → ◌≡◌ {A = Option ℕ}
            (elim o [
              | none ↦ none
              | some s ↦ if same_word s.keyword w then some q else find_loop heap n slots w
            ])
            (some p)
        → (find_loop heap n slots w ≡ some p
            → (s : KeywordStub) × (get_elem? heap p ≡ some s) × (s.keyword ≡ w))
        → (s : KeywordStub) × (get_elem? heap p ≡ some s) × (s.keyword ≡ w)
    go none e g ih = cc
    go (some s) e g ih = elim (Bool-cases (same_word s.keyword w)) [
      | inl t ↦ here s e (some-eq q p (rw t at g)) t
      | inr f ↦ ih (rw f at g)
    ]

-- A stub that the semantic analysis finds has the keyword that it asked for.
pub semantic_find_keystub-HasKeyword :
    (heap : List KeywordStub) (v : Option (Vector ℕ)) (w : Word) (p : ℕ)
    → semantic_find_keystub heap v w ≡ some p
    → (s : KeywordStub) × (get_elem? heap p ≡ some s) × (s.keyword ≡ w)
unfolding semantic_find_keystub find_stub_by_keyword
semantic_find_keystub-HasKeyword heap none w p h = cc
semantic_find_keystub-HasKeyword heap (some v) w p h =
    find_loop-HasKeyword heap v.active v.slots w p h

-- No stub among the slots from `i` on has the keyword, or `i` is at least the null slot.
find_loop-stops :
    (heap : List KeywordStub) (n i : ℕ) (slots : List (Option ℕ)) (w : Word) (p : ℕ)
    → slot_at slots i ≡ none
    → find_loop heap n slots w ≡ some p
    → (j : ℕ) × (j < i) × (slot_at slots j ≡ some p)
unfolding find_loop
find_loop-stops heap zero i slots w p e h = cc
find_loop-stops heap (suc n) i [] w p e h = cc
find_loop-stops heap (suc n) i (none ∷ slots) w p e h = cc
find_loop-stops heap (suc n) zero (some q ∷ slots) w p e h = cc
find_loop-stops heap (suc n) (suc i) (some q ∷ slots) w p e h = elim (found (get_elem? heap q) h) [
  | inl j ↦ (0, omega arith, ap some j)
  | inr g ↦ next (find_loop-stops heap n i slots w p e g)
]
  where
    next :
        (j : ℕ) × (j < i) × (slot_at slots j ≡ some p)
        → (j : ℕ) × (j < suc i) × (slot_at (some q ∷ slots) j ≡ some p)
    next (j, l, g) = (suc j, omega arith, g)

    found :
        (o : Option KeywordStub)
        → ◌≡◌ {A = Option ℕ}
            (elim o [
              | none ↦ none
              | some s ↦ if same_word s.keyword w then some q else find_loop heap n slots w
            ])
            (some p)
        → (q ≡ p) ⊎ (find_loop heap n slots w ≡ some p)
    found none g = cc
    found (some s) g = elim (Bool-cases (same_word s.keyword w)) [
      | inl t ↦ inl (some-eq q p (rw t at g))
      | inr f ↦ inr (rw f at g)
    ]

-- A null slot hides what stands behind it: whatever is found stands before the first null slot.
find_stub_by_keyword_stops :
    (heap : List KeywordStub) (v : Vector ℕ) (i : ℕ) (w : Word) (p : ℕ)
    → slot_at v.slots i ≡ none
    → find_stub_by_keyword heap v w ≡ some p
    → (j : ℕ) × (j < i) × (slot_at v.slots j ≡ some p)
unfolding find_stub_by_keyword
find_stub_by_keyword_stops heap v i w p e h = find_loop-stops heap v.active i v.slots w p e h
