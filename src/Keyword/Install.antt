-- ===== src/Keyword/Install.antt =====
-- A keyword that `keyword_install` (keyword.c) put into the root is found there.
use lre.Base.{
  get_elem?-append, get_elem?-last, ℕ, zero, suc, ◌<◌, true, false, Option, none, some, List, [],
  ◌∷◌, ◌++◌, ◌≡◌, refl, ap, ◌∙◌, get_elem?, length, arith,
}
use lre.Token.{Word}
use lre.Vector.{Vector, first_empty, vector_empty_slot, vector_set_index, vector_set}
use lre.Vector.Slots.{slot_at}
use lre.Vector.Laws.{IsValid, slot_at-set_index}
use lre.Keyword.{
  KeystubType, KeywordStub, Table, same_word, find_loop, find_stub_by_keyword, keyword_stub_create,
  keyword_install,
}
use lre.Keyword.Laws.{same_word_self}

-- Each of the first `n` slots holds a stub of another keyword.
abbrev pub Others : List KeywordStub → Word → ℕ → List (Option ℕ) → Type 0
Others heap w n slots =
    (j : ℕ)
    → j < n
    → (q : ℕ) × (s : KeywordStub) × (slot_at slots j ≡ some q)
      × (get_elem? heap q ≡ some s)
      × (same_word s.keyword w ≡ false)

find_loop-Others :
    (heap : List KeywordStub) (n : ℕ) (slots : List (Option ℕ)) (w : Word) (p : ℕ) (s : KeywordStub)
    → Others heap w n slots
    → slot_at slots n ≡ some p
    → get_elem? heap p ≡ some s
    → same_word s.keyword w ≡ true
    → find_loop heap (suc n) slots w ≡ some p
unfolding find_loop
find_loop-Others heap n [] w p s o e g h = cc
find_loop-Others heap zero (x ∷ slots) w p s o e g h = rw e (rw g (rw h refl))
find_loop-Others heap (suc n) (x ∷ slots) w p s o e g h =
    let (q, t, a, b, d) = o 0 (omega arith) in
    rw a (rw b (rw d (find_loop-Others heap n slots w p s (λ j l. o (suc j) (omega arith)) e g h)))

first_empty-Others :
    (heap : List KeywordStub) (w : Word) (n : ℕ) (slots : List (Option ℕ))
    → Others heap w n slots
    → first_empty n slots ≡ n
unfolding first_empty
first_empty-Others heap w zero slots o = refl
first_empty-Others heap w (suc n) [] o = let (q, t, a, b, d) = o 0 (omega arith) in cc
first_empty-Others heap w (suc n) (none ∷ slots) o = let (q, t, a, b, d) = o 0 (omega arith) in cc
first_empty-Others heap w (suc n) (some x ∷ slots) o =
    ap suc (first_empty-Others heap w n slots (λ j l. o (suc j) (omega arith)))

pub active-set_index :
    (v : Vector ℕ) (x : Option ℕ) → (vector_set_index v v.active x).active ≡ suc v.active
unfolding vector_set_index
active-set_index v x = ground arith

-- The other stubs keep their slots when one is put behind them, and their places in the heap.
Others-set_index :
    (heap more : List KeywordStub) (w : Word) (v : Vector ℕ) (x : Option ℕ)
    → IsValid v
    → Others heap w v.active v.slots
    → Others (heap ++ more) w v.active (vector_set_index v v.active x).slots
Others-set_index heap more w v x h o j l =
    let (q, s, a, b, d) = o j l in
    (
      q,
      s,
      slot_at-set_index v v.active j x h ∙ ground (arith, a, l),
      get_elem?-append heap more q s b,
      d,
    )

find-set :
    (heap : List KeywordStub) (w : Word) (v : Vector ℕ) (s : KeywordStub)
    → IsValid v
    → Others heap w v.active v.slots
    → s.keyword ≡ w
    → find_stub_by_keyword (heap ++ s ∷ []) (vector_set v (some (length heap))).0 w
      ≡ some (length heap)
unfolding find_stub_by_keyword vector_set vector_empty_slot
find-set heap w v s h o e = rw (first_empty-Others heap w v.active v.slots o) (
    rw (active-set_index v (some (length heap))) (
      find_loop-Others (heap ++ s ∷ []) v.active _ w (length heap) s
        (Others-set_index heap (s ∷ []) w v (some (length heap)) h o)
        (slot_at-set_index v v.active v.active (some (length heap)) h ∙ ground arith)
        (get_elem?-last heap s) (rw e (same_word_self w))))

-- Where every slot in use of a valid root holds a stub of another keyword, a keyword that is
-- installed in the root is found there, and it is the new stub.
find_stub_by_keyword-keyword_install :
    (t t' : Table) (ty : KeystubType) (w : Word) (d p : ℕ)
    → IsValid t.root
    → Others t.heap w t.root.active t.root.slots
    → keyword_install t ty w d none ≡ some (t', p)
    → find_stub_by_keyword t'.heap t'.root w ≡ some p
unfolding keyword_install
find_stub_by_keyword-keyword_install t t' ty w d p h o e =
    rw (← table)
      (rw (← place) (find-set t.heap w t.root (keyword_stub_create ty w d none) h o named))
  where
    table :
        ◌≡◌ {A = Table}
          (record {
            heap = t.heap ++ keyword_stub_create ty w d none ∷ [];
            root = (vector_set t.root (some (length t.heap))).0;
          })
          t'
    table = cc

    place : length t.heap ≡ p
    place = cc

    named : (keyword_stub_create ty w d none).keyword ≡ w
    named = unfold keyword_stub_create in refl
