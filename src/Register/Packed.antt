-- ===== src/Register/Packed.antt =====
-- Vectors of keyword.c without null slots among those in use, and what putting a stub into one does
-- to the list of its stubs.
use lre.Base.{
  Bool-cases, ℕ, zero, suc, ◌≤◌, ◌<◌, Option, none, some, List, [], ◌∷◌, ◌++◌, ◌≡◌, refl, ap, ◌∙◌,
  length, arith, inl, inr, ◌==◌,
}
use lre.Vector.{Vector, first_empty, vector_init, vector_empty_slot, vector_set_index, vector_set}
use lre.Vector.Slots.{slot_at}
use lre.Vector.Laws.{IsValid, slot_at-set_index, vector_set_index-IsValid, vector_init-IsValid}
use lre.Keyword.{KeywordStub, Table, subvec_of, lre_keyword_init}
use lre.Keyword.Install.{active-set_index}
use lre.Register.Scope.{Entry, entry_of, entry_at, entries_loop, entries}

-- A valid vector whose slots in use hold stubs of the heap.
pub record IsFull (heap : List KeywordStub) (v : Vector ℕ) : Type 0 where
  pub valid : IsValid v
  pub used : (j : ℕ) → j < v.active → (p : ℕ) × (slot_at v.slots j ≡ some p) × (p < length heap)

-- Each vector of the table is full.
pub record IsPacked (t : Table) : Type 0 where
  pub root : IsFull t.heap t.root
  pub subs : (q : ℕ) (v : Vector ℕ) → subvec_of t.heap q ≡ some v → IsFull t.heap v

-- The stubs of a heap are in another, but for their links.
pub record Keeps (heap heap' : List KeywordStub) : Type 0 where
  pub longer : length heap ≤ length heap'
  pub same : (p : ℕ) → p < length heap → entry_at heap' p ≡ entry_at heap p

pub IsFull-Keeps :
    (heap heap' : List KeywordStub) (v : Vector ℕ)
    → length heap ≤ length heap'
    → IsFull heap v
    → IsFull heap' v
IsFull-Keeps heap heap' v k h = record {
  valid = h.valid;
  used = λ j l. let (p, s, b) = h.used j l in (p, s, omega arith);
}

pub IsFull-vector_init : (heap : List KeywordStub) → IsFull heap (vector_init 0)
unfolding vector_init
IsFull-vector_init heap = record {
  valid = vector_init-IsValid 0;
  used = λ j l. absurd (omega arith);
}

first_empty-used :
    (n : ℕ) (slots : List (Option ℕ))
    → ((j : ℕ) → j < n → (p : ℕ) × (slot_at slots j ≡ some p))
    → first_empty n slots ≡ n
unfolding first_empty
first_empty-used zero slots h = refl
first_empty-used (suc n) [] h = let (p, e) = h 0 (omega arith) in cc
first_empty-used (suc n) (none ∷ slots) h = let (p, e) = h 0 (omega arith) in cc
first_empty-used (suc n) (some x ∷ slots) h =
    ap suc (first_empty-used n slots (λ j l. h (suc j) (omega arith)))

empty_slot-full :
    (heap : List KeywordStub) (v : Vector ℕ) → IsFull heap v → vector_empty_slot v ≡ v.active
unfolding vector_empty_slot
empty_slot-full heap v h =
    first_empty-used v.active v.slots (λ j l. let (p, s, b) = h.used j l in (p, s))

-- A full vector takes a stub behind the others.
set-behind :
    (heap : List KeywordStub) (v : Vector ℕ) (x : Option ℕ)
    → IsFull heap v
    → (vector_set v x).0 ≡ vector_set_index v v.active x
unfolding vector_set
set-behind heap v x h = ap (λ i. vector_set_index v i x) (empty_slot-full heap v h)

pub IsFull-set :
    (heap heap' : List KeywordStub) (v : Vector ℕ) (p : ℕ)
    → IsFull heap v
    → length heap ≤ length heap'
    → p < length heap'
    → IsFull heap' (vector_set v (some p)).0
IsFull-set heap heap' v p h l b = rw (set-behind heap v (some p) h) (record {
  valid = vector_set_index-IsValid v v.active (some p) h.valid;
  used = λ j m. go j (rw (active-set_index v (some p)) at m);
})
  where
    go :
        (j : ℕ)
        → j < suc v.active
        → (q : ℕ) × (slot_at (vector_set_index v v.active (some p)).slots j ≡ some q)
          × (q < length heap')
    go j m = elim (Bool-cases (v.active == j)) [
      | inl t ↦ (p, slot_at-set_index v v.active j (some p) h.valid ∙ ground (arith, t), b)
      | inr f ↦
          let (q, s, c) = h.used j (ground (arith, f)) in
          (q, slot_at-set_index v v.active j (some p) h.valid ∙ ground (arith, f, s), omega arith)
    ]

entries_loop-stable :
    (heap heap' : List KeywordStub) (n : ℕ) (slots : List (Option ℕ))
    → Keeps heap heap'
    → ((j : ℕ) → j < n → (p : ℕ) × (slot_at slots j ≡ some p) × (p < length heap))
    → entries_loop heap' n slots ≡ entries_loop heap n slots
unfolding entries_loop
entries_loop-stable heap heap' zero slots k h = refl
entries_loop-stable heap heap' (suc n) [] k h = refl
entries_loop-stable heap heap' (suc n) (none ∷ slots) k h = refl
entries_loop-stable heap heap' (suc n) (some x ∷ slots) k h =
    let (p, s, b) = h 0 (omega arith) in
    let here : x < length heap = ground (arith, s) in
    ground (
      arith,
      k.same x here,
      entries_loop-stable heap heap' n slots k (λ j l. h (suc j) (omega arith)),
    )

-- What a full vector holds does not depend on what is put behind the heap.
pub entries-stable :
    (heap heap' : List KeywordStub) (v : Vector ℕ)
    → Keeps heap heap'
    → IsFull heap v
    → entries heap' v ≡ entries heap v
unfolding entries
entries-stable heap heap' v k h = entries_loop-stable heap heap' v.active v.slots k h.used

entry_at-some :
    (heap : List KeywordStub) (p : ℕ) → p < length heap → (e : Entry) × (entry_at heap p ≡ some e)
entry_at-some [] p h = elim h [ ]
entry_at-some (s ∷ heap) zero h = (entry_of s, refl)
entry_at-some (s ∷ heap) (suc p) h = entry_at-some heap p (omega arith)

entries_loop-snoc :
    (heap heap' : List KeywordStub) (n : ℕ) (slots slots' : List (Option ℕ)) (p : ℕ) (e : Entry)
    → Keeps heap heap'
    → ((j : ℕ) → j < n → (q : ℕ) × (slot_at slots j ≡ some q) × (q < length heap))
    → ((j : ℕ) → j < n → slot_at slots' j ≡ slot_at slots j)
    → slot_at slots' n ≡ some p
    → entry_at heap' p ≡ some e
    → entries_loop heap' (suc n) slots' ≡ entries_loop heap n slots ++ e ∷ []
unfolding entries_loop
entries_loop-snoc heap heap' zero slots [] p e k u s b h = cc
entries_loop-snoc heap heap' zero slots (x ∷ slots') p e k u s b h = rw b (rw h refl)
entries_loop-snoc heap heap' (suc n) [] slots' p e k u s b h =
    let (q, c, d) = u 0 (omega arith) in cc
entries_loop-snoc heap heap' (suc n) (y ∷ slots) [] p e k u s b h = cc
entries_loop-snoc heap heap' (suc n) (y ∷ slots) (x ∷ slots') p e k u s b h =
    let (q, c, d) = u 0 (omega arith) in
    let (f, g) = entry_at-some heap q d in
    let head : x ≡ some q = s 0 (omega arith) ∙ c in
    let ahead : entry_at heap' q ≡ some f = k.same q d ∙ g in
    rw head (
      rw c (
        rw ahead (
          rw g (
            ap (λ es. f ∷ es)
              (entries_loop-snoc heap heap' n slots slots' p e k (λ j l. u (suc j) (omega arith))
                (λ j l. s (suc j) (omega arith)) b h)))))

-- A stub that is put into a full vector comes behind those that it holds.
pub entries-set :
    (heap heap' : List KeywordStub) (v : Vector ℕ) (p : ℕ) (e : Entry)
    → Keeps heap heap'
    → IsFull heap v
    → entry_at heap' p ≡ some e
    → entries heap' (vector_set v (some p)).0 ≡ entries heap v ++ e ∷ []
unfolding entries
entries-set heap heap' v p e k h b = rw (set-behind heap v (some p) h) (
    rw (active-set_index v (some p)) (
      entries_loop-snoc heap heap' v.active v.slots (vector_set_index v v.active (some p)).slots p e
        k h.used (λ j l. slot_at-set_index v v.active j (some p) h.valid ∙ ground (arith, l))
        (slot_at-set_index v v.active v.active (some p) h.valid ∙ ground arith) b))

-- The table at the start has no stubs.
pub lre_keyword_init-IsPacked : IsPacked lre_keyword_init
unfolding lre_keyword_init subvec_of
lre_keyword_init-IsPacked = record { root = IsFull-vector_init []; subs = λ q v e. cc }
