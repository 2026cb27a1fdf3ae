-- ===== src/Register/Removal.antt =====
-- What the removal of a module (lre.c) takes out of the keyword table.
mod Slots
use lre.Base.{
  ℕ, suc, Bool, true, none, List, [], ◌∷◌, ◌≡◌, if◌then◌else◌, ◌≢◌, ==_iff, sym, leb, ◌++◌, length,
}
use lre.Token.{Word}
use lre.Vector.{Vector, vector_lookup, vector_unset}
use lre.Vector.Slots.{slot_at, slot_at-set}
use lre.Keyword.{find_stub_by_keyword}
use lre.Register.{Registry}

-- No element of the list is the number.
abbrev pub NotIn : ℕ → List ℕ → Type 0
NotIn m [] = Unit
NotIn m (n ∷ ns) = (n ≢ m) × NotIn m ns

-- What is left of a registry behind the removal of the stub at `p` from the first slot.
pub record IsRemoved (r r' : Registry) (before after : List ℕ) : Type 0 where
  pub first_slot : slot_at r'.table.root.slots 0 ≡ none
  pub other_slots :
      (i : ℕ) → slot_at r'.table.root.slots (suc i) ≡ slot_at r.table.root.slots (suc i)
  pub stubs : r'.table.heap ≡ r.table.heap
  pub modules : r'.modules ≡ before ++ after
  pub hidden : (w : Word) → find_stub_by_keyword r'.table.heap r'.table.root w ≡ none
