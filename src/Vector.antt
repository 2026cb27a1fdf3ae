-- ===== src/Vector.antt =====
-- The vector of vector.c: an array of pointers that may be null, with the number of slots in use.
pub mod Slots
pub mod Laws
use lre.Base.{
  ℕ, zero, suc, ◌+◌, ◌-◌, ◌*◌, ◌/◌, Bool, true, false, Option, none, some, List, [], ◌∷◌, ◌++◌, ltb,
  leb, ◌==◌, if◌then◌else◌, length, get_elem?, set, replicate,
}
use Slots.{slot_at}

-- `capacity` is the length of the slots.
pub record Vector (A : Type 0) : Type 0 where
  pub active : ℕ
  pub slots : List (Option A)

abbrev pub vector_default_size : ℕ
vector_default_size = 4

module _ {A : Type 0} where
  abbrev pub capacity : Vector A → ℕ
  capacity v = length v.slots

  unfoldable pub vector_init : ℕ → Vector A
  vector_init size = record {
    active = 0;
    slots = replicate (if size == 0 then vector_default_size else size) none;
  }

  unfoldable vector_copy : Vector A → Vector A
  vector_copy v = record { active = v.active; slots = v.slots }

  -- `vector_ensure`: double until slot `num` is there. `vector_ensure_fuel` counts the calls.
  unfoldable pub vector_ensure_fuel : ℕ → List (Option A) → ℕ → List (Option A)
  vector_ensure_fuel zero slots num = slots
  vector_ensure_fuel (suc f) slots num = elim (ltb num (length slots)) [
    | true ↦ slots
    | false ↦ vector_ensure_fuel f (slots ++ replicate (length slots) none) num
  ]

  unfoldable pub vector_ensure : Vector A → ℕ → Vector A
  vector_ensure v num = record v { slots = vector_ensure_fuel (suc num) v.slots num }

  -- The first empty slot among the first `n`, or `n`.
  unfoldable pub first_empty : ℕ → List (Option A) → ℕ
  first_empty zero slots = 0
  first_empty (suc n) [] = 0
  first_empty (suc n) (none ∷ slots) = 0
  first_empty (suc n) (some a ∷ slots) = suc (first_empty n slots)

  unfoldable pub vector_empty_slot : Vector A → ℕ
  vector_empty_slot v = first_empty v.active v.slots

  -- `vector_set_index`; a null value may be stored.
  unfoldable pub vector_set_index : Vector A → ℕ → Option A → Vector A
  unfolding vector_ensure
  vector_set_index v i x = record {
    active = if leb v.active i then i + 1 else v.active;
    slots = set (vector_ensure v i).slots i x;
  }

  -- `vector_set`, with the index that it returns.
  unfoldable pub vector_set : Vector A → Option A → Vector A × ℕ
  vector_set v x = let i = vector_empty_slot v in (vector_set_index v i x, i)

  unfoldable pub vector_lookup : Vector A → ℕ → Option A
  vector_lookup v i = if leb v.active i then none else slot_at v.slots i

  unfoldable vector_lookup_ensure : Vector A → ℕ → Option A × Vector A
  vector_lookup_ensure v i = let w = vector_ensure v i in (slot_at w.slots i, w)

  -- The loop of `vector_unset` from slot `i` down: the slots in use that are left.
  unfoldable pub trim : ℕ → List (Option A) → ℕ
  trim zero slots = 0
  trim (suc i) slots = elim (slot_at slots i) [ none ↦ trim i slots | some a ↦ suc i ]

  unfoldable pub vector_unset : Vector A → ℕ → Vector A
  vector_unset v i =
      let cleared = set v.slots i none in
      if leb (length v.slots) i then v else record {
        active = if i + 1 == v.active then trim i cleared else v.active;
        slots = cleared;
      }

  -- The occupied slots among the first `n`.
  unfoldable occupied : ℕ → List (Option A) → ℕ
  occupied zero slots = 0
  occupied (suc n) [] = 0
  occupied (suc n) (none ∷ slots) = occupied n slots
  occupied (suc n) (some a ∷ slots) = suc (occupied n slots)

  unfoldable vector_count : Vector A → ℕ
  vector_count v = occupied v.active v.slots
