-- ===== src/Vector/Slots.antt =====
-- Reading a slot of the array of vector.c: a slot that is not there reads as null.
use lre.Base.{
  ℕ, zero, suc, ◌≤◌, ◌<◌, Option, none, List, [], ◌∷◌, ◌++◌, ◌≡◌, refl, ◌==◌, if◌then◌else◌, length,
  set, replicate, arith,
}

module _ {A : Type 0} where
  abbrev pub slot_at : List (Option A) → ℕ → Option A
  slot_at [] i = none
  slot_at (x ∷ xs) zero = x
  slot_at (x ∷ xs) (suc i) = slot_at xs i

  pub slot_at-replicate : (n i : ℕ) → slot_at (replicate n none) i ≡ none
  slot_at-replicate zero i = refl
  slot_at-replicate (suc n) zero = refl
  slot_at-replicate (suc n) (suc i) = slot_at-replicate n i

  -- Null slots at the end do not show.
  pub slot_at-append_replicate :
      (xs : List (Option A)) (n i : ℕ) → slot_at (xs ++ replicate n none) i ≡ slot_at xs i
  slot_at-append_replicate [] n i = slot_at-replicate n i
  slot_at-append_replicate (x ∷ xs) n zero = refl
  slot_at-append_replicate (x ∷ xs) n (suc i) = slot_at-append_replicate xs n i

  pub slot_at-set :
      (xs : List (Option A)) (i j : ℕ) (x : Option A)
      → i < length xs
      → slot_at (set xs i x) j ≡ (if i == j then x else slot_at xs j)
  slot_at-set [] i j x h = elim h [ ]
  slot_at-set (y ∷ xs) zero zero x h = ground arith
  slot_at-set (y ∷ xs) zero (suc j) x h = ground arith
  slot_at-set (y ∷ xs) (suc i) zero x h = ground arith
  slot_at-set (y ∷ xs) (suc i) (suc j) x h = ground (arith, slot_at-set xs i j x (omega arith))

  pub slot_at_beyond : (xs : List (Option A)) (i : ℕ) → length xs ≤ i → slot_at xs i ≡ none
  slot_at_beyond [] i h = refl
  slot_at_beyond (x ∷ xs) zero h = absurd (omega arith)
  slot_at_beyond (x ∷ xs) (suc i) h = slot_at_beyond xs i (omega arith)
