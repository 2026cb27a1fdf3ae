-- ===== src/Vector/Laws.antt =====
-- What the operations of vector.c do to the slots in use.
use lre.Base.{
  ℕ, zero, suc, ◌+◌, ◌≤◌, ◌<◌, Option, none, some, List, [], ◌∷◌, ◌++◌, ◌≡◌, ◌⊎◌, refl, ap, ◌∙◌,
  leb, ◌==◌, if◌then◌else◌, length, set, replicate, length-append, length-replicate, length-set,
  arith, Bool-cases, inl, inr,
}
use lre.Vector.{
  Vector, vector_init, vector_ensure_fuel, first_empty, vector_empty_slot, vector_set_index,
  vector_set, vector_lookup, trim, vector_unset, vector_default_size,
}
use lre.Vector.Slots.{
  slot_at, slot_at-replicate, slot_at-append_replicate, slot_at-set, slot_at_beyond,
}

module _ {A : Type 0} where
  -- There is a slot; those in use are there, and those that are not in use are null.
  pub record IsValid (v : Vector A) : Type 0 where
    pub has_slot : 1 ≤ length v.slots
    pub in_range : v.active ≤ length v.slots
    pub null_beyond : (i : ℕ) → v.active ≤ i → slot_at v.slots i ≡ none

  pub vector_init-IsValid : (size : ℕ) → IsValid (vector_init {A = A} size)
  unfolding vector_init
  vector_init-IsValid size = record {
    has_slot = ground (
      arith,
      length-replicate {A = Option A} vector_default_size none,
      length-replicate {A = Option A} size none,
    );
    in_range = omega arith;
    null_beyond = λ i h. slot_at-replicate _ i;
  }

  -- Doubling reaches every slot within the calls that are given, and no slot reads otherwise.
  ensure-reaches :
      (f : ℕ) (xs : List (Option A)) (num : ℕ)
      → 1 ≤ length xs
      → num < f + length xs
      → num < length (vector_ensure_fuel f xs num)
  unfolding vector_ensure_fuel
  ensure-reaches zero xs num p h = omega arith
  ensure-reaches (suc f) xs num p h = ground (
    arith,
    ensure-reaches f (xs ++ replicate (length xs) none) num,
    length-append xs (replicate (length xs) none),
    length-replicate {A = Option A} (length xs) none,
  )

  ensure-grows :
      (f : ℕ) (xs : List (Option A)) (num : ℕ) → length xs ≤ length (vector_ensure_fuel f xs num)
  unfolding vector_ensure_fuel
  ensure-grows zero xs num = omega arith
  ensure-grows (suc f) xs num = ground (
    arith,
    ensure-grows f (xs ++ replicate (length xs) none) num,
    length-append xs (replicate (length xs) none),
  )

  slot_at-ensure :
      (f : ℕ) (xs : List (Option A)) (num i : ℕ)
      → slot_at (vector_ensure_fuel f xs num) i ≡ slot_at xs i
  unfolding vector_ensure_fuel
  slot_at-ensure zero xs num i = refl
  slot_at-ensure (suc f) xs num i = ground (
    arith,
    slot_at-ensure f (xs ++ replicate (length xs) none) num i,
    slot_at-append_replicate xs (length xs) i,
  )

  -- A valid vector reads every slot, in use or not, through its lookup.
  vector_lookup-slot_at : (v : Vector A) (i : ℕ) → IsValid v → vector_lookup v i ≡ slot_at v.slots i
  unfolding vector_lookup
  vector_lookup-slot_at v i h = ground (arith, h.null_beyond i)

  pub slot_at-set_index :
      (v : Vector A) (i j : ℕ) (x : Option A)
      → IsValid v
      → slot_at (vector_set_index v i x).slots j ≡ (if i == j then x else slot_at v.slots j)
  unfolding vector_set_index
  slot_at-set_index v i j x h = ground (
    arith,
    slot_at-set (vector_ensure_fuel (suc i) v.slots i) i j x
        (ensure-reaches (suc i) v.slots i h.has_slot (omega arith)),
    slot_at-ensure (suc i) v.slots i j,
  )

  -- Storing at an index keeps the vector valid, also where the vector has to grow for it and where
  -- a null value is stored.
  pub vector_set_index-IsValid :
      (v : Vector A) (i : ℕ) (x : Option A) → IsValid v → IsValid (vector_set_index v i x)
  unfolding vector_set_index
  vector_set_index-IsValid v i x h = record {
    has_slot = omega (arith, len, ensure-grows (suc i) v.slots i, h.has_slot);
    in_range = ground (
      arith,
      len,
      ensure-grows (suc i) v.slots i,
      ensure-reaches (suc i) v.slots i h.has_slot (omega arith),
      h.in_range,
    );
    null_beyond = λ j l. ground (arith, slot_at-set_index v i j x h, h.null_beyond j);
  }
    where
      len :
          length (set (vector_ensure_fuel (suc i) v.slots i) i x)
          ≡ length (vector_ensure_fuel (suc i) v.slots i)
      len = length-set (vector_ensure_fuel (suc i) v.slots i) i x

  -- A store at an index changes the lookup at that index alone.
  vector_lookup-set_index :
      (v : Vector A) (i j : ℕ) (x : Option A)
      → IsValid v
      → vector_lookup (vector_set_index v i x) j ≡ (if i == j then x else vector_lookup v j)
  vector_lookup-set_index v i j x h =
      rw (vector_lookup-slot_at v j h)
        (vector_lookup-slot_at _ j (vector_set_index-IsValid v i x h) ∙ slot_at-set_index v i j x h)

  slot_at-first_empty :
      (n : ℕ) (xs : List (Option A))
      → n ≤ length xs
      → (slot_at xs n ≡ none)
      → slot_at xs (first_empty n xs) ≡ none
  unfolding first_empty
  slot_at-first_empty zero xs h e = e
  slot_at-first_empty (suc n) [] h e = refl
  slot_at-first_empty (suc n) (none ∷ xs) h e = refl
  slot_at-first_empty (suc n) (some a ∷ xs) h e = slot_at-first_empty n xs (omega arith) e

  -- `vector_set` on a valid vector stores into a slot that was empty and leaves every other lookup
  -- as it was.
  vector_set_lem :
      (v : Vector A) (x : Option A) (j : ℕ)
      → IsValid v
      → (vector_lookup v (vector_set v x).1 ≡ none)
        × (vector_lookup (vector_set v x).0 j
            ≡ (if (vector_set v x).1 == j then x else vector_lookup v j))
  unfolding vector_set vector_empty_slot
  vector_set_lem v x j h = (
    vector_lookup-slot_at v _ h
        ∙ slot_at-first_empty v.active v.slots h.in_range (h.null_beyond v.active (omega arith)),
    vector_lookup-set_index v _ j x h,
  )

  trim-le : (i : ℕ) (xs : List (Option A)) → trim i xs ≤ i
  unfolding trim
  trim-le zero xs = omega arith
  trim-le (suc i) xs = ground (arith, trim-le i xs)

  trim-null : (i j : ℕ) (xs : List (Option A)) → trim i xs ≤ j → j < i → slot_at xs j ≡ none
  unfolding trim
  trim-null zero j xs l h = absurd (omega arith)
  trim-null (suc i) j xs l h = ground (arith, trim-null i j xs)

  trim-in_use :
      (i : ℕ) (xs : List (Option A))
      → (trim i xs ≡ 0) ⊎ ((j : ℕ) × (a : A) × (trim i xs ≡ suc j) × (slot_at xs j ≡ some a))
  unfolding trim
  trim-in_use zero xs = inl refl
  trim-in_use (suc i) xs = go (slot_at xs i) refl (trim-in_use i xs)
    where
      go :
          (o : Option A)
          → slot_at xs i ≡ o
          → (trim i xs ≡ 0) ⊎ ((j : ℕ) × (a : A) × (trim i xs ≡ suc j) × (slot_at xs j ≡ some a))
          → ◌⊎◌ (elim o [ none ↦ trim i xs | some a ↦ suc i ] ≡ 0) (
              (j : ℕ) × (a : A) × (elim o [ none ↦ trim i xs | some a ↦ suc i ] ≡ suc j)
              × (slot_at xs j ≡ some a))
      go none e ih = ih
      go (some a) e ih = inr (i, a, refl, e)

  slot_at-cleared :
      (v : Vector A) (i j : ℕ)
      → i < length v.slots
      → slot_at (set v.slots i none) j ≡ (if i == j then none else slot_at v.slots j)
  slot_at-cleared v i j h = slot_at-set v.slots i j none h

  -- Emptying a slot keeps the vector valid, also at an index that is out of range.
  vector_unset-IsValid : (v : Vector A) (i : ℕ) → IsValid v → IsValid (vector_unset v i)
  unfolding vector_unset
  vector_unset-IsValid v i h = elim (Bool-cases (leb (length v.slots) i)) [
    | inl e ↦ rw e h
    | inr e ↦ record {
      has_slot = ground (arith, length-set v.slots i none, h.has_slot);
      in_range =
          ground (arith, length-set v.slots i none, h.in_range, trim-le i (set v.slots i none));
      null_beyond = λ j l.
          ground
            (arith, slot_at-cleared v i j, h.null_beyond j, trim-null i j (set v.slots i none));
    }
  ]

  slot_at-unset :
      (v : Vector A) (i j : ℕ)
      → slot_at (vector_unset v i).slots j ≡ (if i == j then none else slot_at v.slots j)
  unfolding vector_unset
  slot_at-unset v i j = ground (arith, slot_at-cleared v i j, slot_at_beyond v.slots i)

  -- `vector_unset` on a valid vector empties one slot and leaves every other lookup as it was.
  vector_lookup-unset :
      (v : Vector A) (i j : ℕ)
      → IsValid v
      → vector_lookup (vector_unset v i) j ≡ (if i == j then none else vector_lookup v j)
  vector_lookup-unset v i j h =
      rw (vector_lookup-slot_at v j h)
        (vector_lookup-slot_at _ j (vector_unset-IsValid v i h) ∙ slot_at-unset v i j)

  -- Behind `vector_unset` of the last slot in use of a valid vector no null slot is left at the end: nothing is in
  -- use, or the last slot in use holds a value.
  vector_unset_trims :
      (v : Vector A) (i : ℕ)
      → IsValid v
      → i + 1 ≡ v.active
      → ((vector_unset v i).active ≡ 0)
        ⊎ ((j : ℕ) × (a : A) × ((vector_unset v i).active ≡ suc j)
            × (vector_lookup (vector_unset v i) j ≡ some a))
  vector_unset_trims v i h e = found (trim-in_use i (set v.slots i none))
    where
      trimmed : (vector_unset v i).active ≡ trim i (set v.slots i none)
      trimmed = unfold vector_unset in ground (arith, h.in_range)

      cleared : (vector_unset v i).slots ≡ set v.slots i none
      cleared = unfold vector_unset in ground (arith, h.in_range)

      found :
          (trim i (set v.slots i none) ≡ 0)
            ⊎ ((j : ℕ) × (a : A) × (trim i (set v.slots i none) ≡ suc j)
                × (slot_at (set v.slots i none) j ≡ some a))
          → ((vector_unset v i).active ≡ 0)
            ⊎ ((j : ℕ) × (a : A) × ((vector_unset v i).active ≡ suc j)
                × (vector_lookup (vector_unset v i) j ≡ some a))
      found (inl z) = inl (trimmed ∙ z)
      found (inr (j, a, p, q)) = inr (
        j,
        a,
        trimmed ∙ p,
        vector_lookup-slot_at _ j (vector_unset-IsValid v i h)
            ∙ (ap (λ s. slot_at s j) cleared ∙ q),
      )
