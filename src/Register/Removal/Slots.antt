-- ===== src/Register/Removal/Slots.antt =====
-- The slots of a vector behind the loop of `keyword_uninstall` (keyword.c).
use lre.Base.{
  ==_refl, ℕ, zero, suc, ◌<◌, Bool, true, false, Option, none, some, ◌≡◌, refl, ap, ◌∙◌,
  if◌then◌else◌, ◌≢◌, ==_iff, sym, leb, ◌==◌, length, arith,
}
use lre.Vector.{Vector, vector_lookup, vector_unset}
use lre.Vector.Slots.{slot_at, slot_at-set}
use lre.Vector.Laws.{IsValid}
use lre.Keyword.{unset_loop}

slot_at-unset :
    (v : Vector ℕ) (i : ℕ) → slot_at v.slots 0 ≡ none → slot_at (vector_unset v i).slots 0 ≡ none
unfolding vector_unset
slot_at-unset v i h = ground (arith, slot_at-set v.slots i 0 none)

slot_at-unset_self : (v : Vector ℕ) → 0 < length v.slots → slot_at (vector_unset v 0).slots 0 ≡ none
unfolding vector_unset
slot_at-unset_self v h = ground (arith, slot_at-set v.slots 0 0 none h)

-- The loop of `keyword_uninstall` leaves an empty first slot empty.
slot_at-unset_loop :
    (n : ℕ) (v : Vector ℕ) (i p : ℕ)
    → slot_at v.slots 0 ≡ none
    → slot_at (unset_loop n v i p).slots 0 ≡ none
unfolding unset_loop
slot_at-unset_loop zero v i p h = h
slot_at-unset_loop (suc n) v i p h =
    go (vector_lookup v i) (λ u e. slot_at-unset_loop n u (suc i) p e)
  where
    next :
        (b : Bool)
        → ((u : Vector ℕ)
            → slot_at u.slots 0 ≡ none
            → slot_at (unset_loop n u (suc i) p).slots 0 ≡ none)
        → slot_at (unset_loop n (if b then vector_unset v i else v) (suc i) p).slots 0 ≡ none
    next true ih = ih (vector_unset v i) (slot_at-unset v i h)
    next false ih = ih v h

    go :
        (o : Option ℕ)
        → ((u : Vector ℕ)
            → slot_at u.slots 0 ≡ none
            → slot_at (unset_loop n u (suc i) p).slots 0 ≡ none)
        → slot_at
            (elim o as (λ _. Vector ℕ) [
              | none ↦ v
              | some q ↦ unset_loop n (if p == q then vector_unset v i else v) (suc i) p
            ]).slots
            0
          ≡ none
    go none ih = h
    go (some q) ih = next (p == q) ih

-- The loop empties the first slot if the stub stands there.
pub first-emptied :
    (v : Vector ℕ) (p : ℕ)
    → IsValid v
    → 0 < v.active
    → slot_at v.slots 0 ≡ some p
    → slot_at (unset_loop v.active v 0 p).slots 0 ≡ none
unfolding unset_loop vector_lookup
first-emptied v p valid l e = go v.active l
  where
    seen : vector_lookup v 0 ≡ some p
    seen = ground (arith, l, e)

    go : (n : ℕ) → 0 < n → slot_at (unset_loop n v 0 p).slots 0 ≡ none
    go zero h = elim h [ ]
    go (suc n) h =
        rw (seen, unset_loop)
          (rw (==_refl p, unset_loop)
            (slot_at-unset_loop n (vector_unset v 0) 1 p
              (slot_at-unset_self v (omega (arith, valid.has_slot)))))

-- The loop leaves every slot as it was where the stub stands in none from slot `i` on.
slots-unset_loop :
    (n : ℕ) (v : Vector ℕ) (i p j : ℕ)
    → ((k : ℕ) → slot_at v.slots (suc k) ≢ some p)
    → slot_at (unset_loop n v (suc i) p).slots j ≡ slot_at v.slots j
unfolding unset_loop vector_lookup
slots-unset_loop zero v i p j h = refl
slots-unset_loop (suc n) v i p j h =
    go (leb v.active (suc i)) (slot_at v.slots (suc i)) refl (slots-unset_loop n v (suc i) p j h)
  where
    next :
        (b : Bool) (q : ℕ)
        → (p == q) ≡ b
        → slot_at v.slots (suc i) ≡ some q
        → slot_at (unset_loop n v (suc (suc i)) p).slots j ≡ slot_at v.slots j
        → slot_at (unset_loop n (if b then vector_unset v (suc i) else v) (suc (suc i)) p).slots j
          ≡ slot_at v.slots j
    next true q e m ih = absurd (h i (m ∙ ap some (sym ((==_iff p q).0 e))))
    next false q e m ih = ih

    go :
        (full : Bool) (o : Option ℕ)
        → slot_at v.slots (suc i) ≡ o
        → slot_at (unset_loop n v (suc (suc i)) p).slots j ≡ slot_at v.slots j
        → slot_at
            (elim (if full then none else o) as (λ _. Vector ℕ) [
              | none ↦ v
              | some q ↦ unset_loop n (if p == q then vector_unset v (suc i) else v) (suc (suc i)) p
            ]).slots
            j
          ≡ slot_at v.slots j
    go true o m ih = refl
    go false none m ih = refl
    go false (some q) m ih = next (p == q) q refl m ih

slots-unset :
    (v : Vector ℕ) (j : ℕ)
    → 0 < length v.slots
    → slot_at (vector_unset v 0).slots (suc j) ≡ slot_at v.slots (suc j)
unfolding vector_unset
slots-unset v j l = ground (arith, slot_at-set v.slots 0 (suc j) none l)

-- Where the stub stands in the first slot alone, the loop leaves the other slots as they were.
pub others-kept :
    (v : Vector ℕ) (p j : ℕ)
    → IsValid v
    → 0 < v.active
    → slot_at v.slots 0 ≡ some p
    → ((k : ℕ) → slot_at v.slots (suc k) ≢ some p)
    → slot_at (unset_loop v.active v 0 p).slots (suc j) ≡ slot_at v.slots (suc j)
unfolding unset_loop vector_lookup
others-kept v p j valid l e h = go v.active l
  where
    seen : vector_lookup v 0 ≡ some p
    seen = ground (arith, l, e)

    room : 0 < length v.slots
    room = omega (arith, valid.has_slot)

    go : (n : ℕ) → 0 < n → slot_at (unset_loop n v 0 p).slots (suc j) ≡ slot_at v.slots (suc j)
    go zero h = elim h [ ]
    go (suc n) _ =
        rw (seen, unset_loop)
          (rw (==_refl p, unset_loop)
            (slots-unset_loop n (vector_unset v 0) 0 p (suc j)
                (λ k m. h k (sym (slots-unset v k room) ∙ m))
              ∙ slots-unset v j room))
