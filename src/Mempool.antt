-- ===== src/Mempool.antt =====
-- The pool of equal blocks of mempool.c. Blocks are numbers: those below `init_count` lie in the
-- buffer of the pool, the others come from `malloc`, which gives a new one each time. The first
-- word of a block is its `next` pointer; a block is taken to be large enough for it.
pub mod Laws
use lre.Base.{
  ℕ, zero, suc, ◌+◌, ◌-◌, Bool, Option, none, some, List, [], ◌∷◌, ◌==◌, leb, if◌then◌else◌,
}

-- `fresh` is the block that `malloc` gives next; `next` is the memory.
pub record Mempool : Type 0 where
  pub node : Option ℕ
  pub next : ℕ → Option ℕ
  pub init_count : ℕ
  pub free_count : ℕ
  pub fresh : ℕ

abbrev pub write : {A : Type 0} → (ℕ → A) → ℕ → A → ℕ → A
write f n a m = if m == n then a else f m

-- The head of the list and the memory after the first `i` rounds of the loop of `mempool_init`.
unfoldable pub init_node : ℕ → Option ℕ
init_node zero = none
init_node (suc i) = some i

unfoldable pub init_next : ℕ → ℕ → Option ℕ
init_next zero = λ m. none
init_next (suc i) = write (init_next i) i (init_node i)

unfoldable pub mempool_init : ℕ → Mempool
unfolding init_node init_next
mempool_init count = record {
  node = init_node count;
  next = init_next count;
  init_count = count;
  free_count = count;
  fresh = count;
}

unfoldable pub mem_alloc : Mempool → ℕ × Mempool
mem_alloc p = elim p.node [
  | some n ↦ (n, record p { node = p.next n; free_count = p.free_count - 1 })
  | none ↦ (p.fresh, record p { fresh = suc p.fresh })
]

unfoldable pub mem_free : Mempool → ℕ → Mempool
mem_free p n = record p {
  node = some n;
  next = write p.next n p.node;
  free_count = p.free_count + 1;
}

-- The loop of `mempool_release`, on fuel: the blocks that are given to `free`.
unfoldable pub release_loop : ℕ → Mempool → Option ℕ → Option (List ℕ)
release_loop zero p h = none
release_loop (suc f) p none = some []
release_loop (suc f) p (some n) = elim (release_loop f p (p.next n)) [
  | none ↦ none
  | some bs ↦ if leb p.init_count n then some (n ∷ bs) else some bs
]

-- The list has `free_count` blocks.
unfoldable pub mempool_release : Mempool → Option (List ℕ)
mempool_release p = release_loop (p.free_count + 1) p p.node
