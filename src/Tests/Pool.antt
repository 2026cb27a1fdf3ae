-- ===== src/Tests/Pool.antt =====
-- The theorems about mempool.c on a pool of three blocks.
use lre.Base.{ℕ, Bool, true, false, List, some, ◌≡◌, refl}
use lre.Mempool.{Mempool, write, init_node, mempool_init, mem_alloc, mempool_release}
use lre.Mempool.Laws.{IsValid, Releasable, mempool_init-IsValid, mem_alloc_lem, mempool_release_lem}

abbrev three : Mempool
three = mempool_init 3

abbrev nobody : ℕ → Bool
nobody n = false

-- The last block of the buffer is the first to be given.
first_block : (mem_alloc three).0 ≡ 2
unfolding mem_alloc mempool_init init_node
first_block = refl

three-IsValid : IsValid three nobody
three-IsValid = mempool_init-IsValid 3

taken-IsValid : IsValid (mem_alloc three).1 (write nobody (mem_alloc three).0 true)
taken-IsValid = (mem_alloc_lem three nobody three-IsValid).1

is_taken : write nobody (mem_alloc three).0 true (mem_alloc three).0 ≡ true
unfolding mem_alloc mempool_init init_node
is_taken = refl

mempool_release_lem_example :
    (bs : List ℕ) × (mempool_release three ≡ some bs) × Releasable three nobody bs
mempool_release_lem_example = mempool_release_lem three nobody three-IsValid
