-- ===== src/Mempool/Laws.antt =====
-- No block of mempool.c has two owners: what `mem_alloc` gives is in nobody's hands.
use lre.Base.{
  ℕ, zero, suc, ◌-◌, ◌≤◌, ◌<◌, Bool, true, false, Option, none, some, List, [], ◌∷◌, ◌≡◌, refl,
  ◌==◌, leb, length, arith, sym, subst, Bool-cases, inl, inr,
}
use lre.Mempool.{
  Mempool, write, init_node, init_next, mempool_init, mem_alloc, mem_free, release_loop,
  mempool_release,
}

abbrev NotIn : ℕ → List ℕ → Type 0
NotIn n [] = Unit
NotIn n (m ∷ ms) = ((m == n) ≡ false) × NotIn n ms

abbrev NoneFrom : ℕ → List ℕ → Type 0
NoneFrom i [] = Unit
NoneFrom i (n ∷ ns) = (n < i) × NoneFrom i ns

NoneFrom-suc : (i : ℕ) (ns : List ℕ) → NoneFrom i ns → NoneFrom (suc i) ns
NoneFrom-suc i [] h = tt
NoneFrom-suc i (n ∷ ns) h = (omega (arith, h.0), NoneFrom-suc i ns h.1)

NoneFrom-NotIn : (i : ℕ) (ns : List ℕ) → NoneFrom i ns → NotIn i ns
NoneFrom-NotIn i [] h = tt
NoneFrom-NotIn i (n ∷ ns) h = (ground (arith, h.0), NoneFrom-NotIn i ns h.1)

-- The blocks that the list from a pointer goes through: all different, and owned by nobody.
pub data FreeList (next : ℕ → Option ℕ) (owned : ℕ → Bool) (fresh : ℕ)
    : Option ℕ → List ℕ → Type 0 where
  last : FreeList next owned fresh none []
  cell :
      {n : ℕ} {ns : List ℕ}
      → n < fresh
      → owned n ≡ false
      → NotIn n ns
      → FreeList next owned fresh (next n) ns
      → FreeList next owned fresh (some n) (n ∷ ns)

-- `owned` tells the blocks that callers hold.
pub record IsValid (p : Mempool) (owned : ℕ → Bool) : Type 0 where
  pub free : List ℕ
  pub chain : FreeList p.next owned p.fresh p.node free
  pub counted : p.free_count ≡ length free
  pub known : (n : ℕ) → owned n ≡ true → n < p.fresh

-- Blocks outside the list may change.
FreeList-next :
    {next : ℕ → Option ℕ} {owned : ℕ → Bool} {fresh : ℕ} {h : Option ℕ} {ns : List ℕ} (k : ℕ)
    (x : Option ℕ)
    → NotIn k ns
    → FreeList next owned fresh h ns
    → FreeList (write next k x) owned fresh h ns
FreeList-next k x o last = last
FreeList-next {next} {owned} {fresh} k x o (cell {n} {ns} l w d c) = cell l w d (
    subst (λ h. FreeList (write next k x) owned fresh h ns) (ground (arith, o.0))
      (FreeList-next k x o.1 c))

FreeList-owned :
    {next : ℕ → Option ℕ} {owned : ℕ → Bool} {fresh : ℕ} {h : Option ℕ} {ns : List ℕ} (b : Bool)
    (k : ℕ)
    → NotIn k ns
    → FreeList next owned fresh h ns
    → FreeList next (write owned k b) fresh h ns
FreeList-owned b k o last = last
FreeList-owned b k o (cell l w d c) = cell l (ground (arith, o.0)) d (FreeList-owned b k o.1 c)

FreeList-fresh :
    {next : ℕ → Option ℕ} {owned : ℕ → Bool} {m n : ℕ} {h : Option ℕ} {ns : List ℕ}
    → m ≤ n
    → FreeList next owned m h ns
    → FreeList next owned n h ns
FreeList-fresh g last = last
FreeList-fresh g (cell l w d c) = cell (omega arith) w d (FreeList-fresh g c)

owned-NotIn :
    {next : ℕ → Option ℕ} {owned : ℕ → Bool} {fresh : ℕ} {h : Option ℕ} {ns : List ℕ} (k : ℕ)
    → owned k ≡ true
    → FreeList next owned fresh h ns
    → NotIn k ns
owned-NotIn k e last = tt
owned-NotIn {owned = owned} k e (cell {n} l w d c) = (ground arith, owned-NotIn k e c)

-- A block of a valid pool that is owned comes back: the pool stays valid, and the block has no owner.
mem_free-IsValid :
    (p : Mempool) (owned : ℕ → Bool) (n : ℕ)
    → IsValid p owned
    → owned n ≡ true
    → IsValid (mem_free p n) (write owned n false)
unfolding mem_free
mem_free-IsValid p owned n h e =
    let o = owned-NotIn n e h.chain in
    record {
      free = n ∷ h.free;
      chain = cell (h.known n e) (ground arith) o (
          subst (λ x. FreeList (write p.next n p.node) (write owned n false) p.fresh x h.free)
            (ground arith) (FreeList-next n p.node o (FreeList-owned false n o h.chain)));
      counted = omega (arith, h.counted);
      known = λ m w. h.known m (ground arith);
    }

-- On a valid pool the block that is allocated had no owner, and the pool is valid with a new owner
-- for it.
pub mem_alloc_lem :
    (p : Mempool) (owned : ℕ → Bool)
    → IsValid p owned
    → (owned (mem_alloc p).0 ≡ false) × IsValid (mem_alloc p).1 (write owned (mem_alloc p).0 true)
unfolding mem_alloc
mem_alloc_lem p owned h = go p.node h.free refl h.chain h.counted
  where
    take : Option ℕ → ℕ × Mempool
    take x = elim x [
      | some n ↦ (n, record p { node = p.next n; free_count = p.free_count - 1 })
      | none ↦ (p.fresh, record p { fresh = suc p.fresh })
    ]

    go :
        (x : Option ℕ) (ns : List ℕ)
        → p.node ≡ x
        → FreeList p.next owned p.fresh x ns
        → p.free_count ≡ length ns
        → (owned (take x).0 ≡ false) × IsValid (take x).1 (write owned (take x).0 true)
    go x ns i last e = (
      ground (arith, h.known p.fresh),
      record {
        free = [];
        chain =
            subst (λ y. FreeList p.next (write owned p.fresh true) (suc p.fresh) y []) (sym i) last;
        counted = e;
        known = λ m w. ground (arith, h.known m);
      },
    )
    go x ns i (cell {n} {ns = ms} l w d c) e = (
      w,
      record {
        free = ms;
        chain = FreeList-owned true n d c;
        counted = omega (arith, e);
        known = λ m v. ground (arith, h.known m, l);
      },
    )

init_chain :
    (i m : ℕ)
    → i ≤ m
    → (ns : List ℕ) × (length ns ≡ i)
      × NoneFrom i ns
      × FreeList (init_next i) (λ n. false) m (init_node i) ns
unfolding init_node init_next
init_chain zero m l = ([], refl, tt, last)
init_chain (suc i) m l =
    let (ns, e, o, c) = init_chain i m (omega arith) in
    (
      i ∷ ns,
      omega (arith, e),
      (omega arith, NoneFrom-suc i ns o),
      cell (omega arith) refl (NoneFrom-NotIn i ns o) (
          subst (λ x. FreeList (init_next (suc i)) (λ n. false) m x ns) {x = init_node i}
            (ground arith) (FreeList-next i (init_node i) (NoneFrom-NotIn i ns o) c)),
    )

-- A new pool is valid, and nobody owns a block of it.
pub mempool_init-IsValid : (count : ℕ) → IsValid (mempool_init count) (λ n. false)
unfolding mempool_init
mempool_init-IsValid count =
    let (ns, e, o, c) = init_chain count count (omega arith) in
    record { free = ns; chain = c; counted = sym e; known = λ n w. cc }

-- The blocks are outside the buffer, and nobody owns them.
abbrev pub Releasable : Mempool → (ℕ → Bool) → List ℕ → Type 0
Releasable p owned [] = Unit
Releasable p owned (b ∷ bs) = (p.init_count ≤ b) × (owned b ≡ false) × Releasable p owned bs

release_loop_lem :
    (p : Mempool) (owned : ℕ → Bool) (f : ℕ) (h : Option ℕ) (ns : List ℕ)
    → FreeList p.next owned p.fresh h ns
    → length ns < f
    → (bs : List ℕ) × (release_loop f p h ≡ some bs) × Releasable p owned bs
unfolding release_loop
release_loop_lem p owned zero h ns c l = absurd (omega arith)
release_loop_lem p owned (suc f) h ns last l = ([], refl, tt)
release_loop_lem p owned (suc f) h ns (cell {n} {ns = ms} k w d c) l =
    let (bs, e, r) = release_loop_lem p owned f (p.next n) ms c (omega arith) in
    elim (Bool-cases (leb p.init_count n)) [
      | inl t ↦ (n ∷ bs, ground (arith, e), (ground (arith, t), w, r))
      | inr t ↦ (bs, ground (arith, e), r)
    ]

-- The loop of `mempool_release` ends on a valid pool, and it gives to `free` only blocks that lie
-- outside the buffer and that nobody owns.
pub mempool_release_lem :
    (p : Mempool) (owned : ℕ → Bool)
    → IsValid p owned
    → (bs : List ℕ) × (mempool_release p ≡ some bs) × Releasable p owned bs
unfolding mempool_release
mempool_release_lem p owned h =
    release_loop_lem p owned _ p.node h.free h.chain (omega (arith, h.counted))
