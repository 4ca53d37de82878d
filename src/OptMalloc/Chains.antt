-- ===== src/OptMalloc/Chains.antt =====
-- The well-formed states of chal2/starter-ch02/opt_malloc.c, with the free chunks of each list and the
-- blocks in use.
use cs.Base.{
  All-append, ℕ, ◌+◌, ◌^◌, ◌≤◌, ◌<◌, ◌≡◌, sym, ◌∙◌, subst, List, [], ◌∷◌, ◌++◌, ◌⊎◌, inl, inr,
  arith, All,
}
use cs.OptMalloc.{Memory, Heap, get64, chunk, heap_size}
use cs.OptMalloc.Words.{get64-same}
use cs.OptMalloc.Blocks.{
  Block, inside, inside_in, covers, chunks, covers_free, covers-free_at, chunk_bounds, Same,
}

-- The list of chunks of `s` bytes that starts at `p`.
unfoldable pub Chain : ℕ → Memory → ℕ → List ℕ → Type 0
Chain s mem p [] = p ≡ 0
Chain s mem p (a ∷ ps) =
    (p ≡ a) × (0 < a) × (a + s ≤ 2 ^ 64) × (get64 mem a ≡ s) × Chain s mem (get64 mem (a + 8)) ps

-- The size of a chunk, or of a block with pages of its own.
abbrev pub Sized : ℕ → Type 0
Sized s = ((i : ℕ) × (i < 16) × (s ≡ chunk i)) ⊎ (heap_size < s)

-- A block in use keeps its size in its first word.
pub record Held (mem : Memory) (b : Block) : Type 0 where
  pub nonzero : 0 < b.start
  pub fits : b.start + b.size ≤ 2 ^ 64
  pub header : get64 mem b.start ≡ b.size
  pub sized : Sized b.size

-- No two of the free chunks and the blocks in use have a byte in common.
pub record IsHeap (h : Heap) (free : ℕ → List ℕ) (live : List Block) : Type 0 where
  pub chains : (i : ℕ) → i < 16 → Chain (chunk i) h.mem (h.heads i) (free i)
  pub apart : (x : ℕ) → covers_free 16 free x + covers live x ≤ 1
  pub held : All (Held h.mem) live

-- Only bytes of `b` change.
abbrev pub Only : Memory → Memory → Block → Type 0
Only mem mem' b = (x : ℕ) → inside b.start b.size x ≡ 0 → mem' x ≡ mem x

pub Sized-le : {s : ℕ} → Sized s → 32 ≤ s
Sized-le (inl (i, h, e)) = omega (arith, e, (chunk_bounds i h).0)
Sized-le (inr h) = omega (arith, h)

word_congr :
    (mem mem' : Memory) (a s k : ℕ) (f : ℕ → ℕ)
    → k + 8 ≤ s
    → ((x : ℕ) → inside a s x ≤ f x)
    → Same mem mem' f
    → get64 mem' (a + k) ≡ get64 mem (a + k)
word_congr mem mem' a s k f fit covered same =
    get64-same mem mem' (a + k)
      λ x lo hi. same x (omega (arith, inside_in a s x (omega arith) (omega arith), covered x))

pub Chain-congr :
    (s : ℕ) (mem mem' : Memory) (p : ℕ) (ps : List ℕ)
    → 16 ≤ s
    → Same mem mem' (covers (chunks s ps))
    → Chain s mem p ps
    → Chain s mem' p ps
unfolding Chain covers
Chain-congr s mem mem' p [] big same c = c
Chain-congr s mem mem' p (a ∷ ps) big same (e, nz, fits, size, rest) =
    let f = covers (chunks s (a ∷ ps)) in
    let low : (x : ℕ) → inside a s x ≤ f x = λ x. omega arith in
    let header =
      get64-same mem mem' a
        (λ x lo hi. same x (omega (arith, inside_in a s x (omega arith) (omega arith), low x))) in
    let link = word_congr mem mem' a s 8 f (omega arith) low same in
    (
      e,
      nz,
      fits,
      header ∙ size,
      subst (λ q. Chain s mem' q ps) (sym link)
          (Chain-congr s mem mem' (get64 mem (a + 8)) ps big (λ x h. same x (omega arith)) rest),
    )

pub Chain-small :
    (s : ℕ) (mem : Memory) (p : ℕ) (ps : List ℕ) → 16 ≤ s → Chain s mem p ps → p < 2 ^ 64
unfolding Chain
Chain-small s mem p [] big c = omega (arith, c)
Chain-small s mem p (a ∷ ps) big (e, nz, fits, size, rest) = omega (arith, e, fits)

pub Held-congr :
    (mem mem' : Memory) (bs : List Block)
    → Same mem mem' (covers bs)
    → All (Held mem) bs
    → All (Held mem') bs
unfolding covers
Held-congr mem mem' [] same all = tt
Held-congr mem mem' (b ∷ bs) same (h, all) =
    let size = Sized-le h.sized in
    let header =
      get64-same mem mem' b.start (λ x lo hi.
        same x (omega (arith, inside_in b.start b.size x (omega arith) (omega arith)))) in
    (
      record { nonzero = h.nonzero; fits = h.fits; header = header ∙ h.header; sized = h.sized },
      Held-congr mem mem' bs (λ x h. same x (omega arith)) all,
    )

-- Writing in a block that is apart from all others keeps these.
pub IsHeap-frame :
    (h : Heap) (free : ℕ → List ℕ) (live : List Block) (mem' : Memory) (b : Block)
    → IsHeap h free live
    → ((x : ℕ) → covers_free 16 free x + covers live x + inside b.start b.size x ≤ 1)
    → Only h.mem mem' b
    → IsHeap (record h { mem = mem' }) free live
IsHeap-frame h free live mem' b w apart only = record {
  chains = λ i lt.
      Chain-congr (chunk i) h.mem mem' (h.heads i) (free i) (omega (arith, (chunk_bounds i lt).0))
        (λ x some. only x (omega (arith, apart x, some, covers-free_at 16 free i x lt)))
        (w.chains i lt);
  apart = w.apart;
  held = Held-congr h.mem mem' live (λ x some. only x (omega (arith, apart x, some))) w.held;
}

-- A block in use that is written, or cut.
pub IsHeap-replace :
    (h : Heap) (free : ℕ → List ℕ) (live bs : List Block) (mem' : Memory) (b : Block)
    → IsHeap h free (b ∷ live)
    → Only h.mem mem' b
    → ((x : ℕ) → covers (bs ++ live) x ≤ inside b.start b.size x + covers live x)
    → All (Held mem') bs
    → IsHeap (record h { mem = mem' }) free (bs ++ live)
unfolding covers
IsHeap-replace h free live bs mem' b w only less all =
    let rest : IsHeap h free live = record {
      chains = w.chains;
      apart = λ x. omega (arith, w.apart x);
      held = w.held.1;
    } in
    let w' = IsHeap-frame h free live mem' b rest (λ x. omega (arith, w.apart x)) only in
    record {
      chains = w'.chains;
      apart = λ x. omega (arith, w.apart x, less x);
      held = All-append (Held mem') bs live all w'.held;
    }

-- New pages.
pub IsHeap-add :
    (h : Heap) (free : ℕ → List ℕ) (live : List Block) (mem' : Memory) (b : Block)
    → IsHeap h free live
    → ((x : ℕ) → covers_free 16 free x + covers live x + inside b.start b.size x ≤ 1)
    → Only h.mem mem' b
    → Held mem' b
    → IsHeap (record h { mem = mem' }) free (b ∷ live)
unfolding covers
IsHeap-add h free live mem' b w apart only here =
    let w' = IsHeap-frame h free live mem' b w apart only in
    record { chains = w'.chains; apart = λ x. omega (arith, apart x); held = (here, w'.held) }
