-- ===== src/Kalloc/Boot.antt =====
-- `kinit` of kalloc.c: the pages handed to the allocator at boot.
use computer_organization_an.Common.{
  ℕ, zero, suc, ◌+◌, ◌-◌, ◌*◌, ◌/◌, ◌≤◌, ◌<◌, ◌≡◌, refl, ap, ◌∙◌, inl, inr, true, false, List, [],
  ◌∷◌, arith, leb, leb→le, leb→lt, All, if◌then◌else◌, Bool-cases, length,
}
use computer_organization_an.Common.Outcome.{Outcome, ok, fault, ◌>>=◌}
use computer_organization_an.Kalloc.{page_size, phystop, Kmem, kfree, allocated, elem}
use computer_organization_an.Kalloc.Valid.{IsPage, IsValid, kfree-IsValid}
use computer_organization_an.Kalloc.Pages.{length-allocated, length-remove_first-le}

-- PGROUNDUP
abbrev pub round_up : ℕ → ℕ
round_up a = (a + page_size - 1) / page_size * page_size

-- for (; p + PGSIZE <= PHYSTOP; p += stride) kfree(p), on fuel.
pub kinit_loop : (kernel_end stride : ℕ) → ℕ → ℕ → Kmem → Outcome Kmem
kinit_loop kernel_end stride zero p k = fault
kinit_loop kernel_end stride (suc fuel) p k =
    let rest = kfree kernel_end p k >>= kinit_loop kernel_end stride fuel (p + stride) in
    if leb (p + page_size) phystop then rest else ok k

-- There are 4096 pages below PHYSTOP. This kernel frees every other page.
pub kinit : (kernel_end : ℕ) → Kmem → Outcome Kmem
kinit kernel_end k = kinit_loop kernel_end (2 * page_size) 4097 (round_up kernel_end) k

-- The first `n` pages of a walk from page `s` in steps of `m` pages, the last one first.
abbrev pub pages : (s m n : ℕ) → List ℕ
pages s m zero = []
pages s m (suc n) = ((s + n * m) * page_size) ∷ pages s m n

length-pages : (s m n : ℕ) → length (pages s m n) ≡ n
length-pages s m zero = refl
length-pages s m (suc n) = ap suc (length-pages s m n)

pages_below : (s m n q : ℕ) → 1 ≤ m → (s + n * m) * page_size ≤ q → elem q (pages s m n) ≡ false
pages_below s m zero q h l = refl
pages_below s m (suc n) q h l = ground (arith, pages_below s m n q h (omega (arith, l)))

le_mul : (n m : ℕ) → 1 ≤ m → n ≤ n * m
le_mul n m h = grind arith

-- A state as the loader leaves it: nothing free, nothing allocated.
pub record IsFresh (k : Kmem) : Type 0 where
  pub none_free : k.freelist ≡ 0
  pub none_used : k.alloc_size ≡ 0
  pub table : 4096 ≤ length k.alloc_list

module _ {kernel_end : ℕ} (s m : ℕ) (above : 0 < kernel_end) (start : kernel_end ≤ s * page_size)
    (step : 1 ≤ m) where
  pages_bound : (n : ℕ) → All (IsPage kernel_end) (pages s m n) → n ≤ 4096
  pages_bound zero a = omega arith
  pages_bound (suc n) a = omega (arith, a.0.below, le_mul n m step)

  page_IsPage :
      (n : ℕ)
      → leb ((s + n * m) * page_size + page_size) phystop ≡ true
      → IsPage kernel_end ((s + n * m) * page_size)
  page_IsPage n fits = let f = leb→le _ _ fits in omega arith

  -- What one round leaves.
  abbrev Freed : ℕ → Kmem → Type 0
  Freed n k =
      (k' : Kmem) × (kfree kernel_end ((s + n * m) * page_size) k ≡ ok k')
      × IsValid kernel_end (pages s m (suc n)) k'
      × (k'.alloc_size ≡ 0)
      × (length k'.alloc_list ≡ length k.alloc_list)

  free_page :
      (n : ℕ) (k : Kmem)
      → IsValid kernel_end (pages s m n) k
      → k.alloc_size ≡ 0
      → 4096 ≤ length k.alloc_list
      → IsPage kernel_end ((s + n * m) * page_size)
      → Freed n k
  free_page n k valid none table page =
      let v : ℕ = (s + n * m) * page_size in
      let fewer : n < 4096 = omega (arith, page.below, le_mul n m step) in
      let done =
        kfree-IsValid valid v page (pages_below s m n v step (omega arith)) above
          (inr (omega (arith, length-pages s m n, none, table, fewer))) in
      let none' : done.0.alloc_size ≡ 0 = omega (
        arith,
        length-allocated done.0 done.2.used,
        ap length done.3,
        length-remove_first-le v (allocated k),
        length-allocated k valid.used,
        none,
      ) in
      (done.0, done.1, done.2, none', done.4)

  -- The loop ends with the walk's pages free, and stops only where the next one would not fit.
  kinit_loop-pages :
      (fuel n : ℕ) (k : Kmem)
      → n + fuel ≡ 4097
      → IsValid kernel_end (pages s m n) k
      → k.alloc_size ≡ 0
      → 4096 ≤ length k.alloc_list
      → (count : ℕ) × (k' : Kmem) × (kinit_loop kernel_end
            (m * page_size)
            fuel
            ((s + n * m) * page_size)
            k
          ≡ ok k')
        × IsValid kernel_end (pages s m count) k'
        × (k'.alloc_size ≡ 0)
        × (phystop < (s + count * m) * page_size + page_size)
  unfolding kinit_loop
  kinit_loop-pages zero n k e valid none table = absurd (omega (arith, pages_bound n valid.pages))
  kinit_loop-pages (suc fuel) n k e valid none table =
      elim (Bool-cases (leb ((s + n * m) * page_size + page_size) phystop)) [
        | inl fits ↦
            let page : IsPage kernel_end ((s + n * m) * page_size) = page_IsPage n fits in
            let free : Freed n k = free_page n k valid none table page in
            let next : (s + n * m) * page_size + m * page_size ≡ (s + suc n * m) * page_size =
              omega arith in
            rw (fits, free.1, next)
              (kinit_loop-pages fuel (suc n) free.0 (omega arith) free.2 free.3
                (omega (arith, free.4, table)))
        | inr full ↦ rw full (n, k, refl, valid, none, leb→lt _ _ full)
      ]

fresh-IsValid : {kernel_end : ℕ} {k : Kmem} → IsFresh k → IsValid kernel_end [] k
fresh-IsValid {k} f =
    let empty : allocated k ≡ [] = rw f.none_used in
    record {
      chain = f.none_free;
      pages = tt;
      frames = rw empty tt;
      distinct = rw empty tt;
      used = omega (arith, f.none_used);
      room = omega (arith, f.none_used);
    }

-- From the state that the loader leaves, `kinit` of part_a succeeds, and the allocator is valid
-- with nothing allocated. Its free pages are exactly the pages at even distances from the first
-- page above the kernel, as far as a whole page fits below PHYSTOP, the highest first: two pages
-- that a process can be given never lie side by side.
pub kinit-pages :
    (kernel_end : ℕ) (k : Kmem)
    → 0 < kernel_end
    → IsFresh k
    → (count : ℕ) × (k' : Kmem) × (kinit kernel_end k ≡ ok k')
      × IsValid kernel_end (pages (round_up kernel_end / page_size) 2 count) k'
      × (k'.alloc_size ≡ 0)
      × (phystop < (round_up kernel_end / page_size + count * 2) * page_size + page_size)
unfolding kinit
kinit-pages kernel_end k pos fresh =
    let s : ℕ = round_up kernel_end / page_size in
    let start : round_up kernel_end ≡ (s + 0 * 2) * page_size = omega arith in
    let (n, k', e, rest, none, full) =
      kinit_loop-pages s 2 pos (omega arith) (omega arith) 4097 0 k refl (fresh-IsValid fresh)
        fresh.none_used fresh.table in
    (n, k', ap (λ p. kinit_loop kernel_end (2 * page_size) 4097 p k) start ∙ e, rest, none, full)
