-- ===== src/Kalloc/Tests.antt =====
-- The allocator's theorems at concrete states, and runs of its functions.
use computer_organization_an.Common.{
  ℕ, ◌+◌, ◌*◌, ◌/◌, ◌<◌, ◌≡◌, refl, inl, [], ◌∷◌, arith, ◌==◌, if◌then◌else◌, replicate, length,
  length-replicate,
}
use computer_organization_an.Common.Outcome.{ok, panic}
use computer_organization_an.Rand.{xv6_rand}
use computer_organization_an.Kalloc.{
  page_size, phystop, Kmem, track, kfree, kalloc, allocated, remove_first,
}
use computer_organization_an.Kalloc.Valid.{IsValid, kfree-IsValid, kalloc-IsValid}
use computer_organization_an.Kalloc.Boot.{kinit, kinit-pages, IsFresh, pages, round_up}
use computer_organization_an.Kalloc.Random.{kalloc_random}
use computer_organization_an.Kalloc.Random.Draw.{kalloc_random-IsValid}

-- The kernel ends at page 256; pages 257 and 258 are free, 259 is handed out.
abbrev kernel_end : ℕ
kernel_end = 0x100000

abbrev page257 : ℕ
page257 = 257 * page_size

abbrev page258 : ℕ
page258 = 258 * page_size

abbrev page259 : ℕ
page259 = 259 * page_size

abbrev sample : Kmem
sample = record {
  freelist = page257;
  next = λ a. if a == page257 then page258 else 0;
  alloc_list = page259 ∷ 0 ∷ 0 ∷ 0 ∷ [];
  alloc_size = 1;
}

sample-IsValid : IsValid kernel_end (page257 ∷ page258 ∷ []) sample
sample-IsValid = ground arith

abbrev full : Kmem
full = record { freelist = 0; next = λ a. 0; alloc_list = page259 ∷ 0 ∷ []; alloc_size = 1 }

full-IsValid : IsValid kernel_end [] full
full-IsValid = ground arith

abbrev fresh : Kmem
fresh = record { freelist = 0; next = λ a. 0; alloc_list = replicate 4096 0; alloc_size = 0 }

fresh-IsFresh : IsFresh fresh
fresh-IsFresh = record {
  none_free = refl;
  none_used = refl;
  table = omega (arith, length-replicate {0} {A = ℕ} 4096 0);
}

kalloc_run :
    kalloc sample
    ≡ ok (
      page257,
      record sample {
        freelist = page258;
        alloc_list = page259 ∷ page257 ∷ 0 ∷ 0 ∷ [];
        alloc_size = 2;
      },
    )
unfolding kalloc track
kalloc_run = refl

kfree_unaligned : kfree kernel_end (page257 + 1) sample ≡ panic
unfolding kfree
kfree_unaligned = refl

kfree-IsValid_example :
    (k' : Kmem) × (kfree kernel_end page259 sample ≡ ok k')
    × IsValid kernel_end (page259 ∷ page257 ∷ page258 ∷ []) k'
    × (allocated k' ≡ remove_first page259 (page259 ∷ []))
    × (length k'.alloc_list ≡ 4)
kfree-IsValid_example =
    kfree-IsValid sample-IsValid page259 (omega arith) refl (omega arith) (inl refl)

kalloc-IsValid_example :
    (k' : Kmem) × (kalloc sample ≡ ok (page257, k'))
    × IsValid kernel_end (page258 ∷ []) k'
    × (allocated k' ≡ page259 ∷ page257 ∷ [])
kalloc-IsValid_example = kalloc-IsValid sample-IsValid

kinit-pages_example :
    (count : ℕ) × (k' : Kmem) × (kinit kernel_end fresh ≡ ok k')
    × IsValid kernel_end (pages (round_up kernel_end / page_size) 2 count) k'
    × (k'.alloc_size ≡ 0)
    × (phystop < (round_up kernel_end / page_size + count * 2) * page_size + page_size)
kinit-pages_example = kinit-pages kernel_end fresh (omega arith) fresh-IsFresh

-- The first number drawn from seed 1 is odd, so the second of two free pages is taken.
kalloc_random-IsValid_example :
    (k' : Kmem) × (kalloc_random 1 sample ≡ ok (page258, xv6_rand 1, k'))
    × IsValid kernel_end (page257 ∷ []) k'
    × (allocated k' ≡ page259 ∷ page258 ∷ [])
unfolding xv6_rand
kalloc_random-IsValid_example =
    kalloc_random-IsValid 1 page258 (page257 ∷ []) [] sample-IsValid refl
