-- ===== src/Kalloc.antt =====
-- The physical page allocator, xv6 Memory sub-system/part_a/kernel/kalloc.c. The `next` word that a
-- free page holds is a map from addresses to words. `memset(v, 1, PGSIZE)` writes page contents that
-- the allocator never reads but for that word, which `kfree` overwrites; the lock is held from the
-- first access to the last, so each function is one atomic step.
pub mod Pages
pub mod Track
pub mod Valid
pub mod Boot
pub mod Random
mod Tests
use computer_organization_an.Common.{
  ℕ, zero, suc, ◌+◌, ◌-◌, ◌*◌, ◌%◌, ◌≡◌, ◌≢◌, Bool, true, false, not, ◌||◌, Option, none, some,
  List, [], ◌∷◌, ◌++◌, ltb, leb, ◌==◌, if◌then◌else◌, length, get_or, set, take,
}
use computer_organization_an.Common.Int.{ℤ, pos, negsuc}
use computer_organization_an.Common.Outcome.{Outcome, ok, panic, fault, ◌>>=◌}

-- PGSIZE and PHYSTOP; `kernel_end` below is the linker's symbol `end`.
abbrev pub page_size : ℕ
page_size = 4096

abbrev pub phystop : ℕ
phystop = 0x1000000

-- `kmem`, `alloc_list` and `alloc_size`. The null pointer is 0.
pub record Kmem : Type 0 where
  pub freelist : ℕ
  pub next : ℕ → ℕ
  pub alloc_list : List ℕ
  pub alloc_size : ℕ

unfoldable pub update : (ℕ → ℕ) → ℕ → ℕ → ℕ → ℕ
update h p v a = if a == p then v else h a

-- for (i = ...; i < alloc_size; i++) if (alloc_list[i] == r) ...
pub find : ℕ → ℕ → ℕ → List ℕ → Option ℕ
find zero i r a = none
find (suc n) i r a = if get_or a i 0 == r then some i else find n (suc i) r a

-- for (j = i + 1; j < alloc_size; j++) alloc_list[j - 1] = alloc_list[j]
pub shift_down : ℕ → ℕ → List ℕ → List ℕ
shift_down zero i a = a
shift_down (suc n) i a = shift_down n (suc i) (set a i (get_or a (suc i) 0))

pub untrack_at : Kmem → Option ℕ → Kmem
unfolding shift_down
untrack_at k none = k
untrack_at k (some i) = record k {
  alloc_list = shift_down (k.alloc_size - suc i) i k.alloc_list;
  alloc_size = k.alloc_size - 1;
}

pub untrack : ℕ → Kmem → Kmem
unfolding find untrack_at
untrack r k = untrack_at k (find k.alloc_size 0 r k.alloc_list)

unfoldable pub bad_page : ℕ → ℕ → Bool
bad_page kernel_end v = not (v % page_size == 0) || ltb v kernel_end || leb phystop v

-- r->next = kmem.freelist; kmem.freelist = r
pub link : ℕ → Kmem → Kmem
unfolding update
link v k = record k { next = update k.next v k.freelist; freelist = v }

pub kfree : (kernel_end : ℕ) → ℕ → Kmem → Outcome Kmem
unfolding untrack link bad_page
kfree kernel_end v k = if bad_page kernel_end v then panic else ok (untrack v (link v k))

-- alloc_list[alloc_size] = r; alloc_size += 1: outside the array it is undefined.
pub track : ℕ → Kmem → Outcome Kmem
track r k =
    if ltb k.alloc_size (length k.alloc_list)
    then ok
        (record k { alloc_list = set k.alloc_list k.alloc_size r; alloc_size = suc k.alloc_size })
    else fault

pub kalloc : Kmem → Outcome (ℕ × Kmem)
kalloc k =
    if k.freelist == 0
    then ok (0, k)
    else do k' ← track k.freelist (record k { freelist = k.next k.freelist }); ok (k.freelist, k')

-- for (i = alloc_size; i > alloc_size - numframes; i--) frames[index++] = alloc_list[i - 1]
pub dump_loop : ℕ → ℕ → List ℕ → List ℕ → List ℕ
dump_loop zero i a frames = frames
dump_loop (suc n) i a frames = dump_loop n (i - 1) a (frames ++ get_or a (i - 1) 0 ∷ [])

-- `none` is the result -1, with `frames` untouched.
pub dump_allocated : Kmem → ℤ → Option (List ℕ)
unfolding dump_loop
dump_allocated k (negsuc n) = none
dump_allocated k (pos n) =
    if ltb k.alloc_size n then none else some (dump_loop n k.alloc_size k.alloc_list [])

-- The pages of the list that starts at `p`, in order.
abbrev pub Chain : (ℕ → ℕ) → ℕ → List ℕ → Type 0
Chain next p [] = p ≡ 0
Chain next p (x ∷ xs) = (p ≡ x) × (x ≢ 0) × Chain next (next x) xs

-- The frames handed out and not yet returned, oldest first.
abbrev pub allocated : Kmem → List ℕ
allocated k = take k.alloc_size k.alloc_list

abbrev pub elem : ℕ → List ℕ → Bool
elem a [] = false
elem a (x ∷ xs) = a == x || elem a xs

abbrev pub remove_first : ℕ → List ℕ → List ℕ
remove_first r [] = []
remove_first r (x ∷ xs) = if x == r then xs else x ∷ remove_first r xs
