-- ===== src/Kalloc/Valid.antt =====
-- Well-formed allocator states, and what `kfree` and `kalloc` do to them.
use mathlib.Core.Path.{subst₂}
use computer_organization_an.Common.{
  ℕ, suc, ◌+◌, ◌%◌, ◌≤◌, ◌<◌, ◌≡◌, ◌≢◌, refl, sym, ap, ◌⊎◌, inl, inr, true, false, List, [], ◌∷◌,
  ◌++◌, arith, eq→==, lt→ltb, length, set, length-set, length-append, take-set, All, All-append,
}
use computer_organization_an.Common.Outcome.{ok}
use computer_organization_an.Kalloc.{
  page_size, phystop, Kmem, untrack, bad_page, kfree, track, kalloc, Chain, allocated, elem,
  remove_first, link,
}
use computer_organization_an.Kalloc.Track.{untrack_fields, allocated-untrack}
use computer_organization_an.Kalloc.Pages.{
  Distinct, elem-append, All-remove_first, Distinct-remove_first, elem-remove_first_self,
  remove_first-append, length-remove_first, length-remove_first-le, length-allocated, Chain-link,
  Distinct-moved, All_without,
}

-- A page that the allocator may own: aligned, above the kernel and below PHYSTOP.
pub record IsPage (kernel_end p : ℕ) : Type 0 where
  pub aligned : p % page_size ≡ 0
  pub above : kernel_end ≤ p
  pub below : p < phystop

-- `free` are the pages of the free list, in order. No page is in it twice, none is free and
-- allocated, and the table has room for every page that can still be allocated.
pub record IsValid (kernel_end : ℕ) (free : List ℕ) (k : Kmem) : Type 0 where
  pub chain : Chain k.next k.freelist free
  pub pages : All (IsPage kernel_end) free
  pub frames : All (IsPage kernel_end) (allocated k)
  pub distinct : Distinct (free ++ allocated k)
  pub used : k.alloc_size ≤ length k.alloc_list
  pub room : length free + k.alloc_size ≤ length k.alloc_list

-- In a list without repetitions a member of the back is not in the front.
not-elem_of_Distinct :
    (a : ℕ) (xs ys : List ℕ) → Distinct (xs ++ ys) → elem a ys ≡ true → elem a xs ≡ false
not-elem_of_Distinct a [] ys d h = refl
not-elem_of_Distinct a (x ∷ xs) ys d h =
    ground (arith, not-elem_of_Distinct a xs ys, elem-append x xs ys)

Distinct-back : (xs ys : List ℕ) → Distinct (xs ++ ys) → Distinct ys
Distinct-back [] ys d = d
Distinct-back (x ∷ xs) ys d = Distinct-back xs ys d.1

good_page : {kernel_end v : ℕ} → IsPage kernel_end v → bad_page kernel_end v ≡ false
unfolding bad_page
good_page page = ground arith

-- `kfree` keeps the frames that it does not return.
module _ {kernel_end : ℕ} {free : List ℕ} {k : Kmem} (valid : IsValid kernel_end free k) (v : ℕ)
    (page : IsPage kernel_end v) (out : elem v free ≡ false) where
  Distinct-kfree : Distinct (v ∷ free ++ remove_first v (allocated k))
  Distinct-kfree =
      let all : List ℕ = free ++ allocated k in
      let gone : elem v (remove_first v all) ≡ false =
        elem-remove_first_self v all valid.distinct in
      let rest : Distinct (remove_first v all) = Distinct-remove_first v all valid.distinct in
      let e : remove_first v all ≡ free ++ remove_first v (allocated k) =
        remove_first-append v free (allocated k) out in
      (rw e at gone, rw e at rest)

  room-kfree :
      (elem v (allocated k) ≡ true) ⊎ (length free + k.alloc_size < length k.alloc_list)
      → suc (length free) + length (remove_first v (allocated k)) ≤ length k.alloc_list
  room-kfree (inl h) =
      omega
        (arith, length-remove_first v (allocated k) h, length-allocated k valid.used, valid.room)
  room-kfree (inr h) =
      omega (arith, length-remove_first-le v (allocated k), length-allocated k valid.used)

  frames-kfree : allocated (untrack v (link v k)) ≡ remove_first v (allocated k)
  unfolding link
  frames-kfree = allocated-untrack v (link v k) valid.used

  fields-kfree :
      ((untrack v (link v k)).freelist ≡ (link v k).freelist)
      × ((untrack v (link v k)).next ≡ (link v k).next)
      × (length (untrack v (link v k)).alloc_list ≡ length k.alloc_list)
      × ((untrack v (link v k)).alloc_size ≤ k.alloc_size)
  unfolding link
  fields-kfree = untrack_fields v (link v k)

  IsValid-untrack-link :
      0 < kernel_end
      → (elem v (allocated k) ≡ true) ⊎ (length free + k.alloc_size < length k.alloc_list)
      → IsValid kernel_end (v ∷ free) (untrack v (link v k))
  IsValid-untrack-link pos kind =
      let nz : v ≢ 0 = omega (arith, page.above) in
      let linked : Chain (link v k).next (link v k).freelist (v ∷ free) =
        Chain-link k v free nz out valid.chain in
      let used : (untrack v (link v k)).alloc_size ≤ length (untrack v (link v k)).alloc_list =
        omega (arith, fields-kfree, valid.used) in
      record {
        chain =
            subst₂ (λ next p. Chain next p (v ∷ free)) (sym fields-kfree.1) (sym fields-kfree.0)
              linked;
        pages = (page, valid.pages);
        frames =
            rw frames-kfree (All-remove_first (IsPage kernel_end) v (allocated k) valid.frames);
        distinct = rw frames-kfree Distinct-kfree;
        used = used;
        room = omega (
          arith,
          fields-kfree,
          room-kfree kind,
          length-allocated (untrack v (link v k)) used,
          ap length frames-kfree,
        );
      }

  -- Returning a page that is not free, of which there is an entry in the table or for which the
  -- table has room (as at boot): it becomes the first of the free list, its entry is dropped, the
  -- other entries stay, and the state stays valid.
  pub kfree-IsValid :
      0 < kernel_end
      → (elem v (allocated k) ≡ true) ⊎ (length free + k.alloc_size < length k.alloc_list)
      → (k' : Kmem) × (kfree kernel_end v k ≡ ok k')
        × IsValid kernel_end (v ∷ free) k'
        × (allocated k' ≡ remove_first v (allocated k))
        × (length k'.alloc_list ≡ length k.alloc_list)
  unfolding kfree
  kfree-IsValid pos kind = (
    untrack v (link v k),
    rw (good_page page),
    IsValid-untrack-link pos kind,
    frames-kfree,
    fields-kfree.2,
  )

-- The state once `p` is entered in the table and the list starts at `first`.
abbrev pub handed : Kmem → ℕ → ℕ → (ℕ → ℕ) → Kmem
handed k p first next = record {
  freelist = first;
  next = next;
  alloc_list = set k.alloc_list k.alloc_size p;
  alloc_size = suc k.alloc_size;
}

-- Handing out a page `p` of the free list, once it is unlinked and entered in the table.
pub IsValid-handed_out :
    {kernel_end : ℕ} {k : Kmem} (front : List ℕ) (p : ℕ) (back : List ℕ) (first : ℕ) (next : ℕ → ℕ)
    → IsValid kernel_end (front ++ p ∷ back) k
    → Chain next first (front ++ back)
    → (allocated (handed k p first next) ≡ allocated k ++ p ∷ [])
      × IsValid kernel_end (front ++ back) (handed k p first next)
IsValid-handed_out {kernel_end} {k} front p back first next valid chain =
    let sizes : length (front ++ p ∷ back) ≡ suc (length (front ++ back)) =
      omega (arith, length-append front (p ∷ back), length-append front back) in
    let al : allocated (handed k p first next) ≡ allocated k ++ p ∷ [] =
      take-set k.alloc_list k.alloc_size p (omega (arith, valid.room, sizes)) in
    let split = All_without (IsPage kernel_end) front p back valid.pages in
    (
      al,
      record {
        chain = chain;
        pages = split.1;
        frames =
            rw al
              (All-append (IsPage kernel_end) (allocated k) (p ∷ []) valid.frames (split.0, tt));
        distinct = rw al (Distinct-moved front p back (allocated k) valid.distinct);
        used = omega (arith, valid.room, sizes, length-set k.alloc_list k.alloc_size p);
        room = omega (arith, valid.room, sizes, length-set k.alloc_list k.alloc_size p);
      },
    )

-- While the table has room a frame is entered after the others.
pub track-handed :
    (p : ℕ) (k : Kmem)
    → k.alloc_size < length k.alloc_list
    → track p k ≡ ok (handed k p k.freelist k.next)
unfolding track
track-handed p k h = rw (lt→ltb _ _ h)

-- With an empty free list `kalloc` returns the null pointer and changes nothing.
pub kalloc-nil : {kernel_end : ℕ} {k : Kmem} → IsValid kernel_end [] k → kalloc k ≡ ok (0, k)
unfolding kalloc
kalloc-nil {k} valid = rw (eq→== k.freelist 0 valid.chain)

-- Otherwise it returns the first free page, enters it last in the table and leaves a valid state.
pub kalloc-IsValid :
    {kernel_end p : ℕ} {free : List ℕ} {k : Kmem}
    → IsValid kernel_end (p ∷ free) k
    → (k' : Kmem) × (kalloc k ≡ ok (p, k'))
      × IsValid kernel_end free k'
      × (allocated k' ≡ allocated k ++ p ∷ [])
unfolding kalloc track
kalloc-IsValid {p} {free} {k} valid =
    let next : Chain k.next (k.next k.freelist) free = rw (valid.chain.0) valid.chain.2 in
    let done = IsValid-handed_out [] p free (k.next k.freelist) k.next valid next in
    (handed k p (k.next k.freelist) k.next, ground (arith, valid.room), done.1, done.0)
