-- ===== src/Kalloc/Random/Draw.antt =====
-- What `kalloc` of part_b hands out.
use native.Mathlib.Nat.{add-zero}
use computer_organization_an.Common.{
  ℕ, suc, ◌+◌, ◌%◌, ◌≡◌, ◌≢◌, ap, ◌∙◌, List, [], ◌∷◌, ◌++◌, arith, length, eq→==, ne→==,
  length-append,
}
use computer_organization_an.Common.Outcome.{ok, fault}
use computer_organization_an.Rand.{xv6_rand}
use computer_organization_an.Kalloc.{Kmem, track, Chain, allocated}
use computer_organization_an.Kalloc.Pages.{Distinct-front}
use computer_organization_an.Kalloc.Valid.{IsValid, handed, IsValid-handed_out, track-handed}
use computer_organization_an.Kalloc.Random.{choose, count_free, walk, unlink, kalloc_random}
use computer_organization_an.Kalloc.Random.Unlink.{
  count_free-length, walk-Chain, unlinked, unlink-unlinked, Chain-unlinked, unlinked_fields,
}

-- When no page is left the allocator does not return the null pointer: `x % freesize` divides by
-- zero, whatever the generator's state.
pub kalloc_random-nil :
    (a : ℕ) {kernel_end : ℕ} {k : Kmem} → IsValid kernel_end [] k → kalloc_random a k ≡ fault
unfolding kalloc_random count_free choose
kalloc_random-nil a {k = k} valid = rw (eq→== k.freelist 0 valid.chain)

choose-ok : (x n : ℕ) {m y : ℕ} → n ≡ suc m → y ≡ x % n → choose x n ≡ ok y
unfolding choose
choose-ok x n e d = ground arith

Chain-ne_zero :
    (next : ℕ → ℕ) (r p : ℕ) (front back : List ℕ) → Chain next r (front ++ p ∷ back) → p ≢ 0
Chain-ne_zero next r p [] back c = c.1
Chain-ne_zero next r p (x ∷ front) back c = Chain-ne_zero next (next x) p front back c.2

-- Otherwise the draw is the free page whose index is the random number modulo the number of free
-- pages; that page alone leaves the free list and is entered last in the table of frames, and the
-- state stays valid.
pub kalloc_random-IsValid :
    (a p : ℕ) (front back : List ℕ) {kernel_end : ℕ} {k : Kmem}
    → IsValid kernel_end (front ++ p ∷ back) k
    → length front ≡ xv6_rand a % length (front ++ p ∷ back)
    → (k' : Kmem) × (kalloc_random a k ≡ ok (p, xv6_rand a, k'))
      × IsValid kernel_end (front ++ back) k'
      × (allocated k' ≡ allocated k ++ p ∷ [])
unfolding kalloc_random
kalloc_random-IsValid a p front back {k = k} valid drawn =
    let h : Kmem = handed k p k.freelist k.next in
    let h' : Kmem = unlinked h p front in
    let all : ℕ = length (front ++ p ∷ back) in
    let size : all ≡ suc (length front + length back) =
      omega (arith, length-append front (p ∷ back)) in
    let distinct = Distinct-front (front ++ p ∷ back) (allocated k) valid.distinct in
    let chain : Chain h'.next h'.freelist (front ++ back) =
      Chain-unlinked h p front back valid.chain distinct in
    let done = IsValid-handed_out front p back h'.freelist h'.next valid chain in
    let e : h' ≡ handed k p h'.freelist h'.next = unlinked_fields h p front in
    let taken : unlink (suc (length k.alloc_list)) p h ≡ ok h' =
      unlink-unlinked (suc (length k.alloc_list)) h p front back valid.chain distinct
        (omega (arith, valid.room, size)) in
    let counted : count_free (suc (length k.alloc_list)) k.next k.freelist 0 ≡ ok all =
      count_free-length (suc (length k.alloc_list)) k.next k.freelist 0 (front ++ p ∷ back)
        valid.chain (omega (arith, valid.room))
      ∙ ap ok (add-zero all) in
    let chosen : choose (xv6_rand a) all ≡ ok (length front) = choose-ok _ all size drawn in
    let found : walk (length front) k.next k.freelist ≡ ok p =
      walk-Chain k.next k.freelist p front back valid.chain in
    let entered : track p k ≡ ok h = track-handed p k (omega (arith, valid.room, size)) in
    let there : p ≢ 0 = Chain-ne_zero k.next k.freelist p front back valid.chain in
    (
      handed k p h'.freelist h'.next,
      rw (counted, chosen, found, ne→== p 0 there, entered, taken)
          (ap (λ t. ok (p, xv6_rand a, t)) e),
      done.1,
      done.0,
    )
