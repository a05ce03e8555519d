-- ===== src/Fs/Freeing.antt =====
-- Freeing a list of blocks of data, as `itrunc` does with those of a file.
use mathlib.Core.Path.{subst}
use computer_organization_an.Common.{
  ℕ, zero, suc, ◌+◌, ◌*◌, ◌/◌, ◌^◌, ◌≤◌, ◌<◌, ◌≡◌, ◌≢◌, refl, sym, ap, ◌∙◌, inl, inr, Bool, true,
  false, Bool-cases, arith, ◌==◌, eq→==, ne→==, ==_iff, if◌then◌else◌,
}
use computer_organization_an.Common.Outcome.{Outcome, ok, panic, fault}
use computer_organization_an.Fs.{Block, Disk, Superblock, readsb, bitmap_block, bfree, get32}
use computer_organization_an.Fs.Bitmap.{unmarked}
use computer_organization_an.Fs.Alloc.{InBitmap, data_start, bit_block_lt}
use computer_organization_an.Fs.Release.{Freed, bfree-Freed}
use computer_organization_an.Fs.Valid.{DiskOk, Owned, sb-start, InBitmap-sb}
use computer_organization_an.Fs.Inode.{free_entry, trunc_entries}

-- The disk `d'` is sound and has the blocks in `freed` free, and the other blocks as in `d`.
pub record FreedTo (d d' : Disk) (freed : ℕ → Bool) : Type 0 where
  pub sound : DiskOk d'
  pub same_superblock : readsb d' ≡ readsb d
  pub bits : (x : ℕ) → InBitmap d x → unmarked d' x ≡ (if freed x then true else unmarked d x)
  pub same : (x : ℕ) → data_start d ≤ x → freed x ≡ false → d' x ≡ d x
  pub inodes : (x : ℕ) → x < (readsb d).ninodes / 8 + 3 → d' x ≡ d x

-- Block `x` is the one with the address `a`.
unfoldable pub is_at : ℕ → ℕ → Bool
is_at a x = if a == 0 then false else x == a

-- Block `x` has one of the first `n` addresses, or is in `freed`.
unfoldable pub with_addrs : ℕ → (ℕ → ℕ) → (ℕ → Bool) → ℕ → Bool
with_addrs zero addrs freed x = freed x
with_addrs (suc n) addrs freed x = if is_at (addrs n) x then true else with_addrs n addrs freed x

is_at-false : (a x : ℕ) → (a ≢ 0 → x ≢ a) → is_at a x ≡ false
unfolding is_at
is_at-false a x h = elim (Bool-cases (a == 0)) [
  | inl z ↦ rw z refl
  | inr z ↦ rw z (ne→== x a (h (λ e. absurd (cc (eq→== a 0 e, z)))))
]

pub with_addrs-false :
    (n : ℕ) (addrs : ℕ → ℕ) (freed : ℕ → Bool) (x : ℕ)
    → freed x ≡ false
    → ((j : ℕ) → j < n → addrs j ≢ 0 → x ≢ addrs j)
    → with_addrs n addrs freed x ≡ false
unfolding with_addrs
with_addrs-false zero addrs freed x e h = e
with_addrs-false (suc n) addrs freed x e h =
    rw (is_at-false (addrs n) x (h n (omega arith)))
      (with_addrs-false n addrs freed x e (λ j l. h j (omega (arith, l))))

either :
    (s t u w : Bool)
    → w ≡ (if t then true else u)
    → (if s then true else w) ≡ (if (if s then true else t) then true else u)
either true t u w e = refl
either false t u w e = e

-- One more block of data in use is freed.
bfree-FreedTo :
    (d d' : Disk) (freed : ℕ → Bool) (a : ℕ)
    → FreedTo d d' freed
    → Owned d a
    → freed a ≡ false
    → (d'' : Disk) × (bfree d' a ≡ ok d'') × FreedTo d d'' (λ x. if x == a then true else freed x)
unfolding bitmap_block
bfree-FreedTo d d' freed a v (in_a, used, p) kept = go (bfree d' a) refl (
    bfree-Freed d' a v.sound.bytes (omega (arith, p, start))
      (InBitmap-sb d d' a v.same_superblock in_a))
  where
    start : data_start d' ≡ data_start d
    start = sb-start d d' v.same_superblock

    still : unmarked d' a ≡ false
    still = v.bits a in_a ∙ rw kept used

    go :
        (r : Outcome Disk)
        → bfree d' a ≡ r
        → Freed d' a r
        → (d'' : Disk) × (bfree d' a ≡ ok d'')
          × FreedTo d d'' (λ x. if x == a then true else freed x)
    go fault e h = absurd h
    go panic e h = absurd (cc (h, still))
    go (ok d'') e (_, bits, sb, zeros, same, bytes) =
        let sb' : readsb d'' ≡ readsb d = sb ∙ v.same_superblock in
        let start' : data_start d'' ≡ data_start d = sb-start d d'' sb' in
        let in_d' : InBitmap d' a = InBitmap-sb d d' a v.same_superblock in_a in
        let bit_l = bit_block_lt d' a in_d' in
        let away : (x : ℕ) → x ≢ a → data_start d ≤ x → d'' x ≡ d' x =
          λ x n l. same x n (λ e'. absurd (omega (arith, e', bit_l, l, start))) in
        let old : (x : ℕ) → InBitmap d'' x → InBitmap d' x =
          λ x l. InBitmap-sb d'' d' x (sym sb) l in
        (
          d'',
          e,
          record {
            sound = record {
              bytes = bytes;
              small = subst (λ (s : Superblock). s.size ≤ 2 ^ 31) (sym sb) v.sound.small;
              free_data = λ x l f. elim (Bool-cases (x == a)) [
                | inl s ↦ let x_a = (==_iff x a).0 s in omega (arith, x_a, p, start')
                | inr s ↦
                    let was = v.sound.free_data x (old x l) (before x l s f) in
                    omega (arith, was, start, start')
              ];
              free_zero = λ x o l f. elim (Bool-cases (x == a)) [
                | inl s ↦ subst (λ y. d'' y o ≡ 0) (sym ((==_iff x a).0 s)) (zeros o)
                | inr s ↦
                    let was = before x l s f in
                    let l' = v.sound.free_data x (old x l) was in
                    ap (λ (t : Block). t o)
                      (away x (λ e'. absurd (cc (eq→== x a e', s))) (omega (arith, l', start)))
                    ∙ v.sound.free_zero x o (old x l) was
              ];
            };
            same_superblock = sb';
            bits = λ x l.
                bits x (InBitmap-sb d d' x v.same_superblock l)
                ∙ either (x == a) (freed x) _ _ (v.bits x l);
            same = λ x l f. elim (Bool-cases (x == a)) [
              | inl s ↦ let t : true ≡ false = rw s at f in absurd (cc (t))
              | inr s ↦
                  let f' : freed x ≡ false = rw s at f in
                  away x (λ e'. absurd (cc (eq→== x a e', s))) l ∙ v.same x l f'
            ];
            inodes = λ x l.
                same x (λ e'. absurd (omega (arith, e', p, l)))
                  (λ e'.
                    absurd
                      (omega (arith, e', l, ap (λ (s : Superblock). s.ninodes) v.same_superblock)))
                ∙ v.inodes x l;
          },
        )
      where
        before :
            (x : ℕ)
            → InBitmap d'' x
            → (x == a) ≡ false
            → unmarked d'' x ≡ true
            → unmarked d' x ≡ true
        before x l s f =
            let b : unmarked d'' x ≡ unmarked d' x =
              bits x (InBitmap-sb d'' d' x (sym sb) l) ∙ rw s refl in
            sym b ∙ f

-- A block of which the address may be 0.
pub free_entry-FreedTo :
    (d d' : Disk) (freed : ℕ → Bool) (a : ℕ)
    → FreedTo d d' freed
    → (a ≢ 0 → Owned d a × (freed a ≡ false))
    → (d'' : Disk) × (free_entry a d' ≡ ok d'')
      × FreedTo d d'' (λ x. if is_at a x then true else freed x)
unfolding free_entry is_at
free_entry-FreedTo d d' freed a v h = elim (Bool-cases (a == 0)) [
  | inl z ↦ rw z (d', refl, v)
  | inr z ↦
      let (own, kept) = h (λ e. absurd (cc (eq→== a 0 e, z))) in
      rw z (bfree-FreedTo d d' freed a v own kept)
]

-- The loop of `itrunc` over the entries of the indirect block.
trunc_entries-FreedTo :
    (n j m : ℕ) (blk : Block) (addrs : ℕ → ℕ) (d d' : Disk) (freed : ℕ → Bool)
    → n + j ≡ m
    → ((k : ℕ) → k < m → get32 blk (4 * k) ≡ addrs k)
    → ((k : ℕ) → k < m → addrs k ≢ 0 → Owned d (addrs k))
    → ((k : ℕ) → k < m → addrs k ≢ 0 → with_addrs k addrs freed (addrs k) ≡ false)
    → FreedTo d d' (with_addrs j addrs freed)
    → (d'' : Disk) × (trunc_entries n j blk d' ≡ ok d'') × FreedTo d d'' (with_addrs m addrs freed)
unfolding trunc_entries with_addrs
trunc_entries-FreedTo zero j m blk addrs d d' freed e words own apart v = (
  d',
  refl,
  let last : j ≡ m = omega (arith, e) in
      subst (λ t. FreedTo d d' (with_addrs t addrs freed)) last v,
)
trunc_entries-FreedTo (suc n) j m blk addrs d d' freed e words own apart v =
    let l : j < m = omega (arith, e) in
    let (d1, f, v1) =
      free_entry-FreedTo d d' (with_addrs j addrs freed) (addrs j) v
        (λ z. (own j l z, apart j l z)) in
    let (d2, f2, v2) =
      trunc_entries-FreedTo n (suc j) m blk addrs d d1 freed (omega (arith, e)) words own apart
        v1 in
    (d2, rw (words j l, f) f2, v2)

pub FreedTo-ext :
    (d d' : Disk) (freed freed' : ℕ → Bool)
    → FreedTo d d' freed
    → ((x : ℕ) → freed' x ≡ freed x)
    → FreedTo d d' freed'
FreedTo-ext d d' freed freed' v h = record {
  sound = v.sound;
  same_superblock = v.same_superblock;
  bits = λ x l. rw (h x) (v.bits x l);
  same = λ x l e. v.same x l (sym (h x) ∙ e);
  inodes = v.inodes;
}

-- Nothing is freed yet.
pub FreedTo-start : (d : Disk) → DiskOk d → FreedTo d d (λ x. false)
FreedTo-start d v = record {
  sound = v;
  same_superblock = refl;
  bits = λ x l. refl;
  same = λ x l e. refl;
  inodes = λ x l. refl;
}

-- The same loop from its beginning.
pub trunc_entries-all :
    (n : ℕ) (blk : Block) (addrs : ℕ → ℕ) (d d' : Disk) (freed : ℕ → Bool)
    → ((k : ℕ) → k < n → get32 blk (4 * k) ≡ addrs k)
    → ((k : ℕ) → k < n → addrs k ≢ 0 → Owned d (addrs k))
    → ((k : ℕ) → k < n → addrs k ≢ 0 → with_addrs k addrs freed (addrs k) ≡ false)
    → FreedTo d d' freed
    → (d'' : Disk) × (trunc_entries n 0 blk d' ≡ ok d'') × FreedTo d d'' (with_addrs n addrs freed)
unfolding with_addrs
trunc_entries-all n blk addrs d d' freed words own apart v =
    trunc_entries-FreedTo n 0 n blk addrs d d' freed (omega arith) words own apart v
