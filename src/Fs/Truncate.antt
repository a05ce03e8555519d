-- ===== src/Fs/Truncate.antt =====
-- What `itrunc` does to a file and to the bitmap.
use mathlib.Core.Path.{subst}
use computer_organization_an.Common.{
  ℕ, zero, suc, ◌+◌, ◌-◌, ◌≤◌, ◌<◌, ◌≡◌, ◌≢◌, refl, sym, ap, ◌∙◌, inl, inr, Bool, true, false,
  Bool-cases, arith, ◌==◌, ==_iff, if◌then◌else◌,
}
use computer_organization_an.Common.Outcome.{ok, ◌>>=◌}
use computer_organization_an.Fs.{Disk}
use computer_organization_an.Fs.Valid.{Owned}
use computer_organization_an.Fs.Inode.{
  Inode, ndirect, nindirect, set_addr, free_slot, free_entry, trunc_direct,
}
use computer_organization_an.Fs.Mapping.{entry, slot, InodeOk}
use computer_organization_an.Fs.Bmap.{slot_direct, slot-entry}
use computer_organization_an.Fs.Freeing.{
  FreedTo, is_at, with_addrs, with_addrs-false, free_entry-FreedTo,
}

-- The first `i` addresses of `ip'` are 0, and all else is as in `ip`.
abbrev pub Cleared : ℕ → Inode → Inode → Type 0
Cleared i ip ip' =
    (ip' ≡ record ip { addrs = ip'.addrs })
    × ((j : ℕ) → j < i → ip'.addrs j ≡ 0)
    × ((j : ℕ) → i ≤ j → ip'.addrs j ≡ ip.addrs j)

abbrev pub nothing : ℕ → Bool
nothing x = false

-- The address `i` becomes 0, unless it is.
unfoldable pub without_addr : Inode → ℕ → Inode
without_addr ip i = if ip.addrs i == 0 then ip else set_addr ip i 0

free_slot-free_entry :
    (d : Disk) (ip : Inode) (i : ℕ)
    → free_slot d ip i ≡ (free_entry (ip.addrs i) d >>= λ d'. ok (d', without_addr ip i))
unfolding free_slot free_entry without_addr
free_slot-free_entry d ip i = elim (Bool-cases (ip.addrs i == 0)) [
  | inl z ↦ rw z refl
  | inr z ↦ rw z refl
]

pub without_addr-Cleared :
    (ip ip' : Inode) (i : ℕ) → Cleared i ip ip' → Cleared (suc i) ip (without_addr ip' i)
unfolding without_addr set_addr
without_addr-Cleared ip ip' i (e, low, high) = elim (Bool-cases (ip'.addrs i == 0)) [
  | inl z ↦ rw z (
    e,
    λ j l. elim (Bool-cases (j == i)) [
      | inl s ↦ ap ip'.addrs ((==_iff j i).0 s) ∙ (==_iff (ip'.addrs i) 0).0 z
      | inr s ↦ low j (ground (arith, l, s))
    ],
    λ j l. high j (omega (arith, l)),
  )
  | inr z ↦ rw z (
    ap (λ (t : Inode). set_addr t i 0) e,
    λ j l. elim (Bool-cases (j == i)) [
      | inl s ↦ rw s refl
      | inr s ↦ rw s (low j (ground (arith, l, s)))
    ],
    λ j l. let s : (j == i) ≡ false = ground (arith, l) in rw s (high j (omega (arith, l))),
  )
]

pub trunc_direct-FreedTo :
    (n i m : ℕ) (d d' : Disk) (ip ip' : Inode)
    → n + i ≡ m
    → ((k : ℕ) → k < m → ip.addrs k ≢ 0 → Owned d (ip.addrs k))
    → ((k : ℕ) → k < m → ip.addrs k ≢ 0 → with_addrs k ip.addrs nothing (ip.addrs k) ≡ false)
    → FreedTo d d' (with_addrs i ip.addrs nothing)
    → Cleared i ip ip'
    → (d'' : Disk) × (ip'' : Inode) × (trunc_direct n i d' ip' ≡ ok (d'', ip''))
      × FreedTo d d'' (with_addrs m ip.addrs nothing)
      × Cleared m ip ip''
unfolding trunc_direct with_addrs
trunc_direct-FreedTo zero i m d d' ip ip' e own apart v c =
    let last : i ≡ m = omega (arith, e) in
    (
      d',
      ip',
      refl,
      subst (λ t. FreedTo d d' (with_addrs t ip.addrs nothing)) last v,
      subst (λ t. Cleared t ip ip') last c,
    )
trunc_direct-FreedTo (suc n) i m d d' ip ip' e own apart v c =
    let l : i < m = omega (arith, e) in
    let (d1, f, v1) =
      free_entry-FreedTo d d' (with_addrs i ip.addrs nothing) (ip.addrs i) v
        (λ z. (own i l z, apart i l z)) in
    let (d2, ip2, f2, v2, c2) =
      trunc_direct-FreedTo n (suc i) m d d1 ip (without_addr ip' i) (omega (arith, e)) own apart v1
        (without_addr-Cleared ip ip' i c) in
    (d2, ip2, rw (free_slot-free_entry d' ip' i, c.2 i (omega arith), f) f2, v2, c2)

-- Block `x` is a block of the file, or its indirect block.
unfoldable pub in_file : Disk → Inode → ℕ → Bool
in_file d ip x =
    if is_at (ip.addrs ndirect) x
    then true
    else with_addrs nindirect (entry d (ip.addrs ndirect)) (with_addrs ndirect ip.addrs nothing) x

with_addrs_zero :
    (n : ℕ) (addrs : ℕ → ℕ) (freed : ℕ → Bool) (x : ℕ)
    → ((j : ℕ) → addrs j ≡ 0)
    → with_addrs n addrs freed x ≡ freed x
unfolding with_addrs is_at
with_addrs_zero zero addrs freed x h = refl
with_addrs_zero (suc n) addrs freed x h = rw (h n) (with_addrs_zero n addrs freed x h)

pub in_file-none :
    (d : Disk) (ip : Inode) (x : ℕ)
    → ip.addrs ndirect ≡ 0
    → in_file d ip x ≡ with_addrs ndirect ip.addrs nothing x
unfolding in_file is_at entry
in_file-none d ip x e =
    let no_entry : (j : ℕ) → entry d 0 j ≡ 0 = λ j. refl in
    rw e (with_addrs_zero 128 (entry d 0) (with_addrs 12 ip.addrs nothing) x no_entry)

-- The addresses of a sound file, as they are met.
module _ (d : Disk) (ip : Inode) (w : InodeOk d ip) where
  entry-slot : (k : ℕ) → slot d ip (12 + k) ≡ entry d (ip.addrs ndirect) k
  entry-slot k =
      let back : 12 + k - 12 ≡ k = omega arith in
      slot-entry d ip (12 + k) (omega arith) ∙ ap (entry d (ip.addrs ndirect)) back

  pub direct_own : (k : ℕ) → k < 12 → ip.addrs k ≢ 0 → Owned d (ip.addrs k)
  direct_own k l n =
      let e = slot_direct d ip k l in
      subst (Owned d) e (w.owned k (omega (arith, l)) (λ z. n (sym e ∙ z)))

  pub direct_apart :
      (k : ℕ) → k < 12 → ip.addrs k ≢ 0 → with_addrs k ip.addrs nothing (ip.addrs k) ≡ false
  direct_apart k l n =
      let e = slot_direct d ip k l in
      with_addrs-false k ip.addrs nothing (ip.addrs k) refl (λ j m _ same.
        let f = slot_direct d ip j (omega (arith, l, m)) in
        let k_j =
          w.distinct k j (omega (arith, l)) (omega (arith, l, m)) (λ z. n (sym e ∙ z))
            (e ∙ same ∙ sym f) in
        absurd (omega (arith, k_j, m)))

  pub entry_own :
      (k : ℕ) → k < 128 → entry d (ip.addrs ndirect) k ≢ 0 → Owned d (entry d (ip.addrs ndirect) k)
  entry_own k l n =
      let e = entry-slot k in
      subst (Owned d) e (w.owned (12 + k) (omega (arith, l)) (λ z. n (sym e ∙ z)))

  pub entry_apart :
      (k : ℕ)
      → k < 128
      → entry d (ip.addrs ndirect) k ≢ 0
      → with_addrs k
          (entry d (ip.addrs ndirect))
          (with_addrs 12 ip.addrs nothing)
          (entry d (ip.addrs ndirect) k)
        ≡ false
  entry_apart k l n =
      let e = entry-slot k in
      let nonzero : slot d ip (12 + k) ≢ 0 = λ z. n (sym e ∙ z) in
      with_addrs-false k (entry d (ip.addrs ndirect)) (with_addrs 12 ip.addrs nothing)
        (entry d (ip.addrs ndirect) k)
        (with_addrs-false 12 ip.addrs nothing (entry d (ip.addrs ndirect) k) refl (λ j m _ same.
          let k_j =
            w.distinct (12 + k) j (omega (arith, l)) (omega (arith, m)) nonzero
              (e ∙ same ∙ sym (slot_direct d ip j m)) in
          absurd (omega (arith, k_j, m))))
        (λ j m _ same.
          let k_j =
            w.distinct (12 + k) (12 + j) (omega (arith, l)) (omega (arith, l, m)) nonzero
              (e ∙ same ∙ sym (entry-slot j)) in
          absurd (omega (arith, k_j, m)))

  pub indirect_apart :
      ip.addrs ndirect ≢ 0
      → (with_addrs 12 ip.addrs nothing (ip.addrs ndirect) ≡ false)
        × (with_addrs 128
              (entry d (ip.addrs ndirect))
              (with_addrs 12 ip.addrs nothing)
              (ip.addrs ndirect)
            ≡ false)
  indirect_apart n =
      let direct : with_addrs 12 ip.addrs nothing (ip.addrs ndirect) ≡ false =
        with_addrs-false 12 ip.addrs nothing (ip.addrs ndirect) refl (λ j m j_n same.
          let e = slot_direct d ip j m in
          w.apart j (omega (arith, m)) (λ z. j_n (sym e ∙ z)) (e ∙ sym same)) in
      (
        direct,
        with_addrs-false 128 (entry d (ip.addrs ndirect)) (with_addrs 12 ip.addrs nothing)
            (ip.addrs ndirect) direct
            (λ j m j_n same.
              let e = entry-slot j in
              w.apart (12 + j) (omega (arith, m)) (λ z. j_n (sym e ∙ z)) (e ∙ sym same)),
      )
