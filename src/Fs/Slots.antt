-- ===== src/Fs/Slots.antt =====
-- The inodes of the cache under `iget`.
use mathlib.Core.Path.{subst}
use computer_organization_an.Common.{
  ℕ, zero, suc, ◌+◌, ◌<◌, ◌≡◌, ◌≢◌, ◌⊎◌, refl, sym, ap, ◌∙◌, inl, inr, Bool, true, false,
  Bool-cases, Option, none, some, List, [], ◌∷◌, arith, ◌==◌, eq→==, ==_iff, length, length-set,
  get_elem?, set, get_elem?-set_self, get_elem?-set_ne, get_elem?_bound,
}
use computer_organization_an.Common.Outcome.{Outcome, ok, panic, fault}
use computer_organization_an.Fs.Inode.{Inode}
use computer_organization_an.Fs.Cache.{
  later, first_with, is_cached, is_empty, at_inode, use_empty, use_cached, iget,
}

-- What a search of the cache finds.
abbrev pub Search : (Inode → Bool) → List Inode → Option ℕ → Type 0
Search test cache none = (i : ℕ) (ip : Inode) → get_elem? cache i ≡ some ip → test ip ≡ false
Search test cache (some i) = (ip : Inode) × (get_elem? cache i ≡ some ip) × (test ip ≡ true)

some_inj : (x y : Inode) → some x ≡ some y → x ≡ y
some_inj x y e = cc e

Search-later :
    (test : Inode → Bool) (ip : Inode) (cache : List Inode) (o : Option ℕ)
    → test ip ≡ false
    → Search test cache o
    → Search test (ip ∷ cache) (later o)
unfolding later
Search-later test ip cache none n all = go
  where
    go : (i : ℕ) (jp : Inode) → get_elem? (ip ∷ cache) i ≡ some jp → test jp ≡ false
    go zero jp e = ap test (sym (some_inj ip jp e)) ∙ n
    go (suc i) jp e = all i jp e
Search-later test ip cache (some i) n (jp, e, t) = (jp, e, t)

first_with-Search :
    (test : Inode → Bool) (cache : List Inode) → Search test cache (first_with test cache)
unfolding first_with
first_with-Search test [] = λ i ip e. absurd (cc e)
first_with-Search test (ip ∷ cache) = elim (Bool-cases (test ip)) [
  | inl t ↦ rw t (ip, refl, t)
  | inr t ↦
      rw t (Search-later test ip cache (first_with test cache) t (first_with-Search test cache))
]

-- An inode that is referred to is in the cache once.
abbrev pub Once : List Inode → Type 0
Once cache =
    (i j : ℕ) (ip jp : Inode)
    → get_elem? cache i ≡ some ip
    → get_elem? cache j ≡ some jp
    → 0 < ip.ref
    → 0 < jp.ref
    → ip.inum ≡ jp.inum
    → i ≡ j

pub at_found :
    {A : Type 0} {o : Option Inode} {ip : Inode} (step : Inode → Outcome A)
    → o ≡ some ip
    → at_inode o step ≡ step ip
unfolding at_inode
at_found step e = ap (λ o. at_inode o step) e

-- What becomes of the entry `ip`: it has the number and is in use, and gets one reference more; or no
-- entry has it, `ip` is free, and it stands for the number with one reference, not yet read.
abbrev pub Referred : ℕ → List Inode → Inode → Option Inode → Type 0
Referred inum cache ip new =
    ((0 < ip.ref) × (ip.inum ≡ inum) × (new ≡ some (record ip { ref = ip.ref + 1 })))
    ⊎ (((j : ℕ) (jp : Inode) → get_elem? cache j ≡ some jp → 0 < jp.ref → jp.inum ≢ inum)
        × (ip.ref ≡ 0)
        × (new ≡ some (record ip { inum = inum; ref = 1; busy = false; valid = false })))

-- How `iget` ends.
abbrev pub Gotten : ℕ → List Inode → Outcome (ℕ × List Inode) → Type 0
Gotten inum cache fault = ⊥
Gotten inum cache panic =
    (i : ℕ) (ip : Inode) → get_elem? cache i ≡ some ip → (0 < ip.ref) × (ip.inum ≢ inum)
Gotten inum cache (ok (i, cache')) =
    ((ip : Inode) × (get_elem? cache i ≡ some ip) × Referred inum cache ip (get_elem? cache' i))
    × Once cache'
    × ((j : ℕ) → i ≢ j → get_elem? cache' j ≡ get_elem? cache j)
    × (length cache' ≡ length cache)

-- A store to one entry, whose number no other entry has that is referred to.
Once-set :
    (cache : List Inode) (i : ℕ) (ip' : Inode)
    → Once cache
    → i < length cache
    → ((j : ℕ) (jp : Inode) → i ≢ j → get_elem? cache j ≡ some jp → 0 < jp.ref → jp.inum ≢ ip'.inum)
    → Once (set cache i ip')
Once-set cache i ip' once l alone j k jp kp e f p q same = elim (Bool-cases (i == j)) [
  | inl s ↦ elim (Bool-cases (i == k)) [
    | inl t ↦ sym ((==_iff i j).0 s) ∙ (==_iff i k).0 t
    | inr t ↦ absurd (clash j k jp kp e f q same s t)
  ]
  | inr s ↦ elim (Bool-cases (i == k)) [
    | inl t ↦ absurd (clash k j kp jp f e p (sym same) t s)
    | inr t ↦
        once j k jp kp (sym (get_elem?-set_ne cache ip' (apart j s)) ∙ e)
          (sym (get_elem?-set_ne cache ip' (apart k t)) ∙ f) p q same
  ]
]
  where
    apart : (j : ℕ) → (i == j) ≡ false → i ≢ j
    apart j s e = absurd (cc (eq→== i j e, s))

    clash :
        (j k : ℕ) (jp kp : Inode)
        → get_elem? (set cache i ip') j ≡ some jp
        → get_elem? (set cache i ip') k ≡ some kp
        → 0 < kp.ref
        → jp.inum ≡ kp.inum
        → (i == j) ≡ true
        → (i == k) ≡ false
        → ⊥
    clash j k jp kp e f q same s t =
        let at_i : get_elem? (set cache i ip') i ≡ some jp =
          ap (get_elem? (set cache i ip')) ((==_iff i j).0 s) ∙ e in
        let new : ip' ≡ jp = some_inj ip' jp (sym (get_elem?-set_self cache i ip' l) ∙ at_i) in
        alone k kp (apart k t) (sym (get_elem?-set_ne cache ip' (apart k t)) ∙ f) q
          (sym same ∙ ap (λ (x : Inode). x.inum) (sym new))

set-Gotten :
    (inum : ℕ) (cache : List Inode) (i : ℕ) (ip ip' : Inode)
    → Once cache
    → get_elem? cache i ≡ some ip
    → ip'.inum ≡ inum
    → Referred inum cache ip (some ip')
    → ((j : ℕ) (jp : Inode) → i ≢ j → get_elem? cache j ≡ some jp → 0 < jp.ref → jp.inum ≢ inum)
    → Gotten inum cache (ok (i, set cache i ip'))
set-Gotten inum cache i ip ip' once e number p alone =
    let l = get_elem?_bound cache i ip e in
    (
      (ip, e, subst (Referred inum cache ip) (sym (get_elem?-set_self cache i ip' l)) p),
      Once-set cache i ip' once l (λ j jp n f q same. alone j jp n f q (same ∙ number)),
      λ j n. get_elem?-set_ne cache ip' n,
      length-set cache i ip',
    )

use_empty-Gotten :
    (inum : ℕ) (cache : List Inode) (o : Option ℕ)
    → Once cache
    → ((i : ℕ) (ip : Inode) → get_elem? cache i ≡ some ip → is_cached inum ip ≡ false)
    → Search is_empty cache o
    → Gotten inum cache (use_empty inum cache o)
unfolding use_empty is_empty is_cached
use_empty-Gotten inum cache none once absent none_empty = λ i ip e.
    let a = absent i ip e in
    let b = none_empty i ip e in (ground (arith, b), λ same. ground (arith, a, b, same))
use_empty-Gotten inum cache (some i) once absent (ip, e, t) =
    subst (Gotten inum cache)
      (sym (
        at_found
          (λ (x : Inode).
            ok (i, set cache i (record x { inum = inum; ref = 1; busy = false; valid = false })))
          e))
      (set-Gotten inum cache i ip (record ip { inum = inum; ref = 1; busy = false; valid = false })
        once e refl
        (inr (
          λ j jp f q same. let a = absent j jp f in ground (arith, a, q, same),
          ground (arith, t),
          refl,
        ))
        (λ j jp n f q same. let a = absent j jp f in ground (arith, a, q, same)))

use_cached-Gotten :
    (inum : ℕ) (cache : List Inode) (o : Option ℕ)
    → Once cache
    → Search (is_cached inum) cache o
    → Gotten inum cache (use_cached inum cache o)
unfolding use_cached is_cached
use_cached-Gotten inum cache none once absent =
    use_empty-Gotten inum cache (first_with is_empty cache) once absent
      (first_with-Search is_empty cache)
use_cached-Gotten inum cache (some i) once (ip, e, t) =
    let number : ip.inum ≡ inum = ground (arith, t) in
    let p : 0 < ip.ref = ground (arith, t) in
    subst (Gotten inum cache)
      (sym (at_found (λ (x : Inode). ok (i, set cache i (record x { ref = suc x.ref }))) e))
      (set-Gotten inum cache i ip (record ip { ref = suc ip.ref }) once e number
        (inl (p, number, ap (λ n. some (record ip { ref = n })) (omega arith)))
        (λ j jp n f q same. n (once i j ip jp e f p q (number ∙ sym same))))

-- `iget` in a cache that has no inode twice gives a reference to the inode with the number: an entry
-- in use with the number gets one reference more, or if there is none, a free entry gets the number, one
-- reference and no flags; no inode is twice in the cache, and the other entries are as they were.
-- It panics only if the inode is not cached and no entry is free.
pub iget-Gotten : (inum : ℕ) (cache : List Inode) → Once cache → Gotten inum cache (iget inum cache)
unfolding iget
iget-Gotten inum cache once =
    use_cached-Gotten inum cache (first_with (is_cached inum) cache) once
      (first_with-Search (is_cached inum) cache)
