-- ===== src/Fs/Lookup.antt =====
-- Which entry of a directory `dirlookup` finds.
use mathlib.Core.Path.{subst}
use computer_organization_an.Common.{
  ℕ, zero, suc, ◌+◌, ◌-◌, ◌*◌, ◌/◌, ◌%◌, ◌≤◌, ◌<◌, ◌≡◌, ◌≢◌, ◌⊎◌, refl, sym, ap, ◌∙◌, inl, inr,
  Bool, true, false, Bool-cases, Option, none, some, List, [], ◌∷◌, arith, ltb, ltb→lt, ◌==◌, eq→==,
  ==_iff, if◌then◌else◌, get_elem?, set,
}
use computer_organization_an.Common.Outcome.{Outcome, ok, panic, ◌>>=◌}
use computer_organization_an.Fs.{Block, Disk, block_size}
use computer_organization_an.Fs.Inode.{Inode, t_dir, Mapped, bmap, get16}
use computer_organization_an.Fs.Content.{max_size}
use computer_organization_an.Fs.Mapping.{max_blocks, slot}
use computer_organization_an.Fs.Indirect.{bmap_found}
use computer_organization_an.Fs.Reading.{MappedTo}
use computer_organization_an.Fs.Cache.{State, iget}
use computer_organization_an.Fs.Dir.{
  entry_size, matches, search_block, bmap_at, Lookup, get_entry, in_block, lookup_loop, dirlookup,
}
use computer_organization_an.Fs.Slots.{at_found}
use computer_organization_an.Fs.Entry.{
  number_at, IsEntry, number_at-get16, matches-IsEntry, IsEntry-matches,
}

-- Entry `k` of a directory is in use and has the name.
abbrev matches_at : Disk → Inode → Block → ℕ → Bool
matches_at d ip name k = matches name (d (slot d ip (k / 32))) (16 * (k % 32))

-- What a search of a block from entry `j` on finds.
abbrev FirstEntry : Block → Block → ℕ → ℕ → Option ℕ → Type 0
FirstEntry name blk j n none = (k : ℕ) → j ≤ k → k < j + n → matches name blk (16 * k) ≡ false
FirstEntry name blk j n (some o) =
    (k : ℕ) × (o ≡ 16 * k)
    × (j ≤ k)
    × (k < j + n)
    × (matches name blk (16 * k) ≡ true)
    × ((i : ℕ) → j ≤ i → i < k → matches name blk (16 * i) ≡ false)

FirstEntry-suc :
    (name blk : Block) (j n : ℕ) (r : Option ℕ)
    → matches name blk (16 * j) ≡ false
    → FirstEntry name blk (suc j) n r
    → FirstEntry name blk j (suc n) r
FirstEntry-suc name blk j n none e h = λ k l m. elim (Bool-cases (k == j)) [
  | inl s ↦ ap (λ t. matches name blk (16 * t)) ((==_iff k j).0 s) ∙ e
  | inr s ↦ h k (ground (arith, l, s)) (omega (arith, m))
]
FirstEntry-suc name blk j n (some o) e (k, o_k, l, m, f, h) = (
  k,
  o_k,
  omega (arith, l),
  omega (arith, m),
  f,
  λ i p q. elim (Bool-cases (i == j)) [
    | inl s ↦ ap (λ t. matches name blk (16 * t)) ((==_iff i j).0 s) ∙ e
    | inr s ↦ h i (ground (arith, p, s)) q
  ],
)

search_block-FirstEntry :
    (n : ℕ) (name blk : Block) (o j : ℕ)
    → o ≡ 16 * j
    → FirstEntry name blk j n (search_block n name blk o)
unfolding search_block
search_block-FirstEntry zero name blk o j e = λ k l m. absurd (omega (arith, l, m))
search_block-FirstEntry (suc n) name blk o j e = elim (Bool-cases (matches name blk o)) [
  | inl s ↦ rw s (
    j,
    e,
    omega arith,
    omega arith,
    ap (matches name blk) (sym e) ∙ s,
    λ i p q. absurd (omega (arith, p, q)),
  )
  | inr s ↦ rw s (
      FirstEntry-suc name blk j n (search_block n name blk (o + entry_size))
        (ap (matches name blk) (sym e) ∙ s)
        (search_block-FirstEntry n name blk (o + entry_size) (suc j) (omega (arith, e))))
]

pub set_same :
    (cache : List Inode) (i : ℕ) (ip : Inode) → get_elem? cache i ≡ some ip → set cache i ip ≡ cache
set_same [] i ip e = refl
set_same (x ∷ cache) zero ip e = let same : x ≡ ip = cc e in ap (λ t. t ∷ cache) (sym same)
set_same (x ∷ cache) (suc i) ip e = ap (λ t. x ∷ t) (set_same cache i ip e)

bmap_at_found :
    (s : State) (dp : ℕ) (ip : Inode) (bn : ℕ)
    → get_elem? s.cache dp ≡ some ip
    → bn < max_blocks
    → slot s.disk ip bn ≢ 0
    → bmap_at s dp bn ≡ ok (slot s.disk ip bn, s)
unfolding bmap_at
bmap_at_found s dp ip bn e l n =
    at_found
      (λ (ip : Inode). bmap s.disk ip bn >>= λ r.
        ok (r.addr, record { disk = r.disk; cache = set s.cache dp r.inode }))
      e
    ∙ ap
        (λ o. o >>= λ (r : Mapped).
          ok (r.addr, record { disk = r.disk; cache = set s.cache dp r.inode }))
        (bmap_found s.disk ip bn l n)
    ∙ ap (λ c. ok (slot s.disk ip bn, record { disk = s.disk; cache = c }))
        (set_same s.cache dp ip e)

-- How the search of `dirlookup` ends, by its own test of an entry.
abbrev Searched : State → Inode → Block → Outcome Lookup → Type 0
Searched s ip name r =
    ((r ≡ ok (none, s)) × ((k : ℕ) → 16 * k < ip.size → matches_at s.disk ip name k ≡ false))
    ⊎ ((k : ℕ) × (matches_at s.disk ip name k ≡ true)
        × ((i : ℕ) → i < k → matches_at s.disk ip name i ≡ false)
        × (r ≡ get_entry s (s.disk (slot s.disk ip (k / 32))) (16 * (k - k % 32)) (16 * (k % 32))))

in_block-Searched :
    (s : State) (ip : Inode) (name : Block) (q off : ℕ) (next : Outcome Lookup) (o : Option ℕ)
    → off ≡ 512 * q
    → ((i : ℕ) → i < 32 * q → matches_at s.disk ip name i ≡ false)
    → FirstEntry name (s.disk (slot s.disk ip q)) 0 32 o
    → (((i : ℕ) → i < 32 * suc q → matches_at s.disk ip name i ≡ false) → Searched s ip name next)
    → Searched s ip name (in_block s (s.disk (slot s.disk ip q)) off next o)
unfolding in_block
in_block-Searched s ip name q off next none e before full later = later (λ i l.
    elim (Bool-cases (ltb i (32 * q))) [
      | inl s' ↦ before i (ltb→lt i (32 * q) s')
      | inr s' ↦
          let b : i / 32 ≡ q = ground (arith, s', l) in
          ap (λ t. matches name (s.disk (slot s.disk ip t)) (16 * (i % 32))) b
          ∙ full (i % 32) (omega arith) (omega arith)
    ])
in_block-Searched s ip name q off next (some o) e before (j, o_j, _, j_l, m, earlier) later =
    let k : ℕ = 32 * q + j in
    let b : k / 32 ≡ q = omega (arith, j_l) in
    let r : k % 32 ≡ j = omega (arith, j_l) in
    let there : off ≡ 16 * (k - k % 32) = omega (arith, e, r) in
    let here : o ≡ 16 * (k % 32) = omega (arith, o_j, r) in
    inr (
      k,
      ap (λ t. matches name (s.disk (slot s.disk ip t)) (16 * (k % 32))) b
          ∙ ap (λ t. matches name (s.disk (slot s.disk ip q)) (16 * t)) r
          ∙ m,
      λ i l. elim (Bool-cases (ltb i (32 * q))) [
        | inl s' ↦ before i (ltb→lt i (32 * q) s')
        | inr s' ↦
            let b' : i / 32 ≡ q = ground (arith, s', l, j_l) in
            ap (λ t. matches name (s.disk (slot s.disk ip t)) (16 * (i % 32))) b'
            ∙ earlier (i % 32) (omega arith) (omega (arith, l, b'))
      ],
      ap (λ t. get_entry s (s.disk (slot s.disk ip q)) t o) there
          ∙ ap (get_entry s (s.disk (slot s.disk ip q)) (16 * (k - k % 32))) here
          ∙ ap (λ t. get_entry s (s.disk (slot s.disk ip t)) (16 * (k - k % 32)) (16 * (k % 32)))
              (sym b),
    )

lookup_loop-Searched :
    (fuel dp : ℕ) (name : Block) (s : State) (ip : Inode) (q off : ℕ)
    → get_elem? s.cache dp ≡ some ip
    → ip.size ≤ max_size
    → MappedTo s.disk ip ip.size
    → off ≡ 512 * q
    → ip.size + 512 ≤ fuel * 512 + off
    → off < ip.size + 512
    → ((i : ℕ) → i < 32 * q → matches_at s.disk ip name i ≡ false)
    → Searched s ip name (lookup_loop fuel ip.size dp name s off)
unfolding lookup_loop
lookup_loop-Searched zero dp name s ip q off e small mapped o enough l before =
    absurd (omega (arith, enough, l))
lookup_loop-Searched (suc fuel) dp name s ip q off e small mapped o enough l before =
    elim (Bool-cases (ltb off ip.size)) [
      | inl t ↦
          let l' = ltb→lt off ip.size t in
          let b : off / 512 ≡ q = omega (arith, o) in
          let found : bmap_at s dp (off / 512) ≡ ok (slot s.disk ip q, s) =
            ap (bmap_at s dp) b
            ∙ bmap_at_found s dp ip q e (omega (arith, l', small, o))
                (mapped q (omega (arith, l', o))) in
          rw (t, found)
            (in_block-Searched s ip name q off
              (lookup_loop fuel ip.size dp name s (off + block_size))
              (search_block 32 name (s.disk (slot s.disk ip q)) 0) o before
              (search_block-FirstEntry 32 name (s.disk (slot s.disk ip q)) 0 0 refl)
              (λ before'.
                lookup_loop-Searched fuel dp name s ip (suc q) (off + block_size) e small mapped
                  (omega (arith, o)) (omega (arith, enough)) (omega (arith, l')) before'))
      | inr t ↦ rw t (inl (refl, λ k k_l. before k (ground (arith, t, k_l, o))))
    ]

dirlookup-Searched :
    (s : State) (dp : ℕ) (ip : Inode) (name : Block)
    → get_elem? s.cache dp ≡ some ip
    → ip.type ≡ t_dir
    → ip.size ≤ max_size
    → MappedTo s.disk ip ip.size
    → Searched s ip name (dirlookup s dp name)
unfolding dirlookup
dirlookup-Searched s dp ip name e type small mapped =
    subst (Searched s ip name)
      (sym (
        at_found
          (λ (ip : Inode).
            if ip.type == t_dir then lookup_loop (ip.size / 512 + 2) ip.size dp name s 0 else panic)
          e))
      (rw (eq→== ip.type 1 type) (
        lookup_loop-Searched (ip.size / 512 + 2) dp name s ip 0 0 e small mapped refl (omega arith)
          (omega arith) (λ i l. absurd (omega (arith, l)))))

-- How `dirlookup` ends; the numbers of entries are read from the directory's bytes.
abbrev pub LookedUp : State → Inode → Block → Outcome Lookup → Type 0
LookedUp s ip name r =
    ((r ≡ ok (none, s)) × ((k : ℕ) → 16 * k < ip.size → ¬ (IsEntry s.disk ip name k)))
    ⊎ ((k : ℕ) × IsEntry s.disk ip name k
        × ((i : ℕ) → i < k → ¬ (IsEntry s.disk ip name i))
        × (r ≡ (
            iget (number_at s.disk ip k) s.cache >>= λ t.
            ok (some (t.0, 16 * k), record s { cache = t.1 }))))

-- In a directory of which every block below the size has an address, `dirlookup` either finds no entry
-- below the size that is in use and has the name, returns the null pointer and changes nothing, or it
-- finds the first entry of the directory's blocks that is in use and has the name: it returns the
-- inode that `iget` gives for the entry's number, and the entry's offset.
pub dirlookup-LookedUp :
    (s : State) (dp : ℕ) (ip : Inode) (name : Block)
    → get_elem? s.cache dp ≡ some ip
    → ip.type ≡ t_dir
    → ip.size ≤ max_size
    → MappedTo s.disk ip ip.size
    → LookedUp s ip name (dirlookup s dp name)
unfolding get_entry
dirlookup-LookedUp s dp ip name e type small mapped =
    elim (dirlookup-Searched s dp ip name e type small mapped) [
      | inl (r, none_at) ↦ inl (r, λ k l. no_entry k (none_at k l))
      | inr (k, m, before, r) ↦
          let number = number_at-get16 s.disk ip k in
          let offset : 16 * (k - k % 32) + 16 * (k % 32) ≡ 16 * k = omega arith in
          inr (
            k,
            matches-IsEntry s.disk ip name k m,
            λ i l. no_entry i (before i l),
            r
                ∙ ap
                    (λ o.
                      iget (get16 (s.disk (slot s.disk ip (k / 32))) (16 * (k % 32))) s.cache
                      >>= λ (t : ℕ × List Inode). ok (some (t.0, o), record s { cache = t.1 }))
                    offset
                ∙ ap
                    (λ n. iget n s.cache >>= λ (t : ℕ × List Inode).
                      ok (some (t.0, 16 * k), record s { cache = t.1 }))
                    (sym number),
          )
    ]
  where
    no_entry : (k : ℕ) → matches_at s.disk ip name k ≡ false → ¬ (IsEntry s.disk ip name k)
    no_entry k m h = let t = IsEntry-matches s.disk ip name k h in absurd (cc (m, t))
