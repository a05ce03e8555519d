-- ===== src/Fs/Link.antt =====
-- The entry that `dirlink` adds to a directory.
use computer_organization_an.Common.{
  ℕ, ◌+◌, ◌-◌, ◌*◌, ◌/◌, ◌%◌, ◌≤◌, ◌<◌, ◌≡◌, ◌≢◌, ◌⊎◌, zero, suc, refl, sym, ap, ◌∙◌, inl, inr,
  true, Bool-cases, Option, none, some, arith, ltb, ltb→lt, ◌==◌, eq→==, ne→==, ==_iff, false,
  if◌then◌else◌, get_elem?, set,
}
use computer_organization_an.Common.Outcome.{ok, panic, ◌>>=◌}
use computer_organization_an.Fs.{Block}
use computer_organization_an.Fs.Bitmap.{Bytes}
use computer_organization_an.Fs.Valid.{Room}
use computer_organization_an.Fs.Inode.{Inode}
use computer_organization_an.Fs.Content.{max_size, Written, writei}
use computer_organization_an.Fs.Reading.{content}
use computer_organization_an.Fs.Files.{FileOk, writei-WrittenOk}
use computer_organization_an.Fs.Cache.{State}
use computer_organization_an.Fs.Dir.{
  Devices, ended, new_entry, writei_at, whole_entry, put_entry, link_new, link_unless, dirlookup,
  dirlink,
}
use computer_organization_an.Fs.Slots.{at_found}
use computer_organization_an.Fs.Entry.{number_at}
use computer_organization_an.Fs.EmptyEntry.{FirstEmpty, empty_loop-FirstEmpty}

new_entry-Bytes : (name : Block) (inum : ℕ) → Bytes name → Bytes (new_entry name inum)
unfolding new_entry
new_entry-Bytes name inum h o = elim (Bool-cases (o == 0)) [
  | inl s ↦ rw s (omega arith)
  | inr s ↦ elim (Bool-cases (o == 1)) [
    | inl t ↦ rw (s, t) (omega arith)
    | inr t ↦ elim (Bool-cases (ended (o - 2) name)) [
      | inl u ↦ rw (s, t, u) (omega arith)
      | inr u ↦ rw (s, t, u) (h (o - 2))
    ]
  ]
]

new_entry_number :
    (name : Block) (inum : ℕ) → new_entry name inum 0 + 256 * new_entry name inum 1 ≡ inum % 65536
unfolding new_entry
new_entry_number name inum = omega arith

-- A zero byte stands in front.
ended-false : (i : ℕ) (name : Block) → ((j : ℕ) → j < i → name j ≢ 0) → ended i name ≡ false
unfolding ended
ended-false zero name h = refl
ended-false (suc i) name h =
    rw (ne→== (name i) 0 (h i (omega arith)), ended-false i name (λ j l. h j (omega (arith, l))))
      refl

ended-true : (i j : ℕ) (name : Block) → j < i → name j ≡ 0 → ended i name ≡ true
unfolding ended
ended-true zero j name l z = absurd (omega (arith, l))
ended-true (suc i) j name l z = elim (Bool-cases (j == i)) [
  | inl s ↦ rw (eq→== (name i) 0 (ap name (sym ((==_iff j i).0 s)) ∙ z)) refl
  | inr s ↦ let e = ended-true i j name (ground (arith, l, s)) z in ground (arith, e)
]

-- Byte `i` of the name in an entry.
new_entry_byte :
    (name : Block) (inum i : ℕ) → new_entry name inum (2 + i) ≡ (if ended i name then 0 else name i)
unfolding new_entry
new_entry_byte name inum i =
    let s : (2 + i == 0) ≡ false = ground arith in
    let t : (2 + i == 1) ≡ false = ground arith in
    let back : 2 + i - 2 ≡ i = omega arith in
    rw (s, t) (ap (λ x. if ended x name then 0 else name x) back)

new_entry_name :
    (name : Block) (inum i : ℕ)
    → ((j : ℕ) → j < i → name j ≢ 0)
    → new_entry name inum (2 + i) ≡ name i
new_entry_name name inum i h = new_entry_byte name inum i ∙ rw (ended-false i name h) refl

new_entry_padding :
    (name : Block) (inum i j : ℕ) → j ≤ i → name j ≡ 0 → new_entry name inum (2 + i) ≡ 0
new_entry_padding name inum i j l z = new_entry_byte name inum i ∙ elim (Bool-cases (j == i)) [
  | inr s ↦ rw (ended-true i j name (ground (arith, l, s)) z) refl
  | inl s ↦
      let here : name i ≡ 0 = ap name (sym ((==_iff j i).0 s)) ∙ z in
      elim (Bool-cases (ended i name)) [ inl t ↦ rw t refl | inr t ↦ rw (t, here) refl ]
]

-- The state behind `dirlink`, which put the entry at index `k`.
pub record Linked (s : State) (dp : ℕ) (ip : Inode) (name : Block) (inum k : ℕ) (s' : State)
    (ip' : Inode) : Type 0 where
  pub in_cache : s'.cache ≡ set s.cache dp ip'
  pub file : FileOk s'.disk ip'
  pub place : FirstEmpty s ip 0 k
  pub size : ip'.size ≡ (if ltb ip.size (16 * k + 16) then 16 * k + 16 else ip.size)
  pub number : number_at s'.disk ip' k ≡ inum % 65536
  pub name_bytes :
      (i : ℕ)
      → i < 14
      → ((j : ℕ) → j < i → name j ≢ 0)
      → content s'.disk ip' (16 * k + 2 + i) ≡ name i
  pub padding : (i j : ℕ) → i < 14 → j ≤ i → name j ≡ 0 → content s'.disk ip' (16 * k + 2 + i) ≡ 0
  pub others :
      (i o : ℕ)
      → i ≢ k
      → o < 16
      → 16 * i + o < ip.size
      → content s'.disk ip' (16 * i + o) ≡ content s.disk ip (16 * i + o)

put_entry-Linked :
    (v : Devices) (s : State) (dp : ℕ) (ip : Inode) (name : Block) (inum k : ℕ)
    → get_elem? s.cache dp ≡ some ip
    → FileOk s.disk ip
    → Bytes name
    → 16 * k + 16 ≤ max_size
    → Room s.disk 2
    → FirstEmpty s ip 0 k
    → (s' : State) × (ip' : Inode) × (put_entry v s dp name inum (16 * k) ≡ ok (true, s'))
      × Linked s dp ip name inum k s' ip'
unfolding put_entry writei_at whole_entry
put_entry-Linked v s dp ip name inum k e f h most room first =
    let inside = first.inside in
    let (d', ip', r, f', size, new, old) =
      writei-WrittenOk v.devwrite s.disk ip (new_entry name inum) (16 * k) 16 f
        (new_entry-Bytes name inum h) inside most (omega (arith, room)) in
    let found : writei_at v s dp (new_entry name inum) (16 * k) 16
        ≡ ok (some 16, record { disk = d'; cache = set s.cache dp ip' }) =
      at_found
        (λ (ip : Inode).
          writei v.devwrite s.disk ip (new_entry name inum) (16 * k) 16 >>= λ (r : Written).
          ok (r.result, record { disk = r.disk; cache = set s.cache dp r.inode }))
        e
      ∙ ap
          (λ o. o >>= λ (r : Written).
            ok (r.result, record { disk = r.disk; cache = set s.cache dp r.inode }))
          r in
    let byte : (o : ℕ) → o < 16 → content d' ip' (16 * k + o) ≡ new_entry name inum o = λ o l.
      let back : 16 * k + o - 16 * k ≡ o = omega arith in
      new (16 * k + o) (omega arith) (omega (arith, l)) ∙ ap (new_entry name inum) back in
    let at_name : (i : ℕ) → i < 14 → content d' ip' (16 * k + 2 + i) ≡ new_entry name inum (2 + i) =
      λ i l.
        let from : 16 * k + 2 + i ≡ 16 * k + (2 + i) = omega arith in
        ap (content d' ip') from ∙ byte (2 + i) (omega (arith, l)) in
    (
      record { disk = d'; cache = set s.cache dp ip' },
      ip',
      ap (λ o. o >>= λ (r : Option ℕ × State). if whole_entry r.0 then ok (true, r.1) else panic)
          found,
      record {
        in_cache = refl;
        file = f';
        place = first;
        size = size;
        number =
            let first : 16 * k ≡ 16 * k + 0 = omega arith in
            ap (λ t. content d' ip' t + 256 * content d' ip' (16 * k + 1)) first
            ∙ ap (λ t. t + 256 * content d' ip' (16 * k + 1)) (byte 0 (omega arith))
            ∙ ap (λ t. new_entry name inum 0 + 256 * t) (byte 1 (omega arith))
            ∙ new_entry_number name inum;
        name_bytes = λ i l before. at_name i l ∙ new_entry_name name inum i before;
        padding = λ i j l j_l z. at_name i l ∙ new_entry_padding name inum i j j_l z;
        others = λ i o n l m. old (16 * i + o) m (apart i o n l);
      },
    )
  where
    apart : (i o : ℕ) → i ≢ k → o < 16 → (16 * i + o < 16 * k) ⊎ (16 * k + 16 ≤ 16 * i + o)
    apart i o n l = elim (Bool-cases (ltb i k)) [
      | inl t ↦ inl (let m = ltb→lt i k t in omega (arith, m, l))
      | inr t ↦ elim (Bool-cases (i == k)) [
        | inl u ↦ absurd (n ((==_iff i k).0 u))
        | inr u ↦ inr (ground (arith, t, u))
      ]
    ]

-- `dirlink` of a name that `dirlookup` does not find, to a sound directory of whole entries that has
-- not the largest size, with two free blocks on the disk: it returns 0, and has put the number and
-- the name, padded with zero bytes, into the first entry that is not in use, or behind the last one if all are in use; the
-- other entries are as they were, and the directory and the disk are sound.
pub dirlink-Linked :
    (v : Devices) (s : State) (dp : ℕ) (ip : Inode) (name : Block) (inum : ℕ)
    → get_elem? s.cache dp ≡ some ip
    → FileOk s.disk ip
    → ip.size % 16 ≡ 0
    → ip.size < max_size
    → Bytes name
    → Room s.disk 2
    → dirlookup s dp name ≡ ok (none, s)
    → (k : ℕ) × (s' : State) × (ip' : Inode) × (dirlink v s dp name inum ≡ ok (true, s'))
      × Linked s dp ip name inum k s' ip'
unfolding dirlink link_unless link_new
dirlink-Linked v s dp ip name inum e f whole small h room absent =
    let (k, r, first) =
      empty_loop-FirstEmpty (ip.size / 16 + 2) v dp s ip 0 0 e f whole refl (omega arith)
        (omega arith) in
    let inside = first.inside in
    let (s', ip', r', linked) =
      put_entry-Linked v s dp ip name inum k e f h (omega (arith, inside, whole, small)) room
        first in
    (
      k,
      s',
      ip',
      ap (λ o. o >>= link_unless v dp name inum) absent
          ∙ at_found (link_new v s dp name inum) e
          ∙ ap (λ o. o >>= λ (r : ℕ × State). put_entry v r.1 dp name inum r.0) r
          ∙ r',
      linked,
    )
