-- ===== src/Fs/EmptyEntry.antt =====
-- The entry that `dirlink` takes.
use mathlib.Core.Path.{subst}
use computer_organization_an.Common.{
  ℕ, zero, suc, ◌+◌, ◌-◌, ◌*◌, ◌%◌, ◌≤◌, ◌<◌, ◌≡◌, ◌≢◌, sym, ap, ◌∙◌, inl, inr, Bool-cases, some,
  arith, ltb, ◌==◌, eq→==, ==_iff, get_elem?, set,
}
use computer_organization_an.Common.Outcome.{ok, ◌>>=◌}
use computer_organization_an.Fs.{Block}
use computer_organization_an.Fs.Inode.{Inode, get16}
use computer_organization_an.Fs.Content.{Read, readi}
use computer_organization_an.Fs.Reading.{content}
use computer_organization_an.Fs.Files.{FileOk, readi-Copied}
use computer_organization_an.Fs.Cache.{State}
use computer_organization_an.Fs.Dir.{Devices, readi_at, whole_entry, empty_loop}
use computer_organization_an.Fs.Slots.{at_found}
use computer_organization_an.Fs.Entry.{number_at}
use computer_organization_an.Fs.Lookup.{set_same}

readi_at-Copied :
    (v : Devices) (s : State) (dp : ℕ) (ip : Inode) (off : ℕ)
    → get_elem? s.cache dp ≡ some ip
    → FileOk s.disk ip
    → off + 16 ≤ ip.size
    → (blk : Block) × (readi_at v s dp off 16 ≡ ok (some 16, blk, s))
      × ((i : ℕ) → i < 16 → blk i ≡ content s.disk ip (off + i))
unfolding readi_at
readi_at-Copied v s dp ip off e f l =
    let (blk, r, c) = readi-Copied v.devread s.disk ip (λ o. 0) off 16 f l in
    (
      blk,
      at_found
            (λ (ip : Inode). readi v.devread s.disk ip (λ o. 0) off 16 >>= λ (r : Read).
              ok (r.result, r.memory, record { disk = r.disk; cache = set s.cache dp r.inode }))
            e
          ∙ ap
              (λ o. o >>= λ (r : Read).
                ok (r.result, r.memory, record { disk = r.disk; cache = set s.cache dp r.inode }))
              r
          ∙ ap (λ c. ok (some 16, blk, record { disk = s.disk; cache = c }))
              (set_same s.cache dp ip e),
      λ i m.
          let same : off + (i - 0) ≡ off + i = omega arith in
          c.inside i (omega arith) m ∙ ap (content s.disk ip) same,
    )

-- The first entry from `k` on that is not in use, or the end of the directory.
pub record FirstEmpty (s : State) (ip : Inode) (k j : ℕ) : Type 0 where
  pub from : k ≤ j
  pub inside : 16 * j ≤ ip.size
  pub unused : 16 * j < ip.size → number_at s.disk ip j ≡ 0
  pub used : (i : ℕ) → k ≤ i → i < j → number_at s.disk ip i ≢ 0

pub empty_loop-FirstEmpty :
    (fuel : ℕ) (v : Devices) (dp : ℕ) (s : State) (ip : Inode) (k off : ℕ)
    → get_elem? s.cache dp ≡ some ip
    → FileOk s.disk ip
    → ip.size % 16 ≡ 0
    → off ≡ 16 * k
    → off ≤ ip.size
    → ip.size < fuel * 16 + off
    → (j : ℕ) × (empty_loop fuel v ip.size dp s off ≡ ok (16 * j, s)) × FirstEmpty s ip k j
unfolding empty_loop whole_entry get16
empty_loop-FirstEmpty zero v dp s ip k off e f whole o l enough = absurd (omega (arith, l, enough))
empty_loop-FirstEmpty (suc fuel) v dp s ip k off e f whole o l enough =
    elim (Bool-cases (ltb off ip.size)) [
      | inr t ↦ (
        k,
        rw t (ap (λ t. ok (t, s)) o),
        record {
          from = omega arith;
          inside = omega (arith, o, l);
          unused = λ m. absurd (ground (arith, m, t, o));
          used = λ i p q. absurd (omega (arith, p, q));
        },
      )
      | inl t ↦
          let room : off + 16 ≤ ip.size = ground (arith, t, whole, o) in
          let (blk, r, c) = readi_at-Copied v s dp ip off e f room in
          let first : off + 0 ≡ 16 * k = omega (arith, o) in
          let second : off + 1 ≡ 16 * k + 1 = omega (arith, o) in
          let b0 = c 0 (omega arith) ∙ ap (content s.disk ip) first in
          let b1 = c 1 (omega arith) ∙ ap (content s.disk ip) second in
          let word : blk 0 + 256 * blk 1 ≡ number_at s.disk ip k =
            ap (λ t. t + 256 * blk 1) b0 ∙ ap (λ t. content s.disk ip (16 * k) + 256 * t) b1 in
          elim (Bool-cases (blk 0 + 256 * blk 1 == 0)) [
            | inl z ↦
                let none = (==_iff (blk 0 + 256 * blk 1) 0).0 z in
                (
                  k,
                  rw (t, r, z) (ap (λ t. ok (t, s)) o),
                  record {
                    from = omega arith;
                    inside = omega (arith, o, l);
                    unused = λ m. sym word ∙ none;
                    used = λ i p q. absurd (omega (arith, p, q));
                  },
                )
            | inr z ↦
                let now : number_at s.disk ip k ≢ 0 =
                  λ n. absurd (cc (eq→== (blk 0 + 256 * blk 1) 0 (word ∙ n), z)) in
                let (j, r', h) =
                  empty_loop-FirstEmpty fuel v dp s ip (suc k) (off + 16) e f whole
                    (omega (arith, o)) room (omega (arith, enough)) in
                let j_l = h.from in
                (
                  j,
                  rw (t, r, z) r',
                  record {
                    from = omega (arith, j_l);
                    inside = h.inside;
                    unused = h.unused;
                    used = λ i p q. elim (Bool-cases (i == k)) [
                      | inl s' ↦
                          subst (λ x. number_at s.disk ip x ≢ 0) (sym ((==_iff i k).0 s')) now
                      | inr s' ↦ h.used i (ground (arith, p, s')) q
                    ];
                  },
                )
          ]
    ]
