-- ===== src/Fs/WriteLoop.antt =====
-- The loop of `writei`.
use mathlib.Core.Path.{subst}
use computer_organization_an.Common.{
  ℕ, zero, suc, ◌+◌, ◌-◌, ◌*◌, ◌/◌, ◌%◌, ◌≤◌, ◌<◌, ◌≡◌, ◌⊎◌, refl, sym, ap, ◌∙◌, inl, inr,
  Bool-cases, arith, ltb, ltb→lt,
}
use computer_organization_an.Common.Outcome.{Outcome, ok}
use computer_organization_an.Fs.{Block, Disk, block_size, bwrite}
use computer_organization_an.Fs.Bitmap.{Bytes}
use computer_organization_an.Fs.Valid.{DiskOk, Room}
use computer_organization_an.Fs.Inode.{Inode}
use computer_organization_an.Fs.Content.{copy, max_size, Written, round_size, grown, writei_loop}
use computer_organization_an.Fs.Mapping.{max_blocks, InodeOk}
use computer_organization_an.Fs.Indirect.{bmap-Bmapped}
use computer_organization_an.Fs.Reading.{round_size_lem, round_size_cases}
use computer_organization_an.Fs.Writing.{Wrote, Wrote-none, Wrote-trans, Wrote-round}

-- The rounds for `len` bytes from `off` on.
abbrev pub rounds : ℕ → ℕ → ℕ
rounds off zero = 0
rounds off (suc len) = (off % 512 + len) / 512 + 1

rounds_step :
    (off len m : ℕ)
    → 0 < m
    → m ≤ len
    → off % 512 + m ≤ 512
    → (m ≡ len) ⊎ (off % 512 + m ≡ 512)
    → suc (rounds (off + m) (len - m)) ≤ rounds off len
rounds_step off zero m p l b c = absurd (omega (arith, p, l))
rounds_step off (suc len) m p l b c = go (suc len - m) refl
  where
    go : (k : ℕ) → k ≡ suc len - m → suc (rounds (off + m) k) ≤ rounds off (suc len)
    go zero e = omega arith
    go (suc k) e = elim c [ inl q ↦ absurd (omega (arith, e, q)) | inr q ↦ omega (arith, e, q, l) ]

two_more : (a b : ℕ) → suc a ≤ b → 2 + 2 * a ≤ 2 * b
two_more a b l = omega (arith, l)

-- A round and the rest of the loop.
Wrote-next :
    (src : Block) (d : Disk) (ip : Inode) (off tot m n : ℕ) (d1 : Disk) (ip1 : Inode) (d' : Disk)
    (ip' : Inode) (r : Outcome Written)
    → 0 < m
    → tot + m ≤ n
    → off + (n - tot) ≤ max_size
    → Wrote src d ip off tot m d1 ip1
    → r ≡ ok (grown n (off + m + (n - (tot + m))) d' ip')
    → Wrote src d1 ip1 (off + m) (tot + m) (n - (tot + m)) d' ip'
    → (r ≡ ok (grown n (off + (n - tot)) d' ip')) × Wrote src d ip off tot (n - tot) d' ip'
Wrote-next src d ip off tot m n d1 ip1 d' ip' r m_pos m_l most a e c =
    let end : off + m + (n - (tot + m)) ≡ off + (n - tot) = omega (arith, m_l) in
    let whole : m + (n - (tot + m)) ≡ n - tot = omega (arith, m_l) in
    (
      e ∙ ap (λ t. ok (grown n t d' ip')) end,
      subst (λ t. Wrote src d ip off tot t d' ip') whole
          (Wrote-trans src d ip off tot m (n - (tot + m)) d1 ip1 d' ip' (omega (arith, most, end))
            m_pos a c),
    )

-- The loop of `writei`, with two free blocks for every round.
writei_loop-Wrote :
    (fuel n tot off : ℕ) (src : Block) (d : Disk) (ip : Inode)
    → Bytes src
    → n < fuel + tot
    → tot ≤ n
    → off + (n - tot) ≤ max_size
    → DiskOk d
    → InodeOk d ip
    → Room d (2 * rounds off (n - tot))
    → (d' : Disk) × (ip' : Inode) × (writei_loop fuel n tot off src d ip
        ≡ ok (grown n (off + (n - tot)) d' ip'))
      × Wrote src d ip off tot (n - tot) d' ip'
unfolding writei_loop
writei_loop-Wrote zero n tot off src d ip bytes fuel l most v w room =
    absurd (omega (arith, fuel, l))
writei_loop-Wrote (suc f) n tot off src d ip bytes fuel l most v w room =
    elim (Bool-cases (ltb tot n)) [
      | inl s ↦
          let m : ℕ = round_size n tot off in
          let (m_pos, m_l, m_b) = round_size_lem n tot off (ltb→lt tot n s) in
          let bn_l : off / block_size < max_blocks = omega (arith, most, m_l, m_pos) in
          let enough : 2 + 2 * rounds (off + m) (n - tot - m) ≤ 2 * rounds off (n - tot) =
            two_more (rounds (off + m) (n - tot - m)) (rounds off (n - tot)) (
              rounds_step off (n - tot) m m_pos (omega (arith, m_l)) m_b
                (round_size_cases n tot off (ltb→lt tot n s))) in
          let (r, e, b, room1) =
            bmap-Bmapped d ip (off / block_size) (2 * rounds (off + m) (n - tot - m)) v w bn_l
              (omega (arith, enough, room)) in
          let (a, rooms) = Wrote-round src d ip off tot m r bytes w bn_l m_b b in
          let left : n - (tot + m) ≡ n - tot - m = omega arith in
          let (d', ip', e', c) =
            writei_loop-Wrote f n (tot + m) (off + m) src
              (bwrite r.disk r.addr (copy (r.disk r.addr) (off % block_size) src tot m)) r.inode
              bytes (omega (arith, fuel, m_pos)) m_l (omega (arith, most, m_l)) a.sound a.inode
              (subst
                (λ t.
                  Room (bwrite r.disk r.addr (copy (r.disk r.addr) (off % block_size) src tot m))
                    (2 * rounds (off + m) t))
                (sym left) (rooms (2 * rounds (off + m) (n - tot - m)) room1)) in
          let (e'', c') =
            Wrote-next src d ip off tot m n
              (bwrite r.disk r.addr (copy (r.disk r.addr) (off % block_size) src tot m)) r.inode d'
              ip'
              (writei_loop f n (tot + m) (off + m) src
                (bwrite r.disk r.addr (copy (r.disk r.addr) (off % block_size) src tot m)) r.inode)
              m_pos m_l most a e' c in
          (d', ip', rw (s, e) e'', c')
      | inr s ↦
          let full : n ≡ tot = ground (arith, s, l) in
          let none_left : n - tot ≡ 0 = omega (arith, full) in
          (
            d,
            ip,
            rw s (ap (λ t. ok (grown n t d ip)) (omega (arith, none_left))),
            subst (λ t. Wrote src d ip off tot t d ip) (sym none_left)
                (Wrote-none src d ip off tot v w),
          )
    ]

-- All of the bytes.
pub writei_loop_all :
    (n off : ℕ) (src : Block) (d : Disk) (ip : Inode)
    → Bytes src
    → off + n ≤ max_size
    → DiskOk d
    → InodeOk d ip
    → Room d (2 * rounds off n)
    → (d' : Disk) × (ip' : Inode) × (writei_loop (suc n) n 0 off src d ip
        ≡ ok (grown n (off + n) d' ip'))
      × Wrote src d ip off 0 n d' ip'
writei_loop_all n off src d ip bytes most v w room =
    let whole : n - 0 ≡ n = omega arith in
    subst
      (λ t.
        (d' : Disk) × (ip' : Inode) × (writei_loop (suc n) n 0 off src d ip
          ≡ ok (grown n (off + t) d' ip'))
        × Wrote src d ip off 0 t d' ip')
      whole
      (writei_loop-Wrote (suc n) n 0 off src d ip bytes (omega arith) (omega arith)
        (omega (arith, most)) v w (subst (λ t. Room d (2 * rounds off t)) (sym whole) room))
