-- ===== src/Fsck/Blocks/Scan.antt =====
-- What a successful scan of an inode's addresses has claimed.
use mathlib.Core.Path.{subst}
use computer_organization_an.Common.{
  ℕ, suc, ◌+◌, ◌≡◌, refl, sym, ap, ◌∙◌, Bool, true, false, not, inl, inr, Bool-cases, some, List,
  [], ◌∷◌, ◌++◌, arith, ◌==◌, All, All-append, length, length-append, get_elem?, set,
}
use computer_organization_an.Fsck.Image.{Image, Superblock, this_bit}
use computer_organization_an.Fsck.Check.{
  ok, >>=-eq-ok, err_if-eq-ok, claim, bad_direct, bad_indirect, marked_free, direct_twice,
  indirect_twice,
}
use computer_organization_an.Fsck.Blocks.{
  Blocks, outside, direct_check, direct_loop, indirect_block, indirect_check, indirect_loop,
}
use computer_organization_an.Fsck.Blocks.Claims.{
  nonzero, mark, Fresh, mark-append, Fresh-append, claim-eq-ok,
}

-- An address that passes the tests of range and bit.
abbrev pub InData : Image → Superblock → ℕ → Type 0
InData img sb a = (outside sb a ≡ false) × (this_bit img a ≡ true)

-- From `b` to `b'` the direct addresses `dx` and the indirect ones `ix` have been claimed, and `dx`
-- and `gx` have been tested.
pub record Scanned (img : Image) (sb : Superblock) (dx ix gx : List ℕ) (b b' : Blocks)
    : Type 0 where
  pub direct_fresh : Fresh b.direct dx
  pub direct_marks : b'.direct ≡ mark dx b.direct
  pub indirect_fresh : Fresh b.indirect ix
  pub indirect_marks : b'.indirect ≡ mark ix b.indirect
  pub direct_good : All (InData img sb) dx
  pub indirect_good : All (InData img sb) gx
  pub count : b'.count ≡ b.count + (length dx + length ix)

pub Scanned-none : (img : Image) (sb : Superblock) (b : Blocks) → Scanned img sb [] [] [] b b
Scanned-none img sb b = record {
  direct_fresh = tt;
  direct_marks = refl;
  indirect_fresh = tt;
  indirect_marks = refl;
  direct_good = tt;
  indirect_good = tt;
  count = omega arith;
}

pub Scanned-trans :
    (img : Image) (sb : Superblock) (dx ix gx dy iy gy : List ℕ) (b b' b'' : Blocks)
    → Scanned img sb dx ix gx b b'
    → Scanned img sb dy iy gy b' b''
    → Scanned img sb (dx ++ dy) (ix ++ iy) (gx ++ gy) b b''
Scanned-trans img sb dx ix gx dy iy gy b b' b'' s t = record {
  direct_fresh =
      Fresh-append dx dy b.direct s.direct_fresh
        (subst (λ arr. Fresh arr dy) s.direct_marks t.direct_fresh);
  direct_marks = t.direct_marks ∙ ap (mark dy) s.direct_marks ∙ sym (mark-append dx dy b.direct);
  indirect_fresh =
      Fresh-append ix iy b.indirect s.indirect_fresh
        (subst (λ arr. Fresh arr iy) s.indirect_marks t.indirect_fresh);
  indirect_marks =
      t.indirect_marks ∙ ap (mark iy) s.indirect_marks ∙ sym (mark-append ix iy b.indirect);
  direct_good = All-append (InData img sb) dx dy s.direct_good t.direct_good;
  indirect_good = All-append (InData img sb) gx gy s.indirect_good t.indirect_good;
  count = omega (arith, s.count, t.count, length-append dx dy, length-append ix iy);
}

pub nonzero-cons : (a : ℕ) (as' : List ℕ) → nonzero (a ∷ as') ≡ nonzero (a ∷ []) ++ nonzero as'
nonzero-cons a as' = elim (Bool-cases (a == 0)) [ inl e ↦ rw e | inr e ↦ rw e ]

not-false : (b : Bool) → not b ≡ false → b ≡ true
not-false true e = refl
not-false false e = sym e

one_direct :
    (img : Image) (sb : Superblock) (a : ℕ) (b : Blocks) (marks : List ℕ)
    → InData img sb a
    → get_elem? b.direct a ≡ some 0
    → marks ≡ set b.direct a 1
    → Scanned img sb (a ∷ []) [] [] b (record b { direct = marks; count = suc b.count })
one_direct img sb a b marks good free marked = record {
  direct_fresh = (free, tt);
  direct_marks = marked;
  indirect_fresh = tt;
  indirect_marks = refl;
  direct_good = (good, tt);
  indirect_good = tt;
  count = omega arith;
}

one_indirect :
    (img : Image) (sb : Superblock) (a : ℕ) (b : Blocks) (marks : List ℕ)
    → InData img sb a
    → get_elem? b.indirect a ≡ some 0
    → marks ≡ set b.indirect a 1
    → Scanned img sb [] (a ∷ []) (a ∷ []) b (record b { indirect = marks; count = suc b.count })
one_indirect img sb a b marks good free marked = record {
  direct_fresh = tt;
  direct_marks = refl;
  indirect_fresh = (free, tt);
  indirect_marks = marked;
  direct_good = tt;
  indirect_good = (good, tt);
  count = omega arith;
}

direct_check-Scanned :
    (img : Image) (sb : Superblock) (a : ℕ) (b : Blocks) (used : ℕ) (r : Blocks × ℕ)
    → direct_check img sb a b used ≡ ok r
    → Scanned img sb (nonzero (a ∷ [])) [] [] b r.0
unfolding direct_check
direct_check-Scanned img sb a b used r e = elim (Bool-cases (a == 0)) [
  | inl z ↦
      let same : ok (b, used) ≡ ok r = rw z at e in
      let b_r : b ≡ r.0 = cc same in
      rw z (subst (λ t. Scanned img sb [] [] [] b t) b_r (Scanned-none img sb b))
  | inr z ↦
      let (inside, e1) = err_if-eq-ok (outside sb a) bad_direct _ (rw z at e) in
      let (bit, e2) = err_if-eq-ok (not (this_bit img a)) marked_free _ e1 in
      let (marks, c, e3) = >>=-eq-ok (claim b.direct a direct_twice) _ e2 in
      let (free, marked) = claim-eq-ok b.direct a direct_twice marks c in
      let b_r : record b { direct = marks; count = suc b.count } ≡ r.0 = cc e3 in
      rw z (
        subst (λ t. Scanned img sb (a ∷ []) [] [] b t) b_r
          (one_direct img sb a b marks (inside, not-false (this_bit img a) bit) free marked))
]

indirect_check-Scanned :
    (img : Image) (sb : Superblock) (a : ℕ) (b : Blocks) (used : ℕ) (r : Blocks × ℕ)
    → indirect_check img sb a b used ≡ ok r
    → Scanned img sb [] (nonzero (a ∷ [])) (nonzero (a ∷ [])) b r.0
unfolding indirect_check
indirect_check-Scanned img sb a b used r e = elim (Bool-cases (a == 0)) [
  | inl z ↦
      let same : ok (b, used) ≡ ok r = rw z at e in
      let b_r : b ≡ r.0 = cc same in
      rw z (subst (λ t. Scanned img sb [] [] [] b t) b_r (Scanned-none img sb b))
  | inr z ↦
      let (inside, e1) = err_if-eq-ok (outside sb a) bad_indirect _ (rw z at e) in
      let (bit, e2) = err_if-eq-ok (not (this_bit img a)) marked_free _ e1 in
      let (marks, c, e3) = >>=-eq-ok (claim b.indirect a indirect_twice) _ e2 in
      let (free, marked) = claim-eq-ok b.indirect a indirect_twice marks c in
      let b_r : record b { indirect = marks; count = suc b.count } ≡ r.0 = cc e3 in
      rw z (
        subst (λ t. Scanned img sb [] (a ∷ []) (a ∷ []) b t) b_r
          (one_indirect img sb a b marks (inside, not-false (this_bit img a) bit) free marked))
]

pub direct_loop-Scanned :
    (img : Image) (sb : Superblock) (addrs : List ℕ) (b : Blocks) (used : ℕ) (r : Blocks × ℕ)
    → direct_loop img sb addrs b used ≡ ok r
    → Scanned img sb (nonzero addrs) [] [] b r.0
unfolding direct_loop
direct_loop-Scanned img sb [] b used r e =
    let b_r : b ≡ r.0 = cc e in subst (λ t. Scanned img sb [] [] [] b t) b_r (Scanned-none img sb b)
direct_loop-Scanned img sb (a ∷ addrs) b used r e =
    let (m, first, rest) = >>=-eq-ok (direct_check img sb a b used) _ e in
    rw (nonzero-cons a addrs) (
      Scanned-trans img sb _ [] [] _ [] [] b m.0 r.0 (direct_check-Scanned img sb a b used m first)
        (direct_loop-Scanned img sb addrs m.0 m.1 r rest))

pub indirect_loop-Scanned :
    (img : Image) (sb : Superblock) (addrs : List ℕ) (b : Blocks) (used : ℕ) (r : Blocks × ℕ)
    → indirect_loop img sb addrs b used ≡ ok r
    → Scanned img sb [] (nonzero addrs) (nonzero addrs) b r.0
unfolding indirect_loop
indirect_loop-Scanned img sb [] b used r e =
    let b_r : b ≡ r.0 = cc e in subst (λ t. Scanned img sb [] [] [] b t) b_r (Scanned-none img sb b)
indirect_loop-Scanned img sb (a ∷ addrs) b used r e =
    let (m, first, rest) = >>=-eq-ok (indirect_check img sb a b used) _ e in
    rw (nonzero-cons a addrs) (
      Scanned-trans img sb [] _ _ [] _ _ b m.0 r.0 (indirect_check-Scanned img sb a b used m first)
        (indirect_loop-Scanned img sb addrs m.0 m.1 r rest))

-- The block of indirect addresses is claimed, and not tested.
pub indirect_block-Scanned :
    (img : Image) (sb : Superblock) (a : ℕ) (b b' : Blocks)
    → indirect_block a b ≡ ok b'
    → Scanned img sb [] (nonzero (a ∷ [])) [] b b'
unfolding indirect_block
indirect_block-Scanned img sb a b b' e = elim (Bool-cases (a == 0)) [
  | inl z ↦
      let same : ok b ≡ ok b' = rw z at e in
      let b_r : b ≡ b' = cc same in
      rw z (subst (λ t. Scanned img sb [] [] [] b t) b_r (Scanned-none img sb b))
  | inr z ↦
      let (marks, c, e') = >>=-eq-ok (claim b.indirect a indirect_twice) _ (rw z at e) in
      let (free, marked) = claim-eq-ok b.indirect a indirect_twice marks c in
      let b_r : record b { indirect = marks; count = suc b.count } ≡ b' = cc e' in
      rw z (
        subst (λ t. Scanned img sb [] (a ∷ []) [] b t) b_r
          (record {
            direct_fresh = tt;
            direct_marks = refl;
            indirect_fresh = (free, tt);
            indirect_marks = marked;
            direct_good = tt;
            indirect_good = tt;
            count = omega arith;
          }))
]
