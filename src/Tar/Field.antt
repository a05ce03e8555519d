-- ===== src/Tar/Field.antt =====
-- The fields of an archive's entry, written and read back.
use mathlib.Core.List.{append-nil}
use computer_organization_an.Common.{
  ℕ, zero, suc, ◌-◌, ◌/◌, ◌^◌, ◌≤◌, ◌<◌, ◌≡◌, ◌≢◌, refl, sym, ap, ◌∙◌, false, some, [], ◌∷◌, ◌++◌,
  arith, leb, ne→==, lt→ltb, All, length, length-append, length-replicate, take, drop, replicate,
}
use computer_organization_an.Tar.{
  Bytes, name_field, le_bytes, copied, string_in, fread, le_value, size_rounds, content_loop,
}

pub take-append : (xs ys : Bytes) → take (length xs) (xs ++ ys) ≡ xs
take-append [] ys = refl
take-append (x ∷ xs) ys = ap (λ t. x ∷ t) (take-append xs ys)

pub drop-append : (xs ys : Bytes) → drop (length xs) (xs ++ ys) ≡ ys
drop-append [] ys = refl
drop-append (x ∷ xs) ys = drop-append xs ys

drop_all : (n : ℕ) (xs : Bytes) → length xs ≤ n → drop n xs ≡ []
drop_all zero [] h = refl
drop_all zero (x ∷ xs) h = absurd (omega (arith, h))
drop_all (suc n) [] h = refl
drop_all (suc n) (x ∷ xs) h = drop_all n xs (omega (arith, h))

-- A read of as many bytes as the buffer has replaces them all.
pub fread_all :
    (n : ℕ) (old xs ys : Bytes) → length xs ≡ n → length old ≤ n → fread n old (xs ++ ys) ≡ xs
unfolding fread
fread_all n old xs ys e h =
    let front : take n (xs ++ ys) ≡ xs = ap (λ t. take t (xs ++ ys)) (sym e) ∙ take-append xs ys in
    rw (front, drop_all (length xs) old (omega (arith, e, h))) (append-nil xs)

pub string_in-append :
    (name rest : Bytes) → All (λ c. c ≢ 0) name → string_in (name ++ 0 ∷ rest) ≡ some name
unfolding string_in
string_in-append [] rest h = refl
string_in-append (c ∷ name) rest h = rw (ne→== c 0 h.0, string_in-append name rest h.1) refl

padded :
    (name : Bytes)
    → length name < 100
    → name_field name ≡ name ++ 0 ∷ replicate (99 - length name) 0
unfolding name_field
padded name h =
    let room : leb 100 (length name) ≡ false = ground (arith, h) in
    let pad : 100 - length name ≡ suc (99 - length name) = omega (arith, h) in rw (room, pad) refl

pub length-name_field : (name : Bytes) → length name < 100 → length (name_field name) ≡ 100
length-name_field name h =
    ap length (padded name h)
    ∙ length-append name (0 ∷ replicate (99 - length name) 0)
    ∙ omega (arith, h, length-replicate {A = ℕ} (99 - length name) 0)

pub string_in-name_field :
    (name : Bytes)
    → length name < 100
    → All (λ c. c ≢ 0) name
    → string_in (name_field name) ≡ some name
string_in-name_field name h nonzero =
    ap string_in (padded name h) ∙ string_in-append name (replicate (99 - length name) 0) nonzero

pub length-le_bytes : (k n : ℕ) → length (le_bytes k n) ≡ k
unfolding le_bytes
length-le_bytes zero n = refl
length-le_bytes (suc k) n = ap suc (length-le_bytes k (n / 256))

pub le_value-le_bytes : (n : ℕ) → n < 2 ^ 63 → size_rounds (le_value (le_bytes 8 n)) ≡ n
unfolding le_value le_bytes size_rounds
le_value-le_bytes n h =
    let e : le_value (le_bytes 8 n) ≡ n = omega (arith, h) in
    ap size_rounds e ∙ rw (lt→ltb n (2 ^ 63) h)

pub copied_all : (content : Bytes) → All (λ c. c ≢ 255) content → copied content ≡ content
unfolding copied
copied_all [] h = refl
copied_all (c ∷ content) h = rw (ne→== c 255 h.0) (ap (λ t. c ∷ t) (copied_all content h.1))

pub content_loop-append :
    (content rest : Bytes) → content_loop (length content) (content ++ rest) ≡ content
unfolding content_loop
content_loop-append [] rest = refl
content_loop-append (c ∷ content) rest = ap (λ t. c ∷ t) (content_loop-append content rest)
