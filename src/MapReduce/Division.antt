-- ===== src/MapReduce/Division.antt =====
-- How the work is divided: partitions of keys, tasks to wrappers, files to mappers.
use mathlib.Core.Path.{subst}
use Prim.Native.Nat.{min}
use native.Mathlib.Nat.{mod-lt, div-add-mod, mod-eq-sub-mod, mod-eq_of_lt, zero-mod}
use computer_organization_an.Common.{
  ◌==◌, ◌&&◌, leb, ℕ, zero, suc, ◌+◌, ◌-◌, ◌*◌, ◌/◌, ◌%◌, ◌≤◌, ◌<◌, ◌≡◌, ◌≢◌, refl, sym, ap, ◌∙◌,
  inl, inr, Bool, true, false, some, List, [], ◌∷◌, arith, ltb, if◌then◌else◌, Bool-cases, eq→==,
  lt→ltb,
}
use computer_organization_an.Common.Outcome.{ok}
use computer_organization_an.MapReduce.{
  Str, hash_loop, default_hash_partition, division_loop, task_division, mapper_loop,
}

abbrev pub sum : List ℕ → ℕ
sum [] = 0
sum (x ∷ xs) = x + sum xs

division_loop-sum :
    (n i num_wrapper file_num q r : ℕ)
    → file_num / num_wrapper ≡ q
    → file_num % num_wrapper ≡ r
    → sum (division_loop n i num_wrapper file_num) + min i r ≡ n * q + min (i + n) r
unfolding division_loop
division_loop-sum zero i num_wrapper file_num q r hq hr = omega arith
division_loop-sum (suc n) i num_wrapper file_num q r hq hr =
    let more = division_loop-sum n (suc i) num_wrapper file_num q r hq hr in
    elim (Bool-cases (ltb i (file_num % num_wrapper))) [
      | inl e ↦ let l : i < r = ground (arith, e, hr) in rw e (omega (arith, more, l, hq))
      | inr e ↦ let l : r ≤ i = ground (arith, e, hr) in rw e (omega (arith, more, l, hq))
    ]

-- `task_division` gives out every file exactly once, whatever the number of files, if there is a
-- wrapper.
pub task_division-sum :
    (num_wrapper file_num : ℕ)
    → 0 < num_wrapper
    → sum (task_division num_wrapper file_num) ≡ file_num
unfolding task_division
task_division-sum num_wrapper file_num h =
    let all =
      division_loop-sum num_wrapper 0 num_wrapper file_num (file_num / num_wrapper)
        (file_num % num_wrapper) refl refl in
    let whole = div-add-mod file_num num_wrapper in
    let small = mod-lt file_num h in omega (arith, all, whole, small)

-- The default partitioner's index is within the reducers' array, if there is a reducer.
pub default_hash_partition-lt :
    (key : Str) (n : ℕ) → 0 < n → (i : ℕ) × (default_hash_partition key n ≡ ok i) × (i < n)
unfolding default_hash_partition
default_hash_partition-lt key zero h = absurd (omega (arith, h))
default_hash_partition-lt key (suc n) h =
    (hash_loop 5381 key % suc n, refl, mod-lt (hash_loop 5381 key) h)

-- `k` is one of the arguments of a mapper that starts at `loca`.
abbrev pub falls : ℕ → ℕ → ℕ → ℕ → Bool
falls k loca number_of_mappers argument_num =
    leb loca k && ltb k argument_num && (k - loca) % number_of_mappers == 0

abbrev pub count : ℕ → List ℕ → ℕ
count k [] = 0
count k (x ∷ xs) = if k == x then suc (count k xs) else count k xs

abbrev pub once : Bool → ℕ
once true = 1
once false = 0

falls-next :
    (k loca n argc : ℕ) → 0 < n → k ≢ loca → falls k (loca + n) n argc ≡ falls k loca n argc
falls-next k loca n argc h ne = elim (Bool-cases (leb (loca + n) k)) [
  | inl e ↦
      let le : loca + n ≤ k = ground (arith, e) in
      let back : (k - loca) % n ≡ (k - loca - n) % n = mod-eq-sub-mod (omega (arith, le)) in
      let same_end : k - loca - n ≡ k - (loca + n) = omega arith in
      let low : leb loca k ≡ true = ground (arith, le) in rw (e, low, back, same_end) refl
  | inr e ↦
      let far : k < loca + n = ground (arith, e) in
      elim (Bool-cases (leb loca k)) [
        | inl low ↦
            let l : loca < k = ground (arith, low, ne) in
            let start : (k - loca) % n ≡ k - loca = mod-eq_of_lt (omega (arith, far, l)) in
            let off : ((k - loca) == 0) ≡ false = ground (arith, l) in
            rw (e, low, start, off) (ground arith)
        | inr low ↦ rw (e, low) refl
      ]
]

falls-start : (loca n argc : ℕ) → loca < argc → falls loca loca n argc ≡ true
falls-start loca n argc h =
    let low : leb loca loca ≡ true = ground arith in
    let zero_off : loca - loca ≡ 0 = omega arith in
    rw (low, lt→ltb loca argc h, zero_off) (ground (arith, zero-mod n))

falls-behind : (loca n argc : ℕ) → 0 < n → falls loca (loca + n) n argc ≡ false
falls-behind loca n argc h = let low : leb (loca + n) loca ≡ false = ground (arith, h) in rw low

falls-end : (k loca n argc : ℕ) → argc ≤ loca → falls k loca n argc ≡ false
falls-end k loca n argc h = ground (arith, h)

count-start :
    (k loca n argc : ℕ) (files : List ℕ)
    → k ≡ loca
    → 0 < n
    → loca < argc
    → ((k' : ℕ) → count k' files ≡ once (falls k' (loca + n) n argc))
    → count k (loca ∷ files) ≡ once (falls k loca n argc)
count-start k loca n argc files e h l each =
    let none_more : count loca files ≡ 0 = each loca ∙ ap once (falls-behind loca n argc h) in
    let first : count loca (loca ∷ files) ≡ once (falls loca loca n argc) =
      rw (eq→== loca loca refl) (ap suc none_more ∙ sym (ap once (falls-start loca n argc l))) in
    subst (λ t. count t (loca ∷ files) ≡ once (falls t loca n argc)) (sym e) first

-- With at least one mapper and fuel beyond the number of arguments, the loop of a mapper that starts
-- at `loca` ends, and runs over the arguments from there on at distances that the number of mappers
-- divides: each of them once, and no others.
pub mapper_loop-falls :
    (fuel loca n argc : ℕ)
    → 0 < n
    → argc - loca < fuel
    → (files : List ℕ) × (mapper_loop fuel loca n argc ≡ some files)
      × ((k : ℕ) → count k files ≡ once (falls k loca n argc))
unfolding mapper_loop
mapper_loop-falls zero loca n argc h f = absurd (omega (arith, f))
mapper_loop-falls (suc fuel) loca n argc h f = elim (Bool-cases (ltb loca argc)) [
  | inl e ↦
      let l : loca < argc = ground (arith, e) in
      let (files, run, each) =
        mapper_loop-falls fuel (loca + n) n argc h (omega (arith, h, f, l)) in
      rw (e, run)
        (
          loca ∷ files,
          refl,
          λ k. elim (Bool-cases (k == loca)) [
            | inl at ↦ count-start k loca n argc files (ground (arith, at)) h l each
            | inr off ↦ rw off (each k ∙ ap once (falls-next k loca n argc h (ground (arith, off))))
          ],
        )
  | inr e ↦ rw e ([], refl, λ k. rw (falls-end k loca n argc (ground (arith, e))))
]
