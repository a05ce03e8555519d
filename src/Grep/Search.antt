-- ===== src/Grep/Search.antt =====
-- A line is printed exactly if it contains the search term.
use computer_organization_an.Common.{
  ℕ, zero, suc, ◌+◌, ◌-◌, ◌≤◌, ◌<◌, ◌≡◌, ◌≢◌, ◌↔◌, refl, sym, ap, ◌∙◌, inl, inr, Bool, true, false,
  ◌&&◌, ◌^◌, Bool-cases, [], ◌∷◌, ◌++◌, arith, leb, ◌==◌, eq→==, if◌then◌else◌, get_or, length,
  length-append,
}
use computer_organization_an.Grep.{Bytes, match_loop, search_loop, found}
use computer_organization_an.Common.Outcome.{ok}

-- The line is `front`, the term, and a rest.
abbrev pub Contains : Bytes → Bytes → Type 0
Contains search_term line =
    (front : Bytes) × ((rest : Bytes) × (line ≡ front ++ (search_term ++ rest)))

match_loop-cons :
    (search_term line : Bytes) (c i : ℕ)
    → match_loop search_term (c ∷ line) (suc i) ≡ match_loop search_term line i
unfolding match_loop
match_loop-cons [] line c i = refl
match_loop-cons (t ∷ search_term) line c i =
    ap (λ r. t == get_or line i 0 && r) (match_loop-cons search_term line c (suc i))

-- From the line's beginning on.
match_loop-front :
    (search_term line : Bytes)
    → length search_term ≤ length line
    → match_loop search_term line 0 ≡ true
    → (rest : Bytes) × (line ≡ search_term ++ rest)
unfolding match_loop
match_loop-front [] line fits m = (line, refl)
match_loop-front (t ∷ search_term) [] fits m = absurd (omega (arith, fits))
match_loop-front (t ∷ search_term) (c ∷ line) fits m =
    let same : t ≡ c = ground (arith, m) in
    let behind : match_loop search_term (c ∷ line) 1 ≡ true = ground (arith, m) in
    let (rest, e) =
      match_loop-front search_term line (omega (arith, fits))
        (sym (match_loop-cons search_term line c 0) ∙ behind) in
    (rest, cc (same, e))

match_loop-split :
    (search_term line : Bytes) (i : ℕ)
    → i + length search_term ≤ length line
    → match_loop search_term line i ≡ true
    → Contains search_term line
match_loop-split search_term line zero fits m =
    let (rest, e) = match_loop-front search_term line (omega (arith, fits)) m in ([], (rest, e))
match_loop-split search_term [] (suc i) fits m = absurd (omega (arith, fits))
match_loop-split search_term (c ∷ line) (suc i) fits m =
    let (front, (rest, e)) =
      match_loop-split search_term line i (omega (arith, fits))
        (sym (match_loop-cons search_term line c i) ∙ m) in
    (c ∷ front, (rest, ap (λ t. c ∷ t) e))

match_loop_self : (search_term rest : Bytes) → match_loop search_term (search_term ++ rest) 0 ≡ true
unfolding match_loop
match_loop_self [] rest = refl
match_loop_self (t ∷ search_term) rest =
    rw (eq→== t t refl)
      (match_loop-cons search_term (search_term ++ rest) t 0 ∙ match_loop_self search_term rest)

match_loop-append :
    (search_term front rest : Bytes)
    → match_loop search_term (front ++ (search_term ++ rest)) (length front) ≡ true
match_loop-append search_term [] rest = match_loop_self search_term rest
match_loop-append search_term (c ∷ front) rest =
    match_loop-cons search_term (front ++ (search_term ++ rest)) c (length front)
    ∙ match_loop-append search_term front rest

-- The search without a bound on the line.
abbrev search : ℕ → ℕ → Bytes → Bytes → Bool
search zero i search_term line = false
search (suc n) i search_term line =
    let further = search n (suc i) search_term line in
    if match_loop search_term line i then true else further

search-match :
    (n i : ℕ) (search_term line : Bytes)
    → search n i search_term line ≡ true
    → (k : ℕ) × (i ≤ k) × (k < i + n) × (match_loop search_term line k ≡ true)
search-match zero i search_term line h = absurd (cc h)
search-match (suc n) i search_term line h = elim (Bool-cases (match_loop search_term line i)) [
  | inl m ↦ (i, omega arith, omega arith, m)
  | inr m ↦
      let later : search n (suc i) search_term line ≡ true = rw m at h in
      let (k, lo, hi, m') = search-match n (suc i) search_term line later in
      (k, omega (arith, lo), omega (arith, hi), m')
]

search-true :
    (n i k : ℕ) (search_term line : Bytes)
    → i ≤ k
    → k < i + n
    → match_loop search_term line k ≡ true
    → search n i search_term line ≡ true
search-true zero i k search_term line lo hi m = absurd (omega (arith, lo, hi))
search-true (suc n) i k search_term line lo hi m =
    elim (Bool-cases (match_loop search_term line i)) [
      | inl here ↦ rw here
      | inr away ↦
          let after : i ≢ k = λ e. cc (ap (match_loop search_term line) e, m, away) in
          rw away (
            search-true n (suc i) k search_term line (omega (arith, lo, after)) (omega (arith, hi))
              m)
    ]

-- Short of the `int`'s range the loop ends with the result of the search.
search_loop-search :
    (n i : ℕ) (search_term line : Bytes)
    → n + i + length search_term ≤ 2 ^ 31
    → search_loop n i search_term line ≡ ok (search n i search_term line)
unfolding search_loop
search_loop-search zero i search_term line l = refl
search_loop-search (suc n) i search_term line l =
    let short : leb (2 ^ 31) (i + length search_term) ≡ false = ground (arith, l) in
    elim (Bool-cases (match_loop search_term line i)) [
      | inl m ↦ rw (short, m) refl
      | inr m ↦ rw (short, m) (search_loop-search n (suc i) search_term line (omega (arith, l)))
    ]

-- Whether the search term stands in a line.
abbrev pub Decides : Bytes → Bytes → Bool → Type 0
Decides search_term line printed = (printed ≡ true) ↔ Contains search_term line

-- The search in a line of less than 2^31 bytes ends, and finds the search term exactly if it stands
-- somewhere in the line, the empty term in every line.
pub found-Contains :
    (search_term line : Bytes)
    → length line < 2 ^ 31
    → (printed : Bool) × (found search_term line ≡ ok printed) × Decides search_term line printed
unfolding found
found-Contains search_term line short = elim (Bool-cases (leb (length search_term) (length line))) [
  | inr tight ↦ (
    false,
    rw tight refl,
    (λ e. absurd (cc e), λ c. let total = room c in absurd (ground (arith, tight, total))),
  )
  | inl fits ↦
      let small : length search_term ≤ length line = ground (arith, fits) in
      (
        search (suc (length line - length search_term)) 0 search_term line,
        rw fits (
            search_loop-search (suc (length line - length search_term)) 0 search_term line
              (omega (arith, small, short))),
        (to small, from),
      )
]
  where
    room :
        (c : Contains search_term line)
        → length line ≡ length c.0 + (length search_term + length c.1.0)
    room (front, (rest, e)) =
        ap length e
        ∙ length-append front (search_term ++ rest)
        ∙ ap (λ t. length front + t) (length-append search_term rest)

    to :
        length search_term ≤ length line
        → search (suc (length line - length search_term)) 0 search_term line ≡ true
        → Contains search_term line
    to small run =
        let (k, lo, hi, m) =
          search-match (suc (length line - length search_term)) 0 search_term line run in
        match_loop-split search_term line k (omega (arith, small, hi)) m

    from :
        Contains search_term line
        → search (suc (length line - length search_term)) 0 search_term line ≡ true
    from (front, (rest, e)) =
        let total = room (front, (rest, e)) in
        let at : match_loop search_term line (length front) ≡ true =
          ap (λ t. match_loop search_term t (length front)) e
          ∙ match_loop-append search_term front rest in
        search-true (suc (length line - length search_term)) 0 (length front) search_term line
          (omega arith) (omega (arith, total)) at
