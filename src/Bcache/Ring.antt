-- ===== src/Bcache/Ring.antt =====
-- The ring of buffers as a list, the most recently used first.
use mathlib.Core.Path.{subst}
use computer_organization_an.Common.{
  ℕ, ◌≡◌, ◌≢◌, refl, sym, ◌∙◌, inl, inr, Bool-cases, List, [], ◌∷◌, ◌++◌, ◌==◌, eq→==, ne→==, All,
  All-mono, Distinct,
}
use computer_organization_an.Bcache.{store_at, Bcache, link_first, unlink_buf}

pub store_at_self {ℓ} : {A : Type ℓ} (f : ℕ → A) (p : ℕ) (v : A) → store_at f p v p ≡ v
unfolding store_at
store_at_self f p v = rw (eq→== p p refl) refl

pub store_at_ne {ℓ} :
    {A : Type ℓ} (f : ℕ → A) (p : ℕ) (v : A) (a : ℕ) → p ≢ a → store_at f p v a ≡ f a
unfolding store_at
store_at_ne f p v a n = rw (ne→== a p (λ e. n (sym e))) refl

-- A store of what is there already.
pub store_at_own : (f : ℕ → ℕ) (p b : ℕ) → store_at f p (f b) b ≡ f b
unfolding store_at
store_at_own f p b = elim (Bool-cases (b == p)) [ inl e ↦ rw e refl | inr e ↦ rw e refl ]

-- From `a`, whose successor is the list's first, through the list to `q`.
abbrev pub Linked : (ℕ → ℕ) → (ℕ → ℕ) → ℕ → List ℕ → ℕ → Type 0
Linked next prev a [] q = (next a ≡ q) × (prev q ≡ a)
Linked next prev a (b ∷ bs) q = (next a ≡ b) × (prev b ≡ a) × Linked next prev b bs q

-- Links that are not stored to.
pub Linked-frame :
    (next prev next' prev' : ℕ → ℕ) (a : ℕ) (bs : List ℕ) (q : ℕ)
    → next' a ≡ next a
    → All (λ b. next' b ≡ next b) bs
    → All (λ b. prev' b ≡ prev b) bs
    → prev' q ≡ prev q
    → Linked next prev a bs q
    → Linked next' prev' a bs q
Linked-frame next prev next' prev' a [] q n ns ps p (h, k) = (n ∙ h, p ∙ k)
Linked-frame next prev next' prev' a (b ∷ bs) q n (nb, ns) (pb, ps) p (h, k, l) =
    (n ∙ h, pb ∙ k, Linked-frame next prev next' prev' b bs q nb ns ps p l)

-- A store elsewhere.
pub stores_ne {ℓ} :
    {A : Type ℓ} (f : ℕ → A) (p : ℕ) (v : A) (bs : List ℕ)
    → All (λ b. p ≢ b) bs
    → All (λ b. store_at f p v b ≡ f b) bs
stores_ne f p v bs away =
    All-mono (λ b. p ≢ b) (λ b. store_at f p v b ≡ f b) bs (λ b. store_at_ne f p v b) away

-- The links of a buffer in the list lead to the list or its ends.
pub All-prev {ℓ} :
    (P : ℕ → Type ℓ) (next prev : ℕ → ℕ) (a : ℕ) (front : List ℕ) (b : ℕ) (back : List ℕ) (q : ℕ)
    → Linked next prev a (front ++ b ∷ back) q
    → P a
    → All P front
    → P (prev b)
All-prev P next prev a [] b back q (h, k, l) p ps = subst P (sym k) p
All-prev P next prev a (d ∷ front) b back q (h, k, l) p (pd, ps) =
    All-prev P next prev d front b back q l pd ps

pub All-next {ℓ} :
    (P : ℕ → Type ℓ) (next prev : ℕ → ℕ) (a : ℕ) (front : List ℕ) (b : ℕ) (back : List ℕ) (q : ℕ)
    → Linked next prev a (front ++ b ∷ back) q
    → All P back
    → P q
    → P (next b)
All-next P next prev a [] b [] q (h, k, (l, m)) ps p = subst P (sym l) p
All-next P next prev a [] b (d ∷ back) q (h, k, (l, m, o)) (pd, ps) p = subst P (sym l) pd
All-next P next prev a (d ∷ front) b back q (h, k, l) ps p =
    All-next P next prev d front b back q l ps p

pub All-split {ℓ} :
    (P : ℕ → Type ℓ) (front : List ℕ) (b : ℕ) (back : List ℕ)
    → All P (front ++ b ∷ back)
    → All P front × (P b × All P back)
All-split P [] b back (p, ps) = (tt, (p, ps))
All-split P (d ∷ front) b back (p, ps) =
    let (f, (pb, g)) = All-split P front b back ps in ((p, f), (pb, g))

-- The list without one of its buffers: the two stores of `unlink_buf`.
pub Linked-unlink_buf :
    (next prev : ℕ → ℕ) (a : ℕ) (front : List ℕ) (b : ℕ) (back : List ℕ) (q : ℕ)
    → All (λ x. a ≢ x) (front ++ b ∷ back)
    → Distinct (front ++ b ∷ back)
    → All (λ x. q ≢ x) (front ++ b ∷ back)
    → Linked next prev a (front ++ b ∷ back) q
    → Linked (store_at next (prev b) (next b)) (store_at prev (next b) (prev b)) a (front ++ back) q
Linked-unlink_buf next prev a [] b [] q away distinct others (h, k, (l, m)) =
    rw (k, l) (store_at_self next a q, store_at_self prev q a)
Linked-unlink_buf next prev a [] b (c ∷ back) q (a_b, (a_c, a_back)) (b_back, (c_back, distinct))
      (q_b, (q_c, q_back)) (h, k, (l, m, o)) =
    subst (λ p. Linked (store_at next p (next b)) (store_at prev (next b) p) a (c ∷ back) q) (sym k)
      (subst (λ n. Linked (store_at next a n) (store_at prev n a) a (c ∷ back) q) (sym l)
        (
          store_at_self next a c,
          store_at_self prev c a,
          Linked-frame next prev (store_at next a c) (store_at prev c a) c back q
              (store_at_ne next a c c a_c) (stores_ne next a c back a_back)
              (stores_ne prev c a back c_back) (store_at_ne prev c a q (λ e. q_c (sym e))) o,
        ))
Linked-unlink_buf next prev a (d ∷ front) b back q (a_d, away) (d_rest, distinct) (q_d, others)
      (h, k, l) =
    let (a_front, (a_b, a_back)) = All-split (λ x. a ≢ x) front b back away in
    let (d_front, (d_b, d_back)) = All-split (λ x. d ≢ x) front b back d_rest in
    let prev_a : a ≢ prev b = All-prev (λ x. a ≢ x) next prev d front b back q l a_d a_front in
    let next_d : d ≢ next b =
      All-next (λ x. d ≢ x) next prev d front b back q l d_back (λ e. q_d (sym e)) in
    (
      store_at_ne next (prev b) (next b) a (λ e. prev_a (sym e)) ∙ h,
      store_at_ne prev (next b) (prev b) d (λ e. next_d (sym e)) ∙ k,
      Linked-unlink_buf next prev d front b back q d_rest distinct others l,
    )

-- The ring of the cache, from its head on.
abbrev pub Ring : Bcache → List ℕ → Type 0
Ring c bs = Linked c.next c.prev 0 bs 0 × Distinct bs × All (λ b. 0 ≢ b) bs

pub unlink_buf-Ring :
    (c : Bcache) (front : List ℕ) (b : ℕ) (back : List ℕ)
    → Ring c (front ++ b ∷ back)
    → Linked (unlink_buf c b).next (unlink_buf c b).prev 0 (front ++ back) 0
unfolding unlink_buf
unlink_buf-Ring c front b back (links, distinct, others) =
    subst
      (λ p.
        Linked (store_at c.next p (c.next b)) (store_at c.prev (c.next b) (c.prev b)) 0
          (front ++ back) 0)
      (sym (store_at_own c.prev (c.next b) b))
      (Linked-unlink_buf c.next c.prev 0 front b back 0 others distinct others links)

-- The links of `b` are stored.
abbrev next_with : Bcache → ℕ → ℕ → ℕ
next_with c b = store_at c.next b (c.next 0)

abbrev prev_with : Bcache → ℕ → ℕ → ℕ
prev_with c b = store_at c.prev b 0

pub Linked-link_first :
    (c : Bcache) (b : ℕ) (bs : List ℕ)
    → 0 ≢ b
    → All (λ x. b ≢ x) bs
    → Distinct bs
    → All (λ x. 0 ≢ x) bs
    → Linked c.next c.prev 0 bs 0
    → Linked (link_first c b).next (link_first c b).prev 0 (b ∷ bs) 0
unfolding link_first
Linked-link_first c b bs n away distinct others links = go bs away distinct others links
  where
    first : (next_with c b) 0 ≡ c.next 0
    first = store_at_ne c.next b (c.next 0) 0 (λ e. n (sym e))

    second : store_at (next_with c b) 0 b b ≡ c.next 0
    second = store_at_ne (next_with c b) 0 b b n ∙ store_at_self c.next b (c.next 0)

    behind :
        (d : ℕ) (rest : List ℕ)
        → b ≢ d
        → All (λ x. b ≢ x) rest
        → All (λ x. d ≢ x) rest
        → 0 ≢ d
        → All (λ x. 0 ≢ x) rest
        → Linked c.next c.prev d rest 0
        → Linked (store_at (next_with c b) 0 b) (store_at (prev_with c b) d b) d rest 0
    behind d rest b_d b_rest d_rest n_d n_rest l =
        Linked-frame (next_with c b) (prev_with c b) (store_at (next_with c b) 0 b)
          (store_at (prev_with c b) d b) d rest 0 (store_at_ne (next_with c b) 0 b d n_d)
          (stores_ne (next_with c b) 0 b rest n_rest) (stores_ne (prev_with c b) d b rest d_rest)
          (store_at_ne (prev_with c b) d b 0 (λ e. n_d (sym e)))
          (Linked-frame c.next c.prev (next_with c b) (prev_with c b) d rest 0
            (store_at_ne c.next b (c.next 0) d b_d) (stores_ne c.next b (c.next 0) rest b_rest)
            (stores_ne c.prev b 0 rest b_rest) (store_at_ne c.prev b 0 0 (λ e. n (sym e))) l)

    go :
        (bs : List ℕ)
        → All (λ x. b ≢ x) bs
        → Distinct bs
        → All (λ x. 0 ≢ x) bs
        → Linked c.next c.prev 0 bs 0
        → Linked
            (store_at (next_with c b) 0 b)
            (store_at (prev_with c b) (next_with c b 0) b)
            0
            (b ∷ bs)
            0
    go [] away distinct others (h, k) =
        subst
          (λ t. Linked (store_at (next_with c b) 0 b) (store_at (prev_with c b) t b) 0 (b ∷ []) 0)
          (sym (first ∙ h))
          (
            store_at_self (next_with c b) 0 b,
            store_at_ne (prev_with c b) 0 b b n ∙ store_at_self c.prev b 0,
            (second ∙ h, store_at_self (prev_with c b) 0 b),
          )
    go (d ∷ rest) (b_d, b_rest) (d_rest, distinct) (n_d, n_rest) (h, k, l) =
        subst
          (λ t.
            Linked (store_at (next_with c b) 0 b) (store_at (prev_with c b) t b) 0 (b ∷ d ∷ rest) 0)
          (sym (first ∙ h))
          (
            store_at_self (next_with c b) 0 b,
            store_at_ne (prev_with c b) d b b (λ e. b_d (sym e)) ∙ store_at_self c.prev b 0,
            (
              second ∙ h,
              store_at_self (prev_with c b) d b,
              behind d rest b_d b_rest d_rest n_d n_rest l,
            ),
          )
