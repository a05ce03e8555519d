-- ===== src/Shell/Path.antt =====
-- The list of directories.
use computer_organization_an.Common.{
  ◌+◌, ◌≡◌, refl, ap, inl, inr, Bool, true, false, Bool-cases, List, [], ◌∷◌, ◌++◌, arith,
  if◌then◌else◌, All, length,
}
use computer_organization_an.Shell.{Str, equals, delete_node}

pub equals-eq : (a b : Str) → equals a b ≡ true → a ≡ b
unfolding equals
equals-eq [] [] e = refl
equals-eq [] (y ∷ ys) e = absurd (cc e)
equals-eq (x ∷ xs) [] e = absurd (cc e)
equals-eq (x ∷ xs) (y ∷ ys) e =
    let first : x ≡ y = ground (arith, e) in
    let behind : equals xs ys ≡ true = ground (arith, e) in
    let rest : xs ≡ ys = equals-eq xs ys behind in cc (first, rest)

-- The first node with the key is gone, and no other.
abbrev Gone : List Str → Str → List Str → Type 0
Gone nodes key nodes' =
    (before : List Str) × ((after : List Str) × (nodes ≡ before ++ key ∷ after)
      × All (λ str. equals str key ≡ false) before
      × (nodes' ≡ before ++ after))

-- The outcomes of `delete_node`.
abbrev pub Deleted : List Str → Str → List Str × Bool → Type 0
Deleted nodes key (nodes', true) = Gone nodes key nodes'
Deleted nodes key (nodes', false) = All (λ str. equals str key ≡ false) nodes × (nodes' ≡ nodes)

Deleted-cons :
    (str key : Str) (rest : List Str) (r : List Str × Bool)
    → equals str key ≡ false
    → Deleted rest key r
    → Deleted (str ∷ rest) key (str ∷ r.0, r.1)
Deleted-cons str key rest (nodes', true) e (before, (after, split, none_before, left)) =
    (str ∷ before, (after, ap (λ t. str ∷ t) split, (e, none_before), ap (λ t. str ∷ t) left))
Deleted-cons str key rest (nodes', false) e (all, left) = ((e, all), ap (λ t. str ∷ t) left)

-- `delete_node` takes out the first node that equals the key and keeps the order of the others; it
-- returns 0 and changes nothing exactly if there is none.
pub delete_node-Deleted : (nodes : List Str) (key : Str) → Deleted nodes key (delete_node nodes key)
unfolding delete_node
delete_node-Deleted [] key = (tt, refl)
delete_node-Deleted (str ∷ rest) key = elim (Bool-cases (equals str key)) [
  | inl e ↦ rw e ([], (rest, ap (λ t. t ∷ rest) (equals-eq str key e), tt, refl))
  | inr e ↦ rw e (Deleted-cons str key rest (delete_node rest key) e (delete_node-Deleted rest key))
]

-- A length that is right before is right after.
pub length-delete_node :
    (nodes : List Str) (key : Str)
    → length nodes ≡ length (delete_node nodes key).0 + (if (delete_node nodes key).1 then 1 else 0)
unfolding delete_node
length-delete_node [] key = omega arith
length-delete_node (str ∷ rest) key = elim (Bool-cases (equals str key)) [
  | inl e ↦ rw e (omega arith)
  | inr e ↦ rw e (omega (arith, length-delete_node rest key))
]
