-- ===== src/MapReduce/Lookup.antt =====
-- The nodes of a partition as a map from keys to lists of values.
use mathlib.Core.Path.{subst}
use computer_organization_an.Common.{
  ◌≡◌, ◌≢◌, refl, ap, inl, inr, true, false, none, some, List, [], ◌∷◌, arith, if◌then◌else◌,
  Bool-cases,
}
use computer_organization_an.MapReduce.{Str, same, Node, find_node, set_value, remove_node}

pub same_refl : (a : Str) → same a a ≡ true
unfolding same
same_refl [] = refl
same_refl (x ∷ xs) = ground (arith, same_refl xs)

pub same-eq : (a b : Str) → same a b ≡ true → a ≡ b
unfolding same
same-eq [] [] e = refl
same-eq [] (y ∷ ys) e = absurd (cc e)
same-eq (x ∷ xs) [] e = absurd (cc e)
same-eq (x ∷ xs) (y ∷ ys) e =
    let first : x ≡ y = ground (arith, e) in
    let others : same xs ys ≡ true = ground (arith, e) in
    let rest : xs ≡ ys = same-eq xs ys others in cc (first, rest)

-- A key equal to one that differs from a third differs from it too.
pub same-false : (a b c : Str) → same a b ≡ true → same b c ≡ false → same a c ≡ false
same-false a b c e h = rw (same-eq a b e) h

pub cons_ne_nil : (value : Str) (values : List Str) → value ∷ values ≢ []
cons_ne_nil value values e = cc e

-- The values of a key: those of its first node.
abbrev pub values_of : Str → List Node → List Str
values_of key [] = []
values_of key (head ∷ rest) = if same head.key key then head.value else values_of key rest

-- Every key has one node, and every node has a value.
abbrev pub IsValid : List Node → Type 0
IsValid [] = Unit
IsValid (head ∷ rest) = (find_node head.key rest ≡ none) × (head.value ≢ []) × IsValid rest

pub values_of-none :
    (key : Str) (nodes : List Node) → find_node key nodes ≡ none → values_of key nodes ≡ []
unfolding find_node
values_of-none key [] h = refl
values_of-none key (head ∷ rest) h = elim (Bool-cases (same head.key key)) [
  | inl e ↦ absurd (ground (arith, e, h))
  | inr e ↦ rw e (values_of-none key rest (ground (arith, e, h)))
]

-- With one node to a key, the search finds the node that holds the key's values.
pub find_node-values :
    (key : Str) (nodes : List Node) (head : Node)
    → find_node key nodes ≡ some head
    → IsValid nodes
    → (values_of key nodes ≡ head.value) × (head.value ≢ []) × (head.key ≡ key)
unfolding find_node
find_node-values key [] head h v = absurd (cc h)
find_node-values key (first ∷ rest) head h (fresh, filled, v) =
    elim (Bool-cases (same first.key key)) [
      | inl e ↦
          let found : first ≡ head = ground (arith, e, h) in
          rw e (
            ap (λ t. t.value) found,
            subst (λ t. t.value ≢ []) found filled,
            subst (λ t. t.key ≡ key) found (same-eq first.key key e),
          )
      | inr e ↦ rw e (find_node-values key rest head (ground (arith, e, h)) v)
    ]

pub values_of-set_value :
    (key other : Str) (value : List Str) (nodes : List Node)
    → same key other ≡ false
    → values_of other (set_value key value nodes) ≡ values_of other nodes
unfolding set_value
values_of-set_value key other value [] h = refl
values_of-set_value key other value (head ∷ rest) h = elim (Bool-cases (same head.key key)) [
  | inl e ↦ rw (e, same-false head.key key other e h)
  | inr e ↦ rw e (
      ap (λ t. if same head.key other then head.value else t)
        (values_of-set_value key other value rest h))
]

pub values_of-remove_node :
    (key other : Str) (nodes : List Node)
    → same key other ≡ false
    → values_of other (remove_node key nodes) ≡ values_of other nodes
unfolding remove_node
values_of-remove_node key other [] h = refl
values_of-remove_node key other (head ∷ rest) h = elim (Bool-cases (same head.key key)) [
  | inl e ↦ rw (e, same-false head.key key other e h)
  | inr e ↦ rw e (
      ap (λ t. if same head.key other then head.value else t)
        (values_of-remove_node key other rest h))
]

-- The node that the search finds now holds `value`.
pub values_of-set_value_self :
    (key : Str) (value : List Str) (nodes : List Node) (head : Node)
    → find_node key nodes ≡ some head
    → values_of key (set_value key value nodes) ≡ value
unfolding set_value find_node
values_of-set_value_self key value [] head h = absurd (cc h)
values_of-set_value_self key value (first ∷ rest) head h = elim (Bool-cases (same first.key key)) [
  | inl e ↦ rw (e, e) refl
  | inr e ↦ rw (e, e) (values_of-set_value_self key value rest head (ground (arith, e, h)))
]

-- With one node to a key, no node of the key is left.
pub values_of-remove_node_self :
    (key : Str) (nodes : List Node) → IsValid nodes → values_of key (remove_node key nodes) ≡ []
unfolding remove_node
values_of-remove_node_self key [] v = refl
values_of-remove_node_self key (head ∷ rest) (fresh, filled, v) =
    elim (Bool-cases (same head.key key)) [
      | inl e ↦ rw e (
          values_of-none key rest
            (subst (λ t. find_node t rest ≡ none) (same-eq head.key key e) fresh))
      | inr e ↦ rw (e, e) (values_of-remove_node_self key rest v)
    ]

-- Giving a key other values, or removing it, puts no other key in.
pub find_node-set_value :
    (key other : Str) (value : List Str) (nodes : List Node)
    → find_node other nodes ≡ none
    → find_node other (set_value key value nodes) ≡ none
unfolding find_node set_value
find_node-set_value key other value [] h = refl
find_node-set_value key other value (head ∷ rest) h =
    ground (arith, find_node-set_value key other value rest)

pub find_node-remove_node :
    (key other : Str) (nodes : List Node)
    → find_node other nodes ≡ none
    → find_node other (remove_node key nodes) ≡ none
unfolding find_node remove_node
find_node-remove_node key other [] h = refl
find_node-remove_node key other (head ∷ rest) h =
    ground (arith, find_node-remove_node key other rest)

pub set_value-IsValid :
    (key : Str) (value : List Str) (nodes : List Node)
    → value ≢ []
    → IsValid nodes
    → IsValid (set_value key value nodes)
unfolding set_value
set_value-IsValid key value [] n v = tt
set_value-IsValid key value (head ∷ rest) n (fresh, filled, v) =
    elim (Bool-cases (same head.key key)) [
      | inl e ↦ rw e (fresh, n, v)
      | inr e ↦ rw e (
        find_node-set_value key head.key value rest fresh,
        filled,
        set_value-IsValid key value rest n v,
      )
    ]

pub remove_node-IsValid :
    (key : Str) (nodes : List Node) → IsValid nodes → IsValid (remove_node key nodes)
unfolding remove_node
remove_node-IsValid key [] v = tt
remove_node-IsValid key (head ∷ rest) (fresh, filled, v) = elim (Bool-cases (same head.key key)) [
  | inl e ↦ rw e v
  | inr e ↦
      rw e (find_node-remove_node key head.key rest fresh, filled, remove_node-IsValid key rest v)
]
