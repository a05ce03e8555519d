-- ===== src/MapReduce/Insert.antt =====
-- What `ll_insert` does to the map from keys to lists of values.
use mathlib.Core.Path.{subst}
use computer_organization_an.Common.{
  ◌≡◌, refl, sym, ap, ◌∙◌, inl, inr, Option, none, some, List, [], ◌∷◌, if◌then◌else◌, Bool-cases,
  Option-cases,
}
use computer_organization_an.MapReduce.{
  Str, same, Node, insert_at, or_new, ll_insert, find_node, set_value,
}
use computer_organization_an.MapReduce.Lookup.{
  values_of, IsValid, same-eq, cons_ne_nil, values_of-none, find_node-values, values_of-set_value,
  values_of-set_value_self, set_value-IsValid,
}

-- The insertion at the node that the search finds.
abbrev inserted : Str → Str → List Node → Option Node → Option (List Node)
inserted key value nodes none = none
inserted key value nodes (some head) = some (set_value key (value ∷ head.value) nodes)

insert_at-inserted :
    (key value : Str) (nodes : List Node)
    → insert_at key value nodes ≡ inserted key value nodes (find_node key nodes)
unfolding insert_at find_node set_value
insert_at-inserted key value [] = refl
insert_at-inserted key value (head ∷ rest) = elim (Bool-cases (same head.key key)) [
  | inl e ↦ rw (e, e) refl
  | inr e ↦ elim (Option-cases (find_node key rest)) [
    | inl none_left ↦ rw (e, insert_at-inserted key value rest, none_left)
    | inr (found, is_found) ↦ rw (e, insert_at-inserted key value rest, is_found, e) refl
  ]
]

-- The values of a key after one more value of `key`.
abbrev pub with_value : Str → Str → Str → List Str → List Str
with_value key value other values = if same key other then value ∷ values else values

-- `ll_insert` puts the value before the others of its key, changes the values of no other key, and
-- keeps one node to a key.
pub values_of-ll_insert :
    (key value other : Str) (nodes : List Node)
    → IsValid nodes
    → IsValid (ll_insert key value nodes)
      × (values_of other (ll_insert key value nodes)
          ≡ with_value key value other (values_of other nodes))
unfolding ll_insert or_new
values_of-ll_insert key value other nodes v = elim (Option-cases (find_node key nodes)) [
  | inl e ↦ elim (Bool-cases (same key other)) [
    | inl h ↦
        let nothing = values_of-none key nodes e in
        let k : key ≡ other = same-eq key other h in
        rw (insert_at-inserted key value nodes, e, h)
          (
            (e, cons_ne_nil value [], v),
            ap (λ t. value ∷ t) (sym (values_of-none other nodes (rw (sym k) e))),
          )
    | inr h ↦ rw (insert_at-inserted key value nodes, e, h) ((e, cons_ne_nil value [], v), refl)
  ]
  | inr (head, e) ↦
      let (held, filled, k) = find_node-values key nodes head e v in
      elim (Bool-cases (same key other)) [
        | inl h ↦
            let k' : key ≡ other = same-eq key other h in
            rw (insert_at-inserted key value nodes, e, h)
              (
                set_value-IsValid key (value ∷ head.value) nodes (cons_ne_nil value head.value) v,
                subst
                    (λ t.
                      values_of t (set_value key (value ∷ head.value) nodes)
                      ≡ value ∷ values_of t nodes)
                    k'
                    (values_of-set_value_self key (value ∷ head.value) nodes head e
                      ∙ ap (λ t. value ∷ t) (sym held)),
              )
        | inr h ↦
            rw (insert_at-inserted key value nodes, e, h)
              (
                set_value-IsValid key (value ∷ head.value) nodes (cons_ne_nil value head.value) v,
                values_of-set_value key other (value ∷ head.value) nodes h,
              )
      ]
]
