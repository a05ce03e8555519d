-- ===== src/MapReduce/Next.antt =====
-- What `get_next_for_reducer` does to the map from keys to lists of values.
use computer_organization_an.Common.{
  ℕ, zero, suc, ◌≤◌, length, ◌≡◌, ◌≢◌, refl, sym, ap, ◌∙◌, inl, inr, false, Option, none, some,
  List, [], ◌∷◌, arith, Option-cases,
}
use computer_organization_an.MapReduce.{
  Str, same, Node, Partition, find_node, next_value, next_of, get_next_for_reducer, ll_insert,
}
use computer_organization_an.MapReduce.Lookup.{
  values_of, IsValid, same_refl, cons_ne_nil, values_of-none, find_node-values, values_of-set_value,
  values_of-set_value_self, values_of-remove_node, values_of-remove_node_self, set_value-IsValid,
  remove_node-IsValid,
}
use computer_organization_an.MapReduce.Insert.{values_of-ll_insert}

abbrev pub first_of : List Str → Option Str
first_of [] = none
first_of (v ∷ vs) = some v

abbrev pub rest_of : List Str → List Str
rest_of [] = []
rest_of (v ∷ vs) = vs

-- From partition `t`, the first of the key's values has been returned and taken off.
pub record Popped (key : Str) (t : Partition) (r : Option Str × Partition) : Type 0 where
  pub valid : IsValid (r.1).nodes
  pub value : r.0 ≡ first_of (values_of key t.nodes)
  pub left : values_of key (r.1).nodes ≡ rest_of (values_of key t.nodes)
  pub others :
      (other : Str) → same key other ≡ false → values_of other (r.1).nodes ≡ values_of other t.nodes

next_value-Popped :
    (key : Str) (t : Partition) (head : Node) (values : List Str)
    → find_node key t.nodes ≡ some head
    → values_of key t.nodes ≡ values
    → values ≢ []
    → IsValid t.nodes
    → Popped key t (next_value key t head values)
unfolding next_value
next_value-Popped key t head [] e h filled v = absurd (filled refl)
next_value-Popped key t head (val ∷ []) e h filled v = record {
  valid = remove_node-IsValid key t.nodes v;
  value = rw h;
  left = values_of-remove_node_self key t.nodes v ∙ rw h;
  others = λ other ne. values_of-remove_node key other t.nodes ne;
}
next_value-Popped key t head (val ∷ next ∷ values) e h filled v = record {
  valid = set_value-IsValid key (next ∷ values) t.nodes (cons_ne_nil next values) v;
  value = rw h;
  left = values_of-set_value_self key (next ∷ values) t.nodes head e ∙ rw h;
  others = λ other ne. values_of-set_value key other (next ∷ values) t.nodes ne;
}

-- In a partition with one node to a key, `get_next_for_reducer` returns the key's first value and
-- takes it off, or the null pointer if there is none; the values of every other key stay, and the
-- partition keeps one node to a key, each with a value.
pub get_next_for_reducer-Popped :
    (key : Str) (t : Partition) → IsValid t.nodes → Popped key t (get_next_for_reducer key t)
unfolding get_next_for_reducer next_of
get_next_for_reducer-Popped key t v = elim (Option-cases (find_node key t.nodes)) [
  | inl e ↦
      let nothing = values_of-none key t.nodes e in
      rw e (record {
        valid = v;
        value = rw nothing;
        left = nothing ∙ rw nothing;
        others = λ other ne. refl;
      })
  | inr (head, e) ↦
      let (held, filled, k) = find_node-values key t.nodes head e v in
      rw e (next_value-Popped key t head head.value e held filled v)
]

-- The loop of a reducer over a key's values, up to the null pointer, with at most `n` calls.
abbrev pub drain_on : Option Str → List Str → List Str
drain_on none vs = []
drain_on (some v) vs = v ∷ vs

abbrev pub drain : ℕ → Str → Partition → List Str
drain zero key t = []
drain (suc n) key t =
    drain_on (get_next_for_reducer key t).0 (drain n key (get_next_for_reducer key t).1)

first-rest : (vs : List Str) → vs ≡ drain_on (first_of vs) (rest_of vs)
first-rest [] = refl
first-rest (v ∷ vs) = refl

length-rest_of : (vs : List Str) (n : ℕ) → length vs ≤ suc n → length (rest_of vs) ≤ n
length-rest_of [] n h = omega arith
length-rest_of (v ∷ vs) n h = omega (arith, h)

drain-values_of :
    (n : ℕ) (key : Str) (t : Partition)
    → IsValid t.nodes
    → length (values_of key t.nodes) ≤ n
    → drain n key t ≡ values_of key t.nodes
drain-values_of zero key t v h = short (values_of key t.nodes) h
  where
    short : (vs : List Str) → length vs ≤ 0 → [] ≡ vs
    short [] h' = refl
    short (x ∷ xs) h' = absurd (omega (arith, h'))
drain-values_of (suc n) key t v h =
    let got = get_next_for_reducer-Popped key t v in
    let left : length (values_of key (get_next_for_reducer key t).1.nodes) ≤ n =
      rw got.left (length-rest_of (values_of key t.nodes) n h) in
    ap (λ r. drain_on r (drain n key (get_next_for_reducer key t).1)) got.value
    ∙ ap (λ vs. drain_on (first_of (values_of key t.nodes)) vs)
        (drain-values_of n key (get_next_for_reducer key t).1 got.valid left ∙ got.left)
    ∙ sym (first-rest (values_of key t.nodes))

-- The values are emitted one after the other.
abbrev pub emit_all : Str → List Str → List Node → List Node
emit_all key [] nodes = nodes
emit_all key (v ∷ vs) nodes = emit_all key vs (ll_insert key v nodes)

abbrev pub reverse_onto : List Str → List Str → List Str
reverse_onto [] acc = acc
reverse_onto (v ∷ vs) acc = reverse_onto vs (v ∷ acc)

emit_all-values_of :
    (key : Str) (vs : List Str) (nodes : List Node)
    → IsValid nodes
    → IsValid (emit_all key vs nodes)
      × (values_of key (emit_all key vs nodes) ≡ reverse_onto vs (values_of key nodes))
emit_all-values_of key [] nodes v = (v, refl)
emit_all-values_of key (value ∷ vs) nodes v =
    let (v', e) = values_of-ll_insert key value key nodes v in
    let put : values_of key (ll_insert key value nodes) ≡ value ∷ values_of key nodes =
      e ∙ rw (same_refl key) in
    let (v'', e') = emit_all-values_of key vs (ll_insert key value nodes) v' in
    (v'', e' ∙ ap (reverse_onto vs) put)

-- A reducer that calls `get_next_for_reducer` until the null pointer gets the values that were
-- emitted for its key, the last one first, and behind them those that were there before; it needs
-- one call for each value.
pub drain-emit_all :
    (key : Str) (vs : List Str) (t : Partition) (n : ℕ)
    → IsValid t.nodes
    → length (reverse_onto vs (values_of key t.nodes)) ≤ n
    → drain n key (record t { nodes = emit_all key vs t.nodes })
      ≡ reverse_onto vs (values_of key t.nodes)
drain-emit_all key vs t n v h =
    let (v', e) = emit_all-values_of key vs t.nodes v in
    drain-values_of n key (record t { nodes = emit_all key vs t.nodes }) v' (rw e h) ∙ e
