-- ===== src/MapReduce/Combiner.antt =====
-- The mappers' own lists in MapReduce/mapreduce.c, `map_thread_id` and `MR_EmitToCombiner`, whose
-- insertion is that of `ll_insert`; and which list an emitted value goes to.
use computer_organization_an.Common.{
  ℕ, zero, suc, ◌+◌, ◌≤◌, ◌<◌, ◌≡◌, ◌≢◌, refl, ◌∙◌, true, not, ◌&&◌, Option, none, some, List, [],
  ◌∷◌, arith, ltb, leb, ◌==◌, if◌then◌else◌, get_elem?, set, eq→==, ne→==, le→ltb,
}
use computer_organization_an.Common.Outcome.{Outcome, ok, fault, ◌>>=◌}
use computer_organization_an.MapReduce.{or_fault, emit_at, emit_to_reducer, Str, Node, ll_insert}
use computer_organization_an.MapReduce.Lookup.{IsValid, values_of}
use computer_organization_an.MapReduce.Insert.{with_value, values_of-ll_insert}

-- The search through `cur_map_tid` from `index` on. The array is longer than the bound on the index.
unfoldable pub thread_loop : List ℕ → ℕ → ℕ → ℕ → ℕ
thread_loop [] index pid number_of_mappers = index
thread_loop (tid ∷ tids) index pid number_of_mappers =
    let further = thread_loop tids (suc index) pid number_of_mappers in
    if not (tid == pid) && leb index number_of_mappers then further else index

-- `map_thread_id` with a check, as its callers have it; `none` is -1.
unfoldable pub map_thread_id : List ℕ → ℕ → ℕ → Option ℕ
map_thread_id cur_map_tid pid number_of_mappers =
    let index = thread_loop cur_map_tid 0 pid number_of_mappers in
    if ltb number_of_mappers index then none else some index

-- 97 % number_of_mappers is a trap without mappers, and the header before the first lies outside
-- the array.
unfoldable pub own_index : List ℕ → ℕ → ℕ → Outcome ℕ
own_index cur_map_tid pid zero = fault
own_index cur_map_tid pid (suc n) = or_fault (map_thread_id cur_map_tid pid (suc n))

-- `MR_EmitToCombiner`, called by thread `pid`.
unfoldable pub emit_to_combiner :
    List ℕ → ℕ → ℕ → Str → Str → List (List Node) → Outcome (List (List Node))
emit_to_combiner cur_map_tid pid number_of_mappers key value headers =
    own_index cur_map_tid pid number_of_mappers >>= emit_at key value headers

-- `pid` stands at `i` of the list and nowhere before.
abbrev pub IsFirst : List ℕ → ℕ → ℕ → Type 0
IsFirst [] pid i = pid < pid
IsFirst (tid ∷ tids) pid zero = tid ≡ pid
IsFirst (tid ∷ tids) pid (suc i) = (tid ≢ pid) × IsFirst tids pid i

thread_loop-first :
    (tids : List ℕ) (index pid n i : ℕ)
    → IsFirst tids pid i
    → index + i ≤ n
    → thread_loop tids index pid n ≡ index + i
unfolding thread_loop
thread_loop-first [] index pid n i f l = absurd (omega (arith, f))
thread_loop-first (tid ∷ tids) index pid n zero f l = rw (eq→== tid pid f) (omega arith)
thread_loop-first (tid ∷ tids) index pid n (suc i) (ne, f) l =
    let here : leb index n ≡ true = ground (arith, l) in
    rw (ne→== tid pid ne, here)
      (thread_loop-first tids (suc index) pid n i f (omega (arith, l)) ∙ omega arith)

map_thread_id-first :
    (tids : List ℕ) (pid n i : ℕ) → IsFirst tids pid i → i ≤ n → map_thread_id tids pid n ≡ some i
unfolding map_thread_id
map_thread_id-first tids pid n i f l =
    let stop : thread_loop tids 0 pid n ≡ i =
      thread_loop-first tids 0 pid n i f (omega (arith, l)) ∙ omega arith in
    rw (stop, le→ltb n i l) refl

own_index-first :
    (tids : List ℕ) (pid n i : ℕ) → IsFirst tids pid i → i ≤ n → 0 < n → own_index tids pid n ≡ ok i
unfolding own_index or_fault
own_index-first tids pid zero i f l h = absurd (omega (arith, h))
own_index-first tids pid (suc n) i f l h = rw (map_thread_id-first tids pid (suc n) i f l)

emit_at-some :
    (key value : Str) (headers : List (List Node)) (i : ℕ) (nodes : List Node)
    → get_elem? headers i ≡ some nodes
    → emit_at key value headers i ≡ ok (set headers i (ll_insert key value nodes))
unfolding emit_at or_fault
emit_at-some key value headers i nodes at = rw at

-- An emitted value goes into the list that the caller's partitioner chooses for the key, and into no
-- other: there it goes before the others of its key, and the values of other keys stay.
pub emit_to_reducer-own :
    (partition : Str → ℕ → ℕ) (n : ℕ) (key value other : Str) (headers : List (List Node))
    (nodes : List Node)
    → get_elem? headers (partition key n) ≡ some nodes
    → IsValid nodes
    → (nodes' : List Node) × (emit_to_reducer partition n key value headers
        ≡ ok (set headers (partition key n) nodes'))
      × IsValid nodes'
      × (values_of other nodes' ≡ with_value key value other (values_of other nodes))
unfolding emit_to_reducer
emit_to_reducer-own partition n key value other headers nodes at v =
    let (v', e) = values_of-ll_insert key value other nodes v in
    (ll_insert key value nodes, emit_at-some key value headers (partition key n) nodes at, v', e)

-- A thread whose identifier stands in the table at an index up to the number of mappers, and not
-- before, emits into the list of that index alone: there the value goes before the others of its
-- key, and the values of other keys stay.
pub emit_to_combiner-own :
    (tids : List ℕ) (pid n i : ℕ) (key value other : Str) (headers : List (List Node))
    (nodes : List Node)
    → IsFirst tids pid i
    → i ≤ n
    → 0 < n
    → get_elem? headers i ≡ some nodes
    → IsValid nodes
    → (nodes' : List Node) × (emit_to_combiner tids pid n key value headers
        ≡ ok (set headers i nodes'))
      × IsValid nodes'
      × (values_of other nodes' ≡ with_value key value other (values_of other nodes))
unfolding emit_to_combiner
emit_to_combiner-own tids pid n i key value other headers nodes f l h at v =
    let (v', e) = values_of-ll_insert key value other nodes v in
    (
      ll_insert key value nodes,
      rw (own_index-first tids pid n i f l h) (emit_at-some key value headers i nodes at),
      v',
      e,
    )
