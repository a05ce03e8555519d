-- ===== src/MapReduce.antt =====
-- The key lists, the partitions and the division of work of MapReduce/mapreduce.c. The chain behind
-- a header node is a list of nodes, and a string is the list of its bytes before the zero byte.
pub mod Lookup
pub mod Insert
pub mod Next
pub mod Division
pub mod Combiner
mod Tests
use computer_organization_an.Common.{
  ℕ, zero, suc, ◌+◌, ◌-◌, ◌*◌, ◌/◌, ◌%◌, ◌^◌, Bool, true, false, not, ◌&&◌, Option, none, some,
  List, [], ◌∷◌, ltb, ◌==◌, if◌then◌else◌, get_elem?, set,
}
use computer_organization_an.Common.Outcome.{Outcome, ok, fault, ◌>>=◌}

abbrev pub Str : Type 0
Str = List ℕ

-- strcmp(a, b) == 0
unfoldable pub same : Str → Str → Bool
same [] [] = true
same [] (y ∷ ys) = false
same (x ∷ xs) [] = false
same (x ∷ xs) (y ∷ ys) = x == y && same xs ys

-- `struct Node`, with its chain of value nodes.
pub record Node : Type 0 where
  pub key : Str
  pub value : List Str

-- The search of `ll_insert`: the value goes before those of the key; `none` if no node has the key.
unfoldable pub insert_at : Str → Str → List Node → Option (List Node)
insert_at key value [] = none
insert_at key value (search_node ∷ rest) =
    let further = insert_at key value rest in
    if same search_node.key key
    then some (record search_node { value = value ∷ search_node.value } ∷ rest)
    else (elim further [ none ↦ none | some rest' ↦ some (search_node ∷ rest') ])

unfoldable pub or_new : Str → Str → List Node → Option (List Node) → List Node
or_new key value nodes none = record { key = key; value = value ∷ [] } ∷ nodes
or_new key value nodes (some nodes') = nodes'

-- `ll_insert` behind a header that is not null.
unfoldable pub ll_insert : Str → Str → List Node → List Node
ll_insert key value nodes = or_new key value nodes (insert_at key value nodes)

unfoldable pub or_fault {ℓ} : {A : Type ℓ} → Option A → Outcome A
or_fault none = fault
or_fault (some a) = ok a

-- The insertion behind the header at `index`; one outside the array of headers is a machine fault.
unfoldable pub emit_at : Str → Str → List (List Node) → ℕ → Outcome (List (List Node))
emit_at key value headers index = or_fault (get_elem? headers index) >>= λ nodes.
    ok (set headers index (ll_insert key value nodes))

-- `MR_EmitToReducer`: `partition` is the caller's `Partitioner`.
unfoldable pub emit_to_reducer :
    (Str → ℕ → ℕ) → ℕ → Str → Str → List (List Node) → Outcome (List (List Node))
emit_to_reducer partition number_of_reducer key value headers =
    emit_at key value headers (partition key number_of_reducer)

-- A reducer's nodes, and the lists of what is to be freed at the end of `MR_Run`.
pub record Partition : Type 0 where
  pub nodes : List Node
  pub free_list_wrapper : List Str
  pub free_list_value : List Node

-- while (head && strcmp(head->key, key) != 0) head = head->next
unfoldable pub find_node : Str → List Node → Option Node
find_node key [] = none
find_node key (head ∷ rest) = if same head.key key then some head else find_node key rest

-- head->value = ... at the node that the search finds.
unfoldable pub set_value : Str → List Str → List Node → List Node
set_value key value [] = []
set_value key value (head ∷ rest) =
    if same head.key key
    then record head { value = value } ∷ rest
    else head ∷ set_value key value rest

-- head_r->next = head_r->next->next, with `head_r` the node before the one that the search finds.
unfoldable pub remove_node : Str → List Node → List Node
remove_node key [] = []
remove_node key (head ∷ rest) = if same head.key key then rest else head ∷ remove_node key rest

-- The new first entry of the list of strings to be freed.
abbrev pub build_free_list : Str → Partition → Partition
build_free_list value t = record t { free_list_wrapper = value ∷ t.free_list_wrapper }

-- The new first entry of the list of nodes to be freed.
abbrev pub build_head_free_list : Node → Partition → Partition
build_head_free_list value t = record t { free_list_value = value ∷ t.free_list_value }

-- The value of the node at `head` is taken off, and with the last value the node.
unfoldable pub next_value : Str → Partition → Node → List Str → Option Str × Partition
next_value key t head [] = (none, t)
next_value key t head (val ∷ []) =
    let t' = build_free_list head.key (build_free_list val t) in
    (
      some val,
      build_head_free_list (record head { value = [] })
          (record t' { nodes = remove_node key t'.nodes }),
    )
next_value key t head (val ∷ next ∷ values) =
    (some val, build_free_list val (record t { nodes = set_value key (next ∷ values) t.nodes }))

unfoldable pub next_of : Str → Partition → Option Node → Option Str × Partition
next_of key t none = (none, t)
next_of key t (some head) = next_value key t head head.value

-- `get_next_for_reducer` in the caller's partition.
unfoldable pub get_next_for_reducer : Str → Partition → Option Str × Partition
get_next_for_reducer key t = next_of key t (find_node key t.nodes)

-- A `char` that is negative is widened with its sign.
unfoldable pub widen : ℕ → ℕ
widen c = if ltb c 128 then c else 2 ^ 64 - 256 + c

unfoldable pub hash_loop : ℕ → Str → ℕ
hash_loop hash [] = hash
hash_loop hash (c ∷ key) = hash_loop ((hash * 33 + widen c) % 2 ^ 64) key

-- `MR_DefaultHashPartition`, for a count that is not negative; a division by zero is a trap.
unfoldable pub default_hash_partition : Str → ℕ → Outcome ℕ
default_hash_partition key zero = fault
default_hash_partition key (suc n) = ok (hash_loop 5381 key % suc n)

-- The entries of `tasks_per_wrapper` from index `i` on, `n` of them.
unfoldable pub division_loop : ℕ → ℕ → ℕ → ℕ → List ℕ
division_loop zero i num_wrapper file_num = []
division_loop (suc n) i num_wrapper file_num =
    (if ltb i (file_num % num_wrapper)
      then suc (file_num / num_wrapper)
      else file_num / num_wrapper)
    ∷ division_loop n (suc i) num_wrapper file_num

-- `task_division`; with no wrapper the loop has no round.
unfoldable pub task_division : ℕ → ℕ → List ℕ
task_division num_wrapper file_num = division_loop num_wrapper 0 num_wrapper file_num

-- The loop of `mapper_wrapper`: the indices of the arguments that a mapper gets, on fuel.
unfoldable pub mapper_loop : ℕ → ℕ → ℕ → ℕ → Option (List ℕ)
mapper_loop zero loca number_of_mappers argument_num = none
mapper_loop (suc fuel) loca number_of_mappers argument_num =
    let rest = mapper_loop fuel (loca + number_of_mappers) number_of_mappers argument_num in
    if ltb loca argument_num
    then (elim rest [ none ↦ none | some files ↦ some (loca ∷ files) ])
    else some []
