-- ===== src/MapReduce/Tests.antt =====
-- A partition with two keys, and small divisions of work.
use computer_organization_an.Common.{◌-◌, ℕ, ◌≤◌, ◌≡◌, refl, some, List, [], ◌∷◌, arith, length}
use computer_organization_an.Common.Outcome.{ok}
use computer_organization_an.MapReduce.{
  same, Node, Partition, ll_insert, get_next_for_reducer, default_hash_partition, hash_loop, widen,
  task_division, mapper_loop, find_node, division_loop,
}
use computer_organization_an.MapReduce.{Str}
use computer_organization_an.MapReduce.Lookup.{values_of, IsValid, cons_ne_nil}
use computer_organization_an.MapReduce.Combiner.{IsFirst}
use computer_organization_an.MapReduce.Insert.{with_value, values_of-ll_insert}
use computer_organization_an.MapReduce.Next.{
  Popped, drain, emit_all, reverse_onto, get_next_for_reducer-Popped, drain-emit_all,
}
use computer_organization_an.MapReduce.Division.{count, once, falls, mapper_loop-falls}

-- The keys "a", with the values "x" and "y", and "b", with "z".
abbrev words : List Node
words =
    record { key = 97 ∷ []; value = (120 ∷ []) ∷ (121 ∷ []) ∷ [] }
    ∷ record { key = 98 ∷ []; value = (122 ∷ []) ∷ [] }
    ∷ []

abbrev partition : Partition
partition = record { nodes = words; free_list_wrapper = []; free_list_value = [] }

words-IsValid : IsValid words
unfolding find_node same
words-IsValid = (refl, cons_ne_nil _ _, (refl, cons_ne_nil _ _, tt))

values_of-ll_insert_example :
    IsValid (ll_insert (98 ∷ []) (119 ∷ []) words)
    × (values_of (98 ∷ []) (ll_insert (98 ∷ []) (119 ∷ []) words)
        ≡ with_value (98 ∷ []) (119 ∷ []) (98 ∷ []) (values_of (98 ∷ []) words))
values_of-ll_insert_example = values_of-ll_insert (98 ∷ []) (119 ∷ []) (98 ∷ []) words words-IsValid

get_next_for_reducer-Popped_example :
    Popped (98 ∷ []) partition (get_next_for_reducer (98 ∷ []) partition)
get_next_for_reducer-Popped_example = get_next_for_reducer-Popped (98 ∷ []) partition words-IsValid

words-length : length (reverse_onto ((119 ∷ []) ∷ []) (values_of (98 ∷ []) words)) ≤ 3
unfolding same
words-length = omega arith

drain-emit_all_example :
    drain 3 (98 ∷ []) (record partition { nodes = emit_all (98 ∷ []) ((119 ∷ []) ∷ []) words })
    ≡ reverse_onto ((119 ∷ []) ∷ []) (values_of (98 ∷ []) words)
drain-emit_all_example =
    drain-emit_all (98 ∷ []) ((119 ∷ []) ∷ []) partition 3 words-IsValid words-length

hash_run : default_hash_partition (97 ∷ []) 10 ≡ ok 0
unfolding default_hash_partition hash_loop widen
hash_run = refl

task_division_run : task_division 3 8 ≡ 3 ∷ 3 ∷ 2 ∷ []
unfolding task_division division_loop
task_division_run = refl

mapper_loop-falls_example :
    (files : List ℕ) × (mapper_loop 8 1 3 8 ≡ some files)
    × ((k : ℕ) → count k files ≡ once (falls k 1 3 8))
mapper_loop-falls_example = mapper_loop-falls 8 1 3 8 (omega arith) (omega arith)

-- The identifiers of two mappers, behind the entry that no thread has.
abbrev tids : List ℕ
tids = 0 ∷ 70 ∷ 71 ∷ 0 ∷ []

tids-IsFirst : IsFirst tids 71 2
tids-IsFirst = (omega arith, (omega arith, refl))

-- A partitioner that sends every key to the last reducer.
abbrev last_one : Str → ℕ → ℕ
last_one key n = n - 1
