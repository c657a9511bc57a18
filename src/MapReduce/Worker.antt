-- ===== src/MapReduce/Worker.antt =====
-- 6.5840/src/mr/worker.go: what HandleMap and HandleReduce do with the pairs, and the loop of
-- main/mrsequential.go that they are to agree with. A file of pairs is the list that json.Decode
-- reads from it: JSON keeps a text that is UTF-8, as all texts here are. The application's functions, fnv.New32a and sort.Sort are parameters.
pub mod Groups
pub mod Buckets
pub mod Agreement
pub mod Insertion
mod Tests
use lab_implementation.Common.{
  ℕ, zero, suc, ◌%◌, ◌^◌, Bool, List, [], ◌∷◌, ◌++◌, length, set, get_elem?, Option, none, some,
  String, string_lt, string_discrete, ite,
}

pub record KeyValue : Type 0 where
  pub key : String
  pub value : String

-- ByKey.Less
abbrev pub less : KeyValue → KeyValue → Bool
less a b = string_lt a.key b.key

-- h.Sum32() & 0x7fffffff
abbrev pub ihash : (String → ℕ) → String → ℕ
ihash fnv32a key = fnv32a key % 2 ^ 31

-- The two inner loops for the group that begins with `key`: the values up to the index j, and the
-- pairs from there on.
abbrev pub cons_value : String → List String × List KeyValue → List String × List KeyValue
cons_value v (values, rest) = (v ∷ values, rest)

abbrev pub take_group : String → List KeyValue → List String × List KeyValue
take_group key [] = ([], [])
take_group key (kv ∷ kva) =
    let group = take_group key kva in
    ite (string_discrete kv.key key) (cons_value kv.value group) ([], kv ∷ kva)

-- A line of output: the key and what Reduce made of its values.
abbrev pub Line : Type 0
Line = String × String

-- The outer loop, `i = j` being the step to the rest; the fuel is at least the number of pairs.
abbrev pub reduce_loop : (String → List String → String) → ℕ → List KeyValue → List Line
reduce_loop reducef zero kva = []
reduce_loop reducef (suc n) [] = []
reduce_loop reducef (suc n) (kv ∷ kva) =
    let group = take_group kv.key kva in
    (kv.key, reducef kv.key (kv.value ∷ group.0)) ∷ reduce_loop reducef n group.1

abbrev pub reduce_lines : (String → List String → String) → List KeyValue → List Line
reduce_lines reducef kva = reduce_loop reducef (length kva) kva

-- The list of NReduce empty temporary files.
abbrev pub temp_files : ℕ → List (List KeyValue)
temp_files zero = []
temp_files (suc nreduce) = [] ∷ temp_files nreduce

-- ReduceJsonList[b].Encode(&kv): an index out of range panics.
abbrev pub encode_to :
    ℕ → KeyValue → List (List KeyValue) → Option (List KeyValue) → Option (List (List KeyValue))
encode_to b kv files none = none
encode_to b kv files (some pairs) = some (set files b (pairs ++ (kv ∷ [])))

-- The loop over kva that spreads the pairs over the files.
abbrev pub write_pairs :
    (String → ℕ) → ℕ → List KeyValue → Option (List (List KeyValue)) → Option (List (List KeyValue))
write_pairs fnv32a nreduce kva none = none
write_pairs fnv32a nreduce [] (some files) = some files
write_pairs fnv32a nreduce (kv ∷ kva) (some files) =
    let b = ihash fnv32a kv.key % nreduce in
    write_pairs fnv32a nreduce kva (encode_to b kv files (get_elem? files b))

-- The files of one map task whose input gave these pairs.
abbrev pub map_files : (String → ℕ) → ℕ → List KeyValue → Option (List (List KeyValue))
map_files fnv32a nreduce kva = write_pairs fnv32a nreduce kva (some (temp_files nreduce))

abbrev pub join_pairs : Option (List KeyValue) → Option (List KeyValue) → Option (List KeyValue)
join_pairs (some pairs) (some rest) = some (pairs ++ rest)
join_pairs _ _ = none

-- The files mr-0-b, mr-1-b, … one after another: what a reduce task reads.
abbrev pub read_files : ℕ → List (List (List KeyValue)) → Option (List KeyValue)
read_files b [] = some []
read_files b (files ∷ tasks) = join_pairs (get_elem? files b) (read_files b tasks)
