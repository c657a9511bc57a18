-- ===== src/Raft/Persister.antt =====
-- 6.5840/src/raft/persister.go. A byte slice is the address of its array, `none` for nil; the arrays
-- that the persisters' callers can write are those marked as held. A *Persister is an address too.
pub mod Saves
use mathlib.Core.Bool.{false≢true}
use lab_implementation.Common.{
  ℕ, suc, ◌+◌, ◌<◌, ◌≡◌, ◌≢◌, refl, sym, ap, subst, ◌∙◌, Bool, true, false, List, [], ◌∷◌, length,
  Option, none, some, update, update_self, update_other, ℕ_discrete, if◌then◌else◌, if_true,
  if_false, Bool-cases, inl, inr, arith,
}

pub record Persister : Type 0 where
  pub raftstate : Option ℕ
  pub snapshot : Option ℕ

abbrev pub make_persister : Persister
make_persister = record { raftstate = none; snapshot = none }

pub record World : Type 0 where
  pub cell : ℕ → List ℕ
  pub next : ℕ  -- no array has this address or a larger one
  pub held : ℕ → Bool
  pub persister : ℕ → Persister
  pub next_persister : ℕ  -- the address of the next persister

abbrev pub bytes_of : (ℕ → List ℕ) → Option ℕ → List ℕ
bytes_of cell none = []
bytes_of cell (some a) = cell a

-- clone(orig), in a new array
abbrev pub clone : Option ℕ → World → World
clone orig w = record w {
  cell = update ℕ_discrete w.cell w.next (bytes_of w.cell orig);
  held = update ℕ_discrete w.held w.next false;
  next = suc w.next;
}

abbrev pub add_persister : Persister → World → World
add_persister ps w = record w {
  persister = update ℕ_discrete w.persister w.next_persister ps;
  next_persister = suc w.next_persister;
}

-- The new persister has the arrays of the old one.
abbrev pub copy : ℕ → World → World
copy p w =
    add_persister
      (record { raftstate = (w.persister p).raftstate; snapshot = (w.persister p).snapshot }) w

-- The address of the clone is the `next` of before.
abbrev pub save : ℕ → Option ℕ → Option ℕ → World → World
save p raftstate snapshot w =
    let w1 = clone raftstate w in
    let w2 = clone snapshot w1 in
    record w2 {
      persister =
          update ℕ_discrete w2.persister p
            (record { raftstate = some w.next; snapshot = some w1.next });
    }

-- What a caller gets, at the `next` of before, it holds.
abbrev pub read_raft_state : ℕ → World → World
read_raft_state p w = record (clone (w.persister p).raftstate w) {
  held = update ℕ_discrete w.held w.next true;
}

abbrev pub read_snapshot : ℕ → World → World
read_snapshot p w = record (clone (w.persister p).snapshot w) {
  held = update ℕ_discrete w.held w.next true;
}

abbrev pub raft_state_size : ℕ → World → ℕ
raft_state_size p w = length (bytes_of w.cell (w.persister p).raftstate)

abbrev pub snapshot_size : ℕ → World → ℕ
snapshot_size p w = length (bytes_of w.cell (w.persister p).snapshot)

-- A caller's own steps: a new array, and a write into an array that it holds.
abbrev pub allocate : List ℕ → World → World
allocate bytes w = record w {
  cell = update ℕ_discrete w.cell w.next bytes;
  held = update ℕ_discrete w.held w.next true;
  next = suc w.next;
}

abbrev pub overwrite : ℕ → List ℕ → World → World
overwrite a bytes w = record w {
  cell = if w.held a then update ℕ_discrete w.cell a bytes else w.cell;
}

pub data PersisterOp : Type 0 where
  make_op : PersisterOp
  copy_op read_raft_state_op read_snapshot_op raft_state_size_op snapshot_size_op :
      (p : ℕ) → PersisterOp
  save_op : (p : ℕ) → Option ℕ → Option ℕ → PersisterOp
  allocate_op : List ℕ → PersisterOp
  overwrite_op : ℕ → List ℕ → PersisterOp

abbrev pub run : PersisterOp → World → World
run make_op = add_persister make_persister
run (copy_op p) = copy p
run (save_op p raftstate snapshot) = save p raftstate snapshot
run (read_raft_state_op p) = read_raft_state p
run (read_snapshot_op p) = read_snapshot p
run (raft_state_size_op p) = λ w. w
run (snapshot_size_op p) = λ w. w
run (allocate_op bytes) = allocate bytes
run (overwrite_op a bytes) = overwrite a bytes

abbrev pub Known : World → Option ℕ → Type 0
Known w none = Unit
Known w (some a) = a < w.next

-- The persister exists, and so do the slices that are the arguments of Save.
abbrev pub Makes : PersisterOp → World → Type 0
Makes make_op w = Unit
Makes (copy_op p) w = p < w.next_persister
Makes (save_op p raftstate snapshot) w =
    (p < w.next_persister) × Known w raftstate × Known w snapshot
Makes (read_raft_state_op p) w = p < w.next_persister
Makes (read_snapshot_op p) w = p < w.next_persister
Makes (raft_state_size_op p) w = p < w.next_persister
Makes (snapshot_size_op p) w = p < w.next_persister
Makes (allocate_op bytes) w = Unit
Makes (overwrite_op a bytes) w = Unit
