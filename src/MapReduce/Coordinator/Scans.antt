-- ===== src/MapReduce/Coordinator/Scans.antt =====
-- The loop of `AssignMission` over a task list, and the mark of a finish message.
use lab_implementation.Common.{
  ℕ, suc, ◌≡◌, ◌⊎◌, inl, inr, refl, ap, Bool, true, false, some, List, [], ◌∷◌, get_elem?, set, All,
  All-set, get_elem?-set_self, get_elem?-set_ne, ℕ_discrete, arith, ◌==◌, if◌then◌else◌, Bool-cases,
  Option-cases,
}
use lab_implementation.MapReduce.{done, Task, is_running}
use lab_implementation.MapReduce.Coordinator.{
  Scan, assigned, passed, keep, assignable, scan, finish,
}

abbrev pub IsDone : Task → Type 0
IsDone t = t.missionstate ≡ done

-- The task at `k` is handed out, marked by `assign`.
pub record Assigns (now : ℕ) (assign : Task → Task) (ts ts' : List Task) (x : Task) : Type 0 where
  pub at : ℕ
  pub task : Task
  pub found : get_elem? ts at ≡ some task
  pub free : assignable now task ≡ true
  pub given : x ≡ assign task
  pub marked : ts' ≡ set ts at x

abbrev pub Outcome : ℕ → (Task → Task) → Bool → List Task → Scan → Type 0
Outcome now assign flag ts (assigned ts' x) = Assigns now assign ts ts' x
Outcome now assign flag ts (passed f) =
    All (λ t. assignable now t ≡ false) ts
    × (f ≡ true → (flag ≡ true) × All IsDone ts)
    × (All IsDone ts → f ≡ flag)

module _ (now : ℕ) (assign : Task → Task) where
  keep-Outcome :
      (flag : Bool) (t : Task) (ts : List Task) (r : Scan)
      → assignable now t ≡ false
      → Outcome now assign (if is_running t.missionstate then false else flag) ts r
      → Outcome now assign flag (t ∷ ts) (keep t r)
  keep-Outcome flag t ts (assigned ts' x) busy o = record {
    at = suc o.at;
    task = o.task;
    found = o.found;
    free = o.free;
    given = o.given;
    marked = ap (λ l. t ∷ l) o.marked;
  }
  keep-Outcome flag t ts (passed f) busy o =
      ((busy, o.0), λ h. ground (arith, o.1 h), λ h. ground (arith, o.2 h.1, h.0))

  pub scan-Outcome :
      (flag : Bool) (ts : List Task) → Outcome now assign flag ts (scan now assign flag ts)
  unfolding scan
  scan-Outcome flag [] = (tt, λ h. (h, tt), λ h. refl)
  scan-Outcome flag (t ∷ ts) = elim (Bool-cases (assignable now t)) [
    | inl free ↦
        rw free
          (record { at = 0; task = t; found = refl; free = free; given = refl; marked = refl })
    | inr busy ↦ rw busy (
        keep-Outcome flag t ts _ busy
          (scan-Outcome (if is_running t.missionstate then false else flag) ts))
  ]

module _ (m : Task) (ts : List Task) {ts' : List Task} (ran : finish m ts ≡ some ts') where
  -- The message marks the task that it names, or is ignored.
  pub finish-cases :
      (ts' ≡ ts)
      ⊎ ((t : Task) × (get_elem? ts m.index ≡ some t)
          × (m.timestamp ≡ t.timestamp)
          × (ts' ≡ set ts m.index (record t { missionstate = done })))
  unfolding finish
  finish-cases = elim (Option-cases (get_elem? ts m.index)) [
    | inl out ↦ absurd (ground arith)
    | inr (t, found) ↦ elim (Bool-cases (m.timestamp == t.timestamp)) [
      | inl same ↦ inr (t, found, ground arith, ground arith)
      | inr other ↦ inl (ground arith)
    ]
  ]

  pub finish-AllDone : All IsDone ts → All IsDone ts'
  finish-AllDone h = elim finish-cases [
    | inl same ↦ rw same h
    | inr (t, found, stamp, e) ↦ rw e (All-set IsDone ts m.index _ h refl)
  ]

  pub finish-keeps_done :
      (k : ℕ) (t : Task) → get_elem? ts k ≡ some t → IsDone t → get_elem? ts' k ≡ some t
  finish-keeps_done k t at h = elim finish-cases [
    | inl same ↦ rw same at
    | inr (u, found, stamp, e) ↦ rw e (elim (ℕ_discrete m.index k) [
      | yes here ↦
          ground (arith, get_elem?-set_self ts m.index u (record u { missionstate = done }) found)
      | no there ↦
          ground (arith, get_elem?-set_ne ts m.index k (record u { missionstate = done }) there)
    ])
  ]

module _ {now : ℕ} {assign : Task → Task} {ts ts' : List Task} {x : Task}
    (a : Assigns now assign ts ts' x) where
  -- What is not handed out stays.
  pub Assigns-keeps :
      (k : ℕ) (t : Task)
      → get_elem? ts k ≡ some t
      → assignable now t ≡ false
      → get_elem? ts' k ≡ some t
  Assigns-keeps k t e busy = elim (ℕ_discrete a.at k) [
    | yes here ↦ absurd (ground (arith, a.found, a.free))
    | no there ↦ rw a.marked (ground (arith, get_elem?-set_ne ts a.at k x there))
  ]
