-- ===== src/Harness/Commits.antt =====
-- config.go, the side of the harness that reads the apply channels: checkLogs, applier, nCommitted,
-- wait and one. Commands are compared by `same`; `none` is log.Fatalf or cfg.t.Fatalf, which end the
-- test, so that applyErr is never set.
pub mod Agreement
pub mod Counting
pub mod Kept
pub mod Agreed
mod Tests
use lab_implementation.Common.{
  ℕ, zero, suc, ◌+◌, ◌%◌, Bool, true, false, not, ◌&&◌, ◌||◌, Option, none, some, List, [], ◌∷◌,
  update, ℕ_discrete, ltb, leb, ◌==◌, if◌then◌else◌,
}

-- A message of an apply channel that carries no command is of no interest here.
pub data ApplyMsg (C : Type 0) : Type 0 where
  command_msg : (command : C) → (command_index : ℕ) → ApplyMsg C
  other_msg : ApplyMsg C

-- cfg.logs, whose first index is the server, and cfg.maxIndex.
pub record Logs (C : Type 0) : Type 0 where
  pub logs : ℕ → ℕ → Option C
  pub max_index : ℕ

-- What wait returns: -1, or the entry.
pub data WaitEnd (C : Type 0) : Type 0 where
  moved_on : WaitEnd C
  decided : Option C → WaitEnd C

-- What nCommitted sees: it takes the lock once for each server, so the logs are those at the moment at
-- which it reads server i, and others may run between two reads.
abbrev pub Look : Type 0 → Type 0
Look C = ℕ → Logs C

-- One round of one: what Start gives on a server, `none` where there is no Raft, it is not connected
-- or Start refuses, with `some none` for the index -1, and what nCommitted sees each time while one
-- waits.
pub record Attempt (C : Type 0) : Type 0 where
  pub started : ℕ → Option (Option ℕ)
  pub polls : List (Look C)

pub data Poll : Type 0 where
  agreed poll_failed no_agreement : Poll

-- one_stops is the return of -1, after the test has finished.
pub data OneEnd : Type 0 where
  one_returns : (index : ℕ) → OneEnd
  one_stops one_fails : OneEnd

module _ {C : Type 0} where
  abbrev pub no_logs : Logs C
  no_logs = record { logs = λ _ _. none; max_index = 0 }

  -- cfg.logs[i] as it is when server i is read
  abbrev pub read_logs : Look C → ℕ → ℕ → Option C
  read_logs look i = (look i).logs i

  abbrev pub has : Option C → Bool
  has none = false
  has (some _) = true

  -- _, prevok := cfg.logs[i][index-1], where no log has the key -1
  abbrev pub prev_ok : (ℕ → Option C) → ℕ → Bool
  prev_ok log zero = false
  prev_ok log (suc index) = has (log index)

-- The loop of one over the servers, beginning with the one after `starts`.
abbrev pub find_server : ℕ → ℕ → ℕ → (ℕ → Option (Option ℕ)) → Option ℕ × ℕ
find_server zero n starts started = (none, starts)
find_server (suc k) n starts started =
    let next = (starts + 1) % n in
    let rest = find_server k n next started in
    elim (started next) [ some index ↦ (index, next) | none ↦ rest ]

-- What one makes of the results of rf.Start.
abbrev pub on_start : Option ℕ × Option ℕ × Bool → Option (Option ℕ)
on_start (index1, term, ok) = if ok then some index1 else none

abbrev pub on_attempt : Bool → ℕ → Poll → OneEnd → OneEnd
on_attempt retry index agreed rest = one_returns index
on_attempt retry index poll_failed rest = one_fails
on_attempt true index no_agreement rest = rest
on_attempt false index no_agreement rest = one_fails

module _ {C : Type 0} (same : Discrete C) where
  abbrev pub is_same : C → C → Bool
  is_same a b = elim (same a b) [ yes _ ↦ true | no _ ↦ false ]

  -- oldok && old != v
  abbrev pub differs : Option C → C → Bool
  differs none v = false
  differs (some old) v = not (is_same old v)

  -- Whether the loop over the first n servers sets err_msg.
  abbrev pub conflicts : ℕ → (ℕ → ℕ → Option C) → ℕ → C → Bool
  conflicts zero logs index v = false
  conflicts (suc n) logs index v = conflicts n logs index v || differs (logs n index) v

  abbrev pub note_command : ℕ → C → ℕ → Logs C → Logs C
  note_command i v index s = record {
    logs = update ℕ_discrete s.logs i (update ℕ_discrete (s.logs i) index (some v));
    max_index = if ltb s.max_index index then index else s.max_index;
  }

  -- checkLogs: whether there is an error, prevok, and the logs.
  abbrev pub check_logs : ℕ → ℕ → C → ℕ → Logs C → Bool × Bool × Logs C
  check_logs n i v index s =
      (conflicts n s.logs index v, prev_ok (s.logs i) index, note_command i v index s)

  abbrev pub judge : ℕ → Bool × Bool × Logs C → Option (Logs C)
  judge index (err, prevok, s) = if err || (ltb 1 index && not prevok) then none else some s

  -- What applier does with one message.
  abbrev pub apply_msg : ℕ → ℕ → ApplyMsg C → Logs C → Option (Logs C)
  apply_msg n i other_msg s = some s
  apply_msg n i (command_msg v index) s = judge index (check_logs n i v index s)

  abbrev pub go_on : (Logs C → Option (Logs C)) → Option (Logs C) → Option (Logs C)
  go_on f none = none
  go_on f (some s) = f s

  -- The messages of all servers, in the order in which the appliers take the lock.
  abbrev pub apply_all : ℕ → List (ℕ × ApplyMsg C) → Logs C → Option (Logs C)
  apply_all n [] s = some s
  apply_all n (m ∷ ms) s = go_on (apply_all n ms) (apply_msg n m.0 m.1 s)

  -- One round of the loop of nCommitted, on the count and cmd.
  abbrev pub count_entry : Option C → ℕ × Option C → Option (ℕ × Option C)
  count_entry none (count, cmd) = some (count, cmd)
  count_entry (some cmd1) (count, none) = if ltb 0 count then none else some (count + 1, some cmd1)
  count_entry (some cmd1) (count, some cmd) =
      if ltb 0 count && not (is_same cmd cmd1) then none else some (count + 1, some cmd1)

  abbrev pub count_from :
      (ℕ → ℕ → Option C) → ℕ → ℕ → ℕ → Option (ℕ × Option C) → Option (ℕ × Option C)
  count_from logs index zero i acc = acc
  count_from logs index (suc k) i none = none
  count_from logs index (suc k) i (some acc) =
      count_from logs index k (suc i) (count_entry (logs i index) acc)

  -- nCommitted: how many servers have an entry, and the entry.
  abbrev pub n_committed : ℕ → ℕ → Look C → Option (ℕ × Option C)
  n_committed n index look = count_from (read_logs look) index n 0 (some (0, none))

  abbrev pub on_last_count : ℕ → Option (ℕ × Option C) → Option (WaitEnd C)
  on_last_count wanted none = none
  on_last_count wanted (some (nd, cmd)) = if ltb nd wanted then none else some (decided cmd)

  -- A round of wait: the loop is left when enough servers have the entry, and wait returns -1 when
  -- some server has a later term.
  abbrev pub on_count :
      ℕ
      → Bool
      → Option (ℕ × Option C)
      → Option (WaitEnd C)
      → Option (WaitEnd C)
      → Option (WaitEnd C)
  on_count wanted moved none after_loop rest = none
  on_count wanted moved (some (nd, _)) after_loop rest =
      if leb wanted nd then after_loop else if moved then some moved_on else rest

  -- wait: what each round sees, whether a server has moved on, and what is seen at the end.
  abbrev pub wait : ℕ → ℕ → ℕ → Look C → List (Look C × Bool) → Option (WaitEnd C)
  wait n index wanted final [] = on_last_count wanted (n_committed n index final)
  wait n index wanted final ((s, moved) ∷ rounds) =
      on_count wanted moved (n_committed n index s)
        (on_last_count wanted (n_committed n index final)) (wait n index wanted final rounds)

  abbrev pub right_entry : C → Option C → Bool
  right_entry cmd none = false
  right_entry cmd (some cmd1) = is_same cmd1 cmd

  abbrev pub on_poll : ℕ → C → Option (ℕ × Option C) → Poll → Poll
  on_poll expected cmd none rest = poll_failed
  on_poll expected cmd (some (nd, cmd1)) rest =
      if ltb 0 nd && (leb expected nd && right_entry cmd cmd1) then agreed else rest

  -- The two seconds in which one waits for the agreement.
  abbrev pub poll_all : ℕ → ℕ → ℕ → C → List (Look C) → Poll
  poll_all n index expected cmd [] = no_agreement
  poll_all n index expected cmd (s ∷ ss) =
      on_poll expected cmd (n_committed n index s) (poll_all n index expected cmd ss)

  -- one; when the attempts are over, ten seconds have passed or the test has finished, and `finished`
  -- is what checkFinished says then.
  abbrev pub one : Bool → ℕ → C → ℕ → Bool → ℕ → List (Attempt C) → OneEnd
  one finished n cmd expected retry starts [] = if finished then one_stops else one_fails
  one finished n cmd expected retry starts (a ∷ attempts) =
      let (index, next) = find_server n n starts a.started in
      let rest = one finished n cmd expected retry next attempts in
      elim index [
        | none ↦ rest
        | some i ↦ on_attempt retry i (poll_all n i expected cmd a.polls) rest
      ]
