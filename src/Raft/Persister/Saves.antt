-- ===== src/Raft/Persister/Saves.antt =====
-- raft/persister.go: what the two Read functions give, whatever the callers do with their slices.
use mathlib.Core.Bool.{false≢true}
use lab_implementation.Common.{
  ℕ, suc, ◌<◌, ◌≡◌, ◌≢◌, refl, sym, ap, subst, ◌∙◌, fun_ext, length, Bool, true, false, List, [],
  ◌∷◌, Option, none, some, update, update_self, update_other, ℕ_discrete, if_true, if_false,
  Bool-cases, inl, inr, arith,
}
use lab_implementation.Raft.Persister.{
  Persister, make_persister, World, bytes_of, clone, add_persister, save, read_raft_state,
  read_snapshot, raft_state_size, snapshot_size, overwrite, PersisterOp, make_op, copy_op, save_op,
  read_raft_state_op, read_snapshot_op, raft_state_size_op, snapshot_size_op, allocate_op,
  overwrite_op, run, Known, Makes,
}

abbrev Owned : World → Option ℕ → Type 0
Owned w none = Unit
Owned w (some a) = (a < w.next) × (w.held a ≡ false)

-- No persister has an array that a caller can write.
abbrev pub OwnedBy : World → Persister → Type 0
OwnedBy w ps = Owned w ps.raftstate × Owned w ps.snapshot

abbrev pub Inv : World → Type 0
Inv w = (p : ℕ) → OwnedBy w (w.persister p)

-- What a persister holds, as two byte strings.
abbrev pub stored_in : (ℕ → List ℕ) → Persister → List ℕ × List ℕ
stored_in cell ps = (bytes_of cell ps.raftstate, bytes_of cell ps.snapshot)

abbrev pub stored : World → ℕ → List ℕ × List ℕ
stored w p = stored_in w.cell (w.persister p)

-- For each persister the two arguments of its last Save, as they were when it was called; a copy
-- begins with those of the persister that it is made of.
abbrev pub saved_by : PersisterOp → World → (ℕ → List ℕ × List ℕ) → ℕ → List ℕ × List ℕ
saved_by (save_op p raftstate snapshot) w last =
    update ℕ_discrete last p (bytes_of w.cell raftstate, bytes_of w.cell snapshot)
saved_by make_op w last = update ℕ_discrete last w.next_persister ([], [])
saved_by (copy_op p) w last = update ℕ_discrete last w.next_persister (last p)
saved_by _ w last = last

abbrev pub run_all : List PersisterOp → World → World
run_all [] w = w
run_all (op ∷ ops) w = run_all ops (run op w)

abbrev pub last_saved : List PersisterOp → World → (ℕ → List ℕ × List ℕ) → ℕ → List ℕ × List ℕ
last_saved [] w last = last
last_saved (op ∷ ops) w last = last_saved ops (run op w) (saved_by op w last)

abbrev pub AllMake : List PersisterOp → World → Type 0
AllMake [] w = Unit
AllMake (op ∷ ops) w = Makes op w × AllMake ops (run op w)

bytes_of-new :
    (w : World) (o : Option ℕ) (v : List ℕ)
    → Known w o
    → bytes_of (update ℕ_discrete w.cell w.next v) o ≡ bytes_of w.cell o
bytes_of-new w none v k = refl
bytes_of-new w (some a) v k = update_other ℕ_discrete w.cell w.next v a (λ e. omega (arith, e, k))

Owned-Known : (w : World) (o : Option ℕ) → Owned w o → Known w o
Owned-Known w none k = tt
Owned-Known w (some a) k = k.0

bytes_of-overwrite :
    (w : World) (o : Option ℕ) (a : ℕ) (v : List ℕ)
    → Owned w o
    → bytes_of (overwrite a v w).cell o ≡ bytes_of w.cell o
bytes_of-overwrite w none a v k = refl
bytes_of-overwrite w (some b) a v k = elim (Bool-cases (w.held a)) [
  | inl t ↦
      ap (λ (c : ℕ → List ℕ). c b) (if_true _ _ t)
      ∙ update_other ℕ_discrete w.cell a v b (λ e. false≢true (sym k.1 ∙ (ap w.held (sym e) ∙ t)))
  | inr f ↦ ap (λ (c : ℕ → List ℕ). c b) (if_false _ _ f)
]

stored-new :
    (w : World) (ps : Persister) (v : List ℕ)
    → OwnedBy w ps
    → stored_in (update ℕ_discrete w.cell w.next v) ps ≡ stored_in w.cell ps
stored-new w ps v i = λ j. (
  bytes_of-new w ps.raftstate v (Owned-Known w ps.raftstate i.0) j,
  bytes_of-new w ps.snapshot v (Owned-Known w ps.snapshot i.1) j,
)

Owned-new :
    (w : World) (o : Option ℕ) (b : Bool) (v : List ℕ)
    → Owned w o
    → Owned
        (record w {
          cell = update ℕ_discrete w.cell w.next v;
          held = update ℕ_discrete w.held w.next b;
          next = suc w.next;
        })
        o
Owned-new w none b v k = tt
Owned-new w (some a) b v k = (
  omega (arith, k.0),
  update_other ℕ_discrete w.held w.next b a (λ e. omega (arith, e, k.0)) ∙ k.1,
)

-- One persister is written, and the others are as they were.
written :
    {A : Type 0} (f g : ℕ → A) (p q : ℕ) (v : A)
    → f p ≡ v
    → ((p ≢ q) → f q ≡ g q)
    → f q ≡ update ℕ_discrete g p v q
written f g p q v here there = elim (ℕ_discrete p q) [
  | yes e ↦
      subst (λ x. f x ≡ update ℕ_discrete g p v x) e (here ∙ sym (update_self ℕ_discrete g p v))
  | no n ↦ there n ∙ sym (update_other ℕ_discrete g p v q n)
]

stored-save :
    (p q : ℕ) (r s : Option ℕ) (w : World)
    → Inv w
    → Known w s
    → stored (save p r s w) q
      ≡ update ℕ_discrete (stored w) p (bytes_of w.cell r, bytes_of w.cell s) q
stored-save p q r s w i m =
    let w1 = clone r w in
    let w2 = clone s w1 in
    let ps : Persister = record { raftstate = some w.next; snapshot = some w1.next } in
    written (stored (save p r s w)) (stored w) p q (bytes_of w.cell r, bytes_of w.cell s)
      (ap (stored_in w2.cell) (update_self ℕ_discrete w2.persister p ps) ∙ λ j. (
        (update_other ℕ_discrete w1.cell (suc w.next) (bytes_of w1.cell s) w.next
                (λ e. omega (arith, e))
              ∙ update_self ℕ_discrete w.cell w.next (bytes_of w.cell r))
            j,
        (update_self ℕ_discrete w1.cell (suc w.next) (bytes_of w1.cell s)
              ∙ bytes_of-new w s (bytes_of w.cell r) m)
            j,
      ))
      λ n.
        ap (stored_in w2.cell) (update_other ℕ_discrete w2.persister p ps q n)
        ∙ stored-new w1 (w.persister q) (bytes_of w1.cell s) (
          Owned-new w (w.persister q).raftstate false (bytes_of w.cell r) (i q).0,
          Owned-new w (w.persister q).snapshot false (bytes_of w.cell r) (i q).1,
        )
        ∙ stored-new w (w.persister q) (bytes_of w.cell r) (i q)

stored-add :
    (q : ℕ) (ps : Persister) (w : World)
    → stored (add_persister ps w) q
      ≡ update ℕ_discrete (stored w) w.next_persister (stored_in w.cell ps) q
stored-add q ps w =
    written (stored (add_persister ps w)) (stored w) w.next_persister q (stored_in w.cell ps)
      (ap (stored_in w.cell) (update_self ℕ_discrete w.persister w.next_persister ps))
      (λ n. ap (stored_in w.cell) (update_other ℕ_discrete w.persister w.next_persister ps q n))

stored-run :
    (op : PersisterOp) (w : World) (q : ℕ)
    → Inv w
    → Makes op w
    → stored (run op w) q ≡ saved_by op w (stored w) q
stored-run make_op w q i m = stored-add q make_persister w
stored-run (copy_op p) w q i m = stored-add q (w.persister p) w
stored-run (save_op p r s) w q i m = stored-save p q r s w i m.2
stored-run (read_raft_state_op p) w q i m =
    stored-new w (w.persister q) (bytes_of w.cell (w.persister p).raftstate) (i q)
stored-run (read_snapshot_op p) w q i m =
    stored-new w (w.persister q) (bytes_of w.cell (w.persister p).snapshot) (i q)
stored-run (raft_state_size_op p) w q i m = refl
stored-run (snapshot_size_op p) w q i m = refl
stored-run (allocate_op v) w q i m = stored-new w (w.persister q) v (i q)
stored-run (overwrite_op a v) w q i m = λ j. (
  bytes_of-overwrite w (w.persister q).raftstate a v (i q).0 j,
  bytes_of-overwrite w (w.persister q).snapshot a v (i q).1 j,
)

OwnedBy-new :
    (w : World) (ps : Persister) (b : Bool) (v : List ℕ)
    → OwnedBy w ps
    → OwnedBy
        (record w {
          cell = update ℕ_discrete w.cell w.next v;
          held = update ℕ_discrete w.held w.next b;
          next = suc w.next;
        })
        ps
OwnedBy-new w ps b v k = (Owned-new w ps.raftstate b v k.0, Owned-new w ps.snapshot b v k.1)

OwnedBy-update :
    (w : World) (f : ℕ → Persister) (p q : ℕ) (ps : Persister)
    → OwnedBy w ps
    → OwnedBy w (f q)
    → OwnedBy w (update ℕ_discrete f p ps q)
OwnedBy-update w f p q ps h k = elim (ℕ_discrete p q) [
  | yes e ↦
      subst (OwnedBy w)
        (sym (ap (update ℕ_discrete f p ps) (sym e) ∙ update_self ℕ_discrete f p ps)) h
  | no n ↦ subst (OwnedBy w) (sym (update_other ℕ_discrete f p ps q n)) k
]

-- What matters is which arrays are there and who holds them.
Owned-same :
    (w w' : World) (o : Option ℕ) → w'.next ≡ w.next → w'.held ≡ w.held → Owned w o → Owned w' o
Owned-same w w' none n h k = tt
Owned-same w w' (some a) n h k = (omega (arith, n, k.0), ap (λ f. f a) h ∙ k.1)

OwnedBy-same :
    (w w' : World) (ps : Persister)
    → w'.next ≡ w.next
    → w'.held ≡ w.held
    → OwnedBy w ps
    → OwnedBy w' ps
OwnedBy-same w w' ps n h k =
    (Owned-same w w' ps.raftstate n h k.0, Owned-same w w' ps.snapshot n h k.1)

add_persister-Inv : (ps : Persister) (w : World) → OwnedBy w ps → Inv w → Inv (add_persister ps w)
add_persister-Inv ps w h i q =
    OwnedBy-same w (add_persister ps w) (update ℕ_discrete w.persister w.next_persister ps q) refl
      refl (OwnedBy-update w w.persister w.next_persister q ps h (i q))

save-Inv : (p : ℕ) (r s : Option ℕ) (w : World) → Inv w → Inv (save p r s w)
save-Inv p r s w i q =
    let w1 = clone r w in
    let w2 = clone s w1 in
    let ps : Persister = record { raftstate = some w.next; snapshot = some w1.next } in
    OwnedBy-same w2 (save p r s w) (update ℕ_discrete w2.persister p ps q) refl refl (
      OwnedBy-update w2 w2.persister p q ps
        (
          (
            omega arith,
            update_other ℕ_discrete w1.held (suc w.next) false w.next (λ e. omega (arith, e))
                ∙ update_self ℕ_discrete w.held w.next false,
          ),
          (omega arith, update_self ℕ_discrete w1.held (suc w.next) false),
        )
        (OwnedBy-new w1 (w.persister q) false (bytes_of w1.cell s)
          (OwnedBy-new w (w.persister q) false (bytes_of w.cell r) (i q))))

run-Inv : (op : PersisterOp) (w : World) → Inv w → Inv (run op w)
run-Inv make_op w i = add_persister-Inv make_persister w (tt, tt) i
run-Inv (copy_op p) w i = add_persister-Inv (w.persister p) w (i p) i
run-Inv (save_op p r s) w i = save-Inv p r s w i
run-Inv (read_raft_state_op p) w i =
    λ q. OwnedBy-new w (w.persister q) true (bytes_of w.cell (w.persister p).raftstate) (i q)
run-Inv (read_snapshot_op p) w i =
    λ q. OwnedBy-new w (w.persister q) true (bytes_of w.cell (w.persister p).snapshot) (i q)
run-Inv (raft_state_size_op p) w i = i
run-Inv (snapshot_size_op p) w i = i
run-Inv (allocate_op v) w i = λ q. OwnedBy-new w (w.persister q) true v (i q)
run-Inv (overwrite_op a v) w i =
    λ q. OwnedBy-same w (overwrite a v w) (w.persister q) refl refl (i q)

stored-run_all :
    (ops : List PersisterOp) (w : World)
    → Inv w
    → AllMake ops w
    → stored (run_all ops w) ≡ last_saved ops w (stored w)
stored-run_all [] w i m = refl
stored-run_all (op ∷ ops) w i m =
    stored-run_all ops (run op w) (run-Inv op w i) m.1
    ∙ ap (last_saved ops (run op w)) (fun_ext λ q. stored-run op w q i m.0)

-- One persister, which MakePersister has made.
abbrev pub fresh_world : World
fresh_world = record {
  cell = λ _. [];
  next = 0;
  held = λ _. false;
  persister = λ _. make_persister;
  next_persister = 1;
}

-- After any operations of any number of persisters, copies among them, and of their callers, each on a
-- persister that exists and each Save of slices that exist: the two Read functions of a persister give
-- the bytes that the arguments of its last Save had when it was called, or those that Copy found in
-- the persister that it was made of if nothing has been saved to it since, or no bytes if it is new;
-- whatever the callers have written into the slices that they passed to Save or got from the Read
-- functions, and whatever has been saved to other persisters, copies that share the arrays among
-- them. The two sizes are the lengths of these byte strings.
pub reads_give_last_saved :
    (ops : List PersisterOp) (p : ℕ)
    → AllMake ops fresh_world
    → p < (run_all ops fresh_world).next_persister
    → let w = run_all ops fresh_world in
      let last = last_saved ops fresh_world (λ _. ([], [])) p in
      ((read_raft_state p w).cell w.next ≡ last.0)
      × ((read_snapshot p w).cell w.next ≡ last.1)
      × (raft_state_size p w ≡ length last.0)
      × (snapshot_size p w ≡ length last.1)
reads_give_last_saved ops p m there =
    let w = run_all ops fresh_world in
    let same = ap (λ f. f p) (stored-run_all ops fresh_world (λ _. (tt, tt)) m) in
    (
      update_self ℕ_discrete w.cell w.next (bytes_of w.cell (w.persister p).raftstate)
          ∙ ap (λ x. x.0) same,
      update_self ℕ_discrete w.cell w.next (bytes_of w.cell (w.persister p).snapshot)
          ∙ ap (λ x. x.1) same,
      ap (λ x. length x.0) same,
      ap (λ x. length x.1) same,
    )
