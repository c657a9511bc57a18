-- ===== src/Harness/Links/Disks.antt =====
-- config.go, crash1 and start1: which persister a new instance gets.
use lab_implementation.Common.{
  Bool, ℕ, ◌≤◌, ◌<◌, ◌≡◌, refl, sym, subst, ◌∙◌, Option, none, some, List, [], ◌∷◌, String, update,
  update_self, update_other, ℕ_discrete, arith,
}
use lab_implementation.Raft.{make}
use lab_implementation.Labrpc.{delete_server, add_server}
use lab_implementation.Harness.Links.{
  Disk, Harness, disconnect, new_disk, copy_disk, copy_saved, crash1, fresh_disk, launch, with_ends,
  start1,
}
use lab_implementation.Harness.Links.Live.Start.{start1-some, crash1-n}

pub record Storage : Type 0 where
  pub saved : ℕ → Option ℕ
  pub disks : ℕ → Disk
  pub next_disk : ℕ

abbrev pub storage : Harness → Storage
storage cfg = record { saved = cfg.saved; disks = cfg.disks; next_disk = cfg.next_disk }

-- The persister of server i was made after the first b, and has the content d.
record Keeps (i : ℕ) (d : Disk) (b : ℕ) (s : Storage) : Type 0 where
  at : ℕ
  saved_at : s.saved i ≡ some at
  young : b ≤ at
  known : at < s.next_disk
  content : s.disks at ≡ d

-- Save by instances that have persisters of these addresses.
abbrev pub save_all : List (ℕ × Disk) → Harness → Harness
save_all [] cfg = cfg
save_all ((p, d) ∷ l) cfg = save_all l (record cfg { disks = update ℕ_discrete cfg.disks p d })

abbrev pub AllBelow : ℕ → List (ℕ × Disk) → Type 0
AllBelow b [] = Unit {0}
AllBelow b ((p, d) ∷ l) = (p < b) × AllBelow b l

module _ (i : ℕ) (d : Disk) where
  -- A copy is younger than everything before it.
  Keeps-new_disk :
      (b : ℕ) (cfg : Harness) → b ≤ cfg.next_disk → Keeps i d b (storage (new_disk i d cfg))
  Keeps-new_disk b cfg l = record {
    at = cfg.next_disk;
    saved_at = update_self ℕ_discrete cfg.saved i (some cfg.next_disk);
    young = l;
    known = omega arith;
    content = update_self ℕ_discrete cfg.disks cfg.next_disk d;
  }

  Keeps-copy_saved :
      (a b : ℕ) (cfg : Harness)
      → Keeps i d a (storage cfg)
      → b ≤ cfg.next_disk
      → Keeps i d b (storage (copy_saved i cfg))
  Keeps-copy_saved a b cfg k l =
      subst (λ o. Keeps i d b (storage (copy_disk i o cfg))) (sym k.saved_at)
        (subst (λ x. Keeps i d b (storage (new_disk i x cfg))) (sym k.content)
          (Keeps-new_disk b cfg l))

  Keeps-crash1 :
      (a b : ℕ) (cfg : Harness)
      → Keeps i d a (storage cfg)
      → b ≤ cfg.next_disk
      → Keeps i d b (storage (crash1 i cfg))
  Keeps-crash1 a b cfg k l =
      let off = disconnect i cfg in
      let gone = record off { net = delete_server i off.net } in
      let once = Keeps-copy_saved a b gone k l in
      Keeps-copy_saved b b
        (record (copy_saved i gone) { rafts = update ℕ_discrete (copy_saved i gone).rafts i none })
        once (omega (arith, once.young, once.known))

  Keeps-save_all :
      (b : ℕ) (l : List (ℕ × Disk)) (cfg : Harness)
      → AllBelow b l
      → Keeps i d b (storage cfg)
      → Keeps i d b (storage (save_all l cfg))
  Keeps-save_all b [] cfg below k = k
  Keeps-save_all b ((p, e) ∷ l) cfg below k =
      Keeps-save_all b l (record cfg { disks = update ℕ_discrete cfg.disks p e }) below.1
        (record {
          at = k.at;
          saved_at = k.saved_at;
          young = k.young;
          known = k.known;
          content =
              update_other ℕ_discrete cfg.disks p e k.at (omega (arith, below.0, k.young))
              ∙ k.content;
        })

-- The new instance runs on its own persister, which has the content d.
pub record Restored (n i : ℕ) (d : Disk) (b : ℕ) (cfg : Harness) : Type 0 where
  pub at : ℕ
  pub saved_at : cfg.saved i ≡ some at
  pub running : cfg.rafts i ≡ some (record { raft = make n i; disk = at })
  pub young : b ≤ at
  pub content : cfg.disks at ≡ d

-- launch after the persister has been made.
abbrev launch_on : ℕ → ℕ → ℕ → Harness → Harness
launch_on i srv p ready = record ready {
  rafts = update ℕ_discrete ready.rafts i (some record { raft = make ready.n i; disk = p });
  net = add_server i srv ready.net;
}

Restored-launch :
    (i srv : ℕ) (d : Disk) (b : ℕ) (cfg : Harness)
    → Keeps i d b (storage cfg)
    → Restored cfg.n i d b (launch i srv cfg)
Restored-launch i srv d b cfg k =
    subst (λ o. Restored cfg.n i d b (launch_on i srv cfg.next_disk (fresh_disk i o cfg)))
      (sym k.saved_at)
      (subst (λ x. Restored cfg.n i d b (launch_on i srv cfg.next_disk (new_disk i x cfg)))
        (sym k.content)
        (record {
          at = cfg.next_disk;
          saved_at = update_self ℕ_discrete cfg.saved i (some cfg.next_disk);
          running =
              update_self ℕ_discrete cfg.rafts i
                (some (record { raft = make cfg.n i; disk = cfg.next_disk }));
          young = omega (arith, k.young, k.known);
          content = update_self ℕ_discrete cfg.disks cfg.next_disk d;
        }))

save_all-n : (l : List (ℕ × Disk)) (cfg : Harness) → (save_all l cfg).n ≡ cfg.n
save_all-n [] cfg = refl
save_all-n ((p, e) ∷ l) cfg = save_all-n l (record cfg { disks = update ℕ_discrete cfg.disks p e })

-- crash1 and, later, start1 of a server that has a persister: whatever is saved in between to the
-- persisters that were there before the crash, also to that of the crashed instance, the new instance
-- runs on the persister that cfg.saved has for it, which was made after all those and holds both
-- slices that the persister of the server held at the crash.
pub start1_restores :
    (ingested : List ℕ → Bool) (i a : ℕ) (name : ℕ → String) (srv : ℕ) (late : List (ℕ × Disk))
    (cfg new : Harness)
    → cfg.saved i ≡ some a
    → a < cfg.next_disk
    → AllBelow cfg.next_disk late
    → start1 ingested i name srv (save_all late (crash1 i cfg)) ≡ some new
    → Restored cfg.n i (cfg.disks a) cfg.next_disk new
start1_restores ingested i a name srv late cfg new saved known below h =
    let d = cfg.disks a in
    let b = cfg.next_disk in
    let mid = save_all late (crash1 i cfg) in
    let crashed =
      Keeps-crash1 i d 0 b cfg
        (record { at = a; saved_at = saved; young = omega arith; known = known; content = refl })
        (omega arith) in
    let k = Keeps-save_all i d b late (crash1 i cfg) below crashed in
    let down = Keeps-crash1 i d b b mid k (omega (arith, k.young, k.known)) in
    let (net, _, same) = start1-some ingested i name srv mid new h in
    let n_same = crash1-n i mid ∙ save_all-n late (crash1 i cfg) ∙ crash1-n i cfg in
    subst (Restored cfg.n i d b) same (
      subst (λ n. Restored n i d b (launch i srv (with_ends i name (crash1 i mid) net))) n_same
        (Restored-launch i srv d b (with_ends i name (crash1 i mid) net) down))
