-- ===== src/KvSrv/Retries.antt =====
-- A request that reaches the server twice: before its `Ack`, and after it.
use lab_implementation.Common.{
  ℕ, String, ◌≡◌, ◌≢◌, refl, none, some, List, [], ◌∷◌, update, ℕ_discrete, arith, Option-cases,
  inl, inr,
}
use lab_implementation.KvSrv.{modify, ack, PutAppendArgs, KvServer, or_empty, put, append}
use lab_implementation.KvSrv.Atomic.{visible, effect}
use lab_implementation.KvSrv.Clerk.{Op, handler, args_of}
use lab_implementation.KvSrv.Replies.{changed, cached, handler-first, handler-again, handler-ack}

pub record Request : Type 0 where
  pub op : Op
  pub args : PutAppendArgs

-- The server after requests of any clerks, `Modify` and `Ack` alike.
pub serve : List Request → KvServer → KvServer
serve [] kv = kv
serve (r ∷ rs) kv = serve rs (handler r.op r.args kv).0

abbrev pub AllOther : ℕ → List Request → Type 0
AllOther id [] = Unit
AllOther id (r ∷ rs) = (r.args.id ≢ id) × AllOther id rs

handler-other :
    (op : Op) (args : PutAppendArgs) (kv : KvServer) (id : ℕ)
    → args.id ≢ id
    → (handler op args kv).0.id_map id ≡ kv.id_map id
unfolding handler put append
handler-other op args kv id h = ground arith

serve-other :
    (rs : List Request) (kv : KvServer) (id : ℕ)
    → AllOther id rs
    → (serve rs kv).id_map id ≡ kv.id_map id
unfolding serve
serve-other [] kv id h = refl
serve-other (r ∷ rs) kv id h =
    ground
      (arith, serve-other rs (handler r.op r.args kv).0 id h.1, handler-other r.op r.args kv id h.0)

module _ (op : Op) (key value : String) (id : ℕ) (kv : KvServer) where
  first_caches :
      (w : String) × ((handler op (args_of modify key value id) kv).0.id_map id ≡ some w)
      × (visible op w ≡ visible op (handler op (args_of modify key value id) kv).1)
  first_caches = elim (Option-cases (kv.id_map id)) [
    | inl new ↦ (
      cached op (or_empty (kv.store_map key)) value,
      ground (arith, handler-first op key value id kv new),
      ground (arith, handler-first op key value id kv new),
    )
    | inr (w, old) ↦ (
      w,
      ground (arith, handler-again op key value id kv old),
      ground (arith, handler-again op key value id kv old),
    )
  ]

  -- A `Modify` request that is run again, after any requests with other ids, leaves the server as
  -- it finds it, and to an `Append` it gives the reply of the first run.
  pub retry_is_no_op :
      (rs : List Request)
      → AllOther id rs
      → (let args = args_of modify key value id in
          let kv' = serve rs (handler op args kv).0 in
          ((handler op args kv').0 ≡ kv')
          × (visible op (handler op args kv').1 ≡ visible op (handler op args kv).1))
  retry_is_no_op rs h =
      let (w, e, same) = first_caches in
      let again =
        handler-again op key value id (serve rs (handler op (args_of modify key value id) kv).0)
          {w = w}
          (ground (arith, serve-other rs (handler op (args_of modify key value id) kv).0 id h)) in
      (ground arith, ground arith)

  -- If a copy of a `Modify` request is run after the `Ack` of its id, its change is made twice.
  pub late_copy_repeats :
      kv.id_map id ≡ none
      → (let args = args_of modify key value id in
          let kv' = (handler op (args_of ack key value id) (handler op args kv).0).0 in
          (handler op args kv').0.store_map key
          ≡ some (effect op (effect op (or_empty (kv.store_map key)) value) value))
  late_copy_repeats new =
      let once = changed op key value id kv in
      let freed : KvServer = record once { id_map = update ℕ_discrete once.id_map id none } in
      rw
        (
          handler-first op key value id kv new,
          handler-ack op key value id once,
          handler-first op key value id freed (ground arith),
        )
        (ground arith)
