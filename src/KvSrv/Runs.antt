-- ===== src/KvSrv/Runs.antt =====
-- A clerk alone with the server: its loops end once two calls have been answered.
use lab_implementation.Common.{
  ℕ, suc, ◌≤◌, String, ◌≡◌, refl, ap, none, some, List, [], ◌∷◌, update, ℕ_discrete,
  string_discrete, arith, fun_ext, ◌∙◌,
}
use lab_implementation.KvSrv.{KvServer, or_empty}
use lab_implementation.KvSrv.Atomic.{visible, effect}
use lab_implementation.KvSrv.Clerk.{
  Outcome, request_lost, reply_lost, delivered, Op, modifying, acking, returned, clerk_run,
}
use lab_implementation.KvSrv.Replies.{changed, cached, handler-first, handler-again, handler-ack}

-- How many calls are answered.
abbrev pub deliveries : List Outcome → ℕ
deliveries [] = 0
deliveries (request_lost ∷ os) = deliveries os
deliveries (reply_lost ∷ os) = deliveries os
deliveries (delivered ∷ os) = suc (deliveries os)

abbrev forget : ℕ → KvServer → KvServer
forget id kv = record kv { id_map = update ℕ_discrete kv.id_map id none }

forget-forget : (id : ℕ) (kv : KvServer) → forget id (forget id kv) ≡ forget id kv
forget-forget id kv = ap (λ m. record kv { id_map = m }) (fun_ext (λ x. ground arith))

module _ (op : Op) (key value : String) (id : ℕ) where
  returned-run :
      (os : List Outcome) (kv : KvServer) (r : String)
      → clerk_run os kv (returned op r) ≡ (kv, returned op r)
  unfolding clerk_run
  returned-run [] kv r = refl
  returned-run (o ∷ os) kv r = returned-run os kv r

  acking-run :
      (os : List Outcome) (kv : KvServer) (r : String)
      → 1 ≤ deliveries os
      → clerk_run os kv (acking op key value id r) ≡ (forget id kv, returned op r)
  unfolding clerk_run
  acking-run [] kv r h = absurd (omega arith)
  acking-run (request_lost ∷ os) kv r h = acking-run os kv r h
  acking-run (reply_lost ∷ os) kv r h =
      rw (handler-ack op key value id kv)
        (acking-run os (forget id kv) r h ∙ ap (λ k. (k, returned op r)) (forget-forget id kv))
  acking-run (delivered ∷ os) kv r h =
      rw (handler-ack op key value id kv) (returned-run os (forget id kv) r)

  cached-run :
      (os : List Outcome) (kv : KvServer) (w : String)
      → kv.id_map id ≡ some w
      → 2 ≤ deliveries os
      → clerk_run os kv (modifying op key value id) ≡ (forget id kv, returned op w)
  unfolding clerk_run
  cached-run [] kv w e h = absurd (omega arith)
  cached-run (request_lost ∷ os) kv w e h = cached-run os kv w e h
  cached-run (reply_lost ∷ os) kv w e h =
      rw (handler-again op key value id kv e) (cached-run os kv w e h)
  cached-run (delivered ∷ os) kv w e h =
      rw (handler-again op key value id kv e) (acking-run os kv w (omega arith))

  forget-changed :
      (kv : KvServer)
      → kv.id_map id ≡ none
      → forget id (changed op key value id kv) ≡ record kv {
        store_map =
            update string_discrete kv.store_map key
              (some (effect op (or_empty (kv.store_map key)) value));
      }
  forget-changed kv new =
      ap
        (λ m. record {
          store_map =
              update string_discrete kv.store_map key
                (some (effect op (or_empty (kv.store_map key)) value));
          id_map = m;
        })
        (fun_ext (λ x. ground arith))

  -- From a server with no reply cached for its id, the two loops of `PutAppend` end as soon as two
  -- calls are answered, whatever calls are lost before, between and after: the key has been changed
  -- once, the cached replies are as before, and `Append` returns the value that the key had.
  pub put_append_completes :
      (os : List Outcome) (kv : KvServer)
      → kv.id_map id ≡ none
      → 2 ≤ deliveries os
      → (r : String) × (clerk_run os kv (modifying op key value id) ≡ (
        record kv {
          store_map =
              update string_discrete kv.store_map key
                (some (effect op (or_empty (kv.store_map key)) value));
        },
        returned op r,
      ))
        × (visible op r ≡ visible op (or_empty (kv.store_map key)))
  unfolding clerk_run
  put_append_completes [] kv new h = absurd (omega arith)
  put_append_completes (request_lost ∷ os) kv new h = put_append_completes os kv new h
  put_append_completes (reply_lost ∷ os) kv new h =
      let old = or_empty (kv.store_map key) in
      rw (handler-first op key value id kv new) (
        cached op old value,
        cached-run os (changed op key value id kv) (cached op old value) (ground arith) h
            ∙ ap (λ k. (k, returned op (cached op old value))) (forget-changed kv new),
        ground arith,
      )
  put_append_completes (delivered ∷ os) kv new h =
      let old = or_empty (kv.store_map key) in
      rw (handler-first op key value id kv new) (
        old,
        acking-run os (changed op key value id kv) old (omega arith)
            ∙ ap (λ k. (k, returned op old)) (forget-changed kv new),
        refl,
      )
