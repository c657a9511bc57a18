-- ===== src/Models/Histories.antt =====
-- The calls that one clerk makes of the kvsrv server, one after another, as the history that
-- kvsrv/test_test.go writes down of them.
use text.Mathlib.TextEquality.{eq_iff}
use text.Mathlib.Text.{◌==◌}
use lab_implementation.Common.{
  ℕ, ◌≡◌, ◌≢◌, refl, sym, ap, subst, ◌∙◌, true, ◌&&◌, List, [], ◌∷◌, none, some, String,
  string_discrete, update, update_self, update_other, ite_elim, arith,
}
use lab_implementation.KvSrv.{modify, KvServer, get, or_empty, start_kv_server}
use lab_implementation.KvSrv.Atomic.{effect}
use lab_implementation.KvSrv.Clerk.{Op, put_op, append_op, handler, args_of}
use lab_implementation.KvSrv.Replies.{handler-first, changed}
use lab_implementation.Models.{Operation, partition_of, init, step, accepts}

pub data Request : Type 0 where
  get_request : (key : String) → Request
  change_request : Op → (key value : String) → (id : ℕ) → Request

abbrev pub answer : Request → KvServer → KvServer × String
answer (get_request key) kv = (kv, get key kv)
answer (change_request op key value id) kv = handler op (args_of modify key value id) kv

-- Get, Put and Append of the tests: a Put logs no output.
abbrev pub logged : Request → String → Operation
logged (get_request key) v = record {
  input = record { op = 0; key = key; value = "" };
  output = record { value = v };
}
logged (change_request put_op key value id) v = record {
  input = record { op = 1; key = key; value = value };
  output = record { value = "" };
}
logged (change_request append_op key value id) v = record {
  input = record { op = 3; key = key; value = value };
  output = record { value = v };
}

abbrev pub history_of : List Request → KvServer → List Operation
history_of [] kv = []
history_of (r ∷ rs) kv = let next = answer r kv in logged r next.1 ∷ history_of rs next.0

-- No id of a change is cached when the change is asked for.
abbrev pub IsNew : Request → KvServer → Type 0
IsNew (get_request _) kv = Unit
IsNew (change_request _ _ _ id) kv = kv.id_map id ≡ none

abbrev pub AllNew : List Request → KvServer → Type 0
AllNew [] kv = Unit
AllNew (r ∷ rs) kv = IsNew r kv × AllNew rs (answer r kv).0

get-or_empty : (key : String) (kv : KvServer) → get key kv ≡ or_empty (kv.store_map key)
unfolding get
get-or_empty key kv = ground arith

-- The key of a request, and the value of any key after it.
abbrev key_of : Request → String
key_of (get_request key) = key
key_of (change_request _ key _ _) = key

module _ (op : Op) (key value : String) (id : ℕ) (kv : KvServer) where
  get-handler :
      (j : String)
      → kv.id_map id ≡ none
      → get j (handler op (args_of modify key value id) kv).0
        ≡ or_empty (
            update string_discrete kv.store_map key
              (some (effect op (or_empty (kv.store_map key)) value))
              j)
  get-handler j n =
      ap (λ x. get j x.0) (handler-first op key value id kv n)
      ∙ get-or_empty j (changed op key value id kv)

  get-handler_self :
      kv.id_map id ≡ none
      → get key (handler op (args_of modify key value id) kv).0 ≡ effect op (get key kv) value
  get-handler_self n =
      get-handler key n
      ∙ (ap or_empty (update_self string_discrete kv.store_map key _)
          ∙ ap (λ old. effect op old value) (sym (get-or_empty key kv)))

  get-handler_other :
      (j : String)
      → kv.id_map id ≡ none
      → key ≢ j
      → get j (handler op (args_of modify key value id) kv).0 ≡ get j kv
  get-handler_other j n d =
      get-handler j n
      ∙ (ap or_empty (update_other string_discrete kv.store_map key _ j d)
          ∙ sym (get-or_empty j kv))

-- A request is accepted by the model of its key, which then holds the key's value on the server.
step-answer :
    (r : Request) (kv : KvServer)
    → IsNew r kv
    → step (get (key_of r) kv) (logged r (answer r kv).1).input (logged r (answer r kv).1).output
      ≡ (true, get (key_of r) (answer r kv).0)
step-answer (get_request key) kv n = λ i. ((eq_iff (get key kv) (get key kv)).1 refl i, get key kv)
step-answer (change_request put_op key value id) kv n =
    λ i. (true, sym (get-handler_self put_op key value id kv n) i)
step-answer (change_request append_op key value id) kv n =
    let same =
      ap (λ x. x.1) (handler-first append_op key value id kv n) ∙ sym (get-or_empty key kv) in
    λ i. (
      (ap (λ s. s == get key kv) same ∙ (eq_iff (get key kv) (get key kv)).1 refl) i,
      sym (get-handler_self append_op key value id kv n) i,
    )

get-answer_other :
    (r : Request) (kv : KvServer) (key : String)
    → IsNew r kv
    → key_of r ≢ key
    → get key (answer r kv).0 ≡ get key kv
get-answer_other (get_request k) kv key n d = refl
get-answer_other (change_request op k v id) kv key n d = get-handler_other op k v id kv key n d

logged-key : (r : Request) (v : String) → (logged r v).input.key ≡ key_of r
logged-key (get_request key) v = refl
logged-key (change_request put_op _ _ _) v = refl
logged-key (change_request append_op _ _ _) v = refl

accepts-partition_of :
    (key : String) (rs : List Request) (kv : KvServer)
    → AllNew rs kv
    → accepts (get key kv) (partition_of key (history_of rs kv)) ≡ true
accepts-partition_of key [] kv n = refl
accepts-partition_of key (r ∷ rs) kv n =
    let v = logged r (answer r kv).1 in
    let i = accepts-partition_of key rs (answer r kv).0 n.1 in
    ite_elim (λ h. accepts (get key kv) h ≡ true) (string_discrete v.input.key key)
      (λ e.
        let same = sym (logged-key r (answer r kv).1) ∙ e in
        let moved =
          subst (λ k. step (get k kv) v.input v.output ≡ (true, get k (answer r kv).0)) same
            (step-answer r kv n.0) in
        ap (λ next. next.0 && accepts next.1 (partition_of key (history_of rs (answer r kv).0)))
          moved
        ∙ i)
      (λ d.
        ap (λ st. accepts st (partition_of key (history_of rs (answer r kv).0)))
          (sym (get-answer_other r kv key n.0 (λ e. d (logged-key r (answer r kv).1 ∙ e))))
        ∙ i)

-- The model accepts, for every key, what the server answers to any sequence of gets, puts and
-- appends on any keys, whose ids are not cached when they are sent, from the start of the server.
pub server_histories_accepted :
    (rs : List Request) (key : String)
    → AllNew rs start_kv_server
    → accepts init (partition_of key (history_of rs start_kv_server)) ≡ true
server_histories_accepted rs key n =
    ap (λ st. accepts st (partition_of key (history_of rs start_kv_server)))
      (sym (get-or_empty key start_kv_server))
    ∙ accepts-partition_of key rs start_kv_server n
