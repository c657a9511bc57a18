-- ===== src/Labrpc/Registry.antt =====
-- labrpc.go: the tables of ends, servers and connections, and the totals.
use lab_implementation.Common.{
  ℕ, ◌+◌, ◌%◌, ◌^◌, ◌≡◌, ◌≢◌, refl, sym, ap, subst, ◌∙◌, Bool, true, false, Option, none, some,
  String, List, [], ◌∷◌, length, update_self, update_other, string_discrete, ℕ_discrete, arith,
  if_true, if_false, if◌then◌else◌,
}
use lab_implementation.Labrpc.{
  ReqMsg, Network, ClientEnd, take_request, new_end, make_end, drop_end, delete_end, add_server,
  delete_server, connect, enable, is_server_dead, lookup_server,
}
use lab_implementation.Labrpc.Process.{route_of, route_to}

-- Every request of a list, taken in turn.
abbrev pub take_requests : List ReqMsg → Network → Network
take_requests [] rn = rn
take_requests (req ∷ reqs) rn = take_requests reqs (take_request req rn)

abbrev pub total_length : List ReqMsg → ℕ
total_length [] = 0
total_length (req ∷ reqs) = length req.args + total_length reqs

-- After any sequence of requests the two totals are what they were, plus the number of the requests
-- and the bytes of their arguments, modulo the 2^32 and the 2^64 of their machine integers.
pub totals_add_up :
    (reqs : List ReqMsg) (rn : Network)
    → ((take_requests reqs rn).count % 2 ^ 32 ≡ (rn.count + length reqs) % 2 ^ 32)
      × ((take_requests reqs rn).bytes % 2 ^ 64 ≡ (rn.bytes + total_length reqs) % 2 ^ 64)
totals_add_up [] rn = (omega arith, omega arith)
totals_add_up (req ∷ reqs) rn =
    let i = totals_add_up reqs (take_request req rn) in (omega (arith, i.0), omega (arith, i.1))

new_end-tables :
    (endname : String) (rn rn' : Network) (e : ClientEnd) (o : Option ClientEnd)
    → new_end endname rn o ≡ some (e, rn')
    → (rn'.enabled endname ≡ false) × (rn'.connections endname ≡ none)
new_end-tables e rn rn' c (some _) h = absurd (ground (arith, h))
new_end-tables e rn rn' c none h =
    let same = ap (λ o. elim o [ none ↦ rn | some x ↦ x.1 ]) h in
    (
      ap (λ n. n.enabled e) (sym same) ∙ update_self string_discrete rn.enabled e false,
      ap (λ n. n.connections e) (sym same) ∙ update_self string_discrete rn.connections e none,
    )

-- Two networks with the same switches, servers and tables at an end route it alike.
abbrev SameAt : String → Network → Network → Type 0
SameAt o rn rn' =
    (rn'.enabled o ≡ rn.enabled o)
    × (rn'.connections o ≡ rn.connections o)
    × (rn'.servers ≡ rn.servers)
    × (rn'.reliable ≡ rn.reliable)
    × (rn'.long_reordering ≡ rn.long_reordering)

SameAt-route_of : (o : String) (rn rn' : Network) → SameAt o rn rn' → route_of o rn' ≡ route_of o rn
SameAt-route_of o rn rn' (e, c, s, r, l) =
    λ i. if e i then route_to (r i) (l i) (c i) (lookup_server (s i) (c i)) else none

-- An end that is connected to a server's name and enabled, after a server has been registered under
-- that name, routes its requests to that server, with the network's switches as they are.
pub set_up_routes :
    (endname : String) (servername p : ℕ) (rn : Network)
    → route_of endname
        (enable endname true (connect endname servername (add_server servername p rn)))
      ≡ some record {
        servername = servername;
        server = p;
        reliable = rn.reliable;
        longreordering = rn.long_reordering;
      }
set_up_routes e n p rn =
    let on = enable e true (connect e n (add_server n p rn)) in
    if_true _ _ (update_self string_discrete rn.enabled e true)
    ∙ ap (λ c. route_to rn.reliable rn.long_reordering c (lookup_server on.servers c))
        (update_self string_discrete rn.connections e (some n))
    ∙ ap (route_to rn.reliable rn.long_reordering (some n))
        (update_self ℕ_discrete rn.servers n (some p))

-- A new end routes nothing, nor when it is only enabled, nor when it is only connected.
pub new_end_routes_nothing :
    (endname : String) (rn rn' : Network) (e : ClientEnd) (servername : ℕ)
    → make_end endname rn ≡ some (e, rn')
    → (route_of endname rn' ≡ none)
      × (route_of endname (enable endname true rn') ≡ none)
      × (route_of endname (connect endname servername rn') ≡ none)
new_end_routes_nothing e rn rn' c n h =
    let (off, free) = new_end-tables e rn rn' c (rn.ends e) h in
    (
      if_false _ _ off,
      if_true _ _ (update_self string_discrete rn'.enabled e true)
          ∙ ap (λ c. route_to rn'.reliable rn'.long_reordering c (lookup_server rn'.servers c))
              free,
      if_false _ _ off,
    )

-- The four operations on an end.
pub data EndOp : Type 0 where
  make_op delete_op : EndOp
  connect_op : ℕ → EndOp
  enable_op : Bool → EndOp

abbrev pub forget_end : Option (ClientEnd × Network) → Option Network
forget_end none = none
forget_end (some x) = some x.1

abbrev pub apply_op : EndOp → String → Network → Option Network
apply_op make_op e rn = forget_end (make_end e rn)
apply_op delete_op e rn = delete_end e rn
apply_op (connect_op n) e rn = some (connect e n rn)
apply_op (enable_op b) e rn = some (enable e b rn)

abbrev AllSameAt : String → Network → Option Network → Type 0
AllSameAt o rn none = Unit
AllSameAt o rn (some rn') = SameAt o rn rn'

new_end-AllSameAt :
    (e o : String) (rn : Network) (x : Option ClientEnd)
    → e ≢ o
    → AllSameAt o rn (forget_end (new_end e rn x))
new_end-AllSameAt e o rn (some _) n = tt
new_end-AllSameAt e o rn none n = (
  update_other string_discrete rn.enabled e false o n,
  update_other string_discrete rn.connections e none o n,
  refl,
  refl,
  refl,
)

drop_end-AllSameAt :
    (e o : String) (rn : Network) (x : Option ClientEnd) → e ≢ o → AllSameAt o rn (drop_end e rn x)
drop_end-AllSameAt e o rn none n = tt
drop_end-AllSameAt e o rn (some _) n = (
  update_other string_discrete rn.enabled e false o n,
  update_other string_discrete rn.connections e none o n,
  refl,
  refl,
  refl,
)

apply_op-AllSameAt :
    (op : EndOp) (e o : String) (rn : Network) → e ≢ o → AllSameAt o rn (apply_op op e rn)
apply_op-AllSameAt make_op e o rn n = new_end-AllSameAt e o rn (rn.ends e) n
apply_op-AllSameAt delete_op e o rn n = drop_end-AllSameAt e o rn (rn.ends e) n
apply_op-AllSameAt (connect_op k) e o rn n =
    (refl, update_other string_discrete rn.connections e (some k) o n, refl, refl, refl)
apply_op-AllSameAt (enable_op b) e o rn n =
    (update_other string_discrete rn.enabled e b o n, refl, refl, refl, refl)

-- MakeEnd, DeleteEnd, Connect and Enable of one end leave every other end's route as it is.
pub other_ends_keep_routes :
    (op : EndOp) (endname other : String) (rn rn' : Network)
    → apply_op op endname rn ≡ some rn'
    → endname ≢ other
    → route_of other rn' ≡ route_of other rn
other_ends_keep_routes op e o rn rn' h n =
    SameAt-route_of o rn rn' (subst (AllSameAt o rn) h (apply_op-AllSameAt op e o rn n))

-- DeleteServer makes every request for that server one for a dead server.
pub deleted_server_is_dead :
    (e : String) (n p : ℕ) (rn : Network) → is_server_dead e n p (delete_server n rn) ≡ true
deleted_server_is_dead e n p rn = ground (arith, update_self ℕ_discrete rn.servers n none)
