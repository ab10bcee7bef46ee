-- ===== src/Node/Ondemand/Choice.antt =====
-- ipsecnode/src/ondemand.rs: which node brings a tunnel up, and that the choice never panics.
use fleetsuite.Common.{
  ℕ, suc, ◌^◌, ◌≤◌, ◌≡◌, refl, sym, ap, subst, ◌∙◌, ◌≢◌, inl, inr, Option, none, some, List, [],
  ◌∷◌, if◌then◌else◌, Bool-cases, is_some, length, get_elem?,
}
use fleetsuite.Common.Text.{Text, text_eq, text_eq_refl}
use fleetsuite.Common.Net.{parse_ipv4}
use fleetsuite.Common.Assoc.{text_neq, get}
use fleetsuite.Ring.Owner.{LvsRing, value, owner_of, owner_of_total, owner_index}
use fleetsuite.Node.Host.{Reply}
use fleetsuite.Node.Ondemand.{
  OwnerMode, any_node, jhash, Decision, here, hand_off, Trigger, local, handed_off, Action, nothing,
  publish, TaskState, Round, refresh, received, decide_owner, at_owner, at_address, resolve_peer,
  by_peer, by_decision, initiate_once, receive, task, keep_round, retain,
}

-- For an address and a ring that all nodes share, of up to 2 ^ 32 nodes and not empty, there is one
-- owner, the ring's node at the address' index: the node with that address initiates, and every
-- other one hands the peer to it.
pub one_owner_initiates :
    (ring : LvsRing) (node : Text) (nodes : List Text) (peer : Text) (addr : ℕ)
    → ring.nodes ≡ node ∷ nodes
    → length (node ∷ nodes) ≤ 2 ^ 32
    → parse_ipv4 peer ≡ some addr
    → (o : Text) × ((get_elem? ring.nodes (owner_index addr (length (node ∷ nodes))) ≡ some o)
        × ((decide_owner jhash (some ring) (some o) peer ≡ value here)
            × ((my_ip : Text)
                → my_ip ≢ o
                → decide_owner jhash (some ring) (some my_ip) peer ≡ value (hand_off o))))
unfolding decide_owner
one_owner_initiates ring node nodes peer addr r l p =
    let (o, picked, at_index) = owner_of_total addr node nodes l in
    (
      o,
      (
        ap (λ ns. get_elem? ns (owner_index addr (length (node ∷ nodes)))) r ∙ at_index,
        (own o picked, other o picked),
      ),
    )
  where
    chosen :
        (o my_ip : Text)
        → owner_of addr (node ∷ nodes) ≡ value (some o)
        → decide_owner jhash (some ring) (some my_ip) peer
          ≡ value (if text_eq o my_ip then here else hand_off o)
    chosen o my_ip e =
        ap (at_address ring my_ip) p
        ∙ (ap (λ ns. at_owner my_ip (owner_of addr ns)) r ∙ ap (at_owner my_ip) e)

    own :
        (o : Text)
        → owner_of addr (node ∷ nodes) ≡ value (some o)
        → decide_owner jhash (some ring) (some o) peer ≡ value here
    own o e = chosen o o e ∙ ap (λ b. value (if b then here else hand_off o)) (text_eq_refl o)

    other :
        (o : Text)
        → owner_of addr (node ∷ nodes) ≡ value (some o)
        → (my_ip : Text) → my_ip ≢ o
        → decide_owner jhash (some ring) (some my_ip) peer ≡ value (hand_off o)
    other o e my_ip n =
        chosen o my_ip e
        ∙ ap (λ b. value (if b then here else hand_off o)) (text_neq o my_ip (λ q. n (sym q)))

-- A ring that is absent or has at most 2 ^ 32 nodes.
abbrev pub Fits : Option LvsRing → Type 0
Fits none = Unit
Fits (some ring) = length ring.nodes ≤ 2 ^ 32

owner_of_returns :
    (addr : ℕ) (nodes : List Text)
    → length nodes ≤ 2 ^ 32
    → (o : Option Text) × (owner_of addr nodes ≡ value o)
unfolding owner_of
owner_of_returns addr [] h = (none, refl)
owner_of_returns addr (n ∷ nodes) h =
    let (o, e, at_index) = owner_of_total addr n nodes h in (some o, e)

decide_returns :
    (mode : OwnerMode) (ring : Option LvsRing) (my_ip : Option Text) (peer : Text)
    → Fits ring
    → (d : Decision) × (decide_owner mode ring my_ip peer ≡ value d)
unfolding decide_owner
decide_returns any_node ring my_ip peer h = (here, refl)
decide_returns jhash none my_ip peer h = (here, refl)
decide_returns jhash (some ring) none peer h = (here, refl)
decide_returns jhash (some ring) (some my_ip) peer h = parsed (parse_ipv4 peer)
  where
    owned : (o : Option Text) → (d : Decision) × (at_owner my_ip (value o) ≡ value d)
    owned none = (here, refl)
    owned (some o) = (if text_eq o my_ip then here else hand_off o, refl)

    parsed : (a : Option ℕ) → (d : Decision) × (at_address ring my_ip a ≡ value d)
    parsed none = (here, refl)
    parsed (some addr) =
        let (o, e) = owner_of_returns addr ring.nodes h in
        let (d, q) = owned o in (d, ap (at_owner my_ip) e ∙ q)

once_ring : (now : ℕ) (s : TaskState) (peer : Text) → (initiate_once now s peer).0.ring ≡ s.ring
once_ring now s peer = elim (Bool-cases (is_some (get peer s.inflight))) [
  | inl b ↦ rw b refl
  | inr b ↦ rw b refl
]

module _ (mode : OwnerMode) (my_ip : Option Text) where
  receive_returns :
      (now : ℕ) (lookup : Reply) (t : Trigger) (s : TaskState)
      → Fits s.ring
      → (r : TaskState × Action) × ((receive mode my_ip now lookup t s ≡ value r)
          × (r.0.ring ≡ s.ring))
  unfolding receive
  receive_returns now lookup (handed_off peer) s h = (
    initiate_once now (record s { inflight = retain now s.inflight }) peer,
    (refl, once_ring now (record s { inflight = retain now s.inflight }) peer),
  )
  receive_returns now lookup (local dst) s h = resolved (resolve_peer lookup)
    where
      kept : TaskState
      kept = record s { inflight = retain now s.inflight }

      decided :
          (peer : Text) (d : Decision)
          → (r : TaskState × Action) × ((by_decision now kept peer (value d) ≡ value r)
              × (r.0.ring ≡ s.ring))
      decided peer here = (initiate_once now kept peer, (refl, once_ring now kept peer))
      decided peer (hand_off o) =
          ((kept, publish (record { owner = o; peer = peer })), (refl, refl))

      resolved :
          (o : Option Text)
          → (r : TaskState × Action) × ((by_peer mode my_ip now kept o ≡ value r)
              × (r.0.ring ≡ s.ring))
      resolved none = ((kept, nothing), (refl, refl))
      resolved (some peer) =
          let (d, e) = decide_returns mode s.ring my_ip peer h in
          let (r, (q, k)) = decided peer d in (r, (ap (by_decision now kept peer) e ∙ q, k))

  -- The triggers among the rounds, and that every ring read fits.
  abbrev pub triggers : List (Round mode my_ip) → ℕ
  triggers [] = 0
  triggers (refresh r ∷ rounds) = triggers rounds
  triggers (received now lookup t ∷ rounds) = suc (triggers rounds)

  abbrev pub RingsFit : List (Round mode my_ip) → Type 0
  RingsFit [] = Unit
  RingsFit (refresh r ∷ rounds) = Fits r × RingsFit rounds
  RingsFit (received now lookup t ∷ rounds) = RingsFit rounds

  -- The task never panics: it takes one action for each trigger, as long as every ring has at most
  -- 2 ^ 32 nodes.
  pub task_answers :
      (rounds : List (Round mode my_ip)) (s : TaskState)
      → Fits s.ring
      → RingsFit rounds
      → length (task mode my_ip rounds s) ≡ triggers rounds
  unfolding task
  task_answers [] s h k = refl
  task_answers (refresh none ∷ rounds) s h k = task_answers rounds s h k.1
  task_answers (refresh (some r) ∷ rounds) s h k =
      task_answers rounds (record s { ring = some r }) k.0 k.1
  task_answers (received now lookup t ∷ rounds) s h k =
      let ((s', a), (e, q)) = receive_returns now lookup t s h in
      ap (λ o. length (keep_round mode my_ip now (task mode my_ip rounds) o)) e
      ∙ ap suc (task_answers rounds s' (subst Fits (sym q) h) k)
