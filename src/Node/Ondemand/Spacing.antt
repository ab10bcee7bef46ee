-- ===== src/Node/Ondemand/Spacing.antt =====
-- ipsecnode/src/ondemand.rs: the de-dupe of initiates.
use fleetsuite.Common.{
  ℕ, ◌+◌, ◌-◌, ◌≤◌, ◌<◌, ◌≡◌, sym, ap, subst, ◌∙◌, ◌≢◌, inl, inr, Bool, true, false, Option, none,
  some, List, [], ◌∷◌, arith, ltb, if◌then◌else◌, Bool-cases, Option-cases, All, All-mono,
}
use fleetsuite.Common.Text.{Text, text_eq}
use fleetsuite.Common.Assoc.{Assoc, get, insert, text_neq, get-insert_same, get-insert_other}
use fleetsuite.Ring.Owner.{Outcome, value, panic}
use fleetsuite.Node.Host.{Reply}
use fleetsuite.Node.Ondemand.{
  OwnerMode, Decision, here, hand_off, Trigger, local, handed_off, Action, nothing, initiate,
  publish, TaskState, Round, refresh, received, decide_owner, resolve_peer, by_peer, by_decision,
  initiate_once, receive, task, keep_round, refreshed, retain, inflight_ttl,
}

get-retain :
    (now t : ℕ) (peer : Text) (m : Assoc ℕ)
    → get peer m ≡ some t
    → now < t + inflight_ttl
    → get peer (retain now m) ≡ some t
unfolding get retain
get-retain now t peer [] e h = absurd (ground arith)
get-retain now t peer (x ∷ m) e h = elim (Bool-cases (text_eq peer x.0)) [
  | inl b ↦ first b (subst (λ c. (if c then some x.1 else get peer m) ≡ some t) b e)
  | inr b ↦
      later b
        (get-retain now t peer m (subst (λ c. (if c then some x.1 else get peer m) ≡ some t) b e) h)
]
  where
    first :
        text_eq peer x.0 ≡ true
        → some x.1 ≡ some t
        → get peer (if ltb (now - x.1) inflight_ttl then x ∷ retain now m else retain now m)
          ≡ some t
    first b q = rw (kept (value_inj q)) (rw b q)
      where
        value_inj : some x.1 ≡ some t → x.1 ≡ t
        value_inj p = cc

        kept : x.1 ≡ t → ltb (now - x.1) inflight_ttl ≡ true
        kept p = ground arith

    later :
        text_eq peer x.0 ≡ false
        → get peer (retain now m) ≡ some t
        → get peer (if ltb (now - x.1) inflight_ttl then x ∷ retain now m else retain now m)
          ≡ some t
    later b q = by_test (ltb (now - x.1) inflight_ttl)
      where
        by_test : (c : Bool) → get peer (if c then x ∷ retain now m else retain now m) ≡ some t
        by_test true = rw b q
        by_test false = q

-- What an action of a round at a time does to the peers in flight: none of those still in flight is
-- initiated or forgotten, and one that is initiated is in flight from then on.
record Careful (now : ℕ) (m : Assoc ℕ) (r : TaskState × Action) : Type 0 where
  keeps :
      (peer : Text) (t : ℕ)
      → get peer m ≡ some t
      → (r.1 ≢ initiate peer) × (get peer r.0.inflight ≡ some t)
  notes : (peer : Text) → r.1 ≡ initiate peer → get peer r.0.inflight ≡ some now

idle :
    (now : ℕ) (s : TaskState) (a : Action)
    → ((p : Text) → a ≢ initiate p)
    → Careful now s.inflight (s, a)
idle now s a n = record { keeps = λ peer t e. (n peer, e); notes = λ peer e. absurd (n peer e) }

once : (now : ℕ) (s : TaskState) (p : Text) → Careful now s.inflight (initiate_once now s p)
once now s p = elim (Option-cases (get p s.inflight)) [
  | inl e ↦ rw e (fresh e)
  | inr (t, e) ↦ rw e (idle now s nothing (λ q h. cc))
]
  where
    target : Action → Text
    target (initiate q) = q
    target nothing = p
    target (publish h) = p

    fresh :
        get p s.inflight ≡ none
        → Careful now s.inflight (record s { inflight = insert p now s.inflight }, initiate p)
    fresh e = record {
      keeps = λ peer t g. (
        differ peer t g,
        get-insert_other p peer now s.inflight (text_neq peer p (λ q. clash peer t g q)) ∙ g,
      );
      notes = λ peer h.
          subst (λ x. get x (insert p now s.inflight) ≡ some now) (ap target h)
            (get-insert_same p now s.inflight);
    }
      where
        clash : (peer : Text) (t : ℕ) → get peer s.inflight ≡ some t → peer ≢ p
        clash peer t g q = cc (subst (λ x. get x s.inflight ≡ some t) q g, e)

        differ : (peer : Text) (t : ℕ) → get peer s.inflight ≡ some t → initiate p ≢ initiate peer
        differ peer t g h = clash peer t g (sym (ap target h))

abbrev WhenValue : (TaskState × Action → Type 0) → Outcome (TaskState × Action) → Type 0
WhenValue P panic = Unit
WhenValue P (value r) = P r

module _ (mode : OwnerMode) (my_ip : Option Text) where
  receive-Careful :
      (now : ℕ) (lookup : Reply) (t : Trigger) (s : TaskState)
      → WhenValue (Careful now (retain now s.inflight)) (receive mode my_ip now lookup t s)
  unfolding receive
  receive-Careful now lookup (handed_off peer) s =
      once now (record s { inflight = retain now s.inflight }) peer
  receive-Careful now lookup (local dst) s = resolved (resolve_peer lookup)
    where
      kept : TaskState
      kept = record s { inflight = retain now s.inflight }

      decided :
          (peer : Text) (d : Outcome Decision)
          → WhenValue (Careful now kept.inflight) (by_decision now kept peer d)
      decided peer panic = tt
      decided peer (value here) = once now kept peer
      decided peer (value (hand_off o)) = idle now kept (publish _) (λ p e. cc)

      resolved :
          (o : Option Text) → WhenValue (Careful now kept.inflight) (by_peer mode my_ip now kept o)
      resolved none = idle now kept nothing (λ p e. cc)
      resolved (some peer) = decided peer (decide_owner mode s.ring my_ip peer)

  -- The rounds' times do not go back.
  abbrev pub Ordered : ℕ → List (Round mode my_ip) → Type 0
  Ordered t [] = Unit
  Ordered t (refresh r ∷ rounds) = Ordered t rounds
  Ordered t (received now lookup tr ∷ rounds) = (t ≤ now) × Ordered now rounds

  abbrev pub Apart : ℕ → Text → ℕ × Action → Type 0
  Apart t peer o = o.1 ≡ initiate peer → t + inflight_ttl ≤ o.0

  -- After each initiate, the next ones of the same peer are 30 seconds away.
  abbrev pub Spaced : List (ℕ × Action) → Type 0
  Spaced [] = Unit
  Spaced (o ∷ outs) =
      ((peer : Text) → o.1 ≡ initiate peer → All (Apart o.0 peer) outs) × Spaced outs

  later_times :
      (t : ℕ) (rounds : List (Round mode my_ip)) (s : TaskState)
      → Ordered t rounds
      → All (λ o. t ≤ o.0) (task mode my_ip rounds s)
  unfolding task
  later_times t [] s h = tt
  later_times t (refresh r ∷ rounds) s h = later_times t rounds (refreshed mode my_ip r s) h
  later_times t (received now lookup tr ∷ rounds) s h =
      step (receive mode my_ip now lookup tr s) (λ s'. later_times now rounds s' h.1)
    where
      step :
          (o : Outcome (TaskState × Action))
          → ((s' : TaskState) → All (λ o. now ≤ o.0) (task mode my_ip rounds s'))
          → All (λ o. t ≤ o.0) (keep_round mode my_ip now (task mode my_ip rounds) o)
      step panic k = tt
      step (value (s', a)) k = (
        h.0,
        All-mono (λ o. now ≤ o.0) (λ o. t ≤ o.0) (task mode my_ip rounds s') (λ o l. le h.0 l)
            (k s'),
      )
        where
          le : {x y z : ℕ} → x ≤ y → y ≤ z → x ≤ z
          le m n = omega (arith, m, n)

  quiet :
      (t : ℕ) (peer : Text) (rounds : List (Round mode my_ip)) (s : TaskState) (u : ℕ)
      → get peer s.inflight ≡ some t
      → Ordered u rounds
      → All (Apart t peer) (task mode my_ip rounds s)
  unfolding task
  quiet t peer [] s u g h = tt
  quiet t peer (refresh none ∷ rounds) s u g h = quiet t peer rounds s u g h
  quiet t peer (refresh (some r) ∷ rounds) s u g h =
      quiet t peer rounds (record s { ring = some r }) u g h
  quiet t peer (received now lookup tr ∷ rounds) s u g h =
      elim (Bool-cases (ltb now (t + inflight_ttl))) [
        | inl b ↦
            soon (receive mode my_ip now lookup tr s) (receive-Careful now lookup tr s)
              (get-retain now t peer s.inflight g (ground arith))
              (λ s' e. quiet t peer rounds s' now e h.1)
        | inr b ↦ late (receive mode my_ip now lookup tr s) (ground arith)
      ]
    where
      soon :
          (o : Outcome (TaskState × Action))
          → WhenValue (Careful now (retain now s.inflight)) o
          → get peer (retain now s.inflight) ≡ some t
          → ((s' : TaskState)
              → get peer s'.inflight ≡ some t
              → All (Apart t peer) (task mode my_ip rounds s'))
          → All (Apart t peer) (keep_round mode my_ip now (task mode my_ip rounds) o)
      soon panic c e k = tt
      soon (value (s', a)) c e k = let (n, f) = c.keeps peer t e in ((λ q. absurd (n q)), k s' f)

      late :
          (o : Outcome (TaskState × Action))
          → t + inflight_ttl ≤ now
          → All (Apart t peer) (keep_round mode my_ip now (task mode my_ip rounds) o)
      late panic l = tt
      late (value (s', a)) l = (
        (λ q. l),
        All-mono (λ o. now ≤ o.0) (Apart t peer) (task mode my_ip rounds s') (λ o m q. le l m)
            (later_times now rounds s' h.1),
      )
        where
          le : {x y z : ℕ} → x ≤ y → y ≤ z → x ≤ z
          le m n = omega (arith, m, n)

  -- A peer is never initiated twice within 30 seconds, whatever triggers come in, as long as the
  -- clock does not go back.
  pub task-Spaced :
      (rounds : List (Round mode my_ip)) (s : TaskState) (t : ℕ)
      → Ordered t rounds
      → Spaced (task mode my_ip rounds s)
  unfolding task
  task-Spaced [] s t h = tt
  task-Spaced (refresh r ∷ rounds) s t h = task-Spaced rounds (refreshed mode my_ip r s) t h
  task-Spaced (received now lookup tr ∷ rounds) s t h =
      step (receive mode my_ip now lookup tr s) (receive-Careful now lookup tr s)
        (λ s'. task-Spaced rounds s' now h.1)
    where
      step :
          (o : Outcome (TaskState × Action))
          → WhenValue (Careful now (retain now s.inflight)) o
          → ((s' : TaskState) → Spaced (task mode my_ip rounds s'))
          → Spaced (keep_round mode my_ip now (task mode my_ip rounds) o)
      step panic c k = tt
      step (value (s', a)) c k =
          ((λ peer e. quiet now peer rounds s' now (c.notes peer e) h.1), k s')
