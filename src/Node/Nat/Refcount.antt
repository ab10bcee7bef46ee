-- ===== src/Node/Nat/Refcount.antt =====
-- ipsecnode/src/nat.rs: the count of a peer's tunnels, over any sequence of events.
use fleetsuite.Common.{
  ℕ, ◌+◌, ◌-◌, ◌^◌, ◌<◌, ◌≡◌, refl, ap, subst, ◌∙◌, inl, inr, Bool, true, false, ◌&&◌, Option, none,
  some, List, [], ◌∷◌, arith, ltb, if◌then◌else◌, Bool-cases, length,
}
use fleetsuite.Common.Text.{Text, text_eq, text_eq_sound}
use fleetsuite.Common.Assoc.{get, get-insert_same, get-insert_other, get-remove_other}
use fleetsuite.Node.Host.{Log, Host}
use fleetsuite.Node.Nat.{
  PeerRouteState, RouteCache, Event, up, down, incr, up_from, down_from, first_up, remember,
  on_child_up, on_child_down, handle, handle_all, get_nat_record, install_routes, Records,
  NatRecord,
}

-- The count after some events for a peer: more by one for each UP, less by one for each DOWN.
unfoldable pub tally : Text → ℕ → List Event → ℕ
tally peer n [] = n
tally peer n (up records p ∷ es) = tally peer (if text_eq peer p then n + 1 else n) es
tally peer n (down p ∷ es) = tally peer (if text_eq peer p then n - 1 else n) es

-- No DOWN among the events takes the count to zero.
unfoldable pub keeps : Text → ℕ → List Event → Bool
keeps peer n [] = true
keeps peer n (up records p ∷ es) = keeps peer (if text_eq peer p then n + 1 else n) es
keeps peer n (down p ∷ es) =
    let rest = keeps peer (if text_eq peer p then n - 1 else n) es in
    if text_eq peer p then ltb 1 n && rest else rest

-- A peer's state with another count.
abbrev pub counted : PeerRouteState → ℕ → PeerRouteState
counted st n = record st { child_sa_count = n }

module _ (host : Host) (enabled : Bool) where
  other_up :
      (peer p : Text) (records : Records) (cache : RouteCache) (log : Log)
      → text_eq peer p ≡ false
      → get peer (on_child_up host enabled records p cache log).0 ≡ get peer cache
  unfolding on_child_up
  other_up peer p records cache log n = by_state (get p cache)
    where
      remembered :
          (r : List Text × Log) → get peer (remember host enabled p cache r).0 ≡ get peer cache
      remembered ([], l) = refl
      remembered (a ∷ rest, l) = get-insert_other p peer _ cache n

      by_record :
          (r : Option NatRecord) → get peer (first_up host enabled p cache r log).0 ≡ get peer cache
      by_record none = refl
      by_record (some r) = remembered (install_routes host enabled r.device_nat log)

      by_state :
          (o : Option PeerRouteState)
          → get peer (up_from host enabled records p cache o log).0 ≡ get peer cache
      by_state none = by_record (get_nat_record records p)
      by_state (some st) = get-insert_other p peer _ cache n

  other_down :
      (peer p : Text) (cache : RouteCache) (log : Log)
      → text_eq peer p ≡ false
      → get peer (on_child_down host enabled p cache log).0 ≡ get peer cache
  unfolding on_child_down
  other_down peer p cache log n = by_state (get p cache)
    where
      by_state :
          (o : Option PeerRouteState)
          → get peer (down_from host enabled p cache o log).0 ≡ get peer cache
      by_state none = refl
      by_state (some st) = elim (Bool-cases (ltb 0 (st.child_sa_count - 1))) [
        | inl b ↦ rw b (get-insert_other p peer _ cache n)
        | inr b ↦ rw b (get-remove_other p peer cache n)
      ]

  pub up_step :
      (peer p : Text) (records : Records) (st : PeerRouteState) (n : ℕ) (cache : RouteCache)
      (log : Log)
      → get peer cache ≡ some (counted st n)
      → n + 1 < 2 ^ 32
      → get peer (on_child_up host enabled records p cache log).0
        ≡ some (counted st (if text_eq peer p then n + 1 else n))
  unfolding on_child_up
  up_step peer p records st n cache log g b = elim (Bool-cases (text_eq peer p)) [
    | inl q ↦ rw q (
        subst
          (λ k.
            get peer (on_child_up host enabled records k cache log).0 ≡ some (counted st (n + 1)))
          (text_eq_sound peer p q) same)
    | inr q ↦ rw q (other_up peer p records cache log q ∙ g)
  ]
    where
      same :
          get peer (on_child_up host enabled records peer cache log).0 ≡ some (counted st (n + 1))
      same =
          rw g (
            get-insert_same peer (counted st (incr n)) cache
            ∙ ap (λ c. some (counted st c)) no_wrap)
        where
          no_wrap : incr n ≡ n + 1
          no_wrap = omega (arith, b)

  pub down_step :
      (peer p : Text) (st : PeerRouteState) (n : ℕ) (cache : RouteCache) (log : Log)
      → get peer cache ≡ some (counted st n)
      → (text_eq peer p ≡ true → 1 < n)
      → get peer (on_child_down host enabled p cache log).0
        ≡ some (counted st (if text_eq peer p then n - 1 else n))
  unfolding on_child_down
  down_step peer p st n cache log g more = elim (Bool-cases (text_eq peer p)) [
    | inl q ↦ rw q (
        subst (λ k. get peer (on_child_down host enabled k cache log).0 ≡ some (counted st (n - 1)))
          (text_eq_sound peer p q) (same (stays (more q))))
    | inr q ↦ rw q (other_down peer p cache log q ∙ g)
  ]
    where
      stays : 1 < n → ltb 0 (n - 1) ≡ true
      stays h = ground arith

      same :
          ltb 0 (n - 1) ≡ true
          → get peer (on_child_down host enabled peer cache log).0 ≡ some (counted st (n - 1))
      same h = rw g (rw h (get-insert_same peer (counted st (n - 1)) cache))

  -- As long as no DOWN takes a peer's count to zero, its entry stays with the routes it has, whatever
  -- happens to other peers, and its count is the one before plus the UPs less the DOWNs; the counter
  -- must not pass 32 bits.
  pub handle_all-tally :
      (peer : Text) (es : List Event) (st : PeerRouteState) (n : ℕ) (cache : RouteCache) (log : Log)
      → get peer cache ≡ some (counted st n)
      → keeps peer n es ≡ true
      → n + length es < 2 ^ 32
      → get peer (handle_all host enabled es (cache, log)).0 ≡ some (counted st (tally peer n es))
  unfolding handle_all keeps tally handle
  handle_all-tally peer [] st n cache log g k b = g
  handle_all-tally peer (up records p ∷ es) st n cache log g k b =
      handle_all-tally peer es st (if text_eq peer p then n + 1 else n)
        (on_child_up host enabled records p cache log).0
        (on_child_up host enabled records p cache log).1
        (up_step peer p records st n cache log g (omega (arith, b))) k (ground arith)
  handle_all-tally peer (down p ∷ es) st n cache log g k b =
      handle_all-tally peer es st (if text_eq peer p then n - 1 else n)
        (on_child_down host enabled p cache log).0 (on_child_down host enabled p cache log).1
        (down_step peer p st n cache log g (λ q. more q)) (rest (text_eq peer p) k) (ground arith)
    where
      more : text_eq peer p ≡ true → 1 < n
      more q = ground arith

      rest :
          (c : Bool)
          → (if c
              then ltb 1 n && keeps peer (if c then n - 1 else n) es
              else keeps peer (if c then n - 1 else n) es)
            ≡ true
          → keeps peer (if c then n - 1 else n) es ≡ true
      rest true h = ground arith
      rest false h = h

  -- A DOWN that leaves a tunnel runs no command.
  pub quiet_down :
      (peer : Text) (st : PeerRouteState) (n : ℕ) (cache : RouteCache) (log : Log)
      → get peer cache ≡ some (counted st n)
      → 1 < n
      → (on_child_down host enabled peer cache log).1 ≡ log
  unfolding on_child_down
  quiet_down peer st n cache log g h = rw g (rw (stays h) refl)
    where
      stays : 1 < n → ltb 0 (n - 1) ≡ true
      stays h = ground arith
