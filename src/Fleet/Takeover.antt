-- ===== src/Fleet/Takeover.antt =====
-- fleetpulse/src/main.rs: a gateway that is elected takes over the route (`run_notify_master`).
use fleetsuite.Common.{
  ◌≡◌, refl, sym, ap, subst, ◌∙◌, inl, inr, Bool, true, false, Option, none, some, ◌∷◌,
  Option-cases, arith,
}
use fleetsuite.Common.Text.{Text, codes, text_eq}
use fleetsuite.Fleet.{
  master, State, Files, reply, refusal, Query, Queries, Machine, World, create_query, replace_query,
  says_missing, upsert_route, load_state, with_state, with_creds, role_written, write_file,
  run_notify_master,
}

-- The documented answers on the route of the servers: `target` is the interface that it leads to,
-- or `none` where there is no route.
pub record RouteApi {Creds : Type 0} (m : Machine Creds) (creds : Creds) (state : State)
    (target : Queries Creds → Option Text) : Type 0 where
  pub replaced :
      (log : Queries Creds) (old : Text)
      → target log ≡ some old
      → (xml : Text) × (m.aws_query log
            (replace_query m state.region creds state.rtb_id (codes "0.0.0.0/0") state.eth0_eni_id)
          ≡ reply xml)
  pub led :
      (log : Queries Creds) (xml : Text)
      → target (
          (
            replace_query m state.region creds state.rtb_id (codes "0.0.0.0/0") state.eth0_eni_id,
            reply xml,
          )
          ∷ log)
        ≡ some state.eth0_eni_id
  pub missing :
      (log : Queries Creds)
      → target log ≡ none
      → (e : Text) × ((m.aws_query log (
              replace_query m state.region creds state.rtb_id (codes "0.0.0.0/0") state.eth0_eni_id)
            ≡ refusal e)
          × (says_missing e ≡ true))
  pub unchanged :
      (log : Queries Creds) (q : Query Creds) (e : Text)
      → target ((q, refusal e) ∷ log) ≡ target log
  pub created :
      (log : Queries Creds)
      → target log ≡ none
      → (xml : Text) × ((m.aws_query log
              (create_query m state.region creds state.rtb_id (codes "0.0.0.0/0") state.eth0_eni_id)
            ≡ reply xml)
          × (m.extract_scalar xml (codes "return") ≡ some (codes "true")))
  pub leads :
      (log : Queries Creds) (xml : Text)
      → target (
          (
            create_query m state.region creds state.rtb_id (codes "0.0.0.0/0") state.eth0_eni_id,
            reply xml,
          )
          ∷ log)
        ≡ some state.eth0_eni_id

module _ {Creds : Type 0} (m : Machine Creds) (creds : Creds) (state : State)
    (target : Queries Creds → Option Text) (api : RouteApi m creds state target) where
  abbrev upserted : World Creds → Bool × World Creds
  upserted w =
      upsert_route m state.region creds state.rtb_id (codes "0.0.0.0/0") state.eth0_eni_id w

  abbrev replaces : Query Creds
  replaces = replace_query m state.region creds state.rtb_id (codes "0.0.0.0/0") state.eth0_eni_id

  upsert_route_lem :
      (w : World Creds)
      → ((upserted w).0 ≡ true)
        × ((target (upserted w).1.queries ≡ some state.eth0_eni_id)
            × ((upserted w).1.written ≡ w.written))
  unfolding upsert_route text_eq
  upsert_route_lem w = elim (Option-cases (target w.queries)) [
    | inl none_yet ↦
        let (e, (refused, tells)) = api.missing w.queries none_yet in
        let log : Queries Creds = (replaces, refusal e) ∷ w.queries in
        let (xml, (made, says)) = api.created log (api.unchanged w.queries replaces e ∙ none_yet) in
        rw refused (rw tells (rw made (rw says (refl, (api.leads log xml, refl)))))
    | inr (old, there) ↦
        let (xml, done) = api.replaced w.queries old there in
        rw done (refl, (api.led w.queries xml, refl))
  ]

  -- A successful run, whose files are what was written before and the role.
  unfoldable pub Taken : Files → World Creds → Bool × World Creds → Type 0
  Taken cli w r =
      (r.0 ≡ true)
      × ((target r.1.queries ≡ some state.eth0_eni_id)
          × (r.1.written ≡ (cli.role_file, codes "master\n") ∷ w.written))

  role_written-Taken :
      (cli : Files) (w : World Creds) (r : Bool × World Creds)
      → m.can_write cli.role_file ≡ true
      → (r.0 ≡ true) × ((target r.1.queries ≡ some state.eth0_eni_id) × (r.1.written ≡ w.written))
      → Taken cli w (role_written m cli master r)
  unfolding write_file Taken
  role_written-Taken cli w (false, now) writable (h, rest) = absurd (ground (arith, h))
  role_written-Taken cli w (true, now) writable (h, (routed, same)) =
      rw writable (refl, (routed, ap (λ t. (cli.role_file, codes "master\n") ∷ t) same))

  -- Where the state of the boot can be read, there are credentials, the role file can be written and the
  -- API answers as documented, a gateway that is elected master succeeds, whether there was a route or
  -- not: the servers' default route leads to its interface, and it writes that it is master.
  pub run_notify_master-Taken :
      (cli : Files) (w : World Creds)
      → load_state m cli.state_file ≡ some state
      → m.fetch_imds_credentials ≡ some creds
      → m.can_write cli.role_file ≡ true
      → Taken cli w (run_notify_master m cli w)
  unfolding run_notify_master
  run_notify_master-Taken cli w loaded has_creds writable =
      let granted = ap (λ o. with_creds m cli state o w) has_creds in
      subst (Taken cli w) (sym (ap (λ o. with_state m cli o w) loaded ∙ granted))
        (role_written-Taken cli w (upserted w) writable (upsert_route_lem w))
