-- ===== src/Proxy/Decide/Granted.antt =====
-- squid-infoproxy/src/main.rs: what a positive verdict rests on, and the answers of the loop.
use fleetsuite.Common.{
  ◌≡◌, refl, sym, ap, subst, ◌∙◌, ◌≢◌, inl, inr, Bool, true, false, Option, none, some, List, arith,
  if◌then◌else◌, Bool-cases, is_empty,
}
use fleetsuite.Common.Text.{Text, codes, text_eq}
use fleetsuite.Proxy.Args.{Args}
use fleetsuite.Proxy.Rule.{Nets, Request}
use fleetsuite.Proxy.Store.{Store}
use fleetsuite.Proxy.Decide.{
  Verdict, ◌>>=◌, pure, ok, ok_intranet, ok_internet, err, M, continue_with, tier_key, global_tier,
  model_tier, device_tier, device_key, any_allows, key_allows, model_allows, tier_allows, verdict,
  decide, request_of, or_err, field, is_absent,
}

-- The namespaces whose lists a verdict may rest on.
pub data Namespace (args : Args) : Verdict → Text → Type 0 where
  single : Namespace args ok args.proxy_type
  intranet : Namespace args ok_intranet (codes "intranet")
  internet : Namespace args ok_internet (codes "internet")

module _ (nets : Nets) {S : Type 0} (valkey : Store S) where
  -- The lists of a namespace: global, the device's, and its model's by the part number that the
  -- device's hash returned.
  pub data Applies (pt src : Text) : Text → Type 0 where
    global : Applies pt src (tier_key pt global_tier)
    device : Applies pt src (tier_key pt (device_tier src))
    model :
        (pn : Text) (s : S)
        → (valkey.hget (device_key src) (codes "partno") s).0 ≡ some (some pn)
        → Applies pt src (tier_key pt (model_tier pn))

  -- Valkey returned, for a list that applies, members of which a rule allows the request.
  pub record Granted (pt src : Text) (req : Request nets) (strict_proto : Bool) : Type 0 where
    pub key : Text
    pub applies : Applies pt src key
    pub at : S
    pub members : List Text
    pub returned : (valkey.smembers key at).0 ≡ some members
    pub allowed : any_allows nets valkey req strict_proto members ≡ true

  -- A bind that returns had a first part that returned.
  bound :
      {A B : Type 0} (f : A → M S B) (p : Option A × S) (b : B)
      → (continue_with f p).0 ≡ some b
      → (a : A) × ((p.0 ≡ some a) × ((f a p.1).0 ≡ some b))
  bound f (none, s) b e = absurd (ground arith)
  bound f (some a, s) b e = (a, (refl, e))

  module _ (pt src : Text) (req : Request nets) (strict_proto : Bool) where
    key-Granted :
        (key : Text) (s : S)
        → Applies pt src key
        → (key_allows nets valkey key req strict_proto s).0 ≡ some true
        → Granted pt src req strict_proto
    unfolding key_allows
    key-Granted key s h e =
        let (members, (r, t)) =
          bound (λ ms. pure (any_allows nets valkey req strict_proto ms)) (valkey.smembers key s)
            true e in
        record {
          key = key;
          applies = h;
          at = s;
          members = members;
          returned = r;
          allowed = some_inj t;
        }
      where
        some_inj : {a b : Bool} → some a ≡ some b → a ≡ b
        some_inj p = cc

    model-Granted :
        (partno : Option Text) (s : S)
        → ((pn : Text) → partno ≡ some pn → Applies pt src (tier_key pt (model_tier pn)))
        → (model_allows nets valkey pt partno req strict_proto s).0 ≡ some true
        → Granted pt src req strict_proto
    unfolding model_allows
    model-Granted none s h e = absurd (ground arith)
    model-Granted (some pn) s h e = elim (Bool-cases (is_empty pn)) [
      | inl b ↦ absurd (refute b)
      | inr b ↦ key-Granted (tier_key pt (model_tier pn)) s (h pn refl) (kept b)
    ]
      where
        refute : is_empty pn ≡ true → ⊥
        refute b = ground arith

        kept :
            is_empty pn ≡ false
            → (key_allows nets valkey (tier_key pt (model_tier pn)) req strict_proto s).0
              ≡ some true
        kept b =
            subst
              (λ c.
                ((if c
                    then pure false
                    else key_allows nets valkey (tier_key pt (model_tier pn)) req strict_proto)
                  s).0
                ≡ some true)
              b e

    module _ (partno : Option Text)
        (known : (pn : Text)
          → partno ≡ some pn
          → Applies pt src (tier_key pt (model_tier pn))) where
      abbrev from_device : Bool → M S Bool
      from_device allowed =
          if allowed
          then pure true
          else key_allows nets valkey (tier_key pt (device_tier src)) req strict_proto

      abbrev from_model : Bool → M S Bool
      from_model allowed =
          if allowed
          then pure true
          else (model_allows nets valkey pt partno req strict_proto >>= from_device)

      device-Granted :
          (b : Bool) (s : S)
          → (b ≡ true → Granted pt src req strict_proto)
          → (from_device b s).0 ≡ some true
          → Granted pt src req strict_proto
      device-Granted true s h e = h refl
      device-Granted false s h e = key-Granted (tier_key pt (device_tier src)) s device e

      rest-Granted :
          (b : Bool) (s : S)
          → (b ≡ true → Granted pt src req strict_proto)
          → (from_model b s).0 ≡ some true
          → Granted pt src req strict_proto
      rest-Granted true s h e = h refl
      rest-Granted false s h e =
          let (b, (m, t)) =
            bound from_device (model_allows nets valkey pt partno req strict_proto s) true e in
          device-Granted b (model_allows nets valkey pt partno req strict_proto s).1
            (λ y. model-Granted partno s known (m ∙ ap some y)) t

      tier-Granted :
          (s : S)
          → (tier_allows nets valkey pt src partno req strict_proto s).0 ≡ some true
          → Granted pt src req strict_proto
      unfolding tier_allows
      tier-Granted s e =
          let first = key_allows nets valkey (tier_key pt global_tier) req strict_proto s in
          let (b, (m, t)) = bound from_model first true e in
          rest-Granted b first.1
            (λ y. key-Granted (tier_key pt global_tier) s global (m ∙ ap some y)) t

  module _ (args : Args) (src : Text) (req : Request nets) (partno : Option Text)
      (known : (pt pn : Text)
        → partno ≡ some pn
        → Applies pt src (tier_key pt (model_tier pn))) where
    -- What `verdict` may return: a refusal, or a verdict that its namespace grants.
    abbrev Justified : Verdict → Type 0
    Justified v =
        v ≢ err → (pt : Text) × (Namespace args v pt × Granted pt src req args.strict_proto)

    abbrev by_single : Bool → M S Verdict
    by_single allowed = pure (if allowed then ok else err)

    abbrev by_internet : Bool → M S Verdict
    by_internet allowed = pure (if allowed then ok_internet else err)

    abbrev by_intranet : Bool → M S Verdict
    by_intranet allowed =
        if allowed
        then pure ok_intranet
        else (tier_allows nets valkey (codes "internet") src partno req args.strict_proto
            >>= by_internet)

    some_inj : {u v : Verdict} → some u ≡ some v → u ≡ v
    some_inj p = cc

    single-Justified :
        (b : Bool) (s : S) (v : Verdict)
        → (b ≡ true → Granted args.proxy_type src req args.strict_proto)
        → (by_single b s).0 ≡ some v
        → Justified v
    single-Justified true s v h e n = (
      args.proxy_type,
      (subst (λ u. Namespace args u args.proxy_type) (some_inj e) single, h refl),
    )
    single-Justified false s v h e n = absurd (n (sym (some_inj e)))

    internet-Justified :
        (b : Bool) (s : S) (v : Verdict)
        → (b ≡ true → Granted (codes "internet") src req args.strict_proto)
        → (by_internet b s).0 ≡ some v
        → Justified v
    internet-Justified true s v h e n = (
      codes "internet",
      (subst (λ u. Namespace args u (codes "internet")) (some_inj e) internet, h refl),
    )
    internet-Justified false s v h e n = absurd (n (sym (some_inj e)))

    intranet-Justified :
        (b : Bool) (s : S) (v : Verdict)
        → (b ≡ true → Granted (codes "intranet") src req args.strict_proto)
        → (by_intranet b s).0 ≡ some v
        → Justified v
    intranet-Justified true s v h e n = (
      codes "intranet",
      (subst (λ u. Namespace args u (codes "intranet")) (some_inj e) intranet, h refl),
    )
    intranet-Justified false s v h e n =
        let call = tier_allows nets valkey (codes "internet") src partno req args.strict_proto in
        let (b, (m, t)) = bound by_internet (call s) v e in
        internet-Justified b (call s).1 v
          (λ y.
            tier-Granted (codes "internet") src req args.strict_proto partno
              (known (codes "internet")) s (m ∙ ap some y))
          t n

    verdict-Justified :
        (s : S) (v : Verdict) → (verdict nets valkey args src partno req s).0 ≡ some v → Justified v
    unfolding verdict
    verdict-Justified s v e = elim (Bool-cases (text_eq args.proxy_type (codes "both"))) [
      | inl b ↦ both (subst (λ c. ((if c then both_way else single_way) s).0 ≡ some v) b e)
      | inr b ↦ one (subst (λ c. ((if c then both_way else single_way) s).0 ≡ some v) b e)
    ]
      where
        first : Text → M S Bool
        first pt = tier_allows nets valkey pt src partno req args.strict_proto

        both_way : M S Verdict
        both_way = first (codes "intranet") >>= by_intranet

        single_way : M S Verdict
        single_way = first args.proxy_type >>= by_single

        both : (both_way s).0 ≡ some v → Justified v
        both t =
            let (b, (m, u)) = bound by_intranet (first (codes "intranet") s) v t in
            intranet-Justified b (first (codes "intranet") s).1 v
              (λ y.
                tier-Granted (codes "intranet") src req args.strict_proto partno
                  (known (codes "intranet")) s (m ∙ ap some y))
              u

        one : (single_way s).0 ≡ some v → Justified v
        one t =
            let (b, (m, u)) = bound by_single (first args.proxy_type s) v t in
            single-Justified b (first args.proxy_type s).1 v
              (λ y.
                tier-Granted args.proxy_type src req args.strict_proto partno
                  (known args.proxy_type) s (m ∙ ap some y))
              u

  -- The helper fails closed: whatever Valkey does, a verdict other than ERR is for a source that is
  -- given, and rests on a list of the verdict's namespace that applies to the source and that
  -- Valkey returned, with a member whose rule allows the request.
  pub decide_fails_closed :
      (args : Args) (fields : List Text) (s : S)
      → (decide nets valkey args fields s).0 ≢ err
      → (is_absent nets valkey (field nets valkey fields 0) ≡ false)
        × ((pt : Text) × (Namespace args (decide nets valkey args fields s).0 pt
              × Granted pt
                  (field nets valkey fields 0)
                  (request_of nets valkey fields)
                  args.strict_proto))
  unfolding decide
  decide_fails_closed args fields s n =
      elim (Bool-cases (is_absent nets valkey (field nets valkey fields 0))) [
        | inl b ↦ absurd (n (rw b refl))
        | inr b ↦ (b, rw b (present (λ e. n (rw b e))))
      ]
    where
      src : Text
      src = field nets valkey fields 0

      req : Request nets
      req = request_of nets valkey fields

      reply : Option (Option Text) × S
      reply = valkey.hget (device_key src) (codes "partno") s

      decision : Option Text → M S Verdict
      decision partno = verdict nets valkey args src partno req

      settled :
          (p : Option Verdict × S)
          → ((v : Verdict)
              → p.0 ≡ some v
              → v ≢ err
              → (pt : Text) × (Namespace args v pt × Granted pt src req args.strict_proto))
          → (or_err nets valkey p).0 ≢ err
          → (pt : Text) × (Namespace args (or_err nets valkey p).0 pt
              × Granted pt src req args.strict_proto)
      settled (none, t) h k = absurd (k refl)
      settled (some v, t) h k = h v refl k

      present :
          (or_err nets valkey (continue_with decision reply)).0 ≢ err
          → (pt : Text) × (Namespace args (or_err nets valkey (continue_with decision reply)).0 pt
              × Granted pt src req args.strict_proto)
      present = settled (continue_with decision reply) (λ v e k.
          let (partno, (m, t)) = bound decision reply v e in
          verdict-Justified args src req partno (λ pt pn q. model pn s (m ∙ ap some q)) reply.1 v t
            k)
