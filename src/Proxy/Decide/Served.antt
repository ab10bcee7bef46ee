-- ===== src/Proxy/Decide/Served.antt =====
-- squid-infoproxy/src/main.rs: the verdict while Valkey answers from a fixed set of allow-lists.
use fleetsuite.Common.{
  ◌≡◌, refl, ap, ◌∙◌, inl, inr, Bool, true, false, ◌||◌, Option, none, some, List, [], ◌∷◌, ◌++◌,
  if◌then◌else◌, Bool-cases, any, is_empty,
}
use fleetsuite.Common.Text.{Text, codes, text_eq}
use fleetsuite.Proxy.Args.{Args}
use fleetsuite.Proxy.Rule.{Nets, Request}
use fleetsuite.Proxy.Store.{Store}
use fleetsuite.Proxy.Decide.{
  Verdict, ◌>>=◌, pure, ok, ok_intranet, ok_internet, err, M, continue_with, tier_key, global_tier,
  model_tier, device_tier, device_key, any_allows, key_allows, model_allows, tier_allows, verdict,
  decide, request_of, or_err, field, is_absent,
}

-- What Valkey holds: the members of the sets, and the part numbers of the devices' hashes.
pub record Lists : Type 0 where
  pub members : Text → List Text
  pub partno : Text → Option Text

module _ (nets : Nets) {S : Type 0} (valkey : Store S) (db : Lists) where
  -- Every call succeeds and answers from the lists.
  pub record Serves : Type 0 where
    pub sets : (key : Text) (s : S) → (valkey.smembers key s).0 ≡ some (db.members key)
    pub hashes :
        (src : Text) (s : S)
        → (valkey.hget (device_key src) (codes "partno") s).0 ≡ some (db.partno src)

  -- The keys of one namespace that apply to a device.
  pub tier_keys : Text → Text → Option Text → List Text
  tier_keys pt src none = tier_key pt global_tier ∷ tier_key pt (device_tier src) ∷ []
  tier_keys pt src (some pn) =
      tier_key pt global_tier
      ∷ ((if is_empty pn then [] else tier_key pt (model_tier pn) ∷ [])
          ++ tier_key pt (device_tier src) ∷ [])

  pub in_tiers : Text → Text → Request nets → Bool → Bool
  unfolding tier_keys
  in_tiers pt src req strict_proto =
      any (λ key. any_allows nets valkey req strict_proto (db.members key))
        (tier_keys pt src (db.partno src))

  -- The verdict as a function of the lists alone.
  pub verdict_of : Args → List Text → Verdict
  verdict_of args fields =
      let src = field nets valkey fields 0 in
      let allowed =
        λ (pt : Text). in_tiers pt src (request_of nets valkey fields) args.strict_proto in
      if is_absent nets valkey src
      then err
      else if text_eq args.proxy_type (codes "both")
      then (if allowed (codes "intranet")
          then ok_intranet
          else if allowed (codes "internet")
          then ok_internet
          else err)
      else (if allowed args.proxy_type then ok else err)

  -- A computation that returns one value from every state.
  abbrev Gives : {A : Type 0} → M S A → A → Type 0
  Gives m a = (s : S) → (m s).0 ≡ some a

  continue_with-some :
      {A B : Type 0} (f : A → M S B) (p : Option A × S) (a : A)
      → p.0 ≡ some a
      → continue_with f p ≡ f a p.1
  continue_with-some f (o, s) a e = rw e

  >>=-Gives :
      {A B : Type 0} (m : M S A) (f : A → M S B) (a : A) (b : B)
      → Gives m a
      → Gives (f a) b
      → Gives (m >>= f) b
  >>=-Gives m f a b h k s = ap (λ p. p.0) (continue_with-some f (m s) a (h s)) ∙ k (m s).1

  if-Gives :
      {A : Type 0} (b : Bool) (m n : M S A) (x y : A)
      → Gives m x
      → Gives n y
      → Gives (if b then m else n) (if b then x else y)
  if-Gives true m n x y h k = h
  if-Gives false m n x y h k = k

  module _ (serves : Serves) where
    key_allows_served :
        (key : Text) (req : Request nets) (strict_proto : Bool)
        → Gives
            (key_allows nets valkey key req strict_proto)
            (any_allows nets valkey req strict_proto (db.members key))
    unfolding key_allows
    key_allows_served key req strict_proto =
        >>=-Gives (valkey.smembers key) _ (db.members key) _ (serves.sets key) (λ s. refl)

    module _ (pt src : Text) (req : Request nets) (strict_proto : Bool) where
      abbrev in_tier : Text → Bool
      in_tier tier = any_allows nets valkey req strict_proto (db.members (tier_key pt tier))

      abbrev in_model : Option Text → Bool
      in_model none = false
      in_model (some pn) = if is_empty pn then false else in_tier (model_tier pn)

      model_allows_served :
          (partno : Option Text)
          → Gives (model_allows nets valkey pt partno req strict_proto) (in_model partno)
      unfolding model_allows
      model_allows_served none = λ s. refl
      model_allows_served (some pn) =
          if-Gives (is_empty pn) _ _ false _ (λ s. refl)
            (key_allows_served (tier_key pt (model_tier pn)) req strict_proto)

      tiers_union :
          (partno : Option Text)
          → (if in_tier global_tier
              then true
              else (if in_model partno then true else in_tier (device_tier src)))
            ≡ any
                (λ key. any_allows nets valkey req strict_proto (db.members key))
                (tier_keys pt src partno)
      unfolding tier_keys
      tiers_union none = three (in_tier global_tier) (in_tier (device_tier src))
        where
          three : (g d : Bool) → (if g then true else d) ≡ (g || (d || false))
          three true d = refl
          three false true = refl
          three false false = refl
      tiers_union (some pn) = elim (Bool-cases (is_empty pn)) [
        | inl e ↦ rw e (four (in_tier global_tier) false (in_tier (device_tier src)))
        | inr e ↦
            rw e (four (in_tier global_tier) (in_tier (model_tier pn)) (in_tier (device_tier src)))
      ]
        where
          four :
              (g m d : Bool)
              → (if g then true else (if m then true else d)) ≡ (g || (m || (d || false)))
          four true m d = refl
          four false true d = refl
          four false false true = refl
          four false false false = refl

      abbrev from_device : Bool → M S Bool
      from_device allowed =
          if allowed
          then pure true
          else key_allows nets valkey (tier_key pt (device_tier src)) req strict_proto

      abbrev from_model : Bool → M S Bool
      from_model allowed =
          if allowed
          then pure true
          else (model_allows nets valkey pt (db.partno src) req strict_proto >>= from_device)

      device_served :
          (b : Bool) → Gives (from_device b) (if b then true else in_tier (device_tier src))
      device_served true s = refl
      device_served false s = key_allows_served (tier_key pt (device_tier src)) req strict_proto s

      model_served :
          (b : Bool)
          → Gives (from_model b) (
              if b
              then true
              else (if in_model (db.partno src) then true else in_tier (device_tier src)))
      model_served true = λ s. refl
      model_served false =
          >>=-Gives (model_allows nets valkey pt (db.partno src) req strict_proto) from_device
            (in_model (db.partno src))
            (if in_model (db.partno src) then true else in_tier (device_tier src))
            (model_allows_served (db.partno src)) (device_served (in_model (db.partno src)))

      tier_allows_served :
          Gives
            (tier_allows nets valkey pt src (db.partno src) req strict_proto)
            (in_tiers pt src req strict_proto)
      unfolding tier_allows in_tiers
      tier_allows_served s =
          >>=-Gives (key_allows nets valkey (tier_key pt global_tier) req strict_proto) from_model
            (in_tier global_tier)
            (if in_tier global_tier
              then true
              else (if in_model (db.partno src) then true else in_tier (device_tier src)))
            (key_allows_served (tier_key pt global_tier) req strict_proto)
            (model_served (in_tier global_tier)) s
          ∙ ap some (tiers_union (db.partno src))

    verdict_served :
        (args : Args) (src : Text) (req : Request nets)
        → Gives (verdict nets valkey args src (db.partno src) req) (
            if text_eq args.proxy_type (codes "both")
            then (if in_tiers (codes "intranet") src req args.strict_proto
                then ok_intranet
                else (if in_tiers (codes "internet") src req args.strict_proto
                    then ok_internet
                    else err))
            else (if in_tiers args.proxy_type src req args.strict_proto then ok else err))
    unfolding verdict
    verdict_served args src req =
        if-Gives _ _ _ _ _
          (>>=-Gives _ _ _ _ (tier_allows_served (codes "intranet") src req args.strict_proto) (
            if-Gives _ _ _ _ _ (λ s. refl)
              (>>=-Gives _ _ _ _ (tier_allows_served (codes "internet") src req args.strict_proto)
                (λ s. refl))))
          (>>=-Gives _ _ _ _ (tier_allows_served args.proxy_type src req args.strict_proto)
            (λ s. refl))

    or_err-some :
        (p : Option Verdict × S) (v : Verdict) → p.0 ≡ some v → (or_err nets valkey p).0 ≡ v
    or_err-some (o, s) v e = rw e

    -- While Valkey serves fixed lists, the verdict depends on them alone and not on the client's
    -- state: in a single namespace a request passes when a rule of the global, the model or the
    -- device list allows it; in both, intranet lists come before internet lists.
    pub decide_served :
        (args : Args) (fields : List Text) (s : S)
        → (decide nets valkey args fields s).0 ≡ verdict_of args fields
    unfolding decide verdict_of
    decide_served args fields s =
        elim (Bool-cases (is_absent nets valkey (field nets valkey fields 0))) [
          | inl e ↦ rw e
          | inr n ↦ rw n (present s)
        ]
      where
        src : Text
        src = field nets valkey fields 0

        decision : Option Text → M S Verdict
        decision partno = verdict nets valkey args src partno (request_of nets valkey fields)

        found : Verdict
        found =
            if text_eq args.proxy_type (codes "both")
            then (if in_tiers (codes "intranet") src (request_of nets valkey fields)
                  args.strict_proto
                then ok_intranet
                else (if in_tiers (codes "internet") src (request_of nets valkey fields)
                      args.strict_proto
                    then ok_internet
                    else err))
            else (if in_tiers args.proxy_type src (request_of nets valkey fields) args.strict_proto
                then ok
                else err)

        present :
            (s : S)
            → (or_err nets valkey
                ((valkey.hget (device_key src) (codes "partno") >>= decision) s)).0
              ≡ found
        present s =
            or_err-some ((valkey.hget (device_key src) (codes "partno") >>= decision) s) found (
              >>=-Gives (valkey.hget (device_key src) (codes "partno")) decision (db.partno src)
                found (serves.hashes src) (verdict_served args src (request_of nets valkey fields))
                s)
