-- ===== src/Proxy/Decide.antt =====
-- squid-infoproxy/src/main.rs: the verdict on a request, and the loop over Squid's lines. Messages
-- to the error stream are left out.
pub mod Served
pub mod Granted
pub mod Loop
mod Tests
use fleetsuite.Common.{
  ℕ, zero, suc, ◌+◌, ◌-◌, ◌*◌, ◌/◌, ◌%◌, ◌^◌, ◌≤◌, ◌<◌, ◌≡◌, refl, sym, ap, ap₂, subst, ◌∙◌, ◌≢◌,
  ◌↔◌, ◌⊎◌, inl, inr, Bool, true, false, not, ◌&&◌, ◌||◌, Option, none, some, List, [], ◌∷◌, ◌++◌,
  map, arith, ltb, leb, ◌==◌, if◌then◌else◌, ==_iff, Bool-cases, Option-cases, is_some, unwrap_or,
  map_option, and_then, length, get_elem?, any, all, find, filter, is_empty, All, length-append,
  filter_map, cons_some, flat_map, All-append, All-intro, All-mono, All-filter_map, All-flat_map,
}
use fleetsuite.Common.Text.{Text, codes, text_eq, split_whitespace, trim}
use fleetsuite.Proxy.Args.{Args}
use fleetsuite.Proxy.Rule.{Nets, Rule, Request, parse, parse_u16, rule_allows}
use fleetsuite.Proxy.Store.{Store}

pub data Verdict : Type 0 where
  ok ok_intranet ok_internet err : Verdict

pub verdict_text : Verdict → Text
verdict_text ok = codes "OK"
verdict_text ok_intranet = codes "OK tag=intranet"
verdict_text ok_internet = codes "OK tag=internet"
verdict_text err = codes "ERR"

-- Computations over a state that may fail, as the `Result` of the client's calls.
abbrev pub M : Type 0 → Type 0 → Type 0
M S A = S → Option A × S

abbrev pub pure : {S A : Type 0} → A → M S A
pure a s = (some a, s)

abbrev pub continue_with : {S A B : Type 0} → (A → M S B) → Option A × S → Option B × S
continue_with f (none, s) = (none, s)
continue_with f (some a, s) = f a s

infixl 5 ◌>>=◌
abbrev pub ◌>>=◌ : {S A B : Type 0} → M S A → (A → M S B) → M S B
◌>>=◌ m f s = continue_with f (m s)

-- `{prefix}{pt}{tier}`.
abbrev pub tier_key : Text → Text → Text
tier_key pt tier = codes "infoproxy:" ++ (pt ++ (codes ":" ++ tier))

abbrev pub global_tier : Text
global_tier = codes "global"

abbrev pub model_tier : Text → Text
model_tier pn = codes "model:" ++ pn

abbrev pub device_tier : Text → Text
device_tier src = codes "device:" ++ src

abbrev pub device_key : Text → Text
device_key src = codes "systems:by-ip:" ++ src

module _ (nets : Nets) {S : Type 0} (valkey : Store S) where
  abbrev pub any_allows : Request nets → Bool → List Text → Bool
  any_allows req strict_proto members =
      any (λ m. rule_allows nets (parse m) req strict_proto) members

  unfoldable pub key_allows : Text → Request nets → Bool → M S Bool
  key_allows key req strict_proto = do
    members ← valkey.smembers key
    pure (any_allows req strict_proto members)

  -- No model tier for a device without a part number.
  unfoldable pub model_allows : Text → Option Text → Request nets → Bool → M S Bool
  model_allows pt none req strict_proto = pure false
  model_allows pt (some pn) req strict_proto =
      if is_empty pn then pure false else key_allows (tier_key pt (model_tier pn)) req strict_proto

  unfoldable pub tier_allows : Text → Text → Option Text → Request nets → Bool → M S Bool
  tier_allows pt src partno req strict_proto = do
    in_global ← key_allows (tier_key pt global_tier) req strict_proto
    if in_global then pure true else (do
      in_model ← model_allows pt partno req strict_proto
      if in_model then pure true else key_allows (tier_key pt (device_tier src)) req strict_proto)

  -- An error of the client is the verdict `err`.
  abbrev pub or_err : Option Verdict × S → Verdict × S
  or_err (none, s) = (err, s)
  or_err (some v, s) = (v, s)

  -- `fields.get(i)`, or a dash.
  abbrev pub field : List Text → ℕ → Text
  field fields i = unwrap_or (get_elem? fields i) (codes "-")

  abbrev pub is_absent : Text → Bool
  is_absent t = is_empty t || text_eq t (codes "-")

  unfoldable pub request_of : List Text → Request nets
  request_of fields =
      let dst = field fields 1 in
      let rd = field fields 4 in
      record {
        dst_ip = if is_absent dst then none else nets.parse_addr dst;
        dst_host = if not (is_absent rd) then rd else (if text_eq dst (codes "-") then [] else dst);
        port = parse_u16 (field fields 2);
        method = field fields 3;
      }

  unfoldable pub verdict : Args → Text → Option Text → Request nets → M S Verdict
  verdict args src partno req =
      if text_eq args.proxy_type (codes "both")
      then (do
        intranet ← tier_allows (codes "intranet") src partno req args.strict_proto
        if intranet then pure ok_intranet else (do
          internet ← tier_allows (codes "internet") src partno req args.strict_proto
          pure (if internet then ok_internet else err)))
      else (do
        allowed ← tier_allows args.proxy_type src partno req args.strict_proto
        pure (if allowed then ok else err))

  unfoldable pub decide : Args → List Text → S → Verdict × S
  decide args fields s =
      let src = field fields 0 in
      if is_absent src
      then (err, s)
      else or_err (
          (valkey.hget (device_key src) (codes "partno") >>= λ partno.
          verdict args src partno (request_of fields))
            s)

  -- One line of Squid: the channel id is echoed where the helper runs with concurrency.
  abbrev answer : Option Text → Verdict → Text
  answer none v = verdict_text v ++ 10 ∷ []
  answer (some channel) v = channel ++ (32 ∷ verdict_text v ++ 10 ∷ [])

  unfoldable pub serve_tokens : Args → List Text → S → Text × S
  serve_tokens args [] s = let (v, s') = decide args [] s in (answer none v, s')
  serve_tokens args (t ∷ ts) s =
      if args.concurrent
      then (let (v, s') = decide args ts s in (answer (some t) v, s'))
      else (let (v, s') = decide args (t ∷ ts) s in (answer none v, s'))

  -- The loop: each round has the line, if it can be read, and whether its answer can be written.
  unfoldable pub serve : Args → List (Option Text × Bool) → S → List Text × S
  unfolding split_whitespace trim
  serve args [] s = ([], s)
  serve args ((none, written) ∷ lines) s = ([], s)
  serve args ((some line, written) ∷ lines) s =
      let skipped = serve args lines s in
      let (out, s') = serve_tokens args (split_whitespace line) s in
      let rest = serve args lines s' in
      if is_empty (trim line)
      then skipped
      else (if written then (out ∷ rest.0, rest.1) else ([], s'))
