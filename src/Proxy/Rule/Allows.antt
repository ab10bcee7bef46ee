-- ===== src/Proxy/Rule/Allows.antt =====
-- squid-infoproxy/src/matcher.rs: when a rule allows a request, and how a spooled member is read.
use fleetsuite.Common.{
  ℕ, ◌≤◌, ◌≡◌, refl, ◌≢◌, ◌↔◌, inl, inr, Bool, true, false, not, ◌&&◌, ◌||◌, Option, none, some, [],
  ◌∷◌, arith, ◌==◌, Bool-cases, unwrap_or, any, is_empty, All-mono,
}
use fleetsuite.Common.Text.{
  Text, codes, join, trim, contains, to_ascii_lowercase, show_nat, parse_uint,
}
use fleetsuite.Common.Decimal.{IsDigit, show_nat-IsDigit, parse_uint-show_nat}
use fleetsuite.Common.Split.{IsFree, split_by-join, trim_digits}
use fleetsuite.Proxy.Rule.{
  Nets, Rule, Request, parse, parse_u16, rule_allows, dest_by_cidr, dest_by_dns, port_ok, proto_ok,
  host_matches, candidates, in_net, in_range,
}

abbrev pub is_tab : ℕ → Bool
is_tab c = c == 9

abbrev port_text : Option ℕ → Text
port_text none = []
port_text (some p) = show_nat p

-- A member as the spooler writes it.
abbrev pub member_of : Rule → Text
member_of r =
    join (9 ∷ []) (r.dns ∷ r.cidr ∷ port_text r.port_from ∷ port_text r.port_to ∷ r.protocol ∷ [])

abbrev pub IsPort : Option ℕ → Type 0
IsPort none = Unit
IsPort (some p) = p ≤ 65535

digit_not_tab : (c : ℕ) → IsDigit c → is_tab c ≡ false
digit_not_tab c h = ground arith

port_text-IsFree : (o : Option ℕ) → IsFree is_tab (port_text o)
port_text-IsFree none = tt
port_text-IsFree (some p) =
    All-mono IsDigit (λ c. is_tab c ≡ false) (show_nat p) digit_not_tab (show_nat-IsDigit p)

port_text-parse : (o : Option ℕ) → IsPort o → parse_u16 (trim (port_text o)) ≡ o
port_text-parse none h = unfold trim parse_uint in refl
port_text-parse (some p) h =
    rw (trim_digits (show_nat p) (show_nat-IsDigit p)) (parse_uint-show_nat 65535 p h)

-- Parsing a member gives back the rule it was written from, when no text field holds a tab and the
-- ports are 16-bit numbers or absent.
pub parse-member_of :
    (r : Rule)
    → IsFree is_tab r.dns
    → IsFree is_tab r.cidr
    → IsFree is_tab r.protocol
    → IsPort r.port_from
    → IsPort r.port_to
    → parse (member_of r) ≡ r
unfolding parse
parse-member_of r d c p from to =
    rw
      (
        split_by-join is_tab 9 r.dns
            (r.cidr ∷ port_text r.port_from ∷ port_text r.port_to ∷ r.protocol ∷ []) refl
            (d, (c, (port_text-IsFree r.port_from, (port_text-IsFree r.port_to, (p, tt))))),
        port_text-parse r.port_from from,
        port_text-parse r.port_to to,
      )
      refl

is_empty_sound : (s : Text) → not (is_empty s) ≡ true → s ≢ []
is_empty_sound [] h e = cc
is_empty_sound (c ∷ s) h e = cc

is_empty_complete : (s : Text) → s ≢ [] → not (is_empty s) ≡ true
is_empty_complete [] h = absurd (h refl)
is_empty_complete (c ∷ s) h = refl

empty_sound : (s : Text) → is_empty s ≡ true → s ≡ []
empty_sound [] h = refl
empty_sound (c ∷ s) h = cc

module _ (nets : Nets) where
  open nets use {Addr, Net, parse_net, net_contains}

  -- The destination is in the rule's network, by its resolved address or by its host read as one,
  -- or its host matches the rule's pattern.
  pub data Reaches (rule : Rule) (req : Request nets) : Type 0 where
    by_cidr :
        (net : nets.Net)
        → rule.cidr ≢ []
        → parse_net rule.cidr ≡ some net
        → any (net_contains net) (candidates nets req) ≡ true
        → Reaches rule req
    by_dns : rule.dns ≢ [] → host_matches rule.dns req.dst_host ≡ true → Reaches rule req

  -- Without a lower bound any port will do; with one the request has a port in the range, whose
  -- upper bound is the lower one where it is absent.
  pub data InPorts (rule : Rule) (req : Request nets) : Type 0 where
    any_port : rule.port_from ≡ none → InPorts rule req
    between :
        (lo p : ℕ)
        → rule.port_from ≡ some lo
        → req.port ≡ some p
        → lo ≤ p
        → p ≤ unwrap_or rule.port_to lo
        → InPorts rule req

  -- The label counts under strict checking only, and passes if it is blank, says "any", or names the
  -- request's method; a request without a method passes too.
  pub data PassesLabel (rule : Rule) (req : Request nets) (strict_proto : Bool) : Type 0 where
    advisory : strict_proto ≡ false → PassesLabel rule req strict_proto
    blank : trim rule.protocol ≡ [] → PassesLabel rule req strict_proto
    any_label :
        contains (codes "any") (to_ascii_lowercase rule.protocol) ≡ true
        → PassesLabel rule req strict_proto
    no_method : req.method ≡ [] → PassesLabel rule req strict_proto
    names_method :
        contains (to_ascii_lowercase req.method) (to_ascii_lowercase rule.protocol) ≡ true
        → PassesLabel rule req strict_proto

  cidr_sound :
      (rule : Rule) (req : Request nets) (o : Option nets.Net)
      → parse_net rule.cidr ≡ o
      → (not (is_empty rule.cidr) && in_net nets o (candidates nets req)) ≡ true
      → Reaches rule req
  cidr_sound rule req none e t = absurd (ground arith)
  cidr_sound rule req (some net) e t =
      by_cidr net (is_empty_sound rule.cidr (ground arith)) e (ground arith)

  dest_sound :
      (rule : Rule) (req : Request nets)
      → (dest_by_cidr nets rule req || dest_by_dns nets rule req) ≡ true
      → Reaches rule req
  dest_sound rule req t = elim (Bool-cases (dest_by_cidr nets rule req)) [
    | inl c ↦ cidr_sound rule req (parse_net rule.cidr) refl (unfold dest_by_cidr in c)
    | inr n ↦ dns (unfold dest_by_dns in ground arith)
  ]
    where
      dns :
          (not (is_empty rule.dns) && host_matches rule.dns req.dst_host) ≡ true → Reaches rule req
      dns b = by_dns (is_empty_sound rule.dns (ground arith)) (ground arith)

  dest_complete :
      (rule : Rule) (req : Request nets)
      → Reaches rule req
      → (dest_by_cidr nets rule req || dest_by_dns nets rule req) ≡ true
  unfolding dest_by_cidr dest_by_dns
  dest_complete rule req (by_cidr net ne e t) =
      rw (e, t) (ground (arith, is_empty_complete rule.cidr ne))
  dest_complete rule req (by_dns ne t) = ground (arith, t, is_empty_complete rule.dns ne)

  port_sound :
      (rule : Rule) (req : Request nets) (from port : Option ℕ)
      → rule.port_from ≡ from
      → req.port ≡ port
      → in_range nets from rule.port_to port ≡ true
      → InPorts rule req
  port_sound rule req none port e f t = any_port e
  port_sound rule req (some lo) none e f t = absurd (ground arith)
  port_sound rule req (some lo) (some p) e f t = between lo p e f (ground arith) (ground arith)

  port_complete :
      (rule : Rule) (req : Request nets) → InPorts rule req → port_ok nets rule req ≡ true
  unfolding port_ok
  port_complete rule req (any_port e) = rw e
  port_complete rule req (between lo p e f le ge) = rw (e, f) (ground arith)

  label_sound :
      (rule : Rule) (req : Request nets) (strict_proto : Bool)
      → proto_ok nets rule req strict_proto ≡ true
      → PassesLabel rule req strict_proto
  unfolding proto_ok
  label_sound rule req false t = advisory refl
  label_sound rule req true t = elim (Bool-cases (is_empty (trim rule.protocol))) [
    | inl e ↦ blank (empty_sound (trim rule.protocol) e)
    | inr n ↦ elim (Bool-cases (contains (codes "any") (to_ascii_lowercase rule.protocol))) [
      | inl a ↦ any_label a
      | inr b ↦ elim (Bool-cases (is_empty req.method)) [
        | inl m ↦ no_method (empty_sound req.method m)
        | inr k ↦ names_method (ground arith)
      ]
    ]
  ]

  label_complete :
      (rule : Rule) (req : Request nets) (strict_proto : Bool)
      → PassesLabel rule req strict_proto
      → proto_ok nets rule req strict_proto ≡ true
  unfolding proto_ok
  label_complete rule req strict_proto (advisory e) = rw e
  label_complete rule req strict_proto (blank e) = rw e (ground arith)
  label_complete rule req strict_proto (any_label e) = ground arith
  label_complete rule req strict_proto (no_method e) = rw e (ground arith)
  label_complete rule req strict_proto (names_method e) = ground arith

  -- A rule allows a request exactly when it reaches the request's destination, the port is in its
  -- range, and its label passes.
  pub rule_allows_iff :
      (rule : Rule) (req : Request nets) (strict_proto : Bool)
      → (rule_allows nets rule req strict_proto ≡ true)
        ↔ (Reaches rule req × InPorts rule req × PassesLabel rule req strict_proto)
  unfolding rule_allows
  rule_allows_iff rule req strict_proto = (sound, complete)
    where
      sound :
          rule_allows nets rule req strict_proto ≡ true
          → Reaches rule req × InPorts rule req × PassesLabel rule req strict_proto
      sound t = (
        dest_sound rule req (ground arith),
        port_sound rule req rule.port_from req.port refl refl (unfold port_ok in port t),
        label_sound rule req strict_proto (ground arith),
      )
        where
          port : rule_allows nets rule req strict_proto ≡ true → port_ok nets rule req ≡ true
          port u = ground arith

      complete :
          Reaches rule req × InPorts rule req × PassesLabel rule req strict_proto
          → rule_allows nets rule req strict_proto ≡ true
      complete (d, p, l) =
          rw
            (
              dest_complete rule req d,
              port_complete rule req p,
              label_complete rule req strict_proto l,
            )
            refl
