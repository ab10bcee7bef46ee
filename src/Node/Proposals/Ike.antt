-- ===== src/Node/Proposals/Ike.antt =====
-- ipsecnode/src/proposals.rs: which IKE proposals a record gives.
use fleetsuite.Common.{
  ℕ, ◌≡◌, refl, true, List, [], ◌∷◌, ◌++◌, Option, none, some, flat_map, map, unwrap_or, All, ap,
  ap₂, ◌∙◌,
}
use fleetsuite.Common.Text.{Text, codes, text_eq}
use fleetsuite.Node.Site.{SiteRecord}
use fleetsuite.Node.Proposals.{
  dashed, default_ike, dh_group_name, enc_token, auth_token, ike_dh_loop, ike_auth_loop, ike_loop,
  ike_from_fields, build_ike_proposals, or_default,
}

abbrev pub IsKnownGroup : ℕ → Type 0
IsKnownGroup g = (t : Text) × (dh_group_name g ≡ some t)

-- The cartesian product in order: encryptions, then authentications, then groups.
pub product : List Text → List Text → List ℕ → List Text
product encs auths dhs = flat_map (λ e. flat_map (λ a. map (λ g. of_triple e a g) dhs) auths) encs
  where
    of_triple : Text → Text → ℕ → Text
    of_triple e a g = dashed (enc_token e) (dashed (auth_token a) (unwrap_or (dh_group_name g) []))

ike_dh_loop_known :
    (et at : Text) (dhs : List ℕ)
    → All IsKnownGroup dhs
    → ike_dh_loop et at dhs
      ≡ (map (λ g. dashed et (dashed at (unwrap_or (dh_group_name g) []))) dhs, true)
unfolding ike_dh_loop
ike_dh_loop_known et at [] k = refl
ike_dh_loop_known et at (g ∷ dhs) k = rw (k.0.1, ike_dh_loop_known et at dhs k.1)

ike_auth_loop_known :
    (et : Text) (auths : List Text) (dhs : List ℕ)
    → All IsKnownGroup dhs
    → ike_auth_loop et auths dhs
      ≡ flat_map
          (λ a. map (λ g. dashed et (dashed (auth_token a) (unwrap_or (dh_group_name g) []))) dhs)
          auths
unfolding ike_auth_loop
ike_auth_loop_known et [] dhs k = refl
ike_auth_loop_known et (a ∷ auths) dhs k =
    rw (ike_dh_loop_known et (auth_token a) dhs k) (rw (ike_auth_loop_known et auths dhs k))

ike_loop_known :
    (encs auths : List Text) (dhs : List ℕ)
    → All IsKnownGroup dhs
    → ike_loop encs auths dhs ≡ product encs auths dhs
unfolding ike_loop product
ike_loop_known [] auths dhs k = refl
ike_loop_known (e ∷ encs) auths dhs k =
    ap₂ ◌++◌ (ike_auth_loop_known (enc_token e) auths dhs k) (ike_loop_known encs auths dhs k)

from_fields_known :
    (encs auths : Option (List Text)) (dhs : Option (List ℕ))
    → All IsKnownGroup (unwrap_or dhs (14 ∷ []))
    → ike_from_fields encs auths dhs
      ≡ or_default default_ike (
          product
            (unwrap_or encs (codes "aes256" ∷ []))
            (unwrap_or auths (codes "sha256" ∷ []))
            (unwrap_or dhs (14 ∷ [])))
unfolding ike_from_fields
from_fields_known none none none k =
    unfold product enc_token text_eq auth_token dh_group_name in refl
from_fields_known encs auths dhs k = ap (or_default default_ike) (ike_loop_known _ _ _ k)

-- With known groups only, the proposals are the product of the three fields, an absent field read as
-- aes256, sha256 or group 14, and an empty product as the default proposal.
pub build_ike_proposals-eq-product :
    (rec : SiteRecord)
    → All IsKnownGroup (unwrap_or rec.ike_dh (14 ∷ []))
    → build_ike_proposals rec
      ≡ or_default default_ike (
          product
            (unwrap_or rec.ike_enc (codes "aes256" ∷ []))
            (unwrap_or rec.ike_auth (codes "sha256" ∷ []))
            (unwrap_or rec.ike_dh (14 ∷ [])))
unfolding build_ike_proposals
build_ike_proposals-eq-product rec k = from_fields_known rec.ike_enc rec.ike_auth rec.ike_dh k

module _ (g : ℕ) (dhs : List ℕ) (u : dh_group_name g ≡ none) where
  ike_auth_loop_unknown : (et : Text) (auths : List Text) → ike_auth_loop et auths (g ∷ dhs) ≡ []
  unfolding ike_auth_loop ike_dh_loop
  ike_auth_loop_unknown et [] = refl
  ike_auth_loop_unknown et (a ∷ auths) = rw u

  ike_loop_unknown : (encs auths : List Text) → ike_loop encs auths (g ∷ dhs) ≡ []
  unfolding ike_loop
  ike_loop_unknown [] auths = refl
  ike_loop_unknown (e ∷ encs) auths =
      ap₂ ◌++◌ (ike_auth_loop_unknown (enc_token e) auths) (ike_loop_unknown encs auths)

  from_fields_unknown :
      (encs auths : Option (List Text))
      → ike_from_fields encs auths (some (g ∷ dhs)) ≡ default_ike ∷ []
  unfolding ike_from_fields
  from_fields_unknown none none = ap (or_default default_ike) (ike_loop_unknown _ _)
  from_fields_unknown encs auths = ap (or_default default_ike) (ike_loop_unknown _ _)

-- A record whose first group is unknown gets the default proposal alone, whatever known groups
-- follow it and whatever encryptions and authentications it asks for.
pub unknown_group_hides_rest :
    (rec : SiteRecord) (g : ℕ) (dhs : List ℕ)
    → rec.ike_dh ≡ some (g ∷ dhs)
    → dh_group_name g ≡ none
    → build_ike_proposals rec ≡ default_ike ∷ []
unfolding build_ike_proposals
unknown_group_hides_rest rec g dhs e u =
    ap (ike_from_fields rec.ike_enc rec.ike_auth) e
    ∙ from_fields_unknown g dhs u rec.ike_enc rec.ike_auth
