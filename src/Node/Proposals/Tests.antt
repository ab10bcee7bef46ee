-- ===== src/Node/Proposals/Tests.antt =====
-- Runs of ipsecnode/src/proposals.rs, and instances of its theorems.
use fleetsuite.Common.{◌≡◌, refl, [], ◌∷◌, none, some, inl, inr, All, arith}
use fleetsuite.Common.Text.{codes, text_eq, ends_with}
use fleetsuite.Node.Site.{SiteRecord}
use fleetsuite.Node.Proposals.{
  build_ike_proposals, build_esp_proposals, default_ike, or_default, dh_group_name, enc_token,
  auth_token, ike_from_fields, ike_loop, ike_auth_loop,
}
use fleetsuite.Node.Proposals.Ike.{
  build_ike_proposals-eq-product, unknown_group_hides_rest, product,
}
use fleetsuite.Node.Proposals.Esp.{
  IsProtected, IsKnownEnc, build_esp_proposals-IsProtected, unknown_gcm_unprotected,
}

abbrev plain : SiteRecord
plain = record {
  mapped_global_ip = none;
  customer_id = none;
  ike_identity = none;
  static_ip = none;
  nat_mode = none;
  ike_version = none;
  ike_enc = none;
  ike_auth = none;
  ike_dh = none;
  esp_enc = none;
  esp_auth = none;
  esp_pfs = none;
  remote_ts = none;
  local_ts = none;
}

-- Two encryptions and two groups.
abbrev listed : SiteRecord
listed = record plain {
  ike_enc = some (codes "aes256" ∷ codes "aes128" ∷ []);
  ike_dh = some (14 ∷ 19 ∷ []);
  esp_enc = some (codes "aes128" ∷ codes "aes256gcm" ∷ []);
}

listed_ike :
    build_ike_proposals listed
    ≡ codes "aes256-sha256-modp2048"
      ∷ codes "aes256-sha256-ecp256"
      ∷ codes "aes128-sha256-modp2048"
      ∷ codes "aes128-sha256-ecp256"
      ∷ []
unfolding build_ike_proposals ike_from_fields ike_loop ike_auth_loop dh_group_name enc_token text_eq
    auth_token
listed_ike = refl

-- Group 3 is unknown; group 14 behind it is lost.
abbrev unknown_first : SiteRecord
unknown_first = record plain { ike_dh = some (3 ∷ 14 ∷ []) }

abbrev unknown_gcm : SiteRecord
unknown_gcm = record plain { esp_enc = some (codes "aes512gcm" ∷ []) }

build_ike_proposals-eq-product_example :
    build_ike_proposals listed
    ≡ or_default default_ike
        (product (codes "aes256" ∷ codes "aes128" ∷ []) (codes "sha256" ∷ []) (14 ∷ 19 ∷ []))
unfolding dh_group_name
build_ike_proposals-eq-product_example =
    build_ike_proposals-eq-product listed ((codes "modp2048", refl), ((codes "ecp256", refl), tt))

unknown_group_hides_rest_example : build_ike_proposals unknown_first ≡ default_ike ∷ []
unfolding dh_group_name
unknown_group_hides_rest_example = unknown_group_hides_rest unknown_first 3 (14 ∷ []) refl refl

build_esp_proposals-IsProtected_example : All IsProtected (build_esp_proposals listed)
build_esp_proposals-IsProtected_example =
    build_esp_proposals-IsProtected listed (inl refl, (inr (inr (inr (inr (inr refl)))), tt))

aes512gcm_unknown : ¬ IsKnownEnc (codes "aes512gcm")
aes512gcm_unknown (inl e) = ground arith
aes512gcm_unknown (inr (inl e)) = ground arith
aes512gcm_unknown (inr (inr (inl e))) = ground arith
aes512gcm_unknown (inr (inr (inr (inl e)))) = ground arith
aes512gcm_unknown (inr (inr (inr (inr (inl e))))) = ground arith
aes512gcm_unknown (inr (inr (inr (inr (inr e))))) = ground arith

unknown_gcm_unprotected_example :
    (build_esp_proposals unknown_gcm ≡ codes "aes256" ∷ []) × ¬ IsProtected (codes "aes256")
unfolding text_eq ends_with
unknown_gcm_unprotected_example =
    unknown_gcm_unprotected unknown_gcm (codes "aes512gcm") refl refl refl refl aes512gcm_unknown
