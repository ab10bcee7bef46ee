-- ===== src/Node/Site.antt =====
-- ipsecnode/src/credentials.rs: the record of a customer site. A crypto field that may be one value
-- or a list (`OneOrMany`, ipsecnode/src/proposals.rs) is the list.
use fleetsuite.Common.{ℕ, Bool, List, [], ◌∷◌, Option}
use fleetsuite.Common.Text.{Text}

-- The two JSON forms of such a field, and the list that each is read as.
pub data OneOrMany {ℓ} (A : Type ℓ) : Type ℓ where
  single : A → OneOrMany A
  many : List A → OneOrMany A

unfoldable pub deserialize {ℓ} : {A : Type ℓ} → OneOrMany A → List A
deserialize (single t) = t ∷ []
deserialize (many v) = v

pub record SiteRecord : Type 0 where
  pub mapped_global_ip : Option Text
  pub customer_id : Option Text
  pub ike_identity : Option Text
  pub static_ip : Option Bool
  pub nat_mode : Option Text
  pub ike_version : Option ℕ
  pub ike_enc : Option (List Text)
  pub ike_auth : Option (List Text)
  pub ike_dh : Option (List ℕ)
  pub esp_enc : Option (List Text)
  pub esp_auth : Option (List Text)
  pub esp_pfs : Option (List ℕ)
  pub remote_ts : Option (List Text)
  pub local_ts : Option (List Text)
