-- ===== src/Node/Proposals.antt =====
-- ipsecnode/src/proposals.rs: the crypto fields of a site as StrongSwan proposals. Log lines are
-- left out.
pub mod Ike
pub mod Esp
mod Tests
use fleetsuite.Common.{
  ℕ, Bool, true, false, ◌&&◌, List, [], ◌∷◌, ◌++◌, Option, none, some, if◌then◌else◌, ◌==◌,
  flat_map, filter_map, unwrap_or, is_some, not, map_option,
}
use fleetsuite.Common.Text.{Text, codes, text_eq, ends_with}
use fleetsuite.Node.Site.{SiteRecord}

abbrev pub default_ike : Text
default_ike = codes "aes256-sha256-modp2048"

abbrev pub default_esp : Text
default_esp = codes "aes256gcm16"

unfoldable pub dh_group_name : ℕ → Option Text
dh_group_name g =
    if g == 1
    then some (codes "modp768")
    else if g == 2
    then some (codes "modp1024")
    else if g == 5
    then some (codes "modp1536")
    else if g == 14
    then some (codes "modp2048")
    else if g == 15
    then some (codes "modp3072")
    else if g == 16
    then some (codes "modp4096")
    else if g == 19
    then some (codes "ecp256")
    else if g == 20
    then some (codes "ecp384")
    else if g == 21
    then some (codes "ecp521")
    else if g == 24
    then some (codes "modp2048s256")
    else none

unfoldable pub is_gcm : Text → Bool
is_gcm enc = ends_with (codes "gcm") enc

unfoldable pub enc_token : Text → Text
enc_token enc =
    if text_eq enc (codes "aes128")
    then codes "aes128"
    else if text_eq enc (codes "aes192")
    then codes "aes192"
    else if text_eq enc (codes "aes256")
    then codes "aes256"
    else if text_eq enc (codes "aes128gcm")
    then codes "aes128gcm16"
    else if text_eq enc (codes "aes192gcm")
    then codes "aes192gcm16"
    else if text_eq enc (codes "aes256gcm")
    then codes "aes256gcm16"
    else codes "aes256"

unfoldable pub auth_token : Text → Text
auth_token auth =
    if text_eq auth (codes "sha256")
    then codes "sha256"
    else if text_eq auth (codes "sha384")
    then codes "sha384"
    else if text_eq auth (codes "sha512")
    then codes "sha512"
    else codes "sha256"

abbrev pub dashed : Text → Text → Text
dashed a b = a ++ (codes "-" ++ b)

abbrev push_or_leave : Text → Text → Option Text → List Text × Bool → List Text × Bool
push_or_leave et at none rest = ([], false)
push_or_leave et at (some dt) rest = (dashed et (dashed at dt) ∷ rest.0, rest.1)

-- The loop over the DH groups: what it pushes, and whether it ran to its end. An unknown group
-- leaves the loop over the encryptions' body by `continue 'outer`.
unfoldable pub ike_dh_loop : Text → Text → List ℕ → List Text × Bool
ike_dh_loop et at [] = ([], true)
ike_dh_loop et at (dh ∷ dhs) = push_or_leave et at (dh_group_name dh) (ike_dh_loop et at dhs)

unfoldable pub ike_auth_loop : Text → List Text → List ℕ → List Text
unfolding ike_dh_loop
ike_auth_loop et [] dhs = []
ike_auth_loop et (auth ∷ auths) dhs =
    let r = ike_dh_loop et (auth_token auth) dhs in
    let rest = ike_auth_loop et auths dhs in if r.1 then r.0 ++ rest else r.0

abbrev or_default : Text → List Text → List Text
or_default d [] = d ∷ []
or_default d (p ∷ ps) = p ∷ ps

unfoldable pub ike_loop : List Text → List Text → List ℕ → List Text
ike_loop encs auths dhs = flat_map (λ enc. ike_auth_loop (enc_token enc) auths dhs) encs

unfoldable pub ike_from_fields :
    Option (List Text) → Option (List Text) → Option (List ℕ) → List Text
ike_from_fields encs auths dhs =
    if not (is_some encs) && (not (is_some auths) && not (is_some dhs))
    then default_ike ∷ []
    else or_default default_ike (
        ike_loop (unwrap_or encs (codes "aes256" ∷ [])) (unwrap_or auths (codes "sha256" ∷ []))
          (unwrap_or dhs (14 ∷ [])))

unfoldable pub build_ike_proposals : SiteRecord → List Text
build_ike_proposals rec = ike_from_fields rec.ike_enc rec.ike_auth rec.ike_dh

-- The closure over one `esp_auth` value: no variant, the variant without a token, or a token.
unfoldable pub auth_variant : Bool → Text → Option (Option Text)
auth_variant gcm a =
    if gcm
    then (if text_eq a (codes "none") then some none else none)
    else (if text_eq a (codes "none") then none else some (some (auth_token a)))

unfoldable pub auth_variants : Bool → Option (List Text) → List (Option Text)
auth_variants gcm (some auths) = filter_map (auth_variant gcm) auths
auth_variants gcm none = (if gcm then none else some (codes "sha256")) ∷ []

-- No token for group 0, and no combination for an unknown group.
unfoldable pub pfs_token : ℕ → Option (Option Text)
pfs_token pfs = if pfs == 0 then some none else map_option (λ t. some t) (dh_group_name pfs)

abbrev pub esp_proposal : Text → Option Text → Option Text → Text
esp_proposal et none none = et
esp_proposal et none (some dh) = dashed et dh
esp_proposal et (some a) none = dashed et a
esp_proposal et (some a) (some dh) = dashed et (dashed a dh)

-- The innermost loop, over the PFS groups.
unfoldable pub esp_pfs_loop : Text → Option Text → List ℕ → List Text
unfolding pfs_token
esp_pfs_loop et auth pfs_list =
    filter_map (λ p. map_option (esp_proposal et auth) (pfs_token p)) pfs_list

unfoldable pub esp_enc_body : Option (List Text) → List ℕ → Text → List Text
esp_enc_body auths pfs_list enc =
    flat_map (λ auth. esp_pfs_loop (enc_token enc) auth pfs_list) (auth_variants (is_gcm enc) auths)

unfoldable pub esp_from_fields :
    Option (List Text) → Option (List Text) → Option (List ℕ) → List Text
esp_from_fields encs auths pfs =
    if not (is_some encs) && (not (is_some auths) && not (is_some pfs))
    then default_esp ∷ []
    else or_default default_esp (
        flat_map (esp_enc_body auths (unwrap_or pfs (0 ∷ [])))
          (unwrap_or encs (codes "aes256gcm" ∷ [])))

unfoldable pub build_esp_proposals : SiteRecord → List Text
build_esp_proposals rec = esp_from_fields rec.esp_enc rec.esp_auth rec.esp_pfs
