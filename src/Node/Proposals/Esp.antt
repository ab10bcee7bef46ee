-- ===== src/Node/Proposals/Esp.antt =====
-- ipsecnode/src/proposals.rs: what protects the traffic that an ESP proposal allows.
use fleetsuite.Common.{
  flat_map, ℕ, ◌≡◌, refl, ◌⊎◌, Bool, true, false, List, [], ◌∷◌, ◌++◌, Option, none, some, arith,
  unwrap_or, All, All-flat_map, All-filter_map, All-intro, inl, inr, Bool-cases, ap, subst, ◌∙◌,
  map_option, length, length-append, ◌≤◌, ◌<◌,
}
use fleetsuite.Common.Text.{Text, codes, ends_with, text_eq, text_eq_iff}
use fleetsuite.Node.Site.{SiteRecord}
use fleetsuite.Node.Proposals.{
  default_esp, enc_token, auth_token, is_gcm, auth_variant, auth_variants, esp_pfs_loop,
  esp_enc_body, esp_proposal, esp_from_fields, pfs_token, build_esp_proposals, or_default,
}

abbrev pub IsAead : Text → Type 0
IsAead e = (e ≡ codes "aes128gcm16") ⊎ (e ≡ codes "aes192gcm16") ⊎ (e ≡ codes "aes256gcm16")

abbrev pub IsCipher : Text → Type 0
IsCipher e = (e ≡ codes "aes128") ⊎ (e ≡ codes "aes192") ⊎ (e ≡ codes "aes256")

abbrev pub IsHmac : Text → Type 0
IsHmac a = (a ≡ codes "sha256") ⊎ (a ≡ codes "sha384") ⊎ (a ≡ codes "sha512")

-- A text, with a group behind a dash where there is one.
abbrev pub with_group : Text → Option Text → Text
with_group t none = t
with_group t (some group) = t ++ (codes "-" ++ group)

-- A proposal with integrity: of an AEAD cipher alone, or of a cipher with an HMAC.
pub data IsProtected (p : Text) : Type 0 where
  aead : (e : Text) (dh : Option Text) → IsAead e → p ≡ with_group e dh → IsProtected p
  hmac :
      (e a : Text) (dh : Option Text)
      → IsCipher e
      → IsHmac a
      → p ≡ e ++ (codes "-" ++ with_group a dh)
      → IsProtected p

-- The values that the field's documentation lists.
abbrev pub IsKnownEnc : Text → Type 0
IsKnownEnc enc =
    (enc ≡ codes "aes128")
    ⊎ (enc ≡ codes "aes192")
    ⊎ (enc ≡ codes "aes256")
    ⊎ (enc ≡ codes "aes128gcm")
    ⊎ (enc ≡ codes "aes192gcm")
    ⊎ (enc ≡ codes "aes256gcm")

-- What a known name is translated to fits the test on its ending.
abbrev Fits : Bool → Text → Type 0
Fits true et = IsAead et
Fits false et = IsCipher et

known_enc-Fits : (enc : Text) → IsKnownEnc enc → Fits (is_gcm enc) (enc_token enc)
unfolding is_gcm ends_with enc_token text_eq
known_enc-Fits enc (inl e) = rw e (inl refl)
known_enc-Fits enc (inr (inl e)) = rw e (inr (inl refl))
known_enc-Fits enc (inr (inr (inl e))) = rw e (inr (inr refl))
known_enc-Fits enc (inr (inr (inr (inl e)))) = rw e (inl refl)
known_enc-Fits enc (inr (inr (inr (inr (inl e))))) = rw e (inr (inl refl))
known_enc-Fits enc (inr (inr (inr (inr (inr e))))) = rw e (inr (inr refl))

auth_token-IsHmac : (a : Text) → IsHmac (auth_token a)
unfolding auth_token
auth_token-IsHmac a = elim (Bool-cases (text_eq a (codes "sha256"))) [
  | inl e ↦ rw e (inl refl)
  | inr n ↦ elim (Bool-cases (text_eq a (codes "sha384"))) [
    | inl e ↦ rw (n, e) (inr (inl refl))
    | inr m ↦ elim (Bool-cases (text_eq a (codes "sha512"))) [
      | inl e ↦ rw (n, m, e) (inr (inr refl))
      | inr l ↦ rw (n, m, l) (inl refl)
    ]
  ]
]

-- A variant without a token goes with an AEAD cipher, one with a token with another cipher.
abbrev Suits : Bool → Option Text → Type 0
Suits true v = v ≡ none
Suits false v = (a : Text) × (v ≡ some a) × IsHmac a

auth_variant-Suits :
    (gcm : Bool) (a : Text) (v : Option Text) → auth_variant gcm a ≡ some v → Suits gcm v
unfolding auth_variant
auth_variant-Suits true a v e = ground arith
auth_variant-Suits false a v e = (auth_token a, ground arith, auth_token-IsHmac a)

auth_variants-Suits :
    (gcm : Bool) (auths : Option (List Text)) → All (Suits gcm) (auth_variants gcm auths)
unfolding auth_variants
auth_variants-Suits true none = (refl, tt)
auth_variants-Suits false none = ((codes "sha256", refl, inl refl), tt)
auth_variants-Suits gcm (some auths) =
    All-filter_map (λ _. Unit {0}) (Suits gcm) (auth_variant gcm) auths
      (λ a _ v e. auth_variant-Suits gcm a v e) (All-intro (λ _. Unit {0}) auths (λ _. tt))

bare_with_group : (e : Text) (dh : Option Text) → esp_proposal e none dh ≡ with_group e dh
bare_with_group e none = refl
bare_with_group e (some d) = refl

hmac_with_group :
    (e a : Text) (dh : Option Text)
    → esp_proposal e (some a) dh ≡ e ++ (codes "-" ++ with_group a dh)
hmac_with_group e a none = refl
hmac_with_group e a (some d) = refl

esp_proposal-IsProtected :
    (gcm : Bool) (et : Text) (v dh : Option Text)
    → Fits gcm et
    → Suits gcm v
    → IsProtected (esp_proposal et v dh)
esp_proposal-IsProtected true et v dh f s =
    aead et dh f (ap (λ x. esp_proposal et x dh) s ∙ bare_with_group et dh)
esp_proposal-IsProtected false et v dh f (a, e, h) =
    hmac et a dh f h (ap (λ x. esp_proposal et x dh) e ∙ hmac_with_group et a dh)

esp_pfs_loop-IsProtected :
    (gcm : Bool) (et : Text) (v : Option Text) (pfs : List ℕ)
    → Fits gcm et
    → Suits gcm v
    → All IsProtected (esp_pfs_loop et v pfs)
unfolding esp_pfs_loop
esp_pfs_loop-IsProtected gcm et v pfs f s =
    All-filter_map (λ _. Unit {0}) IsProtected _ pfs (λ p _ y e. from_token (pfs_token p) y e)
      (All-intro (λ _. Unit {0}) pfs (λ _. tt))
  where
    from_token :
        (t : Option (Option Text)) (y : Text)
        → map_option (esp_proposal et v) t ≡ some y
        → IsProtected y
    from_token none y e = cc
    from_token (some dh) y e =
        subst IsProtected (ap (λ o. unwrap_or o []) e) (esp_proposal-IsProtected gcm et v dh f s)

esp_enc_body-IsProtected :
    (auths : Option (List Text)) (pfs : List ℕ) (enc : Text)
    → IsKnownEnc enc
    → All IsProtected (esp_enc_body auths pfs enc)
unfolding esp_enc_body
esp_enc_body-IsProtected auths pfs enc k =
    All-flat_map (Suits (is_gcm enc)) IsProtected _ (auth_variants (is_gcm enc) auths)
      (λ v s. esp_pfs_loop-IsProtected (is_gcm enc) (enc_token enc) v pfs (known_enc-Fits enc k) s)
      (auth_variants-Suits (is_gcm enc) auths)

or_default-IsProtected :
    (ps : List Text) → All IsProtected ps → All IsProtected (or_default default_esp ps)
or_default-IsProtected [] a = (aead default_esp none (inr (inr refl)) refl, tt)
or_default-IsProtected (p ∷ ps) a = a

from_fields-IsProtected :
    (encs auths : Option (List Text)) (pfs : Option (List ℕ))
    → All IsKnownEnc (unwrap_or encs (codes "aes256gcm" ∷ []))
    → All IsProtected (esp_from_fields encs auths pfs)
unfolding esp_from_fields
from_fields-IsProtected none none none k = (aead default_esp none (inr (inr refl)) refl, tt)
from_fields-IsProtected encs auths pfs k =
    let fs = unwrap_or pfs (0 ∷ []) in
    let es = unwrap_or encs (codes "aes256gcm" ∷ []) in
    or_default-IsProtected (flat_map (esp_enc_body auths fs) es) (
      All-flat_map IsKnownEnc IsProtected (esp_enc_body auths fs) es
        (λ e h. esp_enc_body-IsProtected auths fs e h) k)

-- When every `esp_enc` value is one of the six that are documented, every ESP proposal of the record
-- has integrity, whatever its other fields hold.
pub build_esp_proposals-IsProtected :
    (rec : SiteRecord)
    → All IsKnownEnc (unwrap_or rec.esp_enc (codes "aes256gcm" ∷ []))
    → All IsProtected (build_esp_proposals rec)
unfolding build_esp_proposals
build_esp_proposals-IsProtected rec k =
    from_fields-IsProtected rec.esp_enc rec.esp_auth rec.esp_pfs k

with_group-length : (e : Text) (dh : Option Text) → length e ≤ length (with_group e dh)
with_group-length e none = omega arith
with_group-length e (some d) = omega (arith, length-append e (codes "-" ++ d))

hmac_proposal-length :
    (e a : Text) (dh : Option Text) → length e < length (e ++ (codes "-" ++ with_group a dh))
hmac_proposal-length e a dh = omega (arith, length-append e (codes "-" ++ with_group a dh))

IsAead-length : (e : Text) → IsAead e → length e ≡ 11
IsAead-length e (inl p) = ap length p
IsAead-length e (inr (inl p)) = ap length p
IsAead-length e (inr (inr p)) = ap length p

IsCipher-length : (e : Text) → IsCipher e → length e ≡ 6
IsCipher-length e (inl p) = ap length p
IsCipher-length e (inr (inl p)) = ap length p
IsCipher-length e (inr (inr p)) = ap length p

bare_cipher_unprotected : ¬ IsProtected (codes "aes256")
bare_cipher_unprotected (aead e dh a p) =
    omega (arith, IsAead-length e a, with_group-length e dh, ap length p)
bare_cipher_unprotected (hmac e a dh c _ p) =
    omega (arith, IsCipher-length e c, hmac_proposal-length e a dh, ap length p)

text_eq_no : (s t : Text) → (s ≡ t → ⊥) → text_eq s t ≡ false
text_eq_no s t n = elim (Bool-cases (text_eq s t)) [
  | inl e ↦ absurd (n ((text_eq_iff s t).0 e))
  | inr f ↦ f
]

enc_token_unknown : (enc : Text) → ¬ IsKnownEnc enc → enc_token enc ≡ codes "aes256"
unfolding enc_token
enc_token_unknown enc u =
    rw
      (
        text_eq_no enc (codes "aes128") (λ e. u (inl e)),
        text_eq_no enc (codes "aes192") (λ e. u (inr (inl e))),
        text_eq_no enc (codes "aes256") (λ e. u (inr (inr (inl e)))),
        text_eq_no enc (codes "aes128gcm") (λ e. u (inr (inr (inr (inl e))))),
        text_eq_no enc (codes "aes192gcm") (λ e. u (inr (inr (inr (inr (inl e)))))),
        text_eq_no enc (codes "aes256gcm") (λ e. u (inr (inr (inr (inr (inr e)))))),
      )
      refl

lone_gcm_body :
    (enc : Text)
    → is_gcm enc ≡ true
    → enc_token enc ≡ codes "aes256"
    → esp_enc_body none (0 ∷ []) enc ≡ codes "aes256" ∷ []
unfolding esp_enc_body auth_variants esp_pfs_loop
lone_gcm_body enc g t = rw (g, t)

-- A lone `esp_enc` value that ends in gcm and is none of the six gives the single proposal `aes256`,
-- which has no integrity, when `esp_auth` and `esp_pfs` are absent.
pub unknown_gcm_unprotected :
    (rec : SiteRecord) (enc : Text)
    → rec.esp_enc ≡ some (enc ∷ [])
    → rec.esp_auth ≡ none
    → rec.esp_pfs ≡ none
    → ends_with (codes "gcm") enc ≡ true
    → ¬ IsKnownEnc enc
    → (build_esp_proposals rec ≡ codes "aes256" ∷ []) × ¬ IsProtected (codes "aes256")
unfolding build_esp_proposals esp_from_fields is_gcm
unknown_gcm_unprotected rec enc e a p g u = (
  rw (e, a, p)
      (ap (λ b. or_default default_esp (b ++ [])) (lone_gcm_body enc g (enc_token_unknown enc u))),
  bare_cipher_unprotected,
)
