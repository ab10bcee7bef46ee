-- ===== src/Proxy/Url/RoundTrip.antt =====
-- squid-infoproxy/src/valkey.rs: a URL that is written from settings is read as those settings.
use fleetsuite.Common.{
  ℕ, ◌≤◌, ◌≡◌, refl, ap, subst, ◌≢◌, inl, inr, Bool, true, false, none, some, [], ◌∷◌, ◌++◌, arith,
  ◌==◌, ==_iff, Bool-cases, is_empty, All-append, All-mono,
}
use fleetsuite.Common.Text.{Text, codes, text_eq, split_once, rsplit_once, split_once_at, show_nat}
use fleetsuite.Common.Decimal.{IsDigit, show_nat-IsDigit, show_nat-cons, parse_uint-show_nat}
use fleetsuite.Common.Split.{IsFree}
use fleetsuite.Proxy.Url.{tls_of, parse_url}

abbrev pub is : ℕ → ℕ → Bool
is d c = c == d

split_once-append : (d : ℕ) (a b : Text) → IsFree (is d) a → split_once d (a ++ d ∷ b) ≡ some (a, b)
unfolding split_once
split_once-append d [] b f = rw (same d) refl
  where
    same : (d : ℕ) → (d == d) ≡ true
    same d = (==_iff d d).1 refl
split_once-append d (c ∷ a) b f = rw (f.0, split_once-append d a b f.1) refl

rsplit_once-none : (d : ℕ) (b : Text) → IsFree (is d) b → rsplit_once d b ≡ none
unfolding rsplit_once
rsplit_once-none d [] f = refl
rsplit_once-none d (c ∷ b) f = rw (rsplit_once-none d b f.1) (rw f.0 refl)

rsplit_once-append :
    (d : ℕ) (a b : Text) → IsFree (is d) b → rsplit_once d (a ++ d ∷ b) ≡ some (a, b)
unfolding rsplit_once
rsplit_once-append d [] b f = rw (rsplit_once-none d b f) (rw ((==_iff d d).1 refl) refl)
rsplit_once-append d (c ∷ a) b f = rw (rsplit_once-append d a b f) refl

digits-IsFree : (d n : ℕ) → ¬ IsDigit d → IsFree (is d) (show_nat n)
digits-IsFree d n h =
    All-mono IsDigit (λ c. is d c ≡ false) (show_nat n) differ (show_nat-IsDigit n)
  where
    differ : (c : ℕ) → IsDigit c → is d c ≡ false
    differ c q = elim (Bool-cases (is d c)) [
      | inl e ↦ absurd (h (subst IsDigit ((==_iff c d).0 e) q))
      | inr e ↦ e
    ]

-- A URL with every part: user, password, host, port and database.
abbrev pub url_of : Text → Text → Text → ℕ → ℕ → Text
url_of user password host port db =
    codes "rediss://"
    ++ ((user ++ b':' ∷ password) ++ b'@' ∷ ((host ++ b':' ∷ show_nat port) ++ b'/' ∷ show_nat db))

-- A URL with every part is read as those parts: the password may hold any character, `@`, `:` and
-- `/` included; the user holds no colon, and the host none of `@`, `:` and `/`.
pub parse_url-url_of :
    (user password host : Text) (port db : ℕ) (tls_insecure : Bool)
    → user ≢ []
    → host ≢ []
    → IsFree (is b':') user
    → IsFree (is b'@') host
    → IsFree (is b'/') host
    → port ≤ 65535
    → db ≤ 4294967295
    → parse_url (url_of user password host port db) tls_insecure
      ≡ some (record {
        tls = true;
        tls_insecure = tls_insecure;
        host = host;
        port = port;
        username = some user;
        password = some password;
        db = some db;
      })
unfolding parse_url split_once_at tls_of text_eq
parse_url-url_of user password host port db tls_insecure nu nh fu fa fs hp hd =
    rw
      (
        rsplit_once-append b'@' (user ++ b':' ∷ password)
            ((host ++ b':' ∷ show_nat port) ++ b'/' ∷ show_nat db) no_at,
        split_once-append b'/' (host ++ b':' ∷ show_nat port) (show_nat db) no_slash,
        shown_nonempty db,
        parse_uint-show_nat 4294967295 db hd,
        rsplit_once-append b':' host (show_nat port) (digits-IsFree b':' port colon),
        parse_uint-show_nat 65535 port hp,
        nonempty host nh,
        split_once-append b':' user password fu,
        nonempty user nu,
      )
      refl
  where
    colon : ¬ IsDigit b':'
    colon h = omega (arith, h.0, h.1)

    at_sign : ¬ IsDigit b'@'
    at_sign h = omega (arith, h.0, h.1)

    slash : ¬ IsDigit b'/'
    slash h = omega (arith, h.0, h.1)

    no_slash : IsFree (is b'/') (host ++ b':' ∷ show_nat port)
    no_slash =
        All-append (λ c. is b'/' c ≡ false) host (b':' ∷ show_nat port) fs
          (refl, digits-IsFree b'/' port slash)

    no_at : IsFree (is b'@') ((host ++ b':' ∷ show_nat port) ++ b'/' ∷ show_nat db)
    no_at =
        All-append (λ c. is b'@' c ≡ false) (host ++ b':' ∷ show_nat port) (b'/' ∷ show_nat db)
          (All-append (λ c. is b'@' c ≡ false) host (b':' ∷ show_nat port) fa
            (refl, digits-IsFree b'@' port at_sign))
          (refl, digits-IsFree b'@' db at_sign)

    nonempty : (s : Text) → s ≢ [] → is_empty s ≡ false
    nonempty [] n = absurd (n refl)
    nonempty (c ∷ s) n = refl

    shown_nonempty : (n : ℕ) → is_empty (show_nat n) ≡ false
    shown_nonempty n = let (d, s, e) = show_nat-cons n in ap is_empty e
