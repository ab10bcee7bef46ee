-- ===== src/Proxy/Client/Stale.antt =====
-- squid-infoproxy/src/valkey.rs: a query on a connection that the server has closed.
use fleetsuite.Common.{
  ℕ, suc, ◌^◌, ◌<◌, ◌≡◌, refl, ap, subst, ◌∙◌, ◌⊎◌, inl, inr, false, none, some, List, [], ◌∷◌,
  ◌++◌, map, length, All,
}
use mathlib.Core.List.{append-nil}
use fleetsuite.Common.Text.{Text, codes, show_nat}
use fleetsuite.Proxy.Url.{ValkeyConfig}
use fleetsuite.Proxy.Resp.{
  Utf8, Kind, Result, ok, error, Value, array, Act, ◌>>=◌, send, send_args, read_value, read_line,
  read_until, system, unexpected_eof,
}
use fleetsuite.Proxy.Resp.RoundTrip.{KeepsAscii, bulks, read_value-send}
use fleetsuite.Proxy.Client.{
  Peer, RespConn, answered, send_on, read_with, is_denied, connect, ensure, once, with_retry,
  members, smembers_reply, query, smembers_once, smembers, command,
}

-- Nothing more comes from the peer, whether a write to it fails or not.
pub record Silent (words : List (List ℕ)) (c : RespConn) : Type 0 where
  pub drained : c.incoming ≡ []
  pub mute : (c.peer (send words ∷ c.written) ≡ none) ⊎ (c.peer (send words ∷ c.written) ≡ some [])

-- The peer answers the words with these bytes, and has sent nothing before.
pub record Replies (words : List (List ℕ)) (bytes : List ℕ) (c : RespConn) : Type 0 where
  pub clean : c.incoming ≡ []
  pub speaks : c.peer (send words ∷ c.written) ≡ some bytes

-- The connection after the words were written and their answer read.
abbrev pub served : List (List ℕ) → RespConn → RespConn
served words c = record { peer = c.peer; written = send words ∷ c.written; incoming = [] }

module _ (utf8 : Utf8) (cfg : ValkeyConfig) (dial : ℕ → Result Peer) where
  query-Silent :
      {A : Type 0} (words : List Text) (interpret : Value → Result A) (c : RespConn)
      → Silent (command utf8 cfg dial words) c
      → (k : Kind) × ((query utf8 cfg dial words interpret c).0 ≡ error k) × (is_denied k ≡ false)
  unfolding query ◌>>=◌ send_on answered read_with read_value read_line read_until
  query-Silent words interpret c s = elim s.mute [
    | inl e ↦ (system, rw e refl, refl)
    | inr e ↦ (unexpected_eof, rw e (rw s.drained refl), refl)
  ]

  -- A second attempt, on a new connection, decides where the first failed for another reason than a denial.
  with_retry_reconnects :
      {A : Type 0} (act : Act RespConn A) (c fresh : RespConn) (n : ℕ) (k : Kind)
      → (act c).0 ≡ error k
      → is_denied k ≡ false
      → connect utf8 cfg dial n ≡ ok fresh
      → with_retry utf8 cfg dial (once utf8 cfg dial act) (record { conn = some c; dials = n })
        ≡ ((act fresh).0, record { conn = some (act fresh).1; dials = suc n })
  unfolding with_retry once ensure
  with_retry_reconnects act c fresh n k e d f = rw e (rw d (rw f refl))

  module _ (keeps : KeepsAscii utf8) where
    members-bulks :
        (args : List (List ℕ)) → members utf8 cfg dial (bulks args) ≡ map utf8.decode args
    unfolding members bulks
    members-bulks [] = refl
    members-bulks (a ∷ args) = ap (λ l. utf8.decode a ∷ l) (members-bulks args)

    read_value-sent :
        (args : List (List ℕ))
        → length args < 2 ^ 63
        → All (λ a. length a < 2 ^ 63) args
        → read_value utf8 (suc (length (send args))) (send args) ≡ (ok (array (bulks args)), [])
    unfolding send
    read_value-sent args n h =
        subst (λ b. read_value utf8 (suc (length (send args))) b ≡ (ok (array (bulks args)), []))
          (append-nil (send args))
          (read_value-send utf8 keeps args []
            (length (show_nat (length args) ++ (13 ∷ 10 ∷ send_args args))) n h)

    query-Replies :
        (words : List Text) (args : List (List ℕ)) (c : RespConn)
        → length args < 2 ^ 63
        → All (λ a. length a < 2 ^ 63) args
        → Replies (command utf8 cfg dial words) (send args) c
        → query utf8 cfg dial words (smembers_reply utf8 cfg dial) c
          ≡ (ok (map utf8.decode args), served (command utf8 cfg dial words) c)
    unfolding query ◌>>=◌ send_on answered read_with smembers_reply
    query-Replies words args c n h r =
        rw r.speaks (rw r.clean (rw (read_value-sent args n h) (rw (members-bulks args) refl)))

    -- Where the server no longer speaks on the connection held, whether a write on it fails or its
    -- end is met, and a new connection logs in, on which it answers SMEMBERS with an array of bulk
    -- strings as RESP encodes it, the query yields these members, and the new connection is held with
    -- nothing left to read. The sizes are below 2 ^ 63 and text in ASCII is decoded to itself.
    pub smembers_survives :
        (key : Text) (c fresh : RespConn) (n : ℕ) (args : List (List ℕ))
        → Silent (command utf8 cfg dial (codes "SMEMBERS" ∷ key ∷ [])) c
        → connect utf8 cfg dial n ≡ ok fresh
        → Replies (command utf8 cfg dial (codes "SMEMBERS" ∷ key ∷ [])) (send args) fresh
        → length args < 2 ^ 63
        → All (λ a. length a < 2 ^ 63) args
        → smembers utf8 cfg dial key (record { conn = some c; dials = n }) ≡ (
          ok (map utf8.decode args),
          record {
            conn = some (served (command utf8 cfg dial (codes "SMEMBERS" ∷ key ∷ [])) fresh);
            dials = suc n;
          },
        )
    unfolding smembers smembers_once
    smembers_survives key c fresh n args s f r l h =
        let act =
          query utf8 cfg dial (codes "SMEMBERS" ∷ key ∷ []) (smembers_reply utf8 cfg dial) in
        let q = query-Silent (codes "SMEMBERS" ∷ key ∷ []) (smembers_reply utf8 cfg dial) c s in
        with_retry_reconnects act c fresh n q.0 q.1 q.2 f
        ∙ ap (λ r. (r.0, record { conn = some r.1; dials = suc n }))
            (query-Replies (codes "SMEMBERS" ∷ key ∷ []) args fresh l h r)
