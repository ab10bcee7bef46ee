-- ===== src/Proxy/Client/Tests.antt =====
-- The theorems on queries at concrete servers.
use fleetsuite.Common.{ℕ, ◌≤◌, ◌+◌, ◌≡◌, refl, inl, false, none, some, List, [], ◌∷◌, map, arith}
use fleetsuite.Common.Text.{codes}
use fleetsuite.Proxy.Url.{ValkeyConfig}
use fleetsuite.Proxy.Resp.{
  Utf8, ok, error, system, send, read_value, read_line, read_until, pop_line_ends, by_line, by_kind,
  expect_ok, expect_ok_of, ◌>>=◌, return,
}
use fleetsuite.Proxy.Resp.RoundTrip.{KeepsAscii}
use fleetsuite.Proxy.Client.{
  Peer, RespConn, command, connect, login, auth, select, ok_to, send_on, answered, read_with,
  smembers, hget,
}
use fleetsuite.Proxy.Client.Stale.{served, smembers_survives}
use fleetsuite.Proxy.Client.Dials.{queries_dial_twice}

abbrev bytes : Utf8
bytes = record { decode = λ b. b; encode = λ t. t }

bytes-KeepsAscii : KeepsAscii bytes
unfolding KeepsAscii
bytes-KeepsAscii b a = refl

abbrev cfg : ValkeyConfig
cfg = record {
  tls = false;
  tls_insecure = false;
  host = codes "valkey";
  port = 6379;
  username = none;
  password = some (codes "secret");
  db = none;
}

abbrev rules : List (List ℕ)
rules = codes "a\t\t80\t\t" ∷ codes "b\t\t443\t\t" ∷ []

-- It accepts the password and then answers each command with the same array.
abbrev serving : Peer
serving [] = none
serving (w ∷ []) = some (codes "+OK\r\n")
serving (w ∷ v ∷ ws) = some (send rules)

abbrev closed : RespConn
closed = record { peer = λ ws. none; written = []; incoming = [] }

abbrev fresh : RespConn
fresh = record {
  peer = serving;
  written = send (command bytes cfg (λ n. ok serving) (codes "AUTH" ∷ codes "secret" ∷ [])) ∷ [];
  incoming = [];
}

connects : connect bytes cfg (λ n. ok serving) 4 ≡ ok fresh
unfolding connect login auth select ok_to send_on answered read_with expect_ok expect_ok_of
    read_value read_line read_until pop_line_ends by_line by_kind ◌>>=◌ return
connects = refl

smembers_survives_example :
    smembers bytes cfg (λ n. ok serving) (codes "k") (record { conn = some closed; dials = 4 }) ≡ (
      ok (map (λ b. b) rules),
      record {
        conn = some (
            served (command bytes cfg (λ n. ok serving) (codes "SMEMBERS" ∷ codes "k" ∷ [])) fresh);
        dials = 5;
      },
    )
smembers_survives_example =
    smembers_survives bytes cfg (λ n. ok serving) bytes-KeepsAscii (codes "k") closed fresh 4 rules
      (record { drained = refl; mute = inl refl }) connects (record { clean = refl; speaks = refl })
      (omega arith) (omega arith)

queries_dial_twice_example :
    ((smembers bytes cfg
        (λ n. error system)
        (codes "k")
        (record { conn = some closed; dials = 4 })).1.dials
      ≤ 4 + 2)
    × ((hget bytes cfg
          (λ n. error system)
          (codes "k")
          (codes "f")
          (record { conn = some closed; dials = 4 })).1.dials
        ≤ 4 + 2)
queries_dial_twice_example =
    queries_dial_twice bytes cfg (λ n. error system) (record { conn = some closed; dials = 4 })
      (codes "k") (codes "f")
