-- ===== src/Proxy/Resp/Tests.antt =====
-- The theorems on replies at concrete bytes, with the decoding that keeps every byte.
use fleetsuite.Common.{ℕ, ◌≤◌, ◌≡◌, refl, ◌≢◌, List, [], ◌∷◌, ◌++◌, arith, length}
use fleetsuite.Common.Text.{codes}
use fleetsuite.Proxy.Resp.{
  Utf8, Value, ok, error, out_of_fuel, permission_denied, send, read_value, read_line, read_until,
  pop_line_ends, by_line, by_kind, expect_ok, expect_ok_of, ◌>>=◌, return,
}
use fleetsuite.Proxy.Resp.Fuel.{read_value_ends}
use fleetsuite.Proxy.Resp.RoundTrip.{KeepsAscii, bulks, read_value-send}

abbrev bytes : Utf8
bytes = record { decode = λ b. b; encode = λ t. t }

bytes-KeepsAscii : KeepsAscii bytes
unfolding KeepsAscii
bytes-KeepsAscii b a = refl

abbrev nested : List ℕ
nested = codes "*2\r\n:7\r\n*1\r\n$3\r\nab"

read_value_ends_example :
    ((read_value bytes 30 nested).0 ≢ out_of_fuel)
    × (length (read_value bytes 30 nested).1 ≤ length nested)
read_value_ends_example = read_value_ends bytes nested 30 (omega arith)

read_value-send_example :
    read_value bytes 2 (send (codes "GET" ∷ codes "a\r\nb" ∷ []) ++ codes "+OK\r\n")
    ≡ (ok (Value.array (bulks (codes "GET" ∷ codes "a\r\nb" ∷ []))), codes "+OK\r\n")
read_value-send_example =
    read_value-send bytes bytes-KeepsAscii (codes "GET" ∷ codes "a\r\nb" ∷ []) (codes "+OK\r\n") 0
      (omega arith) (omega arith)

expect_ok_denied :
    expect_ok bytes 5 (codes "-WRONGPASS no\r\n*") ≡ (error permission_denied, codes "*")
unfolding expect_ok expect_ok_of read_value read_line read_until pop_line_ends by_line by_kind ◌>>=◌
    return
expect_ok_denied = refl
