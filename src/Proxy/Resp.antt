-- ===== src/Proxy/Resp.antt =====
-- squid-infoproxy/src/valkey.rs: the replies of Valkey (RESP) on a connection, and the requests.
-- What the peer will still send is a list of bytes, at whose end the connection is closed; memory for
-- a reply is always there.
pub mod Fuel
pub mod RoundTrip
mod Tests
use fleetsuite.Common.{
  ℕ, zero, suc, ◌+◌, ◌-◌, ◌*◌, ◌/◌, ◌%◌, ◌^◌, ◌≤◌, ◌<◌, ◌≡◌, refl, sym, ap, ap₂, subst, ◌∙◌, ◌≢◌,
  ◌↔◌, ◌⊎◌, inl, inr, Bool, true, false, not, ◌&&◌, ◌||◌, Option, none, some, List, [], ◌∷◌, ◌++◌,
  map, arith, ltb, leb, ◌==◌, if◌then◌else◌, ==_iff, Bool-cases, Option-cases, is_some, unwrap_or,
  map_option, and_then, length, get_elem?, any, all, find, filter, is_empty, All, length-append,
  filter_map, cons_some, flat_map, All-append, All-intro, All-mono, All-filter_map, All-flat_map,
}
use fleetsuite.Common.Text.{Text, codes, read_digits, digits_max, parse_uint, show_nat}

-- `from_utf8_lossy` and `as_bytes`.
pub record Utf8 : Type 0 where
  pub decode : List ℕ → Text
  pub encode : Text → List ℕ

-- The kinds of `io::Error` that the module makes, and one for those of the operating system.
pub data Kind : Type 0 where
  unexpected_eof invalid_data invalid_input permission_denied other system : Kind

pub data Result (A : Type 0) : Type 0 where
  ok : A → Result A
  error : Kind → Result A
  panicked : Result A
  out_of_fuel : Result A

-- An `i64`: `negsuc n` is -(n + 1).
pub data ℤ : Type 0 where
  pos negsuc : ℕ → ℤ

mutual
  pub data Value : Type 0 where
    simple_string : Text → Value
    error_string : Text → Value
    int : ℤ → Value
    bulk : Option (List ℕ) → Value
    array : Values → Value

  pub data Values : Type 0 where
    nil : Values
    cons : Value → Values → Values

-- Calls that may fail and change a state, also where they fail.
abbrev pub Act : Type 0 → Type 0 → Type 0
Act S A = S → Result A × S

-- Reading takes bytes of the connection.
abbrev pub Read : Type 0 → Type 0
Read A = Act (List ℕ) A

unfoldable pub return : {S A : Type 0} → A → Act S A
return a s = (ok a, s)

unfoldable pub fail : {S A : Type 0} → Kind → Act S A
fail k s = (error k, s)

abbrev pub then_act : {S A B : Type 0} → (A → Act S B) → Result A × S → Result B × S
then_act f (ok a, s) = f a s
then_act f (error k, s) = (error k, s)
then_act f (panicked, s) = (panicked, s)
then_act f (out_of_fuel, s) = (out_of_fuel, s)

infixl 5 ◌>>=◌
unfoldable pub ◌>>=◌ : {S A B : Type 0} → Act S A → (A → Act S B) → Act S B
◌>>=◌ m f s = then_act f (m s)

abbrev pub crlf : List ℕ
crlf = 13 ∷ 10 ∷ []

-- `${len}\r\n`, the argument and `\r\n`.
unfoldable pub send_args : List (List ℕ) → List ℕ
send_args [] = []
send_args (a ∷ args) = b'$' ∷ (show_nat (length a) ++ (crlf ++ (a ++ (crlf ++ send_args args))))

-- The buffer that `send` writes.
unfoldable pub send : List (List ℕ) → List ℕ
unfolding send_args
send args = b'*' ∷ (show_nat (length args) ++ (crlf ++ send_args args))

abbrev add_byte : ℕ → List ℕ × List ℕ → List ℕ × List ℕ
add_byte c p = (c ∷ p.0, p.1)

-- `read_until` of a line feed, which stands at the end of what it reads.
unfoldable pub read_until : List ℕ → List ℕ × List ℕ
read_until [] = ([], [])
read_until (c ∷ b) = let rest = read_until b in if c == 10 then (c ∷ [], b) else add_byte c rest

abbrev pub is_line_end : ℕ → Bool
is_line_end c = c == 10 || c == 13

-- `buf.pop()` while the last byte ends a line.
unfoldable pub pop_line_ends : List ℕ → List ℕ
pop_line_ends [] = []
pop_line_ends (c ∷ b) =
    let rest = pop_line_ends b in if is_line_end c && is_empty rest then [] else c ∷ rest

-- The first n of the bytes, and those after them.
unfoldable pub take : ℕ → List ℕ → List ℕ
take zero b = []
take (suc n) [] = []
take (suc n) (c ∷ b) = c ∷ take n b

unfoldable pub drop : ℕ → List ℕ → List ℕ
drop zero b = b
drop (suc n) [] = []
drop (suc n) (c ∷ b) = drop n b

-- `read_exact`, which takes all there is where that is too little.
unfoldable pub read_exact : ℕ → Read (List ℕ)
unfolding take drop
read_exact n b = if ltb (length b) n then (error unexpected_eof, []) else (ok (take n b), drop n b)

abbrev minus : Option ℕ → Option ℤ
minus none = none
minus (some zero) = some (pos 0)
minus (some (suc n)) = some (negsuc n)

-- `parse::<i64>()`.
unfoldable pub parse_i64 : Text → Option ℤ
unfolding parse_uint read_digits
parse_i64 [] = none
parse_i64 (c ∷ s) =
    if c == b'-'
    then minus (digits_max (2 ^ 63) s)
    else map_option pos (parse_uint (2 ^ 63 - 1) (c ∷ s))

-- `for _ in 0..n { items.push(self.read_value()?) }`.
unfoldable pub read_items : Read Value → ℕ → Read Values
unfolding ◌>>=◌ return
read_items sub zero = return nil
read_items sub (suc n) = sub >>= (λ v. read_items sub n >>= (λ vs. return (cons v vs)))

-- A length for which there is no memory is not told from one whose bytes do not come.
unfoldable pub bulk_reply : Option ℤ → Read Value
unfolding ◌>>=◌ return fail read_exact take drop
bulk_reply none = fail invalid_data
bulk_reply (some (negsuc n)) = return (bulk none)
bulk_reply (some (pos n)) = read_exact (n + 2) >>= (λ d. return (bulk (some (take n d))))

unfoldable pub array_reply : Read Value → Option ℤ → Read Value
unfolding ◌>>=◌ return fail read_items
array_reply sub none = fail invalid_data
array_reply sub (some (negsuc n)) = return (array nil)
array_reply sub (some (pos n)) = read_items sub n >>= (λ vs. return (array vs))

-- A map of RESP3, its keys and values one after the other.
unfoldable pub map_reply : Read Value → Option ℤ → Read Value
unfolding ◌>>=◌ return fail read_items
map_reply sub none = fail invalid_data
map_reply sub (some (negsuc n)) = return (array nil)
map_reply sub (some (pos n)) = read_items sub (n * 2) >>= (λ vs. return (array vs))

abbrev pub is_array : ℕ → Bool
is_array c = c == b'*' || c == b'~' || c == b'>'

unfoldable pub by_kind : Read Value → ℕ → Text → Read Value
unfolding return fail bulk_reply array_reply map_reply parse_i64
by_kind sub c rest =
    if c == b'+'
    then return (simple_string rest)
    else if c == b'-'
    then return (error_string rest)
    else if c == b':'
    then return (int (unwrap_or (parse_i64 rest) (pos 0)))
    else if c == b'_'
    then return (bulk none)
    else if c == b'$'
    then bulk_reply (parse_i64 rest)
    else if is_array c
    then array_reply sub (parse_i64 rest)
    else if c == b'%'
    then map_reply sub (parse_i64 rest)
    else fail invalid_data

-- `&line[1..]` panics inside a character of several bytes.
unfoldable pub by_line : Read Value → Text → Read Value
unfolding fail by_kind
by_line sub [] = fail invalid_data
by_line sub (c ∷ rest) = if ltb c 128 then by_kind sub c rest else (λ b. (panicked, b))

module _ (utf8 : Utf8) where
  abbrev line_of : List ℕ × List ℕ → Result Text × List ℕ
  line_of ([], b) = (error unexpected_eof, b)
  line_of (c ∷ l, b) = (ok (utf8.decode (pop_line_ends (c ∷ l))), b)

  unfoldable pub read_line : Read Text
  unfolding read_until pop_line_ends
  read_line b = line_of (read_until b)

  -- One round of fuel for each level of nesting.
  unfoldable pub read_value : ℕ → Read Value
  unfolding ◌>>=◌ read_line by_line
  read_value zero = λ b. (out_of_fuel, b)
  read_value (suc fuel) = read_line >>= by_line (read_value fuel)

  unfoldable pub expect_ok_of : Value → Read Unit
  expect_ok_of (simple_string s) b = (ok tt, b)
  expect_ok_of (error_string s) b = (error permission_denied, b)
  expect_ok_of (int n) b = (error invalid_data, b)
  expect_ok_of (bulk s) b = (error invalid_data, b)
  expect_ok_of (array vs) b = (error invalid_data, b)

  unfoldable pub expect_ok : ℕ → Read Unit
  unfolding ◌>>=◌ read_value expect_ok_of
  expect_ok fuel = read_value fuel >>= expect_ok_of
