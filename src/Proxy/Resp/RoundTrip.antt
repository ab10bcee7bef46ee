-- ===== src/Proxy/Resp/RoundTrip.antt =====
-- squid-infoproxy/src/valkey.rs: what `send` writes, `read_value` reads.
use fleetsuite.Common.{
  ℕ, suc, ◌+◌, ◌-◌, ◌^◌, ◌<◌, ◌≡◌, refl, sym, ap, ◌∙◌, ◌≢◌, true, false, some, List, [], ◌∷◌, ◌++◌,
  arith, ltb, ◌==◌, length, All, length-append, All-mono,
}
use mathlib.Core.List.{append_assoc}
use fleetsuite.Common.Text.{Text, show_nat, parse_uint}
use fleetsuite.Common.Decimal.{IsDigit, show_nat-IsDigit, show_nat-cons, parse_uint-show_nat}
use fleetsuite.Proxy.Resp.{
  Utf8, ok, Value, Values, pos, ◌>>=◌, return, send, send_args, crlf, read_until, pop_line_ends,
  is_line_end, read_exact, take, drop, read_items, bulk_reply, array_reply, by_kind, by_line,
  read_line, read_value, parse_i64,
}

-- `from_utf8_lossy` keeps what is in ASCII.
unfoldable pub KeepsAscii : Utf8 → Type 0
KeepsAscii utf8 = (b : List ℕ) → All (λ c. c < 128) b → utf8.decode b ≡ b

-- The array of the arguments as bulk strings.
unfoldable pub bulks : List (List ℕ) → Values
bulks [] = Values.nil
bulks (a ∷ args) = Values.cons (Value.bulk (some a)) (bulks args)

abbrev MidLine : ℕ → Type 0
MidLine c = (c < 128) × (is_line_end c ≡ false)

read_until-line :
    (l r : List ℕ) → All MidLine l → read_until (l ++ (13 ∷ 10 ∷ r)) ≡ (l ++ (13 ∷ 10 ∷ []), r)
unfolding read_until
read_until-line [] r a = refl
read_until-line (c ∷ l) r a = rw (read_until-line l r a.1) (ground (arith, a.0.1))

pop_line_ends-line : (l : List ℕ) → All MidLine l → pop_line_ends (l ++ (13 ∷ 10 ∷ [])) ≡ l
unfolding pop_line_ends
pop_line_ends-line [] a = refl
pop_line_ends-line (c ∷ l) a = rw (pop_line_ends-line l a.1) (rw a.0.1 refl)

digits-MidLine : (l : Text) → All IsDigit l → All MidLine l
digits-MidLine l a =
    All-mono IsDigit MidLine l (λ c d. (omega (arith, d.1), ground (arith, d.0, d.1))) a

parse_i64-digits :
    (l : Text) (n : ℕ)
    → All IsDigit l
    → (l ≢ [])
    → parse_uint (2 ^ 63 - 1) l ≡ some n
    → parse_i64 l ≡ some (pos n)
unfolding parse_i64
parse_i64-digits [] n a h e = absurd (h refl)
parse_i64-digits (c ∷ l) n a h e = rw (not_minus a.0) (rw e refl)
  where
    not_minus : IsDigit c → (c == b'-') ≡ false
    not_minus d = ground (arith, d.0)

parse_i64-show_nat : (n : ℕ) → n < 2 ^ 63 → parse_i64 (show_nat n) ≡ some (pos n)
parse_i64-show_nat n h =
    parse_i64-digits (show_nat n) n (show_nat-IsDigit n)
      (λ e. nonempty (show_nat-cons n).0 (show_nat-cons n).1 (sym (show_nat-cons n).2 ∙ e))
      (parse_uint-show_nat (2 ^ 63 - 1) n (omega (arith, h)))
  where
    nonempty : (d : ℕ) (s : Text) → (d ∷ s) ≢ []
    nonempty d s e = cc e

take-append : (a r : List ℕ) → take (length a) (a ++ r) ≡ a
unfolding take
take-append [] r = refl
take-append (c ∷ a) r = ap (λ t. c ∷ t) (take-append a r)

drop-append : (a r : List ℕ) → drop (length a) (a ++ r) ≡ r
unfolding drop
drop-append [] r = refl
drop-append (c ∷ a) r = drop-append a r

read_exact-append : (a r : List ℕ) → read_exact (length a) (a ++ r) ≡ (ok a, r)
unfolding read_exact
read_exact-append a r =
    rw (enough (length (a ++ r)) (length-append a r))
      (rw (take-append a r) (rw (drop-append a r) refl))
  where
    enough : (n : ℕ) → n ≡ length a + length r → ltb n (length a) ≡ false
    enough n e = ground (arith, e)

assoc3 : (c : ℕ) (l m r : List ℕ) → (c ∷ (l ++ (crlf ++ m))) ++ r ≡ c ∷ (l ++ (crlf ++ (m ++ r)))
assoc3 c l m r = ap (λ t. c ∷ t) (append_assoc l (crlf ++ m) r)

assoc-argument : (a m r : List ℕ) → (a ++ (crlf ++ m)) ++ r ≡ a ++ (crlf ++ (m ++ r))
assoc-argument a m r = append_assoc a (crlf ++ m) r

module _ (utf8 : Utf8) (keeps : KeepsAscii utf8) where
  read_line-line :
      (c : ℕ) (l r : List ℕ)
      → All MidLine (c ∷ l)
      → read_line utf8 (c ∷ (l ++ (crlf ++ r))) ≡ (ok (c ∷ l), r)
  unfolding read_line KeepsAscii
  read_line-line c l r a = rw (read_until-line (c ∷ l) r a) (
      rw (pop_line_ends-line (c ∷ l) a)
        (rw (keeps (c ∷ l) (All-mono MidLine (λ d. d < 128) (c ∷ l) (λ d m. m.0) a)) refl))

  read_value-line :
      (fuel c : ℕ) (l r : List ℕ)
      → All MidLine (c ∷ l)
      → read_value utf8 (suc fuel) (c ∷ (l ++ (crlf ++ r))) ≡ by_kind (read_value utf8 fuel) c l r
  unfolding read_value ◌>>=◌ by_line
  read_value-line fuel c l r a = rw (read_line-line c l r a) (rw (lt-128 a.0.0) refl)
    where
      lt-128 : c < 128 → ltb c 128 ≡ true
      lt-128 h = ground arith

  read_value-bulk :
      (fuel : ℕ) (a r : List ℕ)
      → length a < 2 ^ 63
      → read_value utf8 (suc fuel) (b'$' ∷ (show_nat (length a) ++ (crlf ++ (a ++ (crlf ++ r)))))
        ≡ (ok (Value.bulk (some a)), r)
  unfolding by_kind bulk_reply ◌>>=◌ return read_exact
  read_value-bulk fuel a r h =
      read_value-line fuel b'$' (show_nat (length a)) (a ++ (crlf ++ r))
        ((omega arith, refl), digits-MidLine (show_nat (length a)) (show_nat-IsDigit (length a)))
      ∙ rw (parse_i64-show_nat (length a) h) (
          rw (sym (length-append a crlf)) (
            rw (sym (append_assoc a crlf r))
              (rw (read_exact-append (a ++ crlf) r) (rw (take-append a crlf) refl))))

  read_items-bulks :
      (fuel : ℕ) (args : List (List ℕ)) (r : List ℕ)
      → All (λ a. length a < 2 ^ 63) args
      → read_items (read_value utf8 (suc fuel)) (length args) (send_args args ++ r)
        ≡ (ok (bulks args), r)
  unfolding read_items ◌>>=◌ return send_args bulks
  read_items-bulks fuel [] r h = refl
  read_items-bulks fuel (a ∷ args) r h =
      rw (assoc3 b'$' (show_nat (length a)) (a ++ (crlf ++ send_args args)) r) (
        rw (assoc-argument a (send_args args) r) (
          rw (read_value-bulk fuel a (send_args args ++ r) h.0)
            (rw (read_items-bulks fuel args r h.1) refl)))

  -- Where text in ASCII is decoded to itself, the bytes of a command of fewer than 2 ^ 63 arguments,
  -- each of fewer than 2 ^ 63 bytes of any value, are read back, whatever follows them, as the array
  -- of the arguments, and what follows them is left.
  pub read_value-send :
      (args : List (List ℕ)) (r : List ℕ) (fuel : ℕ)
      → length args < 2 ^ 63
      → All (λ a. length a < 2 ^ 63) args
      → read_value utf8 (suc (suc fuel)) (send args ++ r) ≡ (ok (Value.array (bulks args)), r)
  unfolding send by_kind array_reply ◌>>=◌ return
  read_value-send args r fuel n h =
      ap (read_value utf8 (suc (suc fuel)))
        (assoc3 b'*' (show_nat (length args)) (send_args args) r)
      ∙ read_value-line (suc fuel) b'*' (show_nat (length args)) (send_args args ++ r) (
        (omega arith, refl),
        digits-MidLine (show_nat (length args)) (show_nat-IsDigit (length args)),
      )
      ∙ rw (parse_i64-show_nat (length args) n) (rw (read_items-bulks fuel args r h) refl)
