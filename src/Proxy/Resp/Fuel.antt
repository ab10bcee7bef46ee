-- ===== src/Proxy/Resp/Fuel.antt =====
-- squid-infoproxy/src/valkey.rs: reading a reply ends, whatever the peer sends.
use fleetsuite.Common.{
  ℕ, zero, suc, ◌+◌, ◌*◌, ◌≤◌, ◌<◌, ◌≢◌, inl, inr, Option, none, some, List, [], ◌∷◌, arith, ltb,
  Bool-cases, length,
}
use fleetsuite.Proxy.Resp.{
  Utf8, ok, error, panicked, out_of_fuel, Result, Read, Value, Values, ℤ, pos, negsuc, ◌>>=◌,
  return, fail, then_act, read_until, read_exact, drop, read_items, bulk_reply, array_reply,
  map_reply, by_kind, by_line, read_line, line_of, read_value, parse_i64,
}
use fleetsuite.Common.Text.{Text}

-- No more bytes are left than there were, and fuel was enough.
unfoldable pub Fueled : {A : Type 0} → ℕ → Result A × List ℕ → Type 0
Fueled n (ok a, b) = length b ≤ n
Fueled n (error k, b) = length b ≤ n
Fueled n (panicked, b) = length b ≤ n
Fueled n (out_of_fuel, b) = ⊥

>>=-Fueled :
    {A B : Type 0} (n : ℕ) (r : Result A × List ℕ) (f : A → Read B)
    → Fueled n r
    → ((a : A) (b : List ℕ) → length b ≤ n → Fueled n (f a b))
    → Fueled n (then_act f r)
unfolding Fueled
>>=-Fueled n (ok a, b) f r k = k a b r
>>=-Fueled n (error e, b) f r k = r
>>=-Fueled n (panicked, b) f r k = r
>>=-Fueled n (out_of_fuel, b) f r k = absurd r

drop-length : (n : ℕ) (b : List ℕ) → length (drop n b) ≤ length b
unfolding drop
drop-length zero b = omega arith
drop-length (suc n) [] = omega arith
drop-length (suc n) (c ∷ b) = omega (arith, drop-length n b)

Fueled-mono : {A : Type 0} (m n : ℕ) (r : Result A × List ℕ) → m ≤ n → Fueled m r → Fueled n r
unfolding Fueled
Fueled-mono m n (ok a, b) h f = omega (arith, h, f)
Fueled-mono m n (error k, b) h f = omega (arith, h, f)
Fueled-mono m n (panicked, b) h f = omega (arith, h, f)
Fueled-mono m n (out_of_fuel, b) h f = f

module _ (n : ℕ) (sub : Read Value) (fueled : (b : List ℕ) → length b ≤ n → Fueled n (sub b)) where
  read_items-Fueled : (k : ℕ) (b : List ℕ) → length b ≤ n → Fueled n (read_items sub k b)
  unfolding read_items ◌>>=◌ return Fueled
  read_items-Fueled zero b h = h
  read_items-Fueled (suc k) b h =
      >>=-Fueled n (sub b) (λ v. read_items sub k >>= (λ vs. return (Values.cons v vs)))
        (fueled b h)
        (λ v c l.
          >>=-Fueled n (read_items sub k c) (λ vs. return (Values.cons v vs))
            (read_items-Fueled k c l) (λ vs d m. m))

  array_reply-Fueled : (o : Option ℤ) (b : List ℕ) → length b ≤ n → Fueled n (array_reply sub o b)
  unfolding array_reply ◌>>=◌ return fail Fueled
  array_reply-Fueled none b h = h
  array_reply-Fueled (some (negsuc k)) b h = h
  array_reply-Fueled (some (pos k)) b h =
      >>=-Fueled n (read_items sub k b) (λ vs. return (Value.array vs)) (read_items-Fueled k b h)
        (λ vs d m. m)

  map_reply-Fueled : (o : Option ℤ) (b : List ℕ) → length b ≤ n → Fueled n (map_reply sub o b)
  unfolding map_reply ◌>>=◌ return fail Fueled
  map_reply-Fueled none b h = h
  map_reply-Fueled (some (negsuc k)) b h = h
  map_reply-Fueled (some (pos k)) b h =
      >>=-Fueled n (read_items sub (k * 2) b) (λ vs. return (Value.array vs))
        (read_items-Fueled (k * 2) b h) (λ vs d m. m)

  bulk_reply-Fueled : (o : Option ℤ) (b : List ℕ) → length b ≤ n → Fueled n (bulk_reply o b)
  unfolding bulk_reply ◌>>=◌ return fail Fueled read_exact
  bulk_reply-Fueled none b h = h
  bulk_reply-Fueled (some (negsuc k)) b h = h
  bulk_reply-Fueled (some (pos k)) b h = elim (Bool-cases (ltb (length b) (k + 2))) [
    | inl e ↦ rw e (omega arith)
    | inr e ↦ rw e (omega (arith, h, drop-length (k + 2) b))
  ]

  by_kind-Fueled :
      (c : ℕ) (rest : Text) (b : List ℕ) → length b ≤ n → Fueled n (by_kind sub c rest b)
  unfolding by_kind return fail Fueled
  by_kind-Fueled c rest b h = ground (
    arith,
    bulk_reply-Fueled (parse_i64 rest) b h,
    array_reply-Fueled (parse_i64 rest) b h,
    map_reply-Fueled (parse_i64 rest) b h,
  )

  by_line-Fueled : (line : Text) (b : List ℕ) → length b ≤ n → Fueled n (by_line sub line b)
  unfolding by_line fail Fueled
  by_line-Fueled [] b h = h
  by_line-Fueled (c ∷ rest) b h = elim (Bool-cases (ltb c 128)) [
    | inl e ↦ rw e (by_kind-Fueled c rest b h)
    | inr e ↦ rw e h
  ]

read_until-length : (c : ℕ) (b : List ℕ) → length (read_until (c ∷ b)).1 < suc (length b)
unfolding read_until
read_until-length c [] = ground arith
read_until-length c (d ∷ b) = ground (arith, read_until-length d b)

module _ (utf8 : Utf8) where
  line_of-Fueled : (n : ℕ) (p : List ℕ × List ℕ) → length p.1 ≤ n → Fueled n (line_of utf8 p)
  unfolding Fueled
  line_of-Fueled n ([], b) h = h
  line_of-Fueled n (c ∷ l, b) h = h

  -- A line takes a byte at least, so that a nested reply has one byte less to read.
  read_value-Fueled :
      (fuel n : ℕ) (b : List ℕ) → n < fuel → length b ≤ n → Fueled n (read_value utf8 fuel b)
  unfolding read_value ◌>>=◌ Fueled read_line read_until
  read_value-Fueled zero n b h l = absurd (omega arith)
  read_value-Fueled (suc fuel) n [] h l = omega arith
  read_value-Fueled (suc fuel) zero (c ∷ b) h l = absurd (omega arith)
  read_value-Fueled (suc fuel) (suc n) (c ∷ b) h l =
      Fueled-mono n (suc n) (read_value utf8 (suc fuel) (c ∷ b)) (omega arith) (
        >>=-Fueled n (read_line utf8 (c ∷ b)) (by_line (read_value utf8 fuel))
          (line_of-Fueled n (read_until (c ∷ b)) (omega (arith, l, read_until-length c b)))
          (λ line d m.
            by_line-Fueled n (read_value utf8 fuel)
              (λ e k. read_value-Fueled fuel n e (omega (arith, h)) k) line d m))

  Fueled-ends :
      {A : Type 0} (n : ℕ) (r : Result A × List ℕ)
      → Fueled n r
      → (r.0 ≢ out_of_fuel) × (length r.1 ≤ n)
  unfolding Fueled
  Fueled-ends n (ok a, b) f = (λ e. cc e, f)
  Fueled-ends n (error k, b) f = (λ e. cc e, f)
  Fueled-ends n (panicked, b) f = (λ e. cc e, f)
  Fueled-ends n (out_of_fuel, b) f = absurd f

  -- On any bytes that the peer sends, reading a reply ends with a value, an error or a panic if the
  -- fuel is more than their number, and leaves no more bytes than there were.
  pub read_value_ends :
      (b : List ℕ) (fuel : ℕ)
      → length b < fuel
      → ((read_value utf8 fuel b).0 ≢ out_of_fuel) × (length (read_value utf8 fuel b).1 ≤ length b)
  read_value_ends b fuel h =
      Fueled-ends (length b) (read_value utf8 fuel b)
        (read_value-Fueled fuel (length b) b h (omega arith))
