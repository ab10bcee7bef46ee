-- ===== src/Common/Split.antt =====
-- Laws of splitting and trimming text.
use fleetsuite.Common.Tests.{if◌then◌else◌}
use fleetsuite.Common.Lists.{All, All-mono}
use fleetsuite.Common.Text.{
  Text, split_by, join, trim, trim_start_by, trim_end_by, is_whitespace, cons_head,
}
use fleetsuite.Common.Decimal.{IsDigit}
use Prim.Native.Nat.{ℕ}
use mathlib.Core.Path.{◌≡◌, refl, ◌∙◌, ap}
use mathlib.Core.Bool.{Bool, true, false}
use mathlib.Core.List.{List, [], ◌∷◌, ◌++◌}
use native.Mathlib.Omega.{arith}

module _ (p : ℕ → Bool) where
  abbrev pub IsFree : Text → Type 0
  IsFree s = All (λ c. p c ≡ false) s

  split_by_free : (w : Text) → IsFree w → split_by p w ≡ w ∷ []
  unfolding split_by
  split_by_free [] f = refl
  split_by_free (c ∷ w) f = rw (f.0, if◌then◌else◌) (ap (cons_head c) (split_by_free w f.1))

  split_by_at :
      (w : Text) (d : ℕ) (rest : Text)
      → p d ≡ true
      → IsFree w
      → split_by p (w ++ d ∷ rest) ≡ w ∷ split_by p rest
  unfolding split_by
  split_by_at [] d rest e f = rw e
  split_by_at (c ∷ w) d rest e f = rw f.0 (ap (cons_head c) (split_by_at w d rest e f.1))

  -- Splitting undoes joining, when no piece holds a separator.
  pub split_by-join :
      (d : ℕ) (w : Text) (ws : List Text)
      → p d ≡ true
      → All IsFree (w ∷ ws)
      → split_by p (join (d ∷ []) (w ∷ ws)) ≡ w ∷ ws
  unfolding join
  split_by-join d w [] e f = split_by_free w f.0
  split_by-join d w (v ∷ ws) e f =
      split_by_at w d (join (d ∷ []) (v ∷ ws)) e f.0 ∙ ap (◌∷◌ w) (split_by-join d v ws e f.1)

  pub trim_start_by_free : (s : Text) → IsFree s → trim_start_by p s ≡ s
  unfolding trim_start_by
  trim_start_by_free [] f = refl
  trim_start_by_free (c ∷ s) f = rw f.0

  pub trim_end_by_free : (s : Text) → IsFree s → trim_end_by p s ≡ s
  unfolding trim_end_by
  trim_end_by_free [] f = refl
  trim_end_by_free (c ∷ s) f = rw (trim_end_by_free s f.1, f.0) (ground arith)

digit-not-whitespace : (c : ℕ) → IsDigit c → is_whitespace c ≡ false
unfolding is_whitespace
digit-not-whitespace c h = ground arith

pub trim_digits : (s : Text) → All IsDigit s → trim s ≡ s
unfolding trim
trim_digits s h =
    let free = All-mono IsDigit (λ c. is_whitespace c ≡ false) s digit-not-whitespace h in
    ap (trim_end_by is_whitespace) (trim_start_by_free is_whitespace s free)
    ∙ trim_end_by_free is_whitespace s free
