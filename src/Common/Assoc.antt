-- ===== src/Common/Assoc.antt =====
-- Maps from texts as association lists: a key's first entry counts, and `insert` and `remove` work
-- on it, so that a map without repeated keys stays one.
use mathlib.Core.Path.{◌≡◌, refl, sym, ap, subst, ◌∙◌}
use mathlib.Core.Logic.{◌≢◌, inl, inr}
use mathlib.Core.Bool.{true, false}
use mathlib.Core.List.{List, [], ◌∷◌}
use mathlib.Core.Option.{Option, none, some}
use native.Mathlib.Omega.{arith}
use fleetsuite.Common.Tests.{if◌then◌else◌, Bool-cases}
use fleetsuite.Common.Lists.{All}
use fleetsuite.Common.Text.{Text, text_eq, text_eq_refl, text_eq_sound}

abbrev pub Assoc : Type 0 → Type 0
Assoc V = List (Text × V)

pub text_neq : (s t : Text) → s ≢ t → text_eq s t ≡ false
text_neq s t n = elim (Bool-cases (text_eq s t)) [
  | inl e ↦ absurd (n (text_eq_sound s t e))
  | inr e ↦ e
]

pub text_eq_sym : (s t : Text) → text_eq s t ≡ false → text_eq t s ≡ false
text_eq_sym s t e =
    text_neq t s (λ q. cc (subst (λ u. text_eq s u ≡ true) (sym q) (text_eq_refl s), e))

module _ {V : Type 0} where
  unfoldable pub get : Text → Assoc V → Option V
  get k [] = none
  get k (e ∷ m) = if text_eq k e.0 then some e.1 else get k m

  unfoldable pub insert : Text → V → Assoc V → Assoc V
  insert k v [] = (k, v) ∷ []
  insert k v (e ∷ m) = let rest = insert k v m in if text_eq k e.0 then (k, v) ∷ m else e ∷ rest

  unfoldable pub remove : Text → Assoc V → Assoc V
  remove k [] = []
  remove k (e ∷ m) = let rest = remove k m in if text_eq k e.0 then m else e ∷ rest

  unfoldable pub Unique : Assoc V → Type 0
  Unique [] = Unit
  Unique (e ∷ m) = (get e.0 m ≡ none) × Unique m

  pub get-insert_same : (k : Text) (v : V) (m : Assoc V) → get k (insert k v m) ≡ some v
  unfolding get insert
  get-insert_same k v [] = rw (text_eq_refl k) refl
  get-insert_same k v (e ∷ m) = elim (Bool-cases (text_eq k e.0)) [
    | inl q ↦ rw q (rw (text_eq_refl k) refl)
    | inr q ↦ rw q (rw q (get-insert_same k v m))
  ]

  pub get-insert_other :
      (k j : Text) (v : V) (m : Assoc V) → text_eq j k ≡ false → get j (insert k v m) ≡ get j m
  unfolding get insert
  get-insert_other k j v [] n = rw n refl
  get-insert_other k j v (e ∷ m) n = elim (Bool-cases (text_eq k e.0)) [
    | inl q ↦ rw q (
        rw n (
          subst (λ t. get j m ≡ (if text_eq j t then some e.1 else get j m)) (text_eq_sound k e.0 q)
            (rw n refl)))
    | inr q ↦ rw q (ap (λ o. if text_eq j e.0 then some e.1 else o) (get-insert_other k j v m n))
  ]

  pub get-remove_other :
      (k j : Text) (m : Assoc V) → text_eq j k ≡ false → get j (remove k m) ≡ get j m
  unfolding get remove
  get-remove_other k j [] n = refl
  get-remove_other k j (e ∷ m) n = elim (Bool-cases (text_eq k e.0)) [
    | inl q ↦ rw q (
        subst (λ t. get j m ≡ (if text_eq j t then some e.1 else get j m)) (text_eq_sound k e.0 q)
          (rw n refl))
    | inr q ↦ rw q (ap (λ o. if text_eq j e.0 then some e.1 else o) (get-remove_other k j m n))
  ]

  pub get-remove_same : (k : Text) (m : Assoc V) → Unique m → get k (remove k m) ≡ none
  unfolding get remove Unique
  get-remove_same k [] u = refl
  get-remove_same k (e ∷ m) u = elim (Bool-cases (text_eq k e.0)) [
    | inl q ↦ rw q (subst (λ t. get t m ≡ none) (sym (text_eq_sound k e.0 q)) u.0)
    | inr q ↦ rw q (rw q (get-remove_same k m u.1))
  ]

  get-remove-none :
      (k j : Text) (m : Assoc V) → get j m ≡ none → Unique m → get j (remove k m) ≡ none
  get-remove-none k j m e u = elim (Bool-cases (text_eq j k)) [
    | inl q ↦ subst (λ t. get j (remove t m) ≡ none) (text_eq_sound j k q) (get-remove_same j m u)
    | inr q ↦ get-remove_other k j m q ∙ e
  ]

  pub remove-Unique : (k : Text) (m : Assoc V) → Unique m → Unique (remove k m)
  unfolding remove Unique
  remove-Unique k [] u = tt
  remove-Unique k (e ∷ m) u = elim (Bool-cases (text_eq k e.0)) [
    | inl q ↦ rw q u.1
    | inr q ↦ rw q (get-remove-none k e.0 m u.0 u.1, remove-Unique k m u.1)
  ]

  pub insert-Unique : (k : Text) (v : V) (m : Assoc V) → Unique m → Unique (insert k v m)
  unfolding insert Unique get
  insert-Unique k v [] u = (refl, tt)
  insert-Unique k v (e ∷ m) u = elim (Bool-cases (text_eq k e.0)) [
    | inl q ↦ rw q (subst (λ t. get t m ≡ none) (sym (text_eq_sound k e.0 q)) u.0, u.1)
    | inr q ↦ rw q (get-insert_other k e.0 v m (text_eq_sym k e.0 q) ∙ u.0, insert-Unique k v m u.1)
  ]

  -- What holds of every value holds after an insertion of a value that has it, and of what is found.
  pub All-insert {κ} :
      (P : V → Type κ) (k : Text) (v : V) (m : Assoc V)
      → P v
      → All (λ e. P e.1) m
      → All (λ e. P e.1) (insert k v m)
  unfolding insert
  All-insert P k v [] p a = (p, tt)
  All-insert P k v (e ∷ m) p a = elim (Bool-cases (text_eq k e.0)) [
    | inl q ↦ rw q (p, a.1)
    | inr q ↦ rw q (a.0, All-insert P k v m p a.1)
  ]

  pub All-remove {κ} :
      (P : V → Type κ) (k : Text) (m : Assoc V) → All (λ e. P e.1) m → All (λ e. P e.1) (remove k m)
  unfolding remove
  All-remove P k [] a = tt
  All-remove P k (e ∷ m) a = elim (Bool-cases (text_eq k e.0)) [
    | inl q ↦ rw q a.1
    | inr q ↦ rw q (a.0, All-remove P k m a.1)
  ]

  pub All-get {κ} :
      (P : V → Type κ) (k : Text) (v : V) (m : Assoc V)
      → All (λ e. P e.1) m
      → get k m ≡ some v
      → P v
  unfolding get
  All-get P k v [] a g = absurd (ground arith)
  All-get P k v (e ∷ m) a g = elim (Bool-cases (text_eq k e.0)) [
    | inl q ↦ subst P (found q) a.0
    | inr q ↦ All-get P k v m a.1 (subst (λ b. (if b then some e.1 else get k m) ≡ some v) q g)
  ]
    where
      found : text_eq k e.0 ≡ true → e.1 ≡ v
      found q = cc (subst (λ b. (if b then some e.1 else get k m) ≡ some v) q g)
