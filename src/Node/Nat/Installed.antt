-- ===== src/Node/Nat/Installed.antt =====
-- ipsecnode/src/nat.rs: which routes the kernel may hold, read off the commands that were run.
use fleetsuite.Common.{
  ◌≡◌, refl, sym, ap, ap₂, subst, ◌∙◌, ◌≢◌, ◌⊎◌, inl, inr, Bool, true, false, ◌&&◌, Option, List,
  [], ◌∷◌, ◌++◌, arith, if◌then◌else◌, Bool-cases, length, length-append,
}
use fleetsuite.Common.Text.{Text, codes, text_eq, texts_eq, text_eq_refl, text_eq_sound}
use fleetsuite.Common.Assoc.{text_neq}
use fleetsuite.Node.Host.{Command, Output, Log, succeeded, host_prefix}
use fleetsuite.Node.Nat.{active_global, replace_blackhole, delete_route}

-- The command is this one: the words of `ip`.
unfoldable is_ip : List Text → Command → Bool
is_ip words (Command.ip args) = texts_eq args words
is_ip words (Command.nft args) = false
is_ip words (Command.vppctl args) = false
is_ip words (Command.conntrack args) = false
is_ip words (Command.modprobe args) = false
is_ip words (Command.nft_batch args) = false

abbrev replaces : Text → Command → Bool
replaces g c = is_ip (codes "route" ∷ codes "replace" ∷ codes "blackhole" ∷ host_prefix g ∷ []) c

abbrev deletes : Text → Command → Bool
deletes g c = is_ip (codes "route" ∷ codes "del" ∷ host_prefix g ∷ []) c

-- The kernel may hold the blackhole of an address: it was installed, and since then no deletion of
-- it was tried. The last command comes first.
unfoldable pub installed : Text → Log → Bool
unfolding is_ip texts_eq text_eq
installed g [] = false
installed g ((c, out) ∷ log) =
    if replaces g c && succeeded out then true else (if deletes g c then false else installed g log)

append_head_inj : (s h g : Text) → h ++ s ≡ g ++ s → h ≡ g
append_head_inj s [] [] e = refl
append_head_inj s [] (d ∷ g) e = absurd (omega (arith, ap length e, length-append g s))
append_head_inj s (c ∷ h) [] e = absurd (omega (arith, ap length e, length-append h s))
append_head_inj s (c ∷ h) (d ∷ g) e = ap₂ (λ x y. x ∷ y) (head e) (append_head_inj s h g (tail e))
  where
    head : c ∷ (h ++ s) ≡ d ∷ (g ++ s) → c ≡ d
    head q = cc

    tail : c ∷ (h ++ s) ≡ d ∷ (g ++ s) → h ++ s ≡ g ++ s
    tail q = cc

text_eq-append : (s h g : Text) → text_eq (h ++ s) (g ++ s) ≡ text_eq h g
text_eq-append s h g = elim (Bool-cases (text_eq h g)) [
  | inl e ↦ e' e
  | inr n ↦ rw n (text_neq (h ++ s) (g ++ s) (λ q. differ n (append_head_inj s h g q)))
]
  where
    e' : text_eq h g ≡ true → text_eq (h ++ s) (g ++ s) ≡ text_eq h g
    e' e = rw e (
        subst (λ t. text_eq (h ++ s) (t ++ s) ≡ true) (text_eq_sound h g e) (text_eq_refl (h ++ s)))

    differ : text_eq h g ≡ false → h ≢ g
    differ n q = cc (subst (λ t. text_eq h t ≡ true) q (text_eq_refl h), n)

and_true_right : (b : Bool) → (b && true) ≡ b
and_true_right true = refl
and_true_right false = refl

pub installed-replace :
    (g h : Text) (out : Option Output) (log : Log)
    → installed g ((replace_blackhole h, out) ∷ log) ≡ true
    → (text_eq h g ≡ true) ⊎ (installed g log ≡ true)
unfolding installed is_ip texts_eq
installed-replace g h out log e = elim (Bool-cases (text_eq h g)) [
  | inl q ↦ inl q
  | inr n ↦ inr (keep (text_eq-append (codes "/32") h g ∙ n))
]
  where
    keep : text_eq (host_prefix h) (host_prefix g) ≡ false → installed g log ≡ true
    keep q = ground arith

pub installed-failed :
    (g h : Text) (out : Option Output) (log : Log)
    → succeeded out ≡ false
    → installed g ((replace_blackhole h, out) ∷ log) ≡ installed g log
unfolding installed is_ip texts_eq
installed-failed g h out log b = rw b (dropped (text_eq (host_prefix h) (host_prefix g)))
  where
    dropped :
        (x : Bool) → (if (x && true) && false then true else installed g log) ≡ installed g log
    dropped true = refl
    dropped false = refl

pub installed-delete :
    (g h : Text) (out : Option Output) (log : Log)
    → installed g ((delete_route h, out) ∷ log) ≡ true
    → (text_eq h g ≡ false) × (installed g log ≡ true)
unfolding installed is_ip texts_eq
installed-delete g h out log e = (sym (text_eq-append (codes "/32") h g) ∙ differ, kept)
  where
    differ : text_eq (host_prefix h) (host_prefix g) ≡ false
    differ = ground arith

    kept : installed g log ≡ true
    kept = ground arith

pub installed-active :
    (g verb h : Text) (out : Option Output) (log : Log)
    → installed g ((active_global verb h, out) ∷ log) ≡ installed g log
unfolding installed is_ip
installed-active g verb h out log = refl
