-- ===== src/Protocol/Inversion.antt =====
-- What a successful action tells of its parts.
use codexfold.Prelude.{
  ok-injective, Bool-cases, inl, inr, ap, subst, ◌≡◌, refl, Bool, true, false, if◌then◌else◌,
  Outcome, Action, ok, err,
}
use codexfold.Protocol.Codec.{Error, continue, ◌>>=◌, pure, fail, accept, require}

module _ {ℓ κ μ} {S : Type μ} {A : Type ℓ} {B : Type κ} where
  -- `p` is what `m` answers, taken apart.
  pub bind-eq_ok :
      (m : Action Error S A) (f : A → Action Error S B) (s : S) {b : B}
      → ((m >>= f) s).0 ≡ ok b
      → (a : A) × (s' : S) × (m s ≡ (ok a, s')) × ((f a s').0 ≡ ok b)
  unfolding ◌>>=◌
  bind-eq_ok m f s {b} = split (m s) refl
    where
      split :
          (p : Outcome Error A × S)
          → m s ≡ p
          → (continue p.0 f p.1).0 ≡ ok b
          → (a : A) × (s' : S) × (m s ≡ (ok a, s')) × ((f a s').0 ≡ ok b)
      split (ok a, s') e h = (a, s', e, h)
      split (err x, s') e h = cc

module _ {ℓ μ} {S : Type μ} {A : Type ℓ} where
  pub if_fail-eq_ok :
      (b : Bool) (e : Error) (m : Action Error S A) (s : S) {a : A}
      → ((if b then fail e else m) s).0 ≡ ok a
      → (b ≡ false) × ((m s).0 ≡ ok a)
  unfolding fail
  if_fail-eq_ok true e m s h = cc
  if_fail-eq_ok false e m s h = (refl, h)

-- `P` holds of whatever `m` answers when it succeeds.
pub record Ensures {ℓ κ μ} {S : Type μ} {A : Type ℓ} (P : A → Type κ) (m : Action Error S A)
    : Type (ℓ ⊔ κ ⊔ μ) where
  pub holds : (s : S) (a : A) → (m s).0 ≡ ok a → P a

pub Ensures-any {ℓ μ} : {S : Type μ} {A : Type ℓ} (m : Action Error S A) → Ensures (λ a. Unit {0}) m
Ensures-any m = record { holds = λ s a h. tt }

pub Ensures-pure {ℓ κ μ} :
    {S : Type μ} {A : Type ℓ} (P : A → Type κ) (a : A) → P a → Ensures P (pure {S = S} a)
unfolding pure
Ensures-pure P a p = record { holds = λ s b h. subst P (ok-injective h) p }

pub Ensures-bind {ℓ κ μ ι ξ} :
    {S : Type μ} {A : Type ℓ} {B : Type κ} (P : A → Type ι) (Q : B → Type ξ) (m : Action Error S A)
    (f : A → Action Error S B)
    → Ensures P m
    → ((a : A) → P a → Ensures Q (f a))
    → Ensures Q (m >>= f)
Ensures-bind P Q m f first then_ = record {
  holds = λ s b h.
      let (a, s', e, k) = bind-eq_ok m f s h in
      (then_ a (first.holds s a (ap (λ p. p.0) e))).holds s' b k;
}

accept-eq_ok {ℓ} :
    {A : Type ℓ} (good : A → Bool) (e : Error) (r : Outcome Error A) {a : A}
    → accept good e r ≡ ok a
    → (r ≡ ok a) × (good a ≡ true)
accept-eq_ok good e (ok x) h = elim (Bool-cases (good x)) [
  | inl good_one ↦
      let same : ◌≡◌ {A = Outcome Error _} (ok x) (ok _) = rw good_one at h in
      (same, rw (← ok-injective same) good_one)
  | inr bad_one ↦ cc (rw bad_one at h)
]
accept-eq_ok good e (err x) h = cc

pub Ensures-require {ℓ κ μ} :
    {S : Type μ} {A : Type ℓ} (P : A → Type κ) (m : Action Error S A) (good : A → Bool) (e : Error)
    → Ensures P m
    → Ensures (λ a. P a × (good a ≡ true)) (require m good e)
unfolding require
Ensures-require P m good e h = record {
  holds = λ s a k. let (r, g) = accept-eq_ok good e (m s).0 k in (h.holds s a r, g);
}
