-- ===== src/Compat/Approval.antt =====
-- When `Evaluate` approves of the installed clients.
use codexfold.Prelude.{
  ◌≡◌, ◌↔◌, refl, ap, Bool, true, false, ◌||◌, List, [], ◌∷◌, ◌++◌, Outcome, ok, err, ◌==◌, drop,
  get_or, arith, All, OneOf, Bool-cases, inl, inr,
}
use codexfold.Prelude.Bytes.{Bytes, bytes_eq, bytes_eq→eq, bytes_eq_refl, is_empty, contains_any}
use codexfold.Compat.Contract.{
  Contract, ClientVersion, validate_contract, is_ok, key_of, known_keys, has_key, is_known,
  unknown_of, verdict, evaluate,
}

abbrev pub NulFree : Bytes → Type 0
NulFree bytes = contains_any (λ c. c == 0) bytes ≡ false

-- A zero byte ends a piece without one, whatever follows.
nul_splits :
    (xs ys xs' ys' : Bytes)
    → NulFree xs
    → NulFree xs'
    → xs ++ 0 ∷ ys ≡ xs' ++ 0 ∷ ys'
    → (xs ≡ xs') × (ys ≡ ys')
unfolding contains_any
nul_splits [] ys [] ys' h k e = (refl, ap (drop 1) e)
nul_splits [] ys (x ∷ xs') ys' h k e =
    let first : 0 ≡ x = ap (λ l. get_or l 0 0) e in absurd (ground arith)
nul_splits (x ∷ xs) ys [] ys' h k e =
    let first : x ≡ 0 = ap (λ l. get_or l 0 0) e in absurd (ground arith)
nul_splits (x ∷ xs) ys (x' ∷ xs') ys' h k e =
    let first : x ≡ x' = ap (λ l. get_or l 0 0) e in
    let (same, rest) = nul_splits xs ys xs' ys' (ground arith) (ground arith) (ap (drop 1) e) in
    (rw (first, same) refl, rest)

-- The parts of a client's or a contract's key.
pub record Separable (platform kind version : Bytes) : Type 0 where
  pub platform_free : NulFree platform
  pub kind_free : NulFree kind

key_of-injective :
    (p k v p' k' v' : Bytes)
    → Separable p k v
    → Separable p' k' v'
    → key_of p k v ≡ key_of p' k' v'
    → (p ≡ p') × (k ≡ k') × (v ≡ v')
unfolding key_of
key_of-injective p k v p' k' v' s s' e =
    let (same_platform, rest) = nul_splits p _ p' _ s.platform_free s'.platform_free e in
    let (same_kind, same_version) = nul_splits k _ k' _ s.kind_free s'.kind_free rest in
    (same_platform, same_kind, same_version)

-- A valid contract for exactly this client.
pub record Covers (client : ClientVersion) (c : Contract) : Type 0 where
  pub valid : validate_contract c ≡ ok tt
  pub same_platform : c.platform ≡ client.platform
  pub same_kind : c.client_kind ≡ client.kind
  pub same_version : c.client_version ≡ client.version

pub record IsCovered (contracts : List Contract) (client : ClientVersion) : Type 0 where
  pub contract : Contract
  pub listed : OneOf contract contracts
  pub covers : Covers client contract

is_ok-eq_ok : (o : Outcome _ (Unit {0})) → is_ok o ≡ true → o ≡ ok tt
is_ok-eq_ok (ok u) h = refl
is_ok-eq_ok (err e) h = absurd (ground arith)

abbrev pub SeparableClient : ClientVersion → Type 0
SeparableClient c = Separable c.platform c.kind c.version

abbrev pub SeparableContract : Contract → Type 0
SeparableContract c = Separable c.platform c.client_kind c.client_version

further :
    {c : Contract} {cs : List Contract} {client : ClientVersion}
    → IsCovered cs client
    → IsCovered (c ∷ cs) client
further i = record { contract = i.contract; listed = inr i.listed; covers = i.covers }

has_key-IsCovered :
    (contracts : List Contract) (client : ClientVersion)
    → All SeparableContract contracts
    → SeparableClient client
    → has_key (key_of client.platform client.kind client.version) (known_keys contracts) ≡ true
    → IsCovered contracts client
unfolding known_keys has_key
has_key-IsCovered [] client ss s h = absurd (ground arith)
has_key-IsCovered (c ∷ cs) client (sc, ss) s h = elim (Bool-cases (is_ok (validate_contract c))) [
  | inr bad ↦ further (has_key-IsCovered cs client ss s (rw bad at h))
  | inl good ↦
      elim (Bool-cases (
        bytes_eq (key_of c.platform c.client_kind c.client_version)
          (key_of client.platform client.kind client.version))) [
            | inl here ↦
                let (same_platform, same_kind, same_version) =
                  key_of-injective _ _ _ _ _ _ sc s (bytes_eq→eq _ _ here) in
                record {
                  contract = c;
                  listed = inl refl;
                  covers = record {
                    valid = is_ok-eq_ok (validate_contract c) good;
                    same_platform = same_platform;
                    same_kind = same_kind;
                    same_version = same_version;
                  };
                }
            | inr there ↦ further (has_key-IsCovered cs client ss s (rw (good, there) at h))
          ]
]

or_true : (b : Bool) → (b || true) ≡ true
or_true true = refl
or_true false = refl

Covers-has_key :
    (contracts : List Contract) (client : ClientVersion) (c : Contract)
    → OneOf c contracts
    → Covers client c
    → has_key (key_of client.platform client.kind client.version) (known_keys contracts) ≡ true
unfolding known_keys has_key
Covers-has_key [] client c l v = absurd l
Covers-has_key (d ∷ ds) client c (inl same) v =
    let e : is_ok (validate_contract d) ≡ true = rw (← same, v.valid) refl in
    let key : key_of d.platform d.client_kind d.client_version
        ≡ key_of client.platform client.kind client.version =
      rw (← same, v.same_platform, v.same_kind, v.same_version) refl in
    rw (e, key, bytes_eq_refl (key_of client.platform client.kind client.version)) refl
Covers-has_key (d ∷ ds) client c (inr l) v =
    let rest = Covers-has_key ds client c l v in
    elim (Bool-cases (is_ok (validate_contract d))) [
      | inl good ↦ rw (good, rest) (or_true _)
      | inr bad ↦ rw bad rest
    ]

-- A client that names its kind and version and has a valid contract.
pub record Approvable (contracts : List Contract) (client : ClientVersion) : Type 0 where
  pub kind_named : is_empty client.kind ≡ false
  pub version_named : is_empty client.version ≡ false
  pub covered : IsCovered contracts client

is_known-Approvable :
    (contracts : List Contract) (client : ClientVersion)
    → All SeparableContract contracts
    → SeparableClient client
    → is_known (known_keys contracts) client ≡ true
    → Approvable contracts client
unfolding is_known
is_known-Approvable contracts client ss s h = record {
  kind_named = ground arith;
  version_named = ground arith;
  covered = has_key-IsCovered contracts client ss s (ground arith);
}

Approvable-is_known :
    (contracts : List Contract) (client : ClientVersion)
    → Approvable contracts client
    → is_known (known_keys contracts) client ≡ true
unfolding is_known
Approvable-is_known contracts client a =
    rw
      (
        Covers-has_key contracts client a.covered.contract a.covered.listed a.covered.covers,
        a.kind_named,
        a.version_named,
      )
      refl

approved-Approvable :
    (contracts : List Contract) (installed : List ClientVersion)
    → All SeparableContract contracts
    → All SeparableClient installed
    → unknown_of (known_keys contracts) installed ≡ []
    → All (Approvable contracts) installed
unfolding unknown_of
approved-Approvable contracts [] ss cs h = tt
approved-Approvable contracts (c ∷ rest) ss (sc, cs) h =
    elim (Bool-cases (is_known (known_keys contracts) c)) [
      | inl known ↦ (
        is_known-Approvable contracts c ss sc known,
        approved-Approvable contracts rest ss cs (rw known at h),
      )
      | inr unknown ↦ absurd (ground (arith, rw unknown at h))
    ]

Approvable-approved :
    (contracts : List Contract) (installed : List ClientVersion)
    → All (Approvable contracts) installed
    → unknown_of (known_keys contracts) installed ≡ []
unfolding unknown_of
Approvable-approved contracts [] h = refl
Approvable-approved contracts (c ∷ rest) (a, h) =
    rw (Approvable-is_known contracts c a) (Approvable-approved contracts rest h)

verdict-approved : (unknown : List ClientVersion) → (verdict unknown).approved ≡ true → unknown ≡ []
verdict-approved [] h = refl
verdict-approved (c ∷ cs) h = absurd (ground arith)

-- `Evaluate` approves exactly where each installed client names its kind and version and a valid
-- contract is for its platform, kind and version, provided that no platform or kind of a client or a
-- contract has a zero byte, which separates the parts of a key.
pub evaluate-approved :
    (installed : List ClientVersion) (contracts : List Contract)
    → All SeparableContract contracts
    → All SeparableClient installed
    → ((evaluate installed contracts).approved ≡ true) ↔ All (Approvable contracts) installed
unfolding evaluate
evaluate-approved installed contracts ss cs = (
  λ h. approved-Approvable contracts installed ss cs (verdict-approved _ h),
  λ h. ap (λ u. (verdict u).approved) (Approvable-approved contracts installed h),
)
