-- ===== src/Storage/Policy.antt =====
-- internal/storage/policy.go: the limits and the retention that a store is run with. The policy
-- file is a parameter: whether it is there, and what the JSON decoder makes of it.
use codexfold.Prelude.{
  ◌≡◌, refl, subst, ◌⊎◌, Bool, true, not, ◌&&◌, ◌||◌, [], ◌∷◌, Outcome, ok, err, ok-injective,
  if◌then◌else◌, arith, Bool-cases, inl, inr,
}
use codexfold.Prelude.Int.{ℤ, pos, eq_ℤ, eq_ℤ→eq, ltb_ℤ}
use codexfold.Prelude.Bytes.{Bytes, bytes_eq, bytes_eq→eq, is_empty}
use codexfold.Storage.Budget.{Limits}

-- "until-exact-recovery-proof", "until-explicit-retirement"
abbrev pub exact_proof : Bytes
exact_proof =
    b'u' ∷ b'n' ∷ b't' ∷ b'i' ∷ b'l' ∷ b'-' ∷ b'e' ∷ b'x' ∷ b'a' ∷ b'c' ∷ b't' ∷ b'-' ∷ b'r' ∷ b'e'
    ∷ b'c' ∷ b'o' ∷ b'v' ∷ b'e' ∷ b'r' ∷ b'y' ∷ b'-' ∷ b'p' ∷ b'r' ∷ b'o' ∷ b'o' ∷ b'f' ∷ []

abbrev pub manual : Bytes
manual =
    b'u' ∷ b'n' ∷ b't' ∷ b'i' ∷ b'l' ∷ b'-' ∷ b'e' ∷ b'x' ∷ b'p' ∷ b'l' ∷ b'i' ∷ b'c' ∷ b'i' ∷ b't'
    ∷ b'-' ∷ b'r' ∷ b'e' ∷ b't' ∷ b'i' ∷ b'r' ∷ b'e' ∷ b'm' ∷ b'e' ∷ b'n' ∷ b't' ∷ []

pub record PolicyFile : Type 0 where
  pub version : ℤ
  pub limits : Limits
  pub native_snapshots : Bytes

-- `DefaultLimits`: 512, 16 and 5 GiB.
abbrev pub default_limits : Limits
default_limits = record {
  max_physical_bytes = pos 549755813888;
  max_temporary_bytes = pos 17179869184;
  free_space_reserve_bytes = pos 5368709120;
}

abbrev pub default_policy : PolicyFile
default_policy = record { version = pos 1; limits = default_limits; native_snapshots = exact_proof }

pub data PolicySource : Type 0 where
  missing unreadable malformed : PolicySource
  decoded : PolicyFile → PolicySource

pub data PolicyFault : Type 0 where
  store_required read_failed decode_failed unsupported_version : PolicyFault
  limits_not_positive unsupported_retention : PolicyFault

abbrev pub is_positive : ℤ → Bool
is_positive a = ltb_ℤ (pos 0) a

-- An empty retention stands for the default.
abbrev pub with_retention : PolicyFile → PolicyFile
with_retention p = record p {
  native_snapshots = if is_empty p.native_snapshots then exact_proof else p.native_snapshots;
}

unfoldable pub validate_policy : PolicyFile → Outcome PolicyFault PolicyFile
validate_policy p =
    if not (eq_ℤ p.version (pos 1))
    then err unsupported_version
    else if not (
        is_positive p.limits.max_physical_bytes
        && is_positive p.limits.max_temporary_bytes
        && is_positive p.limits.free_space_reserve_bytes)
    then err limits_not_positive
    else if bytes_eq (with_retention p).native_snapshots exact_proof
        || bytes_eq (with_retention p).native_snapshots manual
    then ok (with_retention p)
    else err unsupported_retention

unfoldable pub load_policy : Bytes → PolicySource → Outcome PolicyFault PolicyFile
load_policy store_dir source = if is_empty store_dir then err store_required else elim source [
  | missing ↦ ok default_policy
  | unreadable ↦ err read_failed
  | malformed ↦ err decode_failed
  | decoded p ↦ validate_policy p
]

-- A policy that a store may be run with.
pub record IsPolicy (p : PolicyFile) : Type 0 where
  pub version_is : p.version ≡ pos 1
  pub some_physical : is_positive p.limits.max_physical_bytes ≡ true
  pub some_temporary : is_positive p.limits.max_temporary_bytes ≡ true
  pub some_reserve : is_positive p.limits.free_space_reserve_bytes ≡ true
  pub retention_known : (p.native_snapshots ≡ exact_proof) ⊎ (p.native_snapshots ≡ manual)

known_retention :
    (retention : Bytes)
    → (bytes_eq retention exact_proof || bytes_eq retention manual) ≡ true
    → (retention ≡ exact_proof) ⊎ (retention ≡ manual)
known_retention retention h = elim (Bool-cases (bytes_eq retention exact_proof)) [
  | inl exact ↦ inl (bytes_eq→eq retention exact_proof exact)
  | inr other ↦ inr (bytes_eq→eq retention manual (ground (arith, rw other at h)))
]

validate_policy-IsPolicy : (q p : PolicyFile) → validate_policy q ≡ ok p → IsPolicy p
unfolding validate_policy
validate_policy-IsPolicy q p h = elim (Bool-cases (not (eq_ℤ q.version (pos 1)))) [
  | inl bad ↦ absurd (ground (arith, rw bad at h))
  | inr version ↦
      elim (Bool-cases (
        not (
          is_positive q.limits.max_physical_bytes
          && is_positive q.limits.max_temporary_bytes
          && is_positive q.limits.free_space_reserve_bytes))) [
            | inl bad ↦ absurd (ground (arith, rw (version, bad) at h))
            | inr positive ↦
                elim (Bool-cases (
                  bytes_eq (with_retention q).native_snapshots exact_proof
                  || bytes_eq (with_retention q).native_snapshots manual)) [
                    | inr bad ↦ absurd (ground (arith, rw (version, positive, bad) at h))
                    | inl known ↦
                        subst IsPolicy (ok-injective (rw (version, positive, known) at h)) (record {
                          version_is = eq_ℤ→eq q.version (pos 1) (ground arith);
                          some_physical = ground arith;
                          some_temporary = ground arith;
                          some_reserve = ground arith;
                          retention_known = known_retention _ known;
                        })
                  ]
          ]
]

default_policy-IsPolicy : IsPolicy default_policy
default_policy-IsPolicy = record {
  version_is = refl;
  some_physical = refl;
  some_temporary = refl;
  some_reserve = refl;
  retention_known = inl refl;
}

-- Whatever stands in the policy file, a policy that is loaded has the version 1, positive limits and a
-- retention that is known.
pub load_policy-IsPolicy :
    (store_dir : Bytes) (source : PolicySource) {p : PolicyFile}
    → load_policy store_dir source ≡ ok p
    → IsPolicy p
unfolding load_policy
load_policy-IsPolicy store_dir missing h = elim (Bool-cases (is_empty store_dir)) [
  | inl unnamed ↦ absurd (ground (arith, rw unnamed at h))
  | inr named ↦ subst IsPolicy (ok-injective (rw named at h)) default_policy-IsPolicy
]
load_policy-IsPolicy store_dir unreadable h = absurd (ground arith)
load_policy-IsPolicy store_dir malformed h = absurd (ground arith)
load_policy-IsPolicy store_dir (decoded q) {p} h = elim (Bool-cases (is_empty store_dir)) [
  | inl unnamed ↦ absurd (ground (arith, rw unnamed at h))
  | inr named ↦ validate_policy-IsPolicy q p (rw named at h)
]
