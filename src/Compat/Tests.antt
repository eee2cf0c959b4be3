-- ===== src/Compat/Tests.antt =====
-- A contract and a client that it is for, and the theorem of the evaluation at them.
use codexfold.Prelude.{ℕ, zero, suc, ◌≡◌, ◌↔◌, refl, true, [], ◌∷◌, All}
use codexfold.Prelude.Int.{pos}
use codexfold.Prelude.Bytes.{Bytes, bytes_eq, contains_any}
use codexfold.Compat.Contract.{
  Contract, ClientVersion, evaluate, unknown_of, is_known, has_key, known_keys, key_of,
  validate_contract, validate_operations, validate_signatures,
}
use codexfold.Compat.Approval.{Separable, Approvable, evaluate-approved}

abbrev repeat : ℕ → ℕ → Bytes
repeat zero b = []
repeat (suc n) b = b ∷ repeat n b

abbrev client : ClientVersion
client = record { platform = b'd' ∷ []; kind = b'c' ∷ []; version = b'1' ∷ [] }

abbrev contract : Contract
contract = record {
  version = pos 1;
  platform = b'd' ∷ [];
  client_kind = b'c' ∷ [];
  client_version = b'1' ∷ [];
  operations =
      record {
        name = b'o' ∷ [];
        count = pos 2;
        signatures = record { value = b'v' ∷ []; count = pos 1 } ∷ [];
      }
      ∷ [];
  trace_sha256 = repeat 64 b'0';
}

client_approved : (evaluate (client ∷ []) (contract ∷ [])).approved ≡ true
unfolding evaluate unknown_of is_known has_key known_keys key_of validate_contract
    validate_operations validate_signatures bytes_eq contains_any
client_approved = refl

stranger_refused :
    (evaluate (record client { version = b'2' ∷ [] } ∷ []) (contract ∷ [])).quarantine ≡ true
unfolding evaluate unknown_of is_known has_key known_keys key_of validate_contract
    validate_operations validate_signatures bytes_eq contains_any
stranger_refused = refl

plain : Separable (b'd' ∷ []) (b'c' ∷ []) (b'1' ∷ [])
unfolding contains_any
plain = record { platform_free = refl; kind_free = refl }

evaluate-approved_example :
    ((evaluate (client ∷ []) (contract ∷ [])).approved ≡ true)
    ↔ All (Approvable (contract ∷ [])) (client ∷ [])
evaluate-approved_example = evaluate-approved (client ∷ []) (contract ∷ []) (plain, tt) (plain, tt)
