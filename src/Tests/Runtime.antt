-- ===== src/Tests/Runtime.antt =====
-- The native host: pairing with a token of 43 characters, and addresses.
use rogatio.Prelude.{
  inl, inr, ℕ, ap, ◌≡◌, ◌≤◌, refl, true, false, not, some, List, [], ◌∷◌, length, All, all, filter,
  arith,
}
use rogatio.Prelude.Texts.{Text, codes}
use rogatio.Runtime.Capability.{
  CapabilityState, create_capability_state, pair_capability, find_session, acquire_operation,
  clean_sessions, clean_down, is_expired, may_pair, is_token, same_digest, is_sha256_digest,
  same_token, text_eq, new_session, search_session, first_session, is_session_of,
}
use rogatio.Runtime.Results.{ok}
use rogatio.Runtime.Capability.Invariant.{IsFound, is_live, clean_down-eq-filter}
use rogatio.Runtime.Capability.Reach.{
  Event, pair, find, acquire, release, close, pairings, run, HasFewOperations, IsBounded,
}
use rogatio.Runtime.Capability.Runs.{
  NotOverloaded, IsRefused, run-create-IsSafe, find_session-IsFound, run-IsShut,
}
use rogatio.Runtime.Capability.Sessions.{find-pair_capability}
use rogatio.Runtime.AddressPolicy.{
  ResolvedAddress, classify_ipv4, classify_ipv6, is_public_class, ipv4_number,
  validate_resolved_addresses,
}
use rogatio.Runtime.Addresses.{Ipv4}
use rogatio.Runtime.AddressPolicy.Mapped.{
  IsIpv4, mapped_words, in_block, special_blocks, classify_ipv6-mapped_words,
  classify_ipv4-special_blocks,
}
use rogatio.Runtime.AddressPolicy.Local.{IsLocal, classify_ipv6_local}
use rogatio.Runtime.AddressPolicy.Resolved.{IsChecked, validate_resolved_addresses-IsChecked}

abbrev digest : Text
digest = codes "sha256:0123456789abcdef0123456789abcdef0123456789abcdef0123456789abcdef"

abbrev bootstrap : Text
bootstrap = codes "abcdefghijklmnopqrstuvwxyz0123456789-_ABCDE"

abbrev fresh : Text
fresh = codes "ABCDEabcdefghijklmnopqrstuvwxyz0123456789-_"

-- A digest that keeps the token.
abbrev digest_token : Text → Text
digest_token token = token

abbrev start : CapabilityState
start = record {
  preset_digest = digest;
  bootstrap_digest = bootstrap;
  bootstrap_expires_at = 60100;
  objects = [];
  sessions = [];
  consumed = false;
  closed = false;
}

start-IsBounded : IsBounded start
start-IsBounded = record { sessions_bound = omega arith; operations_bound = tt }

abbrev paired : CapabilityState
paired = record start {
  consumed = true;
  objects =
      record { digest = digest; expires_at = 600200; token_digest = fresh; active_operations = 0 }
      ∷ [];
  sessions = 0 ∷ [];
}

pairs_once :
    pair_capability digest_token start (some bootstrap) (some digest) 200 fresh ≡ (ok fresh, paired)
unfolding pair_capability clean_sessions clean_down may_pair is_token same_digest is_sha256_digest
    same_token text_eq new_session
pairs_once = refl

fresh-is_token : is_token fresh ≡ true
unfolding is_token
fresh-is_token = refl

find-pair_capability_example :
    (find_session digest_token
      (pair_capability digest_token start (some bootstrap) (some digest) 200 fresh).1
      (some fresh)
      (some digest)
      500000).0
    ≡ some 0
find-pair_capability_example =
    find-pair_capability digest_token start bootstrap digest fresh 200 500000 start-IsBounded
      fresh-is_token (omega arith) (ap (λ r. r.0) pairs_once)

finds : (find_session digest_token paired (some fresh) (some digest) 500000).0 ≡ some 0
unfolding find_session clean_sessions clean_down is_expired search_session first_session
    is_session_of is_token same_digest is_sha256_digest text_eq
finds = refl

find_session-IsFound_example : IsFound digest_token paired fresh digest 500000 0
find_session-IsFound_example = find_session-IsFound digest_token paired fresh digest 500000 0 finds

abbrev calls : List Event
calls =
    pair (some bootstrap) (some digest) 200 fresh
    ∷ pair (some bootstrap) (some digest) 300 fresh
    ∷ find (some fresh) (some digest) 400
    ∷ acquire 0
    ∷ acquire 0
    ∷ release 0
    ∷ close
    ∷ find (some fresh) (some digest) 500
    ∷ []

run-create-IsSafe_example :
    (pairings (run digest_token (create_capability_state digest_token digest bootstrap 100) calls).0
      ≤ 1)
    × (All NotOverloaded
          (run digest_token (create_capability_state digest_token digest bootstrap 100) calls).0
        × ((length
                (run digest_token
                  (create_capability_state digest_token digest bootstrap 100)
                  calls).1.sessions
              ≤ 1)
            × All HasFewOperations
                (run digest_token
                  (create_capability_state digest_token digest bootstrap 100)
                  calls).1.objects))
run-create-IsSafe_example = run-create-IsSafe digest_token digest bootstrap 100 calls

abbrev shut : CapabilityState
shut = record paired { consumed = true; closed = true; sessions = [] }

run-IsShut_example :
    ((run digest_token shut calls).1.closed ≡ true) × All IsRefused (run digest_token shut calls).0
run-IsShut_example = run-IsShut digest_token shut calls refl

grants : (acquire_operation paired 0).0 ≡ ok tt
unfolding acquire_operation
grants = refl

clean_down-eq-filter_example :
    clean_down 1 paired.objects 700000 (0 ∷ []) ≡ filter (is_live paired.objects 700000) (0 ∷ [])
clean_down-eq-filter_example = clean_down-eq-filter paired.objects 700000 (0 ∷ [])

abbrev metadata : Ipv4
metadata = record { first = 169; second = 254; third = 169; fourth = 254 }

metadata-IsIpv4 : IsIpv4 metadata
metadata-IsIpv4 = record {
  first_bound = omega arith;
  second_bound = omega arith;
  third_bound = omega arith;
  fourth_bound = omega arith;
}

classify_ipv6-mapped_words_example : classify_ipv6 (mapped_words metadata) ≡ classify_ipv4 metadata
classify_ipv6-mapped_words_example = classify_ipv6-mapped_words metadata metadata-IsIpv4

classify_ipv4-special_blocks_example :
    is_public_class (classify_ipv4 metadata)
    ≡ all (λ block. not (in_block (ipv4_number metadata) block)) special_blocks
classify_ipv4-special_blocks_example = classify_ipv4-special_blocks metadata

abbrev is_ip : Text → ℕ
is_ip address = 4

abbrev addresses : List ResolvedAddress
addresses =
    record { address = codes "93.184.216.34"; family = 4 }
    ∷ record { address = codes "8.8.8.8"; family = 4 }
    ∷ []

validate_resolved_addresses-IsChecked_example :
    IsChecked is_ip addresses 32 (validate_resolved_addresses is_ip addresses 32)
validate_resolved_addresses-IsChecked_example =
    validate_resolved_addresses-IsChecked is_ip addresses 32

router-IsLocal : IsLocal 0xfe80
router-IsLocal = inr (inl (omega arith, omega arith))

classify_ipv6_local_example :
    is_public_class (classify_ipv6 (0xfe80 ∷ 0 ∷ 0 ∷ 0 ∷ 0 ∷ 0 ∷ 0 ∷ 1 ∷ [])) ≡ false
classify_ipv6_local_example =
    classify_ipv6_local 0xfe80 (0 ∷ 0 ∷ 0 ∷ 0 ∷ 0 ∷ 0 ∷ 1 ∷ []) router-IsLocal
