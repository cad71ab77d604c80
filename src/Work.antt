-- ===== src/Work.antt =====
-- worker/types/work_type.go and worker/types/work_request.go.
-- Values of tss-lib that the code only passes on (key shares, preparams) are opaque handles.
use dheart.Common.{
  ℕ, ◌+◌, Option, none, some, List, [], ◌∷◌, map, Text, Bool, true, false, length, if◌then◌else◌,
}
use dheart.Common.Int.{ℤ, pos, negsuc}
use dheart.Party.{PartyId}

-- `unknown` stands for every number that is no declared constant.
pub data WorkType : Type 0 where
  ec_keygen ec_signing ed_keygen ed_signing unknown : WorkType

abbrev pub Handle : Type 0
Handle = ℕ

pub record WorkRequest : Type 0 where
  pub work_type : WorkType
  pub all_parties : List PartyId
  pub work_id : Text
  pub n : ℕ
  pub batch_size : ℕ
  pub keygen_type : Text
  pub threshold : ℕ
  pub ec_keygen_input : Option Handle
  pub ec_signing_input : Option Handle
  pub ed_signing_input : Option Handle
  -- a nil slice, or messages that may be nil
  pub messages : Option (List (Option Text))
  pub chains : List Text

unfoldable pub is_keygen_type : WorkType → Bool
is_keygen_type ec_keygen = true
is_keygen_type ed_keygen = true
is_keygen_type _ = false

unfoldable pub is_signing_type : WorkType → Bool
is_signing_type ec_signing = true
is_signing_type ed_signing = true
is_signing_type _ = false

unfoldable pub is_keygen : WorkRequest → Bool
unfolding is_keygen_type
is_keygen request = is_keygen_type request.work_type

unfoldable pub is_signing : WorkRequest → Bool
unfolding is_signing_type
is_signing request = is_signing_type request.work_type

is_ecdsa_type : WorkType → Bool
is_ecdsa_type ec_keygen = true
is_ecdsa_type ec_signing = true
is_ecdsa_type _ = false

unfoldable pub is_ecdsa : WorkRequest → Bool
unfolding is_ecdsa_type
is_ecdsa request = is_ecdsa_type request.work_type

is_eddsa_type : WorkType → Bool
is_eddsa_type ed_keygen = true
is_eddsa_type ed_signing = true
is_eddsa_type _ = false

unfoldable pub is_eddsa : WorkRequest → Bool
unfolding is_eddsa_type
is_eddsa request = is_eddsa_type request.work_type

validate_type : WorkType → Bool
validate_type unknown = false
validate_type _ = true

-- `Validate`: whether it returns no error.
unfoldable pub validate : WorkRequest → Bool
unfolding validate_type
validate request = validate_type request.work_type

unfoldable pub get_min_party_count : WorkRequest → ℕ
get_min_party_count request = if is_keygen request then request.n else request.threshold + 1

priority_of : WorkType → ℤ
priority_of ec_keygen = pos 100
priority_of ed_keygen = pos 100
priority_of ec_signing = pos 80
priority_of ed_signing = pos 80
priority_of unknown = negsuc 0

unfoldable pub get_priority : WorkRequest → ℤ
unfolding priority_of
get_priority request = priority_of request.work_type

-- The two functions of tss-lib that `baseRequest` calls.
module _ (new_party_id : Text → Text → ℕ → PartyId)
    (sort_party_ids : List PartyId → List PartyId) where
  unfoldable pub base_request : WorkType → Text → ℕ → ℕ → List PartyId → ℕ → WorkRequest
  base_request work_type work_id n threshold pids batch_size = record {
    work_type = work_type;
    all_parties = sort_party_ids (map (λ p. new_party_id p.id p.moniker p.key_int) pids);
    work_id = work_id;
    n = n;
    batch_size = batch_size;
    keygen_type = [];
    threshold = threshold;
    ec_keygen_input = none;
    ec_signing_input = none;
    ed_signing_input = none;
    messages = none;
    chains = [];
  }

  unfoldable pub new_ec_keygen_request :
      Text → Text → List PartyId → ℕ → Option Handle → WorkRequest
  unfolding base_request
  new_ec_keygen_request key_type work_id pids threshold keygen_input =
      let request = base_request ec_keygen work_id (length pids) threshold pids 1 in
      record request { ec_keygen_input = keygen_input; keygen_type = key_type }

  unfoldable pub new_ec_signing_request :
      Text
      → List PartyId
      → ℕ
      → Option (List (Option Text))
      → List Text
      → Option Handle
      → WorkRequest
  unfolding base_request
  new_ec_signing_request work_id pids threshold messages chains keygen_output =
      let request = base_request ec_signing work_id (length pids) threshold pids (count messages) in
      record request { ec_signing_input = keygen_output; messages = messages; chains = chains }
    where
      -- `len` of a slice that may be nil
      count : Option (List (Option Text)) → ℕ
      count none = 0
      count (some l) = length l

  unfoldable pub new_ed_keygen_request : Text → List PartyId → ℕ → WorkRequest
  unfolding base_request
  new_ed_keygen_request work_id pids threshold =
      let request = base_request ed_keygen work_id (length pids) threshold pids 1 in
      record request { keygen_type = b'e' ∷ b'd' ∷ b'd' ∷ b's' ∷ b'a' ∷ [] }

  unfoldable pub new_ed_signing_request :
      Text
      → List PartyId
      → ℕ
      → Option (List (Option Text))
      → List Text
      → Option Handle
      → WorkRequest
  unfolding base_request
  new_ed_signing_request work_id pids threshold messages chains inputs =
      let request = base_request ed_signing work_id (length pids) threshold pids (count messages) in
      record request { ed_signing_input = inputs; messages = messages; chains = chains }
    where
      count : Option (List (Option Text)) → ℕ
      count none = 0
      count (some l) = length l
