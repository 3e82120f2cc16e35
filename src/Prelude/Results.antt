-- ===== src/Prelude/Results.antt =====
-- Fallible code: a result carries a value or the error that the source's `ensure!` and `bail!` name.
use mathlib.Core.Path.{◌≡◌, refl}
use mathlib.Core.Logic.{◌⊎◌, inl, inr}
use mathlib.Core.Bool.{Bool, true, false}

-- One constructor for each refusal of the source.
pub data Error : Type 0 where
  nothing_to_copy selection_over_limit : Error
  copy_too_large unusable_types too_many_files secret_names_files : Error
  unsafe_path same_path : Error
  claims_our_origin clock_too_far_ahead : Error
  cannot_save : Error
  message_too_large stream_ended cannot_decode trailing_bytes : Error
  too_many_asked asked_twice : Error
  cannot_read cannot_spool wrong_content unusable_path cannot_lay_out : Error
  bad_file_name too_many_sources sources_too_large same_name no_files : Error
  empty_clipboard no_such_type no_files_named files_are_here clip_changed sharing_off service_gone :
      Error
  pairs_itself cannot_reach pairing_refused unexpected_message dropped_early no_relay : Error
  not_a_ticket bad_ticket : Error
  clip_replaced wrong_size partial_moved stopped_short not_all_here over_file_limit : Error
  name_empty name_too_long name_confusable : Error
  mesh_full unknown_machine record_corrupt no_such_machine ambiguous_machine : Error

-- The source's `eyre::Result`.
pub data Result {κ} (T : Type κ) : Type κ where
  err : Error → Result T
  ok : T → Result T

abbrev pub is_ok {κ} : {T : Type κ} → Result T → Bool
is_ok (err refusal) = false
is_ok (ok value) = true

-- `eyre::ensure!`.
abbrev pub ensure : Bool → Error → Result (Unit {0})
ensure false refusal = err refusal
ensure true refusal = ok tt

-- The operator `?`: of a call whose value is not used, and of one whose value is.
infixl 5 ◌>>◌
abbrev pub ◌>>◌ {κ} : {U : Type κ} → Result (Unit {0}) → Result U → Result U
err refusal >> after = err refusal
ok done >> after = after

infixl 5 ◌>>=◌
abbrev pub ◌>>=◌ {κ ℓ} : {T : Type κ} {U : Type ℓ} → Result T → (T → Result U) → Result U
err refusal >>= next = err refusal
ok value >>= next = next value

pub ensure-eq-ok : (b : Bool) (refusal : Error) → ensure b refusal ≡ ok tt → b ≡ true
ensure-eq-ok true refusal h = refl
ensure-eq-ok false refusal h = cc

-- What a chain that succeeds says of its parts, for proofs where these stay shut.
pub >>-eq-ok {κ} :
    {U : Type κ} (first : Result (Unit {0})) (after : Result U) {value : U}
    → (first >> after) ≡ ok value
    → (first ≡ ok tt) × (after ≡ ok value)
>>-eq-ok (err refusal) after h = cc
>>-eq-ok (ok done) after h = (refl, h)

pub >>=-eq-ok {κ ℓ} :
    {T : Type κ} {U : Type ℓ} (first : Result T) (next : T → Result U) {value : U}
    → (first >>= next) ≡ ok value
    → (t : T) × (first ≡ ok t) × (next t ≡ ok value)
>>=-eq-ok (err refusal) next h = cc
>>=-eq-ok (ok t) next h = (t, refl, h)

pub Result-cases {κ} :
    {T : Type κ} (r : Result T) → ((t : T) × (r ≡ ok t)) ⊎ ((refusal : Error) × (r ≡ err refusal))
Result-cases (err refusal) = inr (refusal, refl)
Result-cases (ok t) = inl (t, refl)
