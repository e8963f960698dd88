-- ===== src/Error.antt =====
-- The errors of src/error.rs, and the results of fallible code. Where the text of an error is
-- formatted from a number, the number is kept. `panic` also stands for the abort of an `unwrap`,
-- an `expect` or an `unimplemented!` that is reached.
use wallet_rs.Prelude.{
  ℕ, Bool, true, false, ◌≡◌, refl, ap, ◌⊎◌, inl, inr, Option, none, some, String,
}

-- `AddressBuildRequiredField`
pub data AddressBuildRequiredField : Type 0 where
  address key_index outputs : AddressBuildRequiredField

-- `AccountInitialiseRequiredField`
pub data AccountInitialiseRequiredField : Type 0 where
  signer_type created_at : AccountInitialiseRequiredField

-- What an error of another library carries is left out, but for the count of outputs in
-- `BeeMessage(InvalidInputOutputCount)`.
pub data Error : Type 0 where
  io_error json_error stronghold_error client_error url_error : Error
  message_not_found invalid_message_id_length invalid_address invalid_address_length : Error
  storage_doesnt_exist : Error
  insufficient_funds : ℕ → ℕ → Error
  account_not_empty latest_account_is_empty record_not_found : Error
  invalid_remainder_value_address : Error
  storage : String → Error
  panic invalid_message_id invalid_transaction_id : Error
  address_build_required_field : AddressBuildRequiredField → Error
  account_initialise_required_field : AccountInitialiseRequiredField → Error
  bee_message : Error
  invalid_input_output_count : ℕ → Error
  invalid_backup_file invalid_backup_destination : Error
  mnemonic_encode invalid_mnemonic : String → Error
  storage_exists : Error
  storage_adapter_not_set : String → Error
  record_decrypt record_encrypt : String → Error
  storage_is_encrypted cannot_use_index_identifier : Error
  no_ledger_signer_error ledger_misc_error ledger_dongle_locked ledger_denied_by_user : Error
  ledger_device_not_found ledger_essence_too_large ledger_net_mismatch : Error
  ledger_mnemonic_mismatch account_alias_already_exists : Error
  dust_error : String → Error
  leaving_dust_error : ℕ → Error
  invalid_output_kind : String → Error
  missing_unlock_block : Error
  nodes_not_synced : String → Error
  failed_to_get_remainder : Error
  too_many_outputs consolidation_required : ℕ → ℕ → Error
  input_address_not_found legacy_client_error ternary_error invalid_seed : Error
  migration_data_not_found migration_bundle_not_found input_not_found empty_input_list : Error
  spent_address_on_bundle poison_error task_join_error std_thread_join_error : Error
  spent_output_not_found invalid_participations reqwest_error : Error

pub data Result {κ} (T : Type κ) : Type κ where
  err : Error → Result T
  ok : T → Result T

-- `ok_or(e)`
abbrev pub ok_or {κ} : {T : Type κ} → Option T → Error → Result T
ok_or (some t) e = ok t
ok_or none e = err e

-- A result is one or the other.
pub Result-cases {κ} :
    {T : Type κ} (m : Result T) → ((t : T) × (m ≡ ok t)) ⊎ ((e : Error) × (m ≡ err e))
Result-cases (err e) = inr (e, refl)
Result-cases (ok t) = inl (t, refl)

infixl 5 ◌>>=◌ ◌>>◌
-- The `?` operator: the first error is the result.
abbrev pub ◌>>=◌ {κ ℓ} : {T : Type κ} {U : Type ℓ} → Result T → (T → Result U) → Result U
err e >>= next = err e
ok t >>= next = next t

-- `if b { return Err(e) }`
abbrev pub raise_if : Bool → Error → Result (Unit {0})
raise_if false e = ok tt
raise_if true e = err e

pub ok_injective {κ} : {T : Type κ} {a b : T} → ok a ≡ ok b → a ≡ b
ok_injective {a = a} e = ap (λ r. elim r [ err _ ↦ a | ok t ↦ t ]) e

-- A chain that succeeds has succeeded at its start.
pub >>=-eq-ok {κ ℓ} :
    {T : Type κ} {U : Type ℓ} (m : Result T) (next : T → Result U) {u : U}
    → (m >>= next) ≡ ok u
    → (t : T) × (m ≡ ok t) × (next t ≡ ok u)
>>=-eq-ok (err e) next h = cc
>>=-eq-ok (ok t) next h = (t, refl, h)

abbrev pub ◌>>◌ {κ} : {U : Type κ} → Result (Unit {0}) → Result U → Result U
test >> later = test >>= λ _. later
