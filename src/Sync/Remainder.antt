-- ===== src/Sync/Remainder.antt =====
-- The address that receives the remainder, in `perform_transfer` (src/account/sync/mod.rs), and the
-- generation of change addresses (src/address.rs). What the signer derives is a parameter: from a
-- key index, the change flag and the `syncing` flag, the inner address.
pub mod Balance
use wallet_rs.Prelude.{
  ℕ, ◌+◌, Bool, true, false, not, ◌&&◌, Option, none, some, List, [], ◌∷◌, ◌++◌, String, find, ltb,
  ◌==◌, if◌then◌else◌,
}
use wallet_rs.Error.{
  Result, ok, err, ◌>>=◌, ◌>>◌, raise_if, ok_or, bee_message, ledger_mnemonic_mismatch, panic,
}
use wallet_rs.Address.Types.{
  AddressWrapper, Address, address_eq, OutputKind, signature_locked_single,
}
use wallet_rs.Message.Transfer.{RemainderValueStrategy, Transfer}
use wallet_rs.InputSelection.Types.{AddressInputs, Remainder, dust_allowance_value}
use wallet_rs.Account.Types.{Account, SignerType}
use wallet_rs.Account.Addresses.{latest_change_address, append_addresses}
use wallet_rs.Sync.Collect.{EssenceOutput, DustRecord, Collected, essence_output, collect}

-- `Account::bech32_hrp`
unfoldable pub bech32_hrp : Account → Result String
bech32_hrp account = elim account.addresses [ [] ↦ err panic | a ∷ rest ↦ ok a.address.bech32_hrp ]

abbrev pub is_ledger : SignerType → Bool
is_ledger SignerType.ledger_nano = true
is_ledger SignerType.ledger_nano_simulator = true
is_ledger _ = false

-- What the choice of the address leaves: the account, the address that is watched and synchronised
-- if there is one, and the deposit address.
pub record Deposit : Type 0 where
  pub account : Account
  pub address_to_watch : Option AddressWrapper
  pub address : AddressWrapper

abbrev pub has_no_outputs : Address → Bool
has_no_outputs a = elim a.outputs [ [] ↦ true | o ∷ rest ↦ false ]

module _ (derive : ℕ → Bool → Bool → Result ℕ) where
  unfoldable pub get_new_change_address : ℕ → String → Bool → Result Address
  get_new_change_address key_index hrp syncing = do
    inner ← derive key_index true syncing
    ok (record {
      address = record { inner = inner; bech32_hrp = hrp };
      key_index = key_index;
      internal = true;
      outputs = [];
    })

  -- On a ledger the address is generated again, so that it is displayed.
  unfoldable pub confirm_on_ledger : Account → String → Address → Result (Unit {0})
  unfolding get_new_change_address
  confirm_on_ledger account hrp a =
      if is_ledger account.signer_type
      then (get_new_change_address a.key_index hrp false >>= λ regenerated.
          raise_if (not (a.address.inner == regenerated.address.inner)) ledger_mnemonic_mismatch)
      else ok tt

  -- The three cases of `RemainderValueStrategy::ChangeAddress`.
  unfoldable pub change_address_for : Account → Result Address
  unfolding get_new_change_address confirm_on_ledger bech32_hrp
  change_address_for account = elim (latest_change_address account) [
    | none ↦ do
      hrp ← bech32_hrp account
      event_address ← get_new_change_address 0 hrp true
      get_new_change_address 0 hrp false
    | some a ↦
        if has_no_outputs a
        then (if is_ledger account.signer_type
            then (do hrp ← bech32_hrp account; confirm_on_ledger account hrp a; ok a)
            else ok a)
        else (do
          hrp ← bech32_hrp account
          fresh ← get_new_change_address (a.key_index + 1) hrp true
          confirm_on_ledger account hrp fresh
          ok fresh)
  ]

  -- The arms of the match on the strategy.
  unfoldable pub deposit_for : Account → RemainderValueStrategy → AddressWrapper → Result Deposit
  unfolding change_address_for
  deposit_for account (RemainderValueStrategy.account_address target) source =
      ok (record { account = account; address_to_watch = none; address = target })
  deposit_for account RemainderValueStrategy.change_address source = do
    change ← change_address_for account
    ok (record {
      account = record account { addresses = append_addresses account.addresses (change ∷ []) };
      address_to_watch = some change.address;
      address = change.address;
    })
  deposit_for account RemainderValueStrategy.reuse_address source =
      ok (record { account = account; address_to_watch = none; address = source })

  -- `none` if nothing remains; the `expect` and the `unwrap` panic.
  unfoldable pub choose_deposit :
      Account → RemainderValueStrategy → Option Remainder → ℕ → Result (Option Deposit)
  unfolding deposit_for
  choose_deposit account strategy remainder_address remainder_value =
      if ltb 0 remainder_value
      then (ok_or remainder_address panic >>= λ remainder.
          ok_or (find (λ a. address_eq a.address remainder.address) account.addresses) panic
          >>= λ source.
              deposit_for account strategy source.address >>= λ deposit. ok (some deposit))
      else ok none

  module _ (to_bech32 : AddressWrapper → String) (index_valid amount_valid : ℕ → Bool) where
    -- The output and the dust entry for the remainder.
    unfoldable pub add_remainder :
        Option Deposit
        → List EssenceOutput
        → Collected
        → Result (List EssenceOutput × List DustRecord)
    add_remainder none outputs collected = ok (outputs, collected.dust_and_allowance_recorders)
    add_remainder (some deposit) outputs collected =
        essence_output to_bech32 index_valid amount_valid signature_locked_single deposit.address
          collected.remainder_value
        >>= λ output. ok (
          outputs ++ (output ∷ []),
          if ltb collected.remainder_value dust_allowance_value
              then collected.dust_and_allowance_recorders
                ++ (record {
                  amount = collected.remainder_value;
                  address = to_bech32 deposit.address;
                  created = true;
                }
                    ∷ [])
              else collected.dust_and_allowance_recorders,
        )

    -- From the inputs to the outputs of the transaction, the dust entries, and what the choice of
    -- the remainder's address leaves.
    unfoldable pub prepare :
        Account
        → Transfer
        → List AddressInputs
        → Option Remainder
        → Result (List EssenceOutput × List DustRecord × Collected × Option Deposit)
    unfolding add_remainder choose_deposit
    prepare account transfer input_addresses remainder_address = do
      collected ←
          collect to_bech32 index_valid amount_valid account.addresses transfer input_addresses
      deposit ←
          choose_deposit account transfer.remainder_value_strategy remainder_address
            collected.1.remainder_value
      outputs ← add_remainder deposit collected.0 collected.1
      ok (outputs.0, outputs.1, collected.1, deposit)
