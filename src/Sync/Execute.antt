-- ===== src/Sync/Execute.antt =====
-- `AccountSynchronizer` (src/account/sync/mod.rs): its settings, and the events of a
-- synchronisation. The text form of an address is a parameter.
pub mod Changes
use text.Mathlib.Text.{◌==◌ as str_eq}
use wallet_rs.Prelude.{
  ℕ, Bool, true, false, not, ◌&&◌, String, Option, none, some, List, [], ◌∷◌, ◌++◌, any, filter,
  map, ◌==◌, bool_eq, if◌then◌else◌,
}
use wallet_rs.Error.{Result, ok, err, ◌>>=◌}
use wallet_rs.Address.Types.{AddressWrapper, AddressOutput, Address, OutputId}
use wallet_rs.Address.Outputs.{balance}
use wallet_rs.Message.Types.{Message}
use wallet_rs.Account.Types.{Account}
use wallet_rs.Account.Addresses.{latest_address}
use wallet_rs.Sync.Node.{Known, is_true}
use wallet_rs.Sync.Remainder.{is_ledger}
use wallet_rs.Sync.Events.{BalanceChangeEventData, get_balance_change_events}
use wallet_rs.Sync.Perform.{AccountSynchronizeStep, sync_addresses, sync_messages}

abbrev pub default_gap_limit : ℕ
default_gap_limit = 10

abbrev pub default_ledger_gap_limit : ℕ
default_ledger_gap_limit = 10

pub record AccountSynchronizer : Type 0 where
  pub address_index : ℕ
  pub gap_limit : ℕ
  pub skip_persistence : Bool
  pub skip_change_addresses : Bool
  pub steps : List AccountSynchronizeStep

-- `AccountSynchronizer::new`
unfoldable pub new_synchronizer : Account → Result AccountSynchronizer
unfolding latest_address
new_synchronizer account = do
  latest ← latest_address account
  let default =
      if is_ledger account.signer_type then default_ledger_gap_limit else default_gap_limit
  ok (record {
    address_index = 0;
    gap_limit = if latest.key_index == 0 then default else 1;
    skip_persistence = false;
    skip_change_addresses = false;
    steps = sync_addresses none ∷ sync_messages ∷ [];
  })

-- The equality of two confirmation states.
abbrev pub confirmed_eq : Option Bool → Option Bool → Bool
confirmed_eq none none = true
confirmed_eq (some a) (some b) = bool_eq a b
confirmed_eq _ _ = false

-- The messages that were not known before the synchronisation.
abbrev pub is_new : Known → Message → Bool
is_new known m = not (any (λ k. k.0 == m.id) known)

-- Those that were known with another confirmation state.
abbrev pub is_changed : Known → Message → Bool
is_changed known m = any (λ k. k.0 == m.id && not (confirmed_eq k.1 m.confirmed)) known

unfoldable pub new_transactions : Known → List Message → List Message
new_transactions known parsed = filter (is_new known) parsed

unfoldable pub confirmation_changed : Known → List Message → List Message
confirmation_changed known parsed = filter (is_changed known) parsed

pub record ConfirmationChangeEventData : Type 0 where
  pub message : Message
  pub confirmed : Bool

pub record SyncedAccountEvents : Type 0 where
  pub balance_change_events : List BalanceChangeEventData
  pub new_transaction_events : List Message
  pub confirmation_change_events : List ConfirmationChangeEventData

-- The text, the balance and the outputs of an address before the synchronisation.
abbrev pub Before : Type 0
Before = String × ℕ × List (OutputId × AddressOutput)

abbrev pub before_of : (AddressWrapper → String) → Address → Before
before_of to_bech32 a = (to_bech32 a.address, balance a, a.outputs)

-- An address that was not there had nothing.
unfoldable pub balance_before :
    (AddressWrapper → String) → List Before → Address → ℕ × List (OutputId × AddressOutput)
balance_before to_bech32 [] a = (0, [])
balance_before to_bech32 (b ∷ rest) a =
    let later = balance_before to_bech32 rest a in
    if str_eq (to_bech32 a.address) b.0 then (b.1, b.2) else later

unfoldable pub balance_events :
    (AddressWrapper → String) → Bool → List Before → List Address → List BalanceChangeEventData
unfolding balance_before get_balance_change_events
balance_events to_bech32 sync_spent_outputs before [] = []
balance_events to_bech32 sync_spent_outputs before (a ∷ rest) =
    let old = balance_before to_bech32 before a in
    let later = balance_events to_bech32 sync_spent_outputs before rest in
    let own =
      get_balance_change_events old.0 (balance a) a.address sync_spent_outputs old.1 a.outputs in
    if balance a == old.0 then later else own ++ later

unfoldable pub get_events :
    (AddressWrapper → String)
    → Bool
    → List Before
    → List Address
    → List Message
    → List Message
    → SyncedAccountEvents
unfolding balance_events
get_events to_bech32 sync_spent_outputs before addresses new_messages changed_messages = record {
  balance_change_events = balance_events to_bech32 sync_spent_outputs before addresses;
  new_transaction_events = new_messages;
  confirmation_change_events =
      map (λ m. record { message = m; confirmed = is_true m.confirmed }) changed_messages;
}
