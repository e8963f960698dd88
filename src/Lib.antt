-- ===== src/Lib.antt =====
-- The wallet library: how outputs are selected, locked, paid and synchronised.
--
-- A wallet keeps accounts, an account keeps addresses, and an address keeps the outputs that were
-- found on it. A transfer takes the outputs that are available, selects inputs that reach its
-- amount without leaving dust, locks them, chooses where the remainder goes, checks the dust on
-- every address concerned, and releases the locks at the end. A synchronisation merges addresses
-- and outputs that the node reports into the account and tells how the balances changed.
--
-- The parts, and the files that model them:
--   Error: src/error.rs. Fallible code returns a Result; `panic` stands for an abort as well.
--   Address: src/address.rs. Types has the data; Outputs has `is_used`, `available_outputs`,
--     `balance` and `available_balance`, on the entries of the map of outputs; Builder has
--     `AddressBuilder`, `from_output_response` and `set_bech32_hrp`; Generate has the generation of
--     addresses.
--   Message: src/message.rs. Types has messages and transactions as they are stored; Transfer has
--     `Transfer` and its builder; Essence has the remainder flags and the values of
--     `TransactionRegularEssence::new`.
--   InputSelection: src/account/sync/input_selection.rs. Search is `branch_and_bound`, which
--     returns what it changes; Draw is `single_draw`; Select is `select_input`.
--   Account: src/account/mod.rs. Addresses has the latest addresses, the next key index,
--     `append_addresses` and the spent and unspent addresses; Balance has `balance_internal`.
--   Sync: src/account/sync/mod.rs. Locks has `locked_outputs` and the release in `transfer`;
--     SelectInputs is `select_inputs`, with the locks passed through; Start is `transfer` up to its
--     inputs; Collect and Remainder are
--     `perform_transfer` up to the essence; Dust is `is_dust_allowed`; Events is
--     `get_balance_change_events`; Discovery is `find_addresses_to_save`; Consolidation is
--     `get_output_consolidation_transfers`. Node is `sync_address`; Gap is
--     `check_for_new_used_addresses`; Refresh is `sync_addresses_and_messages`; Missing has the
--     addresses that `perform_sync` generates, and Perform is `perform_sync` as a whole;
--     Execute has the settings of `AccountSynchronizer` and the events of a synchronisation.
--   Storage: src/storage/mod.rs. Store is `Storage`, with or without encryption; Messages is
--     `save_messages`, `query_message_indexation`, `get_message` and `get_messages`; Accounts
--     has `get_accounts`, `save_account`, `remove_account` and the participations; Events is
--     `event_manager_impl`, for events of any type; Types has the entries of the indexes.
--   Manager: src/account_manager.rs and `AccountInitialiser` of src/account/mod.rs. Accounts has
--     `get_account`, `get_accounts` and `remove_account`; Initialise is `initialise`; Discovery is
--     `discover_accounts`.
--   Participation: src/participation/types.rs, the binary form of participations.
--   Prelude: what these share: tests, lists, 64-bit sums, bags and integers.
--   Tests: runs on small inputs, and the theorems applied to them.
--
-- How the program is modelled. A `u64` is a number, and sums wrap around at 2^64 as they do in a
-- release build; theorems on sums say that the amounts fit. An `i64` is an integer from -2^63 to
-- below 2^63; its sums and the casts to it wrap around too. A `usize` is a number without a bound.
-- A hash map is the list of its entries, in the order in which it is walked. Shared state (the
-- locked outputs, the tries of the search) is passed and returned. The features ledger-nano,
-- ledger-nano-simulator and participation are taken to be on.
--
-- Parameters stand for code outside the repository: the two random orders of `select_input`, the
-- limit INPUT_OUTPUT_COUNT_MAX, the output indexes and the amounts that the message library
-- accepts, the bech32 form of an address, the hex codec, the signer's derivation of an address, and
-- the node's answers. The order that `sort_unstable_by_key` leaves open is that of the argument.
--
-- The node is a record of functions, so that it answers the same request in the same way during a
-- call; the tasks of a synchronisation do not depend on each other, and their results are taken in
-- the order of the code. The account does not change during a synchronisation. JSON is a pair of
-- functions, and a storage adapter and a cipher are records of operations with the laws that the
-- wallet relies on: a read returns what was written, and decryption inverts encryption.
--
-- Two loops are on fuel. That of `check_for_new_used_addresses` takes one unit a turn, and ends at a
-- gap of addresses that are not used; Sync/Gap/Termination.antt has the fuel that is enough. That of
-- `discover_accounts` takes one unit an account index, and ends at an empty account that the
-- threshold admits; Manager/Discovery/Termination.antt has the fuel that is enough.
--
-- Every other loop is a recursion on a list. The search of `branch_and_bound` is bounded by the list and
-- by its tries, which the program sets to 10,000,000: enough for 23 outputs in the worst case.
--
-- Not modelled: serialisation, signing, proof of work, events and logging, which are calls of other
-- libraries; of the account manager the polling, backup, restore and passwords; errors of writing
-- an account to the storage; the migration, the actor and the bindings in bindings/, which are built
-- around these parts.
pub mod Prelude
pub mod Error
pub mod Address
pub mod Message
pub mod InputSelection
pub mod Account
pub mod Sync
pub mod Participation
pub mod Storage
pub mod Manager
pub mod Tests
