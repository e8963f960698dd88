-- ===== src/Tests/Node.antt =====
-- A node with one output, and an account that is synchronised with it.
use text.Mathlib.Text.{◌==◌ as str_eq}
use wallet_rs.Prelude.{
  ℕ, ◌≡◌, refl, sym, ap, ◌∙◌, inl, inr, true, false, Option, some, String, List, [], ◌∷◌,
  Bool-cases, if◌then◌else◌, All, ◌==◌,
}
use wallet_rs.Error.{ok, err, client_error, ok_injective}
use wallet_rs.Address.Types.{
  OutputKind, output_id_eq_iff, AddressWrapper, AddressOutput, OutputId, output_id_eq, id_of,
}
use wallet_rs.Address.Outputs.{id}
use wallet_rs.Address.Builder.{
  OutputResponse, OutputDto, from_output_response, response_parts, decode_32, insert_output,
}
use wallet_rs.Sync.Node.{
  answered, failed, response_error, or_fail, Node, SyncedMessage, sync_address, mark_missing,
  is_requested, fetch, receive, new_message, get_message,
}
use wallet_rs.Sync.Node.Outputs.{SpentUnless, AnswersAsked, sync_address-unlisted}
use wallet_rs.Tests.Wallet.{wrapper, output}

abbrev pub listed_id : OutputId
listed_id = record { transaction_id = 0; index = 1 }

abbrev pub text_of : AddressWrapper → String
text_of a = if a.inner == 1 then "one" else "other"

-- 32 zero bytes, whatever the text.
abbrev pub zeros : List ℕ
zeros =
    0 ∷ 0 ∷ 0 ∷ 0 ∷ 0 ∷ 0 ∷ 0 ∷ 0 ∷ 0 ∷ 0 ∷ 0 ∷ 0 ∷ 0 ∷ 0 ∷ 0 ∷ 0 ∷ 0 ∷ 0 ∷ 0 ∷ 0 ∷ 0 ∷ 0 ∷ 0 ∷ 0
    ∷ 0 ∷ 0 ∷ 0 ∷ 0 ∷ 0 ∷ 0 ∷ 0 ∷ 0 ∷ []

abbrev pub decode_hex : String → Option (List ℕ)
decode_hex text = some zeros

abbrev pub response : OutputResponse
response = record {
  message_id = "m";
  transaction_id = "t";
  output_index = 1;
  is_spent = false;
  output = OutputDto.signature_locked_single "a" 1_500_000;
}

abbrev pub node : Node ℕ
node = record {
  outputs = λ address spent. answered (if str_eq address "one" then listed_id ∷ [] else []);
  output = λ i. if output_id_eq i listed_id then answered response else failed (response_error 404);
  message = λ message_id. answered 42;
}

abbrev served : String → AddressOutput
served hrp = record {
  transaction_id = 0;
  message_id = 0;
  index = 1;
  amount = 1_500_000;
  is_spent = false;
  address = record { inner = 0; bech32_hrp = hrp };
  kind = OutputKind.signature_locked_single;
}

served_by : (hrp : String) → from_output_response decode_hex response hrp ≡ ok (served hrp)
unfolding from_output_response response_parts decode_32
served_by hrp = refl

answers_asked : AnswersAsked node decode_hex (λ n. true)
answers_asked i r hrp o asked made = elim (Bool-cases (output_id_eq i listed_id)) [
  | inl e ↦
      let answer : or_fail (node.output i) ≡ ok response = rw e refl in
      let same : r ≡ response = ok_injective (sym asked ∙ answer) in
      let o_is : o ≡ served hrp =
        ok_injective
          (sym made ∙ ap (λ x. from_output_response decode_hex x hrp) same ∙ served_by hrp) in
      ap id_of o_is ∙ sym ((output_id_eq_iff i listed_id).0 e)
  | inr e ↦ let answer : or_fail (node.output i) ≡ err client_error = rw e refl in absurd (cc)
]

-- The account knows an output that the node does not list.
abbrev before : List (OutputId × AddressOutput)
before = (id_of (output 1 0 2_000_000), output 1 0 2_000_000) ∷ []

abbrev after : List (OutputId × AddressOutput) × List (SyncedMessage ℕ)
after = elim (sync_address node decode_hex (λ n. true) text_of [] before (wrapper 1) "atoi" false) [
  | ok r ↦ r
  | err e ↦ ([], [])
]

synced :
    sync_address node decode_hex (λ n. true) text_of [] before (wrapper 1) "atoi" false ≡ ok after
unfolding sync_address mark_missing is_requested fetch receive new_message get_message
    from_output_response response_parts decode_32 insert_output output_id_eq id
synced = refl

sync_address-unlisted_example : All (SpentUnless (listed_id ∷ [])) after.0
sync_address-unlisted_example =
    sync_address-unlisted node decode_hex (λ n. true) text_of [] before (wrapper 1) "atoi" false
      (listed_id ∷ []) answers_asked refl synced
