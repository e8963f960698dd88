-- ===== src/Sync/Missing/Keeps.antt =====
-- What has an address keeps it while others are generated (src/account/sync/mod.rs).
use wallet_rs.Prelude.{
  ℕ, zero, suc, ◌+◌, ◌≡◌, refl, sym, ◌∙◌, ap, subst, inl, inr, Bool, true, false, ◌||◌, String,
  List, [], ◌∷◌, ◌++◌, arith, ltb, if◌then◌else◌,
}
use wallet_rs.Error.{Result, ok, >>=-eq-ok, Result-cases, ok_injective}
use wallet_rs.Address.Types.{AddressWrapper, Address}
use wallet_rs.Address.Generate.{network, get_iota_address, unused_address}
use wallet_rs.Account.Types.{Account}
use wallet_rs.Sync.Missing.{has_key, pushed, push_generated, generate_missing, generate_unused}

has_key-append :
    (internal : Bool) (k : ℕ) (xs ys : List Address)
    → has_key internal k (xs ++ ys) ≡ has_key internal k xs || has_key internal k ys
has_key-append internal k [] ys = refl
has_key-append internal k (x ∷ xs) ys = ground (arith, has_key-append internal k xs ys)

module _ (derive : ℕ → Bool → Bool → Result ℕ) (account : Account) (hrp : String) where
  -- What has an address keeps it.
  push_generated-keeps :
      (internal kind : Bool) (k key_index : ℕ) (saved : List Address) {next : List Address}
      → push_generated derive account hrp key_index kind saved ≡ ok next
      → has_key internal k saved ≡ true
      → has_key internal k next ≡ true
  unfolding push_generated
  push_generated-keeps internal kind k key_index saved {next} e h =
      let (n, named, last) = >>=-eq-ok (network account) _ e in
      let same = ok_injective last in
      elim (Result-cases (get_iota_address derive key_index kind hrp true)) [
        | inr (er, f) ↦
            let same' : saved ≡ next =
              ap (λ r. pushed derive r key_index kind saved) (sym f) ∙ same in
            subst (λ l. has_key internal k l ≡ true) same' h
        | inl (address, f) ↦
            let same' : saved ++ (unused_address address key_index kind ∷ []) ≡ next =
              ap (λ r. pushed derive r key_index kind saved) (sym f) ∙ same in
            subst (λ l. has_key internal k l ≡ true) same'
              (has_key-append internal k saved (unused_address address key_index kind ∷ [])
                ∙ rw h refl)
      ]

  pub push_generated-has_key :
      (kind : Bool) (key_index : ℕ) (saved : List Address) {next : List Address}
      → ((i : ℕ) → (inner : ℕ) × (derive i kind true ≡ ok inner))
      → push_generated derive account hrp key_index kind saved ≡ ok next
      → has_key kind key_index next ≡ true
  unfolding push_generated get_iota_address
  push_generated-has_key kind key_index saved {next} works e =
      let (n, named, last) = >>=-eq-ok (network account) _ e in
      let (inner, f) = works key_index in
      let address : AddressWrapper = record { inner = inner; bech32_hrp = hrp } in
      let made : get_iota_address derive key_index kind hrp true ≡ ok address = rw f refl in
      let same' : saved ++ (unused_address address key_index kind ∷ []) ≡ next =
        ap (λ r. pushed derive r key_index kind saved) (sym made) ∙ ok_injective last in
      subst (λ l. has_key kind key_index l ≡ true) same'
        (has_key-append kind key_index saved (unused_address address key_index kind ∷ [])
          ∙ ground arith)

  pub generate_missing-cons :
      (kind : Bool) (count key_index : ℕ) (saved : List Address) {result : List Address}
      → generate_missing derive account hrp kind (suc count) key_index saved ≡ ok result
      → (next : List Address) × ((if has_key kind key_index account.addresses
              || has_key kind key_index saved
            then ok saved
            else push_generated derive account hrp key_index kind saved)
          ≡ ok next)
        × (generate_missing derive account hrp kind count (key_index + 1) next ≡ ok result)
  unfolding generate_missing
  generate_missing-cons kind count key_index saved e =
      >>=-eq-ok
        (if has_key kind key_index account.addresses || has_key kind key_index saved
          then ok saved
          else push_generated derive account hrp key_index kind saved)
        _ e

  step-keeps :
      (taken : Bool) (internal kind : Bool) (k key_index : ℕ) (saved : List Address)
      {next : List Address}
      → (if taken then ok saved else push_generated derive account hrp key_index kind saved)
        ≡ ok next
      → has_key internal k saved ≡ true
      → has_key internal k next ≡ true
  step-keeps true internal kind k key_index saved e h =
      subst (λ l. has_key internal k l ≡ true) (ok_injective e) h
  step-keeps false internal kind k key_index saved e h =
      push_generated-keeps internal kind k key_index saved e h

  pub generate_missing-keeps :
      (internal kind : Bool) (k count key_index : ℕ) (saved : List Address) {result : List Address}
      → generate_missing derive account hrp kind count key_index saved ≡ ok result
      → has_key internal k saved ≡ true
      → has_key internal k result ≡ true
  unfolding generate_missing
  generate_missing-keeps internal kind k zero key_index saved e h =
      subst (λ l. has_key internal k l ≡ true) (ok_injective e) h
  generate_missing-keeps internal kind k (suc count) key_index saved e h =
      let (next, first, more) = generate_missing-cons kind count key_index saved e in
      generate_missing-keeps internal kind k count (key_index + 1) next more (
        step-keeps (has_key kind key_index account.addresses || has_key kind key_index saved)
          internal kind k key_index saved first h)

  pub generate_unused-keeps :
      (internal kind latest_is_empty : Bool) (k latest_index max_new_index : ℕ)
      (saved : List Address) {next : List Address}
      → generate_unused derive account hrp kind latest_is_empty latest_index max_new_index saved
        ≡ ok next
      → has_key internal k saved ≡ true
      → has_key internal k next ≡ true
  unfolding generate_unused
  generate_unused-keeps internal kind latest_is_empty k latest_index max_new_index saved e h =
      step-keeps latest_is_empty internal kind k
        ((if ltb max_new_index latest_index then latest_index else max_new_index) + 1) saved e h
