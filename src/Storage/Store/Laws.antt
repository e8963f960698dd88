-- ===== src/Storage/Store/Laws.antt =====
-- A store as a map: what a read finds after a batch was written.
use text.Mathlib.Text.{◌==◌ as str_eq}
use wallet_rs.Prelude.{
  ◌≡◌, refl, sym, ◌∙◌, ap, inl, inr, true, String, Option, none, some, List, [], ◌∷◌, arith,
  Bool-cases,
}
use wallet_rs.Error.{ok, >>=-eq-ok}
use wallet_rs.Storage.Store.{
  StorageAdapter, Cipher, IsAdapter, IsCipher, record_at, Store, decode, encode, encode_all,
  store_get, store_batch_set,
}

module _ {S K : Type 0} (adapter : StorageAdapter S) (cipher : Cipher K) where
  pub decode-encode :
      IsCipher cipher
      → (key : Option K) (v e : String) → encode adapter cipher key v ≡ ok e
      → decode adapter cipher key e ≡ ok v
  unfolding decode encode
  decode-encode law none v e h = sym h
  decode-encode law (some k) v e h =
      let r = law.decrypt-encrypt k v e h in
      let known : cipher.is_bytes e ≡ true = r.1 in rw known (r.0)

  record_at-encode_all :
      (k : Option K) (records : List (String × String)) {encoded : List (String × String)}
      (key : String) {v : String}
      → encode_all adapter cipher k records ≡ ok encoded
      → record_at key records ≡ some v
      → (e : String) × (record_at key encoded ≡ some e) × (encode adapter cipher k v ≡ ok e)
  unfolding encode_all
  record_at-encode_all k [] key h found = absurd (cc)
  record_at-encode_all k ((k0, v0) ∷ rest) {encoded} key {v} h found =
      let (e0, first, more) = >>=-eq-ok (encode adapter cipher k v0) _ h in
      let (later, others, last) = >>=-eq-ok (encode_all adapter cipher k rest) _ more in
      let form : encoded ≡ (k0, e0) ∷ later = cc in
      elim (Bool-cases (str_eq k0 key)) [
        | inl here ↦
            let value : v0 ≡ v = ground (arith) in
            (e0, rw (form, here) refl, ap (encode adapter cipher k) (sym value) ∙ first)
        | inr there ↦
            let below : record_at key rest ≡ some v = ground (arith) in
            let (e, at, enc) = record_at-encode_all k rest key others below in
            (e, rw (form, there) at, enc)
      ]

  pub store_get-store_batch_set :
      IsAdapter adapter
      → IsCipher cipher
      → (records : List (String × String)) (s s' : Store S K) (key v : String)
      → store_batch_set adapter cipher records s ≡ ok s'
      → record_at key records ≡ some v
      → store_get adapter cipher key s' ≡ ok v
  unfolding store_batch_set store_get
  store_get-store_batch_set law claw records s s' key v h found =
      let (encoded, first, more) =
        >>=-eq-ok (encode_all adapter cipher s.encryption_key records) _ h in
      let (inner, written, last) = >>=-eq-ok (adapter.batch_set encoded s.inner) _ more in
      let (e, at, enc) = record_at-encode_all s.encryption_key records key first found in
      let final : s' ≡ record s { inner = inner } = cc in
      let read : adapter.get key inner ≡ ok e =
        law.get-batch_set encoded key s.inner inner written ∙ rw at refl in
      let plain : decode adapter cipher s.encryption_key e ≡ ok v =
        decode-encode claw s.encryption_key v e enc in
      rw final (rw read plain)
