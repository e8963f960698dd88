-- ===== src/Storage/Store.antt =====
-- A storage (src/storage/mod.rs): an adapter, and a key if the records are encrypted. The adapter
-- and the cipher are interfaces: what the wallet relies on of them is in the two records of laws.
pub mod Laws
use text.Mathlib.Text.{◌==◌ as str_eq}
use wallet_rs.Prelude.{
  ◌≡◌, Bool, true, false, String, Option, none, some, List, [], ◌∷◌, find, if◌then◌else◌,
}
use wallet_rs.Error.{Result, ok, err, ◌>>=◌}

-- `StorageAdapter`, on a state `S`.
pub record StorageAdapter (S : Type 0) : Type 0 where
  pub get : String → S → Result String
  pub set : String → String → S → Result S
  pub batch_set : List (String × String) → S → Result S
  pub remove : String → S → Result S

-- `encrypt_record` and `decrypt_record` under a key of type `K`, and the test whether a record is
-- the JSON form of bytes.
pub record Cipher (K : Type 0) : Type 0 where
  pub encrypt : K → String → Result String
  pub decrypt : K → String → Result String
  pub is_bytes : String → Bool

-- The record under a key in a list of records; the first one counts.
abbrev pub record_at : String → List (String × String) → Option String
record_at key [] = none
record_at key ((k, v) ∷ rest) = if str_eq k key then some v else record_at key rest

-- What a read after a write gives.
pub record IsAdapter {S : Type 0} (a : StorageAdapter S) : Type 0 where
  pub get-set :
      (key other v : String) (s s' : S)
      → a.set key v s ≡ ok s'
      → a.get other s' ≡ (if str_eq key other then ok v else a.get other s)
  pub get-batch_set :
      (records : List (String × String)) (other : String) (s s' : S)
      → a.batch_set records s ≡ ok s'
      → a.get other s' ≡ (elim (record_at other records) [ none ↦ a.get other s | some v ↦ ok v ])

-- What is encrypted is decrypted by the same key, and is known as such.
pub record IsCipher {K : Type 0} (c : Cipher K) : Type 0 where
  pub decrypt-encrypt :
      (k : K) (v e : String) → c.encrypt k v ≡ ok e → (c.decrypt k e ≡ ok v) × (c.is_bytes e ≡ true)

pub record Store (S K : Type 0) : Type 0 where
  pub inner : S
  pub encryption_key : Option K

module _ {S K : Type 0} (adapter : StorageAdapter S) (cipher : Cipher K) where
  -- A record that is not the JSON form of bytes was written before the key was set.
  unfoldable pub decode : Option K → String → Result String
  decode none v = ok v
  decode (some k) v = if cipher.is_bytes v then cipher.decrypt k v else ok v

  unfoldable pub encode : Option K → String → Result String
  encode none v = ok v
  encode (some k) v = cipher.encrypt k v

  unfoldable pub store_get : String → Store S K → Result String
  unfolding decode
  store_get key s = adapter.get key s.inner >>= λ v. decode s.encryption_key v

  unfoldable pub store_set : String → String → Store S K → Result (Store S K)
  unfolding encode
  store_set key v s = do
    e ← encode s.encryption_key v
    inner ← adapter.set key e s.inner
    ok (record s { inner = inner })

  unfoldable pub encode_all : Option K → List (String × String) → Result (List (String × String))
  unfolding encode
  encode_all k [] = ok []
  encode_all k ((key, v) ∷ rest) = do
    e ← encode k v
    later ← encode_all k rest
    ok ((key, e) ∷ later)

  unfoldable pub store_batch_set : List (String × String) → Store S K → Result (Store S K)
  unfolding encode_all
  store_batch_set records s = do
    encoded ← encode_all s.encryption_key records
    inner ← adapter.batch_set encoded s.inner
    ok (record s { inner = inner })

  unfoldable pub store_remove : String → Store S K → Result (Store S K)
  store_remove key s = do inner ← adapter.remove key s.inner; ok (record s { inner = inner })
