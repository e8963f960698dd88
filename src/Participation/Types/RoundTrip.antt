-- ===== src/Participation/Types/RoundTrip.antt =====
-- `to_bytes` and `from_bytes` (src/participation/types.rs) one after the other.
use mathlib.Core.List.{append_assoc}
use wallet_rs.Prelude.{
  ℕ, zero, suc, ◌≡◌, refl, inl, inr, String, Option, some, List, [], ◌∷◌, ◌++◌, arith, length, All,
}
use wallet_rs.Error.{ok, ◌>>=◌, >>=-eq-ok, Result-cases}
use wallet_rs.Message.Types.{Bytes}
use wallet_rs.Participation.Types.{
  Participation, to_u8, read_exact, read_u8, read_answers, participation_bytes,
  participations_bytes, to_bytes, read_participation, read_participations, from_bytes,
}

read_exact-append :
    (n : ℕ) (xs rest : Bytes) → length xs ≡ n → read_exact n (xs ++ rest) ≡ ok (xs, rest)
unfolding read_exact
read_exact-append zero [] rest h = refl
read_exact-append zero (x ∷ xs) rest h = absurd (omega arith)
read_exact-append (suc n) [] rest h = absurd (omega arith)
read_exact-append (suc n) (x ∷ xs) rest h = rw (read_exact-append n xs rest (omega arith))

read_answers-append : (xs rest : Bytes) → read_answers (length xs) (xs ++ rest) ≡ ok (xs, rest)
unfolding read_answers read_u8
read_answers-append [] rest = refl
read_answers-append (x ∷ xs) rest = rw (read_answers-append xs rest)

to_u8-ok : (n m : ℕ) → to_u8 n ≡ ok m → m ≡ n
unfolding to_u8
to_u8-ok n m h = ground arith

module _ (hex_decode : String → Option Bytes) (hex_encode : Bytes → String) where
  -- The event id is the hex form of 32 bytes, as `hex_encode` writes it.
  abbrev pub HasEventId : Participation → Type 0
  HasEventId p =
      (id : Bytes) × (hex_decode p.event_id ≡ some id)
      × (hex_encode id ≡ p.event_id)
      × (length id ≡ 32)

  read_participation-append :
      (id answers rest : Bytes)
      → length id ≡ 32
      → read_participation hex_decode hex_encode (id ++ (length answers ∷ (answers ++ rest)))
        ≡ ok (record { event_id = hex_encode id; answers = answers }, rest)
  unfolding read_participation read_u8
  read_participation-append id answers rest size = rw (
    read_exact-append 32 id (length answers ∷ (answers ++ rest)) size,
    read_answers-append answers rest,
  )

  -- What is written for a participation.
  participation_bytes-eq :
      (p : Participation) (id bytes : Bytes)
      → hex_decode p.event_id ≡ some id
      → participation_bytes hex_decode hex_encode p ≡ ok bytes
      → bytes ≡ id ++ (length p.answers ∷ p.answers)
  unfolding participation_bytes
  participation_bytes-eq p id bytes decoded h = elim (Result-cases (to_u8 (length p.answers))) [
    | inl (n, e) ↦
        let same : n ≡ length p.answers = to_u8-ok (length p.answers) n e in
        let h' = rw (decoded, e, participation_bytes) at h in rw (← same) (cc)
    | inr (er, e) ↦ let h' = rw (decoded, e, participation_bytes) at h in absurd (cc)
  ]

  read-participation_bytes :
      (p : Participation) (bytes rest : Bytes)
      → HasEventId p
      → participation_bytes hex_decode hex_encode p ≡ ok bytes
      → read_participation hex_decode hex_encode (bytes ++ rest) ≡ ok (p, rest)
  read-participation_bytes p bytes rest (id, decoded, encoded, size) h =
      rw (participation_bytes-eq p id bytes decoded h, append_assoc)
        (rw (read_participation-append id p.answers rest size, encoded))

  read-participations_bytes :
      (ps : List Participation) (bytes rest : Bytes)
      → All HasEventId ps
      → participations_bytes hex_decode hex_encode ps ≡ ok bytes
      → read_participations hex_decode hex_encode (length ps) (bytes ++ rest) ≡ ok (ps, rest)
  unfolding participations_bytes read_participations
  read-participations_bytes [] bytes rest ids h = let e : bytes ≡ [] = cc in rw e
  read-participations_bytes (p ∷ ps) bytes rest ids h =
      let (b, first, h') =
        >>=-eq-ok (participation_bytes hex_decode hex_encode p)
          (λ b. participations_bytes hex_decode hex_encode ps >>= λ r. ok (b ++ r)) h in
      let (r, others, h'') =
        >>=-eq-ok (participations_bytes hex_decode hex_encode ps) (λ r. ok (b ++ r)) h' in
      let e : bytes ≡ b ++ r = cc in
      rw (e, append_assoc)
        (rw (
          read-participation_bytes p b (r ++ rest) ids.0 first,
          read-participations_bytes ps r rest ids.1 others,
        ))

  -- What `to_bytes` writes, `from_bytes` reads back, whatever bytes follow, when each event id is
  -- the hex form of 32 bytes.
  pub from_bytes-to_bytes :
      (ps : List Participation) (bytes rest : Bytes)
      → All HasEventId ps
      → to_bytes hex_decode hex_encode ps ≡ ok bytes
      → from_bytes hex_decode hex_encode (bytes ++ rest) ≡ ok (ps, rest)
  unfolding to_bytes from_bytes read_u8
  from_bytes-to_bytes ps bytes rest ids h =
      let (n, size, h') =
        >>=-eq-ok (to_u8 (length ps))
          (λ n. participations_bytes hex_decode hex_encode ps >>= λ b. ok (n ∷ b)) h in
      let (b, body, h'') =
        >>=-eq-ok (participations_bytes hex_decode hex_encode ps) (λ b. ok (n ∷ b)) h' in
      let same : n ≡ length ps = to_u8-ok (length ps) n size in
      let e : bytes ≡ length ps ∷ b = cc in rw e (read-participations_bytes ps b rest ids body)
