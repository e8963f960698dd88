-- ===== src/Participation/Types.antt =====
-- The binary form of participations (src/participation/types.rs). The hex codec is a parameter, and
-- a reader is the list of the bytes that are left.
pub mod RoundTrip
use wallet_rs.Prelude.{
  ℕ, zero, suc, ◌+◌, String, Option, none, some, List, [], ◌∷◌, ◌++◌, ltb, length, if◌then◌else◌,
}
use wallet_rs.Error.{Result, ok, err, ◌>>=◌, ok_or, invalid_participations, io_error}
use wallet_rs.Message.Types.{Bytes}

pub record Participation : Type 0 where
  pub event_id : String
  pub answers : Bytes

-- `len().try_into()` to `u8`.
unfoldable pub to_u8 : ℕ → Result ℕ
to_u8 n = if ltb n 256 then ok n else err invalid_participations

-- `read_exact` into a buffer of n bytes.
unfoldable pub read_exact : ℕ → Bytes → Result (Bytes × Bytes)
read_exact zero bytes = ok ([], bytes)
read_exact (suc n) [] = err io_error
read_exact (suc n) (b ∷ bytes) = read_exact n bytes >>= λ r. ok (b ∷ r.0, r.1)

-- One byte, as a buffer of length 1 gives it.
unfoldable pub read_u8 : Bytes → Result (ℕ × Bytes)
read_u8 [] = err io_error
read_u8 (b ∷ bytes) = ok (b, bytes)

-- The loop that reads one answer at a time.
unfoldable pub read_answers : ℕ → Bytes → Result (Bytes × Bytes)
read_answers zero bytes = ok ([], bytes)
read_answers (suc n) bytes = do
  (answer, rest) ← read_u8 bytes
  (answers, rest') ← read_answers n rest
  ok (answer ∷ answers, rest')

module _ (hex_decode : String → Option Bytes) (hex_encode : Bytes → String) where
  unfoldable pub participation_bytes : Participation → Result Bytes
  participation_bytes p = do
    event_id ← ok_or (hex_decode p.event_id) invalid_participations
    answers_len ← to_u8 (length p.answers)
    ok (event_id ++ (answers_len ∷ p.answers))

  -- The loop of `to_bytes`.
  unfoldable pub participations_bytes : List Participation → Result Bytes
  participations_bytes [] = ok []
  participations_bytes (p ∷ rest) = do
    bytes ← participation_bytes p
    rest_bytes ← participations_bytes rest
    ok (bytes ++ rest_bytes)

  unfoldable pub to_bytes : List Participation → Result Bytes
  to_bytes participations = do
    participations_len ← to_u8 (length participations)
    bytes ← participations_bytes participations
    ok (participations_len ∷ bytes)

  unfoldable pub read_participation : Bytes → Result (Participation × Bytes)
  read_participation bytes = do
    (event_id, rest) ← read_exact 32 bytes
    (answers_len, rest') ← read_u8 rest
    (answers, rest'') ← read_answers answers_len rest'
    ok (record { event_id = hex_encode event_id; answers = answers }, rest'')

  -- The loop of `from_bytes`.
  unfoldable pub read_participations : ℕ → Bytes → Result (List Participation × Bytes)
  read_participations zero bytes = ok ([], bytes)
  read_participations (suc n) bytes = do
    (p, rest) ← read_participation bytes
    (participations, rest') ← read_participations n rest
    ok (p ∷ participations, rest')

  unfoldable pub from_bytes : Bytes → Result (List Participation × Bytes)
  from_bytes bytes = do
    (participations_len, rest) ← read_u8 bytes
    read_participations participations_len rest
