-- ===== src/Chains/Coins/OpReturn.antt =====
-- The OP_RETURN script: its round trip, its length, and the size that the fee estimate counts.
use cryptoswap_wallet.Common.{
  ◌+◌, ◌≤◌, ◌<◌, Bytes, List, [], ◌∷◌, length, take, ◌≡◌, refl, ap, arith, ltb, Bool-cases, inl,
  inr, false,
}
use cryptoswap_wallet.Result.{ok, err, ◌>>=◌, value_error}
use cryptoswap_wallet.Chains.Coins.{
  encode_op_return, decode_op_return, op_return_vb, op_return_max_bytes, op_pushdata1,
}

take_all : {A : Type 0} (xs : List A) → take (length xs) xs ≡ xs
take_all [] = refl
take_all (x ∷ xs) = ap (λ l. x ∷ l) (take_all xs)

take_data : (d : Bytes) → length d < 76 → decode_op_return (0x6A ∷ length d ∷ d) ≡ ok d
unfolding decode_op_return
take_data [] h = refl
take_data (c ∷ d) h = ground (arith, take_all (c ∷ d))

encodable : (d : Bytes) → length d ≤ 80 → ltb op_return_max_bytes (length d) ≡ false
encodable d h = ground arith

-- Data of at most 80 bytes is encoded, and decodes to itself.
pub decode-encode_op_return :
    (d : Bytes) → length d ≤ 80 → (encode_op_return d >>= decode_op_return) ≡ ok d
unfolding encode_op_return decode_op_return
decode-encode_op_return d h = elim (Bool-cases (ltb (length d) op_pushdata1)) [
  | inl short ↦ rw (encodable d h, short) (take_data d (ground arith))
  | inr long ↦ rw (encodable d h, long, decode_op_return, take_all d) refl
]

-- Data of more than 80 bytes is refused.
pub encode_op_return-fails : (d : Bytes) → 80 < length d → encode_op_return d ≡ err value_error
unfolding encode_op_return
encode_op_return-fails d h = ground arith

-- The fee estimate counts the whole output, 8 bytes of value and 1 of length before the script, for
-- data of up to 75 bytes. For 76 to 80 bytes the script has one more byte than it counts.
pub op_return_vb-encode :
    (d s : Bytes)
    → encode_op_return d ≡ ok s
    → ((length d < 76 → op_return_vb (length d) ≡ 9 + length s)
        × (76 ≤ length d → op_return_vb (length d) + 1 ≡ 9 + length s))
unfolding encode_op_return op_return_vb
op_return_vb-encode d s h = ground arith
