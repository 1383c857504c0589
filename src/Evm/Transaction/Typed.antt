-- ===== src/Evm/Transaction/Typed.antt =====
-- What `Transaction::from_json` of knight/src/evm/transaction.cpp reads.
use dex_knight.Prelude.{ℕ, ◌<◌, ◌≤◌, ◌≡◌, arith, Option, none, some, ◌>>=◌, subst, refl, ◌^◌}
use dex_knight.External.{External}
use dex_knight.Utils.Fields.{
  json_hex_bytes_of_size, json_hex_bytes, json_hex_uint64, json_optional_hex_uint256,
  json_optional_hex_uint64, json_optional_hex_bytes,
}
use dex_knight.Utils.Fields.InRange.{
  ReadsInRange, json_hex_uint64-lt, json_hex_bytes-All, json_hex_bytes_of_size-IsSized,
  json_optional_hex_uint64-Given, json_optional_hex_uint256-Given, json_optional_hex_bytes-Given,
}
use dex_knight.Utils.Fields.Printed.{Given}
use dex_knight.Evm.Transaction.{Transaction, value_or, fits_uint8, transaction_from_json}
use dex_knight.Evm.Transaction.RoundTrip.{IsTransaction}

value_or-lt :
    (limit d : ℕ) (v : Option ℕ) → Given (λ n. n < limit) v → d < limit → value_or v d < limit
value_or-lt limit d none h lt = lt
value_or-lt limit d (some n) h lt = h

fits_uint8-le : (v : Option ℕ) (u : Unit {0}) → fits_uint8 v ≡ some u → value_or v 0 ≤ 255
fits_uint8-le none u e = omega arith
fits_uint8-le (some n) u e = ground arith

-- What holds of the result of a chain of readers, from what each of them reads.
Given-bind {ℓ κ} :
    {A : Type ℓ} {B : Type κ} (P : B → Type 0) (m : Option A) (f : A → Option B)
    → ((a : A) → m ≡ some a → Given P (f a))
    → Given P (m >>= f)
Given-bind P none f h = tt
Given-bind P (some a) f h = h a refl

Given-some {ℓ} : {A : Type ℓ} (P : A → Type 0) (m : Option A) (a : A) → Given P m → m ≡ some a → P a
Given-some P m a h e = subst (Given P) e h

module _ (x : External) (laws : ReadsInRange x) where
  transaction_from_json-Given :
      (value : x.Value) → Given IsTransaction (transaction_from_json x value)
  unfolding transaction_from_json
  transaction_from_json-Given value =
      let T = IsTransaction in
      Given-bind T (x.as_object value) _ (λ o _.
        Given-bind T (json_hex_bytes_of_size x o "from" 20) _ (λ from from_eq.
          Given-bind T (json_hex_bytes x o "input") _ (λ input input_eq.
            Given-bind T (json_hex_uint64 x o "gas") _ (λ gas gas_eq.
              Given-bind T (json_hex_uint64 x o "nonce") _ (λ nonce nonce_eq.
                Given-bind T (json_optional_hex_uint256 x o "value") _ (λ amount amount_eq.
                  Given-bind T (json_optional_hex_uint64 x o "chainId") _ (λ chain_id chain_id_eq.
                    Given-bind T (json_optional_hex_uint64 x o "type") _ (λ tx_type type_eq.
                      Given-bind T (fits_uint8 tx_type) _ (λ fits fits_eq.
                        Given-bind T (json_optional_hex_bytes x o "hash" 32) _ (λ hash hash_eq.
                          Given-bind T (json_optional_hex_bytes x o "to" 20) _ (λ to to_eq.
                            Given-bind T (json_optional_hex_uint256 x o "gasPrice") _
                              (λ price price_eq.
                                Given-bind T (json_optional_hex_uint256 x o "maxFeePerGas") _
                                  (λ fee fee_eq.
                                    Given-bind T
                                      (json_optional_hex_uint256 x o "maxPriorityFeePerGas") _
                                      (λ priority priority_eq. record {
                                        hash_sized =
                                            json_optional_hex_bytes-Given x laws o "hash" 32 hash
                                              hash_eq;
                                        input_bytes =
                                            json_hex_bytes-All x laws o "input" input input_eq;
                                        from_sized =
                                            json_hex_bytes_of_size-IsSized x laws o "from" 20 from
                                              from_eq;
                                        chain_id_fits =
                                            json_optional_hex_uint64-Given x laws o "chainId"
                                              chain_id chain_id_eq;
                                        value_fits =
                                            value_or-lt (2 ^ 256) 0 amount
                                              (json_optional_hex_uint256-Given x laws o "value"
                                                amount amount_eq)
                                              (omega arith);
                                        gas_price_fits =
                                            json_optional_hex_uint256-Given x laws o "gasPrice"
                                              price price_eq;
                                        gas_fits = json_hex_uint64-lt x laws o "gas" gas gas_eq;
                                        max_fee_fits =
                                            json_optional_hex_uint256-Given x laws o "maxFeePerGas"
                                              fee fee_eq;
                                        max_priority_fee_fits =
                                            json_optional_hex_uint256-Given x laws o
                                              "maxPriorityFeePerGas" priority priority_eq;
                                        nonce_fits =
                                            json_hex_uint64-lt x laws o "nonce" nonce nonce_eq;
                                        tx_type_fits = fits_uint8-le tx_type fits fits_eq;
                                        to_sized =
                                            json_optional_hex_bytes-Given x laws o "to" 20 to to_eq;
                                      }))))))))))))))

  -- A transaction that was read from a JSON value has numbers that fit their types, addresses of 20 bytes
  -- and a hash of 32, over libraries whose bytes and 256-bit numbers are in range.
  pub transaction_from_json-IsTransaction :
      (value : x.Value) (tx : Transaction)
      → transaction_from_json x value ≡ some tx
      → IsTransaction tx
  transaction_from_json-IsTransaction value tx e =
      Given-some IsTransaction (transaction_from_json x value) tx
        (transaction_from_json-Given value) e
