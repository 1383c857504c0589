-- ===== src/Backrun/Encoder/Layout.antt =====
-- The layout of the calldata: the selector, then six words of 32 bytes.
use dex_knight.Prelude.{
  ℕ, ◌≡◌, ◌≢◌, ◌⊎◌, inl, inr, arith, Bytes, ◌++◌, append_assoc, length-append, none, some, length,
  replicate,
}
use dex_knight.External.{External}
use dex_knight.Evm.Contracts.{ExecuteBackrun, execute_backrun_selector}
use dex_knight.Evm.Log.{word_size}
use dex_knight.Evm.Transaction.{address_length}
use dex_knight.Backrun.Encoder.{append_uint256_word, append_address_word, encode_execute_backrun}

decide_eq : (m n : ℕ) → (m ≡ n) ⊎ (m ≢ n)
decide_eq m n = ground arith

-- The ABI word of an address.
abbrev pub address_word : Bytes → Bytes
address_word address = replicate 12 0 ++ address

-- The ABI encoding of the call.
abbrev pub abi_encoding : External → ExecuteBackrun → Bytes
abi_encoding x call =
    execute_backrun_selector
    ++ address_word call.buy_pool
    ++ address_word call.sell_pool
    ++ x.uint256_store call.amount_in_b
    ++ x.uint256_store call.min_amount_out_a
    ++ x.uint256_store call.min_amount_out_b
    ++ x.uint256_store call.min_profit_b

-- For pools with addresses of 20 bytes, the calldata is the selector of `executeBackrun`, the two
-- addresses padded on the left, and the four amounts in the order of the contract's parameters.
pub encode_execute_backrun-abi_encoding :
    (x : External) (call : ExecuteBackrun)
    → length call.buy_pool ≡ address_length
    → length call.sell_pool ≡ address_length
    → encode_execute_backrun x call ≡ some (abi_encoding x call)
unfolding encode_execute_backrun append_address_word append_uint256_word
encode_execute_backrun-abi_encoding x call e f = rw e (rw f (simp append_assoc))

-- A pool whose address has another length refuses the call.
pub encode_execute_backrun_refuses :
    (x : External) (call : ExecuteBackrun)
    → (length call.buy_pool ≢ address_length) ⊎ (length call.sell_pool ≢ address_length)
    → encode_execute_backrun x call ≡ none
unfolding encode_execute_backrun append_address_word
encode_execute_backrun_refuses x call h = ground arith

length-abi_encoding :
    (x : External) (call : ExecuteBackrun)
    → ((n : ℕ) → length (x.uint256_store n) ≡ word_size)
    → length call.buy_pool ≡ address_length
    → length call.sell_pool ≡ address_length
    → length (abi_encoding x call) ≡ 196
length-abi_encoding x call w e f = grind (arith, length-append)

-- Where a stored number has 32 bytes, any calldata has 4 + 6 · 32 bytes.
pub length-encode_execute_backrun :
    (x : External) (call : ExecuteBackrun) (calldata : Bytes)
    → ((n : ℕ) → length (x.uint256_store n) ≡ word_size)
    → encode_execute_backrun x call ≡ some calldata
    → length calldata ≡ 196
length-encode_execute_backrun x call calldata w h =
    elim (decide_eq (length call.buy_pool) address_length) [
      | inr e ↦ let refused = encode_execute_backrun_refuses x call (inl e) in cc
      | inl e ↦ elim (decide_eq (length call.sell_pool) address_length) [
        | inr f ↦ let refused = encode_execute_backrun_refuses x call (inr f) in cc
        | inl f ↦
            let encoded = encode_execute_backrun-abi_encoding x call e f in
            let size = length-abi_encoding x call w e f in ground arith
      ]
    ]
