-- ===== src/Evm/Log.antt =====
-- knight/src/evm/log.h and log.cpp.
pub mod RoundTrip
use dex_knight.Prelude.{
  ℕ, Bytes, List, [], ◌∷◌, map, Option, none, some, length, ◌==◌, if◌then◌else◌, ◌>>=◌,
}
use dex_knight.External.{External}
use dex_knight.Utils.Fields.{
  c_str, parse_hex_bytes, json_hex_bytes_of_size, json_hex_bytes, json_array,
}
use dex_knight.Utils.Hex.{hex_data}
use dex_knight.Evm.Transaction.{address_length, set_text}

-- evm::Log
pub record Log : Type 0 where
  pub address : Bytes
  pub topics : List Bytes
  pub log_data : Bytes

-- kWordSize
abbrev pub word_size : ℕ
word_size = 32

module _ (x : External) where
  open x use {Value, Object, as_object, as_string, of_string, of_array, no_fields, set_field}

  topic_from_json : Value → Option Bytes
  topic_from_json raw_topic = do
    text ← as_string raw_topic
    topic ← parse_hex_bytes x (c_str text)
    if length topic == word_size then some topic else none

  -- The loop over the raw topics: one that cannot be read refuses the log.
  topics_from_json : List Value → Option (List Bytes)
  unfolding topic_from_json
  topics_from_json [] = some []
  topics_from_json (raw_topic ∷ rest) = do
    topic ← topic_from_json raw_topic
    topics ← topics_from_json rest
    some (topic ∷ topics)

  pub log_from_json : Value → Option Log
  unfolding topics_from_json
  log_from_json value = do
    object ← as_object value
    address ← json_hex_bytes_of_size x object "address" address_length
    log_data ← json_hex_bytes x object "data"
    raw_topics ← json_array x object "topics"
    topics ← topics_from_json raw_topics
    some (record { address = address; topics = topics; log_data = log_data })

  pub log_to_json : Log → Object
  log_to_json log =
      let o = set_text x "address" (hex_data log.address) no_fields in
      let o =
        set_field o "topics" (of_array (map (λ topic. of_string (hex_data topic)) log.topics)) in
      set_text x "data" (hex_data log.log_data) o
