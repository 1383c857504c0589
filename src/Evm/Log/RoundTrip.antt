-- ===== src/Evm/Log/RoundTrip.antt =====
-- A log that is printed and read again.
use dex_knight.Prelude.{◌<◌, ◌≡◌, refl, Bytes, List, [], ◌∷◌, map, some, All, same_bytes}
use dex_knight.External.{External}
use dex_knight.Utils.Fields.Printed.{
  PrintsBack, IsSized, bytes_read, sized_bytes_read, c_str-hex_data, parse_hex_bytes-hex_data, same,
}
use dex_knight.Utils.Hex.{hex_data}
use dex_knight.Evm.Transaction.Fields.{
  KeepsFields, Fields, Holds, Holds-set_text, Holds-set_field, array_read,
}
use dex_knight.Evm.Log.{Log, topic_from_json, topics_from_json, log_from_json, log_to_json}

-- An address of 20 bytes, topics of a word each, and bytes below 256.
pub record IsLog (log : Log) : Type 0 where
  pub address_sized : IsSized 20 log.address
  pub topics_sized : All (IsSized 32) log.topics
  pub data_bytes : All (λ a. a < 256) log.log_data

module _ (x : External) (laws : PrintsBack x) where
  topic_read :
      (topic : Bytes)
      → IsSized 32 topic
      → topic_from_json x (x.of_string (hex_data topic)) ≡ some topic
  unfolding topic_from_json
  topic_read topic (fits, e) = rw (laws.text_kept (hex_data topic)) (
      rw (c_str-hex_data topic)
        (rw (parse_hex_bytes-hex_data x laws topic fits) (rw (same e) refl)))

  topics_read :
      (topics : List Bytes)
      → All (IsSized 32) topics
      → topics_from_json x (map (λ topic. x.of_string (hex_data topic)) topics) ≡ some topics
  unfolding topics_from_json
  topics_read [] h = refl
  topics_read (topic ∷ topics) (t, h) = rw (topic_read topic t) (rw (topics_read topics h) refl)

module _ (x : External) (laws : PrintsBack x) (fields : KeepsFields x) (log : Log)
    (valid : IsLog log) where
  abbrev log_fields : Fields x fields
  log_fields =
      ("data", x.of_string (hex_data log.log_data))
      ∷ ("topics", x.of_array (map (λ topic. x.of_string (hex_data topic)) log.topics))
      ∷ ("address", x.of_string (hex_data log.address))
      ∷ []

  log_to_json-Holds : Holds x fields (log_to_json x log) log_fields x.no_fields
  unfolding log_to_json
  log_to_json-Holds =
      let h =
        Holds-set_text x fields "address" (hex_data log.address) (record { found = λ g. refl }) in
      let h =
        Holds-set_field x fields "topics"
          (x.of_array (map (λ topic. x.of_string (hex_data topic)) log.topics)) h in
      Holds-set_text x fields "data" (hex_data log.log_data) h

  log_fields_read :
      (o : x.Object)
      → Holds x fields o log_fields x.no_fields
      → log_from_json x (x.of_object o) ≡ some log
  unfolding log_from_json same_bytes
  log_fields_read o h =
      let address =
        sized_bytes_read x laws o "address" log.address 20 (h.found "address") valid.address_sized.0
          valid.address_sized.1 in
      let log_data = bytes_read x laws o "data" log.log_data (h.found "data") valid.data_bytes in
      let topics =
        array_read x fields o "topics" (map (λ topic. x.of_string (hex_data topic)) log.topics)
          (h.found "topics") in
      rw (fields.object_kept o) (
        rw address
          (rw log_data (rw topics (rw (topics_read x laws log.topics valid.topics_sized) refl))))

  -- A log is read back from what it was printed as.
  pub log_from_json-log_to_json : log_from_json x (x.of_object (log_to_json x log)) ≡ some log
  log_from_json-log_to_json = log_fields_read (log_to_json x log) log_to_json-Holds
