-- ===== src/Examples/Hashes.antt =====
-- Bencoded torrents and infohashes: backend/internal/infohash.
use marauder.Prelude.{
  ◌+◌, ◌*◌, ◌≤◌, ◌<◌, ◌≡◌, refl, sym, subst, ◌≢◌, none, some, [], ◌∷◌, ◌++◌, arith, length, drop,
  length-append, Text, codes, text_eq,
}
use marauder.Prelude.Decimal.{atoi, itoa}
use marauder.Prelude.Int.{pos, negsuc, max_int, wrap64}
use marauder.Bencode.{
  Bencode, int, str, list, dict, nil, cons, Fields, end, field, encode, nesting, nesting_fields,
}
use marauder.Infohash.{
  ok, panicked, out_of_fuel, scan_value, info_dict_bytes, Packages, from_payload, max_bencode_depth,
}
use marauder.Infohash.Fuel.{info_dict_bytes_total}
use marauder.Infohash.Overflow.{info_dict_bytes_panics}
use marauder.Infohash.Encoded.{first_field}
use marauder.Infohash.Payload.{from_payload_info_only}

-- The info dictionary of a torrent, and the torrent.
abbrev info_value : Bencode
info_value = dict (field (codes "name") (str (codes "ab")) end)

abbrev torrent : Fields
torrent = field (codes "announce") (int (pos 7)) (field (codes "info") info_value end)

abbrev torrent_bytes : Text
torrent_bytes = codes "d8:announcei7e4:infod4:name2:abee"

torrent_encoded : encode (dict torrent) ≡ torrent_bytes
unfolding encode itoa
torrent_encoded = refl

torrent_fits : length (encode (dict torrent)) ≤ max_int
torrent_fits = subst (λ s. length s ≤ max_int) (sym torrent_encoded) (omega arith)

torrent_shallow : nesting_fields torrent ≤ max_bencode_depth
unfolding nesting
torrent_shallow = omega arith

info_first : first_field (codes "info") torrent ≡ some info_value
unfolding first_field text_eq
info_first = refl

info_bytes : info_dict_bytes torrent_bytes ≡ ok (codes "d4:name2:abe")
unfolding info_dict_bytes marauder.Infohash.scan_string marauder.Infohash.index_byte_from atoi
    wrap64 scan_value text_eq marauder.Infohash.scan_key
info_bytes = refl

total_example : info_dict_bytes torrent_bytes ≢ out_of_fuel
total_example = info_dict_bytes_total torrent_bytes

-- A list of a number and a string, behind two other bytes.
abbrev items : Bencode
items = list (cons (int (negsuc 4)) (cons (str (codes "xy")) nil))

abbrev items_bytes : Text
items_bytes = codes "..li-5e2:xye,"

items_fit : 2 * length (encode items) < 30
unfolding encode itoa
items_fit = omega arith

items_shallow : 3 + nesting items ≤ max_bencode_depth
unfolding nesting
items_shallow = omega arith

items_there : drop 2 items_bytes ≡ encode items ++ codes ","
unfolding encode itoa
items_there = refl

scan_value_run : scan_value 30 items_bytes 2 3 ≡ ok 12
unfolding scan_value marauder.Infohash.scan_key marauder.Infohash.index_byte_from
    marauder.Infohash.scan_string atoi wrap64
scan_value_run = refl

-- A string of 9223372036854775807 bytes is announced in 21 bytes.
huge_length : length (itoa max_int) ≡ 19
unfolding itoa
huge_length = refl

huge_fits : length (b'd' ∷ itoa max_int ++ b':' ∷ []) ≤ max_int
huge_fits = omega (arith, huge_length, length-append (itoa max_int) (b':' ∷ []))

panics_example : info_dict_bytes (b'd' ∷ itoa max_int ++ b':' ∷ []) ≡ panicked
panics_example =
    info_dict_bytes_panics max_int [] huge_fits (omega arith) (omega (arith, huge_length))

-- Packages that leave a text as it is.
abbrev pub plain_packages : Packages
plain_packages = record {
  trim_space = λ s. s;
  to_lower = λ s. s;
  to_upper = λ s. s;
  sha1 = λ s. s;
  hex_encode = λ s. s;
  hex_decode = λ s. some s;
  base32_decode = λ s. some s;
  parse_query = λ s. none;
}

payload_example :
    from_payload plain_packages [] (encode (dict torrent))
    ≡ ok (plain_packages.hex_encode (plain_packages.sha1 (encode info_value)))
payload_example =
    from_payload_info_only plain_packages [] torrent info_value refl torrent_fits torrent_shallow
      info_first
