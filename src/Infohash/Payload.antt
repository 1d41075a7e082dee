-- ===== src/Infohash/Payload.antt =====
-- The infohash of a payload as the key of a delivery.
use marauder.Prelude.{◌≤◌, ◌≡◌, ap, ◌∙◌, some, [], length, Text, codes, text_eq}
use marauder.Prelude.Int.{max_int}
use marauder.Bencode.{Bencode, Fields, dict, encode, nesting_fields}
use marauder.Infohash.{ok, max_bencode_depth, info_dict_bytes, Packages, from_torrent, from_payload}
use marauder.Infohash.Encoded.{first_field, info_result, info_dict_bytes-encode}

-- A payload with no magnet link and an encoded torrent has the infohash of its first `info`
-- value alone, whatever the torrent's other entries are. The torrent has at most as many bytes
-- as the largest `int`, and its values stand at most 32 deep.
pub from_payload_info_only :
    (pk : Packages) (magnet : Text) (fs : Fields) (info : Bencode)
    → pk.trim_space magnet ≡ []
    → length (encode (dict fs)) ≤ max_int
    → nesting_fields fs ≤ max_bencode_depth
    → first_field (codes "info") fs ≡ some info
    → from_payload pk magnet (encode (dict fs)) ≡ ok (pk.hex_encode (pk.sha1 (encode info)))
unfolding from_payload from_torrent text_eq encode
from_payload_info_only pk magnet fs info no_magnet h n e =
    let found : info_dict_bytes (encode (dict fs)) ≡ ok (encode info) =
      info_dict_bytes-encode fs h n ∙ ap info_result e in
    rw (no_magnet, found)
