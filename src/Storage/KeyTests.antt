-- ===== src/Storage/KeyTests.antt =====
-- Runs of the keys of a site's objects, and the theorem at a concrete key.
use simple_host_enterprise.Common.{◌≡◌, ◌↔◌, refl, false, none, some, Bytes, codes, ok, err}
use simple_host_enterprise.Common.Text.{cut_prefix, trim_suffix}
use simple_host_enterprise.Audit.Numeric.{atoi, digits_value, is_number}
use simple_host_enterprise.Storage.Keys.{
  invalid_version, is_uuid, is_uuid_from, is_uuid_byte, is_hyphen_place, itoa, itoa_from,
  site_prefix, version_key, StoreKey, positive, version_text, cut_version_archive_name,
  parse_version, parse_asset, parse_name, parse_rest, parse_store_key,
}
use simple_host_enterprise.Storage.Naming.{IsNamed}
use simple_host_enterprise.Storage.Parsing.{parse_store_key_iff}

abbrev site : Bytes
site = codes "0a1b2c3d-0000-4000-8000-00000000002f"

abbrev twelfth : Bytes
twelfth = codes "sites/0a1b2c3d-0000-4000-8000-00000000002f/v12.tar.gz"

abbrev parsed : StoreKey
parsed = record { site_id = site; version = 12; is_asset = false }

twelfth_key : version_key site 12 ≡ ok twelfth
unfolding version_key site_prefix is_uuid is_uuid_from is_uuid_byte is_hyphen_place itoa itoa_from
twelfth_key = refl

no_version : version_key site 0 ≡ err (invalid_version 0)
unfolding version_key site_prefix is_uuid is_uuid_from is_uuid_byte is_hyphen_place
no_version = refl

twelfth-parsed : parse_store_key twelfth ≡ some parsed
unfolding parse_store_key parse_rest parse_name parse_asset parse_version cut_version_archive_name
    version_text positive cut_prefix trim_suffix atoi digits_value is_number is_uuid is_uuid_from
    is_uuid_byte is_hyphen_place itoa itoa_from
twelfth-parsed = refl

-- Only the number's own text is read: no zero in front.
padded : parse_store_key (codes "sites/0a1b2c3d-0000-4000-8000-00000000002f/v012.tar.gz") ≡ none
unfolding parse_store_key parse_rest parse_name parse_asset parse_version cut_version_archive_name
    version_text positive cut_prefix trim_suffix atoi digits_value is_number is_uuid is_uuid_from
    is_uuid_byte is_hyphen_place itoa itoa_from
padded = refl

parse_store_key_iff_example : (parse_store_key twelfth ≡ some parsed) ↔ IsNamed twelfth parsed
parse_store_key_iff_example = parse_store_key_iff twelfth parsed
