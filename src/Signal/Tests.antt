-- ===== src/Signal/Tests.antt =====
-- Instances of parsing and printing.
use zk_api.Common.{◌≡◌, ◌↔◌, some}
use zk_api.Common.Text.{codes}
use zk_api.Signal.{parse_field_element, to_string}
use zk_api.Signal.Canonical.{canonical, parse_field_element-to_string, canonical_iff}

parse_field_element-to_string_test : parse_field_element (to_string 1048576) ≡ some 1048576
parse_field_element-to_string_test = parse_field_element-to_string 1048576

canonical_iff_test :
    (canonical (codes "0x10") ≡ canonical (codes " 16"))
    ↔ (parse_field_element (codes "0x10") ≡ parse_field_element (codes " 16"))
canonical_iff_test = canonical_iff (codes "0x10") (codes " 16")
