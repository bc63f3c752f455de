-- ===== src/Padding/Tests.antt =====
-- Instances of the padding.
use zk_api.Common.{◌≡◌, ◌↔◌, false}
use zk_api.Common.Text.{codes}
use zk_api.Padding.{byte_length, get_size_class, pad_response, unpad_response}
use zk_api.Padding.RoundTrip.{has_marker, unpad-pad_iff}
use zk_api.Padding.Sizes.{IsClassOf, pad_response_size}

pad_response_size_example :
    (byte_length (pad_response (codes "padding")) ≡ get_size_class (byte_length (codes "padding")))
    × IsClassOf (byte_length (codes "padding")) (byte_length (pad_response (codes "padding")))
pad_response_size_example = pad_response_size (codes "padding")

unpad-pad_iff_test :
    ((unpad_response (pad_response (codes "padding")) ≡ codes "padding")
      ↔ (has_marker (codes "padding") ≡ false))
    × (unpad_response (pad_response (codes "padding")) ≡ unpad_response (codes "padding"))
unpad-pad_iff_test = unpad-pad_iff (codes "padding")
