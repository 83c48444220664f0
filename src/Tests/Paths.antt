-- ===== src/Tests/Paths.antt =====
-- Resource paths and the json form of resources at concrete inputs.
use protanki_protocol_rs.Common.{◌≡◌, refl, arith, true, some, [], ◌∷◌}
use protanki_protocol_rs.Common.Decimal.{format, format_octal}
use protanki_protocol_rs.Common.Text.{codes}
use protanki_protocol_rs.Protocol.ResourcePath.{build_resource_path}
use protanki_protocol_rs.Protocol.ResourcePath.Injective.{read_path, read_path-build_resource_path}
use protanki_protocol_rs.Server.Resources.{
  ServerResource, localized_image, ok, from_json_resource, as_json_resource,
}
use protanki_protocol_rs.Server.Resources.RoundTrip.{from_json-as_json}
use protanki_protocol_rs.Tests.Order.{big_endian, from_digits}

-- The tests of the source.
first_path : build_resource_path 1395316 1 ≡ codes "0/21/74/116/1"
unfolding build_resource_path format format_octal from_digits
first_path = refl

octal_version : build_resource_path 1395316 10 ≡ codes "0/21/74/116/12"
unfolding build_resource_path format format_octal from_digits
octal_version = refl

read_path-build_resource_path_example :
    read_path (build_resource_path 1395316 10) ≡ some (1395316, 10)
read_path-build_resource_path_example =
    read_path-build_resource_path 1395316 10 (omega arith) (omega arith)

abbrev a_resource : ServerResource
a_resource = record {
  id = 5000000000;
  version = 7;
  is_lazy = true;
  info = localized_image (codes "a.png" ∷ []) true;
}

from_json-as_json_example : from_json_resource (as_json_resource a_resource) ≡ ok a_resource
from_json-as_json_example = from_json-as_json a_resource (omega arith) (omega arith)
