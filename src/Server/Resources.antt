-- ===== src/Server/Resources.antt =====
-- server/src/resources.rs: the resources that the server knows, and their json form. The three json
-- files that the program includes are arguments, as lists of `json::Resource`.
pub mod RoundTrip
pub mod Registry
use protanki_protocol_rs.Common.{
  ℕ, ◌+◌, ◌*◌, ◌/◌, ◌%◌, ◌^◌, Bool, true, false, Option, none, some, List, [], ◌∷◌, map, ◌==◌,
  if◌then◌else◌,
}
use protanki_protocol_rs.Common.Bytes.{Bytes}
use protanki_protocol_rs.Common.Decimal.{format, parse_u64}
use protanki_protocol_rs.Common.Dict.{Dict, lookup, insert}

pub data ResourceStage : Type 0 where
  connect auth lobby : ResourceStage

pub data ResourceInfo : Type 0 where
  swf_library a3d movie_clip sound model3_ds map_file prop_lib tanks3_ds : ResourceInfo
  image : Bool → ResourceInfo
  multiframe_image : (fps height width frames : ℕ) → ResourceInfo
  localized_image : List Bytes → Bool → ResourceInfo

pub record ServerResource : Type 0 where
  pub id : ℕ
  pub version : ℕ
  pub is_lazy : Bool
  pub info : ResourceInfo

-- `json::Resource`. The type's number is never negative in the files: a negative one is unknown too.
pub record JsonResource : Type 0 where
  pub idhigh : Bytes
  pub idlow : ℕ
  pub versionhigh : Bytes
  pub versionlow : ℕ
  pub resource_type : ℕ
  pub is_lazy : Bool
  pub alpha : Option Bool
  pub weight : Option ℕ
  pub height : Option ℕ
  pub num_frames : Option ℕ
  pub fps : Option ℕ
  pub file_names : Option (List Bytes)

pub data ResourceError : Type 0 where
  missing_alpha missing_fps missing_height missing_width missing_frames : ResourceError
  missing_filenames parse_int_error : ResourceError
  unknown_resource_type : ℕ → ResourceError

pub data ResourceResult {ℓ} (A : Type ℓ) : Type ℓ where
  ok : A → ResourceResult A
  err : ResourceError → ResourceResult A

infixl 5 ◌>>=◌
abbrev pub ◌>>=◌ {ℓ κ} :
    {A : Type ℓ} {B : Type κ} → ResourceResult A → (A → ResourceResult B) → ResourceResult B
ok a >>= f = f a
err e >>= f = err e

-- `Option::context`
abbrev pub context {ℓ} : {A : Type ℓ} → Option A → ResourceError → ResourceResult A
context none e = err e
context (some a) e = ok a

unfoldable pub info_of : JsonResource → ResourceResult ResourceInfo
info_of r =
    if r.resource_type == 1
    then ok swf_library
    else if r.resource_type == 2
    then ok a3d
    else if r.resource_type == 3
    then ok movie_clip
    else if r.resource_type == 4
    then ok sound
    else if r.resource_type == 7
    then ok map_file
    else if r.resource_type == 8
    then ok prop_lib
    else if r.resource_type == 9
    then ok model3_ds
    else if r.resource_type == 10
    then (context r.alpha missing_alpha >>= λ alpha. ok (image alpha))
    else if r.resource_type == 11
    then (do
      fps ← context r.fps missing_fps
      height ← context r.height missing_height
      width ← context r.weight missing_width
      frames ← context r.num_frames missing_frames
      ok (multiframe_image fps height width frames))
    else if r.resource_type == 13
    then (do
      file_names ← context r.file_names missing_filenames
      alpha ← context r.alpha missing_alpha
      ok (localized_image file_names alpha))
    else if r.resource_type == 17
    then ok tanks3_ds
    else err (unknown_resource_type r.resource_type)

-- `(high.parse::<u64>()? << 32) | low as u64`: the shift drops what leaves 64 bits, and the low part is
-- a `u32`, so the two have no bit in common.
unfoldable pub join_words : Bytes → ℕ → ResourceResult ℕ
unfolding parse_u64
join_words high low = do
  n ← context (parse_u64 high) parse_int_error
  ok (n * 2 ^ 32 % 2 ^ 64 + low)

unfoldable pub from_json_resource : JsonResource → ResourceResult ServerResource
unfolding info_of join_words
from_json_resource r = do
  info ← info_of r
  id ← join_words r.idhigh r.idlow
  version ← join_words r.versionhigh r.versionlow
  ok (record { id = id; version = version; is_lazy = r.is_lazy; info = info })

-- `json::Resource::default()`
unfoldable pub json_default : JsonResource
json_default = record {
  idhigh = [];
  idlow = 0;
  versionhigh = [];
  versionlow = 0;
  resource_type = 0;
  is_lazy = false;
  alpha = none;
  weight = none;
  height = none;
  num_frames = none;
  fps = none;
  file_names = none;
}

unfoldable pub put_info : ResourceInfo → JsonResource → JsonResource
put_info swf_library j = record j { resource_type = 1 }
put_info a3d j = record j { resource_type = 2 }
put_info movie_clip j = record j { resource_type = 3 }
put_info sound j = record j { resource_type = 4 }
put_info map_file j = record j { resource_type = 7 }
put_info prop_lib j = record j { resource_type = 8 }
put_info model3_ds j = record j { resource_type = 9 }
put_info (image alpha) j = record j { resource_type = 10; alpha = some alpha }
put_info (multiframe_image fps height width frames) j = record j {
  resource_type = 11;
  fps = some fps;
  height = some height;
  weight = some width;
  num_frames = some frames;
}
put_info (localized_image file_names alpha) j = record j {
  resource_type = 13;
  alpha = some alpha;
  file_names = some file_names;
}
put_info tanks3_ds j = record j { resource_type = 17 }

unfoldable pub as_json_resource : ServerResource → JsonResource
unfolding put_info json_default format
as_json_resource r = put_info r.info (record json_default {
  idhigh = format (r.id / 2 ^ 32);
  idlow = r.id % 2 ^ 32;
  versionhigh = format (r.version / 2 ^ 32);
  versionlow = r.version % 2 ^ 32;
  is_lazy = r.is_lazy;
})
