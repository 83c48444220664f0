-- ===== src/Server/Resources/RoundTrip.antt =====
-- The json form of a resource of server/src/resources.rs, read back.
use protanki_protocol_rs.Common.{ℕ, ◌/◌, ◌%◌, ◌^◌, ◌≡◌, refl, ap, ◌∙◌, arith, Bool}
use protanki_protocol_rs.Common.Bytes.{IsU64}
use protanki_protocol_rs.Common.Decimal.{format, parse_u64-format}
use protanki_protocol_rs.Server.Resources.{
  ResourceInfo, swf_library, a3d, movie_clip, sound, model3_ds, map_file, prop_lib, tanks3_ds,
  image, multiframe_image, localized_image, ServerResource, JsonResource, ok, info_of, join_words,
  from_json_resource, put_info, json_default, as_json_resource,
}

join_words_lem : (n : ℕ) → IsU64 n → join_words (format (n / 2 ^ 32)) (n % 2 ^ 32) ≡ ok n
unfolding join_words
join_words_lem n h = rw (parse_u64-format (n / 2 ^ 32) (omega arith)) (ap ok (omega arith))

info_of-put_info : (i : ResourceInfo) (j : JsonResource) → info_of (put_info i j) ≡ ok i
unfolding info_of put_info
info_of-put_info swf_library j = refl
info_of-put_info a3d j = refl
info_of-put_info movie_clip j = refl
info_of-put_info sound j = refl
info_of-put_info map_file j = refl
info_of-put_info prop_lib j = refl
info_of-put_info model3_ds j = refl
info_of-put_info (image alpha) j = refl
info_of-put_info (multiframe_image fps height width frames) j = refl
info_of-put_info (localized_image file_names alpha) j = refl
info_of-put_info tanks3_ds j = refl

-- The type's fields are the only ones that `put_info` writes.
put_info_words :
    (i : ResourceInfo) (j : JsonResource)
    → ((put_info i j).idhigh ≡ j.idhigh)
      × ((put_info i j).idlow ≡ j.idlow)
      × ((put_info i j).versionhigh ≡ j.versionhigh)
      × ((put_info i j).versionlow ≡ j.versionlow)
      × ((put_info i j).is_lazy ≡ j.is_lazy)
unfolding put_info
put_info_words swf_library j = (refl, refl, refl, refl, refl)
put_info_words a3d j = (refl, refl, refl, refl, refl)
put_info_words movie_clip j = (refl, refl, refl, refl, refl)
put_info_words sound j = (refl, refl, refl, refl, refl)
put_info_words map_file j = (refl, refl, refl, refl, refl)
put_info_words prop_lib j = (refl, refl, refl, refl, refl)
put_info_words model3_ds j = (refl, refl, refl, refl, refl)
put_info_words (image alpha) j = (refl, refl, refl, refl, refl)
put_info_words (multiframe_image fps height width frames) j = (refl, refl, refl, refl, refl)
put_info_words (localized_image file_names alpha) j = (refl, refl, refl, refl, refl)
put_info_words tanks3_ds j = (refl, refl, refl, refl, refl)

-- Reading by its parts.
from_json_parts :
    (j : JsonResource) (i : ResourceInfo) (id version : ℕ)
    → info_of j ≡ ok i
    → join_words j.idhigh j.idlow ≡ ok id
    → join_words j.versionhigh j.versionlow ≡ ok version
    → from_json_resource j
      ≡ ok (record { id = id; version = version; is_lazy = j.is_lazy; info = i })
unfolding from_json_resource
from_json_parts j i id version e f g = rw (from_json_resource, e, f, g) refl

-- The json form before the type's fields are written.
abbrev words : ServerResource → JsonResource
words r = record json_default {
  idhigh = format (r.id / 2 ^ 32);
  idlow = r.id % 2 ^ 32;
  versionhigh = format (r.version / 2 ^ 32);
  versionlow = r.version % 2 ^ 32;
  is_lazy = r.is_lazy;
}

-- A resource whose id and version are of 64 bits is read back from its json form as it was, whatever its
-- type.
pub from_json-as_json :
    (r : ServerResource)
    → IsU64 r.id
    → IsU64 r.version
    → from_json_resource (as_json_resource r) ≡ ok r
unfolding as_json_resource
from_json-as_json r h k =
    let j = put_info r.info (words r) in
    let (ih, il, vh, vl, z) = put_info_words r.info (words r) in
    from_json_parts j r.info r.id r.version (info_of-put_info r.info (words r))
      (rw (ih, il) (join_words_lem r.id h)) (rw (vh, vl) (join_words_lem r.version k))
    ∙ ap
        (λ (lazy : Bool).
          ok (record { id = r.id; version = r.version; is_lazy = lazy; info = r.info }))
        z
