-- ===== src/Protocol/Codec/Structs/Flags.antt =====
-- The structs of protocol/src/codec/structs.rs about flags and assault bases. A field is written and read in the
-- order of the source, as `codec_struct!` spells it out.
use protanki_protocol_rs.Common.{[], ℕ, Option, List}
use protanki_protocol_rs.Common.Bytes.{Bytes, IsU32}
use protanki_protocol_rs.Protocol.Error.{ok}
use protanki_protocol_rs.Protocol.Codec.Reader.{
  pure, ◌>>=◌, ◌⧺◌, Codec, RoundTrips, Carries-pure, Carries-bind,
}
use protanki_protocol_rs.Protocol.Codec.Primitives.{
  ByteOrder, i32, i32-RoundTrips, Vector3, IsVector3, vector3, vector3-RoundTrips,
}
use protanki_protocol_rs.Protocol.Codec.Basics.{string, IsString, vec, IsVec, option, IsOption}
use protanki_protocol_rs.Protocol.Codec.Basics.RoundTrip.{
  string-RoundTrips, vec-RoundTrips, option-RoundTrips,
}
use protanki_protocol_rs.Protocol.Codec.Resources.{
  ResourceReference, IsResourceReference, resource_reference, resource_reference-RoundTrips,
}

pub record ClientFlag : Type 0 where
  pub method_1384 : Option Vector3
  pub method_1275 : Bytes
  pub name_81 : Option Vector3

abbrev pub IsClientFlag : ClientFlag → Type 0
IsClientFlag v =
    IsOption IsVector3 v.method_1384 × IsString v.method_1275 × IsOption IsVector3 v.name_81

unfoldable pub client_flag : ⦃order : ByteOrder⦄ → Codec ClientFlag
client_flag = record {
  encode = λ v.
      (option vector3).encode v.method_1384
      ⧺ string.encode v.method_1275
      ⧺ (option vector3).encode v.name_81
      ⧺ ok [];
  decode = do
    method_1384 ← (option vector3).decode
    method_1275 ← string.decode
    name_81 ← (option vector3).decode
    pure (record { method_1384 = method_1384; method_1275 = method_1275; name_81 = name_81 });
}

pub client_flag-RoundTrips : ⦃order : ByteOrder⦄ → RoundTrips client_flag IsClientFlag
unfolding client_flag
client_flag-RoundTrips v h =
    Carries-bind _ _ (option-RoundTrips vector3 IsVector3 vector3-RoundTrips v.method_1384 h.0) (
      Carries-bind _ _ (string-RoundTrips v.method_1275 h.1) (
        Carries-bind _ _ (option-RoundTrips vector3 IsVector3 vector3-RoundTrips v.name_81 h.2)
          (Carries-pure _)))

pub record CaptureTheFlagSoundFx : Type 0 where
  pub name_55 : ResourceReference
  pub name_79 : ResourceReference
  pub name_37 : ResourceReference
  pub name_71 : ResourceReference

abbrev pub IsCaptureTheFlagSoundFx : CaptureTheFlagSoundFx → Type 0
IsCaptureTheFlagSoundFx v =
    IsResourceReference v.name_55
    × IsResourceReference v.name_79
    × IsResourceReference v.name_37
    × IsResourceReference v.name_71

unfoldable pub capture_the_flag_sound_fx : ⦃order : ByteOrder⦄ → Codec CaptureTheFlagSoundFx
capture_the_flag_sound_fx = record {
  encode = λ v.
      resource_reference.encode v.name_55
      ⧺ resource_reference.encode v.name_79
      ⧺ resource_reference.encode v.name_37
      ⧺ resource_reference.encode v.name_71
      ⧺ ok [];
  decode = do
    name_55 ← resource_reference.decode
    name_79 ← resource_reference.decode
    name_37 ← resource_reference.decode
    name_71 ← resource_reference.decode
    pure (record { name_55 = name_55; name_79 = name_79; name_37 = name_37; name_71 = name_71 });
}

pub capture_the_flag_sound_fx-RoundTrips :
    ⦃order : ByteOrder⦄ → RoundTrips capture_the_flag_sound_fx IsCaptureTheFlagSoundFx
unfolding capture_the_flag_sound_fx
capture_the_flag_sound_fx-RoundTrips v h =
    Carries-bind _ _ (resource_reference-RoundTrips v.name_55 h.0) (
      Carries-bind _ _ (resource_reference-RoundTrips v.name_79 h.1) (
        Carries-bind _ _ (resource_reference-RoundTrips v.name_37 h.2)
          (Carries-bind _ _ (resource_reference-RoundTrips v.name_71 h.3) (Carries-pure _))))

pub record CaptureTheFlagCc : Type 0 where
  pub method_2047 : ClientFlag
  pub method_1345 : ResourceReference
  pub method_1814 : ResourceReference
  pub method_1229 : ClientFlag
  pub method_1505 : ResourceReference
  pub method_872 : ResourceReference
  pub name_8 : CaptureTheFlagSoundFx

abbrev pub IsCaptureTheFlagCc : CaptureTheFlagCc → Type 0
IsCaptureTheFlagCc v =
    IsClientFlag v.method_2047
    × IsResourceReference v.method_1345
    × IsResourceReference v.method_1814
    × IsClientFlag v.method_1229
    × IsResourceReference v.method_1505
    × IsResourceReference v.method_872
    × IsCaptureTheFlagSoundFx v.name_8

unfoldable pub capture_the_flag_cc : ⦃order : ByteOrder⦄ → Codec CaptureTheFlagCc
capture_the_flag_cc = record {
  encode = λ v.
      client_flag.encode v.method_2047
      ⧺ resource_reference.encode v.method_1345
      ⧺ resource_reference.encode v.method_1814
      ⧺ client_flag.encode v.method_1229
      ⧺ resource_reference.encode v.method_1505
      ⧺ resource_reference.encode v.method_872
      ⧺ capture_the_flag_sound_fx.encode v.name_8
      ⧺ ok [];
  decode = do
    method_2047 ← client_flag.decode
    method_1345 ← resource_reference.decode
    method_1814 ← resource_reference.decode
    method_1229 ← client_flag.decode
    method_1505 ← resource_reference.decode
    method_872 ← resource_reference.decode
    name_8 ← capture_the_flag_sound_fx.decode
    pure (record {
      method_2047 = method_2047;
      method_1345 = method_1345;
      method_1814 = method_1814;
      method_1229 = method_1229;
      method_1505 = method_1505;
      method_872 = method_872;
      name_8 = name_8;
    });
}

pub capture_the_flag_cc-RoundTrips :
    ⦃order : ByteOrder⦄ → RoundTrips capture_the_flag_cc IsCaptureTheFlagCc
unfolding capture_the_flag_cc
capture_the_flag_cc-RoundTrips v h = Carries-bind _ _ (client_flag-RoundTrips v.method_2047 h.0) (
    Carries-bind _ _ (resource_reference-RoundTrips v.method_1345 h.1) (
      Carries-bind _ _ (resource_reference-RoundTrips v.method_1814 h.2) (
        Carries-bind _ _ (client_flag-RoundTrips v.method_1229 h.3) (
          Carries-bind _ _ (resource_reference-RoundTrips v.method_1505 h.4) (
            Carries-bind _ _ (resource_reference-RoundTrips v.method_872 h.5) (
              Carries-bind _ _ (capture_the_flag_sound_fx-RoundTrips v.name_8 h.6)
                (Carries-pure _)))))))

pub record ClientAssaultFlag : Type 0 where
  pub method_1384 : Option Vector3
  pub method_1275 : Bytes
  pub name_81 : Option Vector3
  pub id : ℕ

abbrev pub IsClientAssaultFlag : ClientAssaultFlag → Type 0
IsClientAssaultFlag v =
    IsOption IsVector3 v.method_1384
    × IsString v.method_1275
    × IsOption IsVector3 v.name_81
    × IsU32 v.id

unfoldable pub client_assault_flag : ⦃order : ByteOrder⦄ → Codec ClientAssaultFlag
client_assault_flag = record {
  encode = λ v.
      (option vector3).encode v.method_1384
      ⧺ string.encode v.method_1275
      ⧺ (option vector3).encode v.name_81
      ⧺ i32.encode v.id
      ⧺ ok [];
  decode = do
    method_1384 ← (option vector3).decode
    method_1275 ← string.decode
    name_81 ← (option vector3).decode
    id ← i32.decode
    pure (record {
      method_1384 = method_1384;
      method_1275 = method_1275;
      name_81 = name_81;
      id = id;
    });
}

pub client_assault_flag-RoundTrips :
    ⦃order : ByteOrder⦄ → RoundTrips client_assault_flag IsClientAssaultFlag
unfolding client_assault_flag
client_assault_flag-RoundTrips v h =
    Carries-bind _ _ (option-RoundTrips vector3 IsVector3 vector3-RoundTrips v.method_1384 h.0) (
      Carries-bind _ _ (string-RoundTrips v.method_1275 h.1) (
        Carries-bind _ _ (option-RoundTrips vector3 IsVector3 vector3-RoundTrips v.name_81 h.2)
          (Carries-bind _ _ (i32-RoundTrips v.id h.3) (Carries-pure _))))

pub record AssaultSoundFx : Type 0 where
  pub name_55 : ResourceReference
  pub name_79 : ResourceReference
  pub name_37 : ResourceReference
  pub name_71 : ResourceReference

abbrev pub IsAssaultSoundFx : AssaultSoundFx → Type 0
IsAssaultSoundFx v =
    IsResourceReference v.name_55
    × IsResourceReference v.name_79
    × IsResourceReference v.name_37
    × IsResourceReference v.name_71

unfoldable pub assault_sound_fx : ⦃order : ByteOrder⦄ → Codec AssaultSoundFx
assault_sound_fx = record {
  encode = λ v.
      resource_reference.encode v.name_55
      ⧺ resource_reference.encode v.name_79
      ⧺ resource_reference.encode v.name_37
      ⧺ resource_reference.encode v.name_71
      ⧺ ok [];
  decode = do
    name_55 ← resource_reference.decode
    name_79 ← resource_reference.decode
    name_37 ← resource_reference.decode
    name_71 ← resource_reference.decode
    pure (record { name_55 = name_55; name_79 = name_79; name_37 = name_37; name_71 = name_71 });
}

pub assault_sound_fx-RoundTrips : ⦃order : ByteOrder⦄ → RoundTrips assault_sound_fx IsAssaultSoundFx
unfolding assault_sound_fx
assault_sound_fx-RoundTrips v h = Carries-bind _ _ (resource_reference-RoundTrips v.name_55 h.0) (
    Carries-bind _ _ (resource_reference-RoundTrips v.name_79 h.1) (
      Carries-bind _ _ (resource_reference-RoundTrips v.name_37 h.2)
        (Carries-bind _ _ (resource_reference-RoundTrips v.name_71 h.3) (Carries-pure _))))

pub record AssaultBase : Type 0 where
  pub id : ℕ
  pub position : Option Vector3

abbrev pub IsAssaultBase : AssaultBase → Type 0
IsAssaultBase v = IsU32 v.id × IsOption IsVector3 v.position

unfoldable pub assault_base : ⦃order : ByteOrder⦄ → Codec AssaultBase
assault_base = record {
  encode = λ v. i32.encode v.id ⧺ (option vector3).encode v.position ⧺ ok [];
  decode = do
    id ← i32.decode
    position ← (option vector3).decode
    pure (record { id = id; position = position });
}

pub assault_base-RoundTrips : ⦃order : ByteOrder⦄ → RoundTrips assault_base IsAssaultBase
unfolding assault_base
assault_base-RoundTrips v h = Carries-bind _ _ (i32-RoundTrips v.id h.0) (
    Carries-bind _ _ (option-RoundTrips vector3 IsVector3 vector3-RoundTrips v.position h.1)
      (Carries-pure _))

pub record AssaultCc : Type 0 where
  pub method_874 : List ClientAssaultFlag
  pub method_2535 : ResourceReference
  pub method_1333 : ResourceReference
  pub method_1036 : ResourceReference
  pub method_2134 : ResourceReference
  pub method_993 : List AssaultBase
  pub name_8 : AssaultSoundFx

abbrev pub IsAssaultCc : AssaultCc → Type 0
IsAssaultCc v =
    IsVec IsClientAssaultFlag v.method_874
    × IsResourceReference v.method_2535
    × IsResourceReference v.method_1333
    × IsResourceReference v.method_1036
    × IsResourceReference v.method_2134
    × IsVec IsAssaultBase v.method_993
    × IsAssaultSoundFx v.name_8

unfoldable pub assault_cc : ⦃order : ByteOrder⦄ → Codec AssaultCc
assault_cc = record {
  encode = λ v.
      (vec client_assault_flag).encode v.method_874
      ⧺ resource_reference.encode v.method_2535
      ⧺ resource_reference.encode v.method_1333
      ⧺ resource_reference.encode v.method_1036
      ⧺ resource_reference.encode v.method_2134
      ⧺ (vec assault_base).encode v.method_993
      ⧺ assault_sound_fx.encode v.name_8
      ⧺ ok [];
  decode = do
    method_874 ← (vec client_assault_flag).decode
    method_2535 ← resource_reference.decode
    method_1333 ← resource_reference.decode
    method_1036 ← resource_reference.decode
    method_2134 ← resource_reference.decode
    method_993 ← (vec assault_base).decode
    name_8 ← assault_sound_fx.decode
    pure (record {
      method_874 = method_874;
      method_2535 = method_2535;
      method_1333 = method_1333;
      method_1036 = method_1036;
      method_2134 = method_2134;
      method_993 = method_993;
      name_8 = name_8;
    });
}

pub assault_cc-RoundTrips : ⦃order : ByteOrder⦄ → RoundTrips assault_cc IsAssaultCc
unfolding assault_cc
assault_cc-RoundTrips v h =
    Carries-bind _ _
      (vec-RoundTrips client_assault_flag IsClientAssaultFlag client_assault_flag-RoundTrips
        v.method_874 h.0)
      (Carries-bind _ _ (resource_reference-RoundTrips v.method_2535 h.1) (
        Carries-bind _ _ (resource_reference-RoundTrips v.method_1333 h.2) (
          Carries-bind _ _ (resource_reference-RoundTrips v.method_1036 h.3) (
            Carries-bind _ _ (resource_reference-RoundTrips v.method_2134 h.4) (
              Carries-bind _ _
                (vec-RoundTrips assault_base IsAssaultBase assault_base-RoundTrips v.method_993 h.5)
                (Carries-bind _ _ (assault_sound_fx-RoundTrips v.name_8 h.6) (Carries-pure _)))))))

-- Every struct of this file is read back as it was written, if its strings are UTF-8, its numbers
-- fit their types, its vectors are shorter than 2 ^ 32 and no enum in it is unknown.
abbrev pub FlagsRoundTrip : ⦃order : ByteOrder⦄ → Type 0
FlagsRoundTrip =
    RoundTrips client_flag IsClientFlag
    × RoundTrips capture_the_flag_sound_fx IsCaptureTheFlagSoundFx
    × RoundTrips capture_the_flag_cc IsCaptureTheFlagCc
    × RoundTrips client_assault_flag IsClientAssaultFlag
    × RoundTrips assault_sound_fx IsAssaultSoundFx
    × RoundTrips assault_base IsAssaultBase
    × RoundTrips assault_cc IsAssaultCc

pub flags_structs-RoundTrip : ⦃order : ByteOrder⦄ → FlagsRoundTrip
flags_structs-RoundTrip = (
  client_flag-RoundTrips, capture_the_flag_sound_fx-RoundTrips, capture_the_flag_cc-RoundTrips,
  client_assault_flag-RoundTrips, assault_sound_fx-RoundTrips, assault_base-RoundTrips,
  assault_cc-RoundTrips,
)
