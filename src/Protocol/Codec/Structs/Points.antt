-- ===== src/Protocol/Codec/Structs/Points.antt =====
-- The structs of protocol/src/codec/structs.rs about control points. A field is written and read in the
-- order of the source, as `codec_struct!` spells it out.
use protanki_protocol_rs.Common.{[], ℕ, Option, List}
use protanki_protocol_rs.Common.Bytes.{Bytes, IsU32}
use protanki_protocol_rs.Protocol.Error.{ok}
use protanki_protocol_rs.Protocol.Codec.Reader.{
  pure, ◌>>=◌, ◌⧺◌, Codec, RoundTrips, Carries-pure, Carries-bind,
}
use protanki_protocol_rs.Protocol.Codec.Primitives.{
  ByteOrder, f32, f32-RoundTrips, i32, i32-RoundTrips, Vector3, IsVector3, vector3,
  vector3-RoundTrips,
}
use protanki_protocol_rs.Protocol.Codec.Basics.{string, IsString, vec, IsVec, option, IsOption}
use protanki_protocol_rs.Protocol.Codec.Basics.RoundTrip.{
  string-RoundTrips, vec-RoundTrips, option-RoundTrips,
}
use protanki_protocol_rs.Protocol.Codec.Enums.{IsKnown}
use protanki_protocol_rs.Protocol.Codec.Enums.Battle.{
  ControlPointState, control_point_state_ordinal, control_point_state,
  control_point_state-RoundTrips,
}
use protanki_protocol_rs.Protocol.Codec.Resources.{
  ResourceReference, IsResourceReference, resource_reference, resource_reference-RoundTrips,
}

pub record DominationSounds : Type 0 where
  pub method_744 : ResourceReference
  pub method_491 : ResourceReference
  pub method_2387 : ResourceReference
  pub method_2280 : ResourceReference
  pub method_793 : ResourceReference
  pub method_656 : ResourceReference
  pub method_402 : ResourceReference
  pub method_95 : ResourceReference
  pub method_383 : ResourceReference
  pub method_1969 : ResourceReference

abbrev pub IsDominationSounds : DominationSounds → Type 0
IsDominationSounds v =
    IsResourceReference v.method_744
    × IsResourceReference v.method_491
    × IsResourceReference v.method_2387
    × IsResourceReference v.method_2280
    × IsResourceReference v.method_793
    × IsResourceReference v.method_656
    × IsResourceReference v.method_402
    × IsResourceReference v.method_95
    × IsResourceReference v.method_383
    × IsResourceReference v.method_1969

unfoldable pub domination_sounds : ⦃order : ByteOrder⦄ → Codec DominationSounds
domination_sounds = record {
  encode = λ v.
      resource_reference.encode v.method_744
      ⧺ resource_reference.encode v.method_491
      ⧺ resource_reference.encode v.method_2387
      ⧺ resource_reference.encode v.method_2280
      ⧺ resource_reference.encode v.method_793
      ⧺ resource_reference.encode v.method_656
      ⧺ resource_reference.encode v.method_402
      ⧺ resource_reference.encode v.method_95
      ⧺ resource_reference.encode v.method_383
      ⧺ resource_reference.encode v.method_1969
      ⧺ ok [];
  decode = do
    method_744 ← resource_reference.decode
    method_491 ← resource_reference.decode
    method_2387 ← resource_reference.decode
    method_2280 ← resource_reference.decode
    method_793 ← resource_reference.decode
    method_656 ← resource_reference.decode
    method_402 ← resource_reference.decode
    method_95 ← resource_reference.decode
    method_383 ← resource_reference.decode
    method_1969 ← resource_reference.decode
    pure (record {
      method_744 = method_744;
      method_491 = method_491;
      method_2387 = method_2387;
      method_2280 = method_2280;
      method_793 = method_793;
      method_656 = method_656;
      method_402 = method_402;
      method_95 = method_95;
      method_383 = method_383;
      method_1969 = method_1969;
    });
}

pub domination_sounds-RoundTrips :
    ⦃order : ByteOrder⦄ → RoundTrips domination_sounds IsDominationSounds
unfolding domination_sounds
domination_sounds-RoundTrips v h =
    Carries-bind _ _ (resource_reference-RoundTrips v.method_744 h.0) (
      Carries-bind _ _ (resource_reference-RoundTrips v.method_491 h.1) (
        Carries-bind _ _ (resource_reference-RoundTrips v.method_2387 h.2) (
          Carries-bind _ _ (resource_reference-RoundTrips v.method_2280 h.3) (
            Carries-bind _ _ (resource_reference-RoundTrips v.method_793 h.4) (
              Carries-bind _ _ (resource_reference-RoundTrips v.method_656 h.5) (
                Carries-bind _ _ (resource_reference-RoundTrips v.method_402 h.6) (
                  Carries-bind _ _ (resource_reference-RoundTrips v.method_95 h.7) (
                    Carries-bind _ _ (resource_reference-RoundTrips v.method_383 h.8) (
                      Carries-bind _ _ (resource_reference-RoundTrips v.method_1969 h.9)
                        (Carries-pure _))))))))))

pub record DominationResources : Type 0 where
  pub method_1141 : ResourceReference
  pub method_2672 : ResourceReference
  pub method_2738 : ResourceReference
  pub method_2138 : ResourceReference
  pub method_1045 : ResourceReference
  pub method_2096 : ResourceReference
  pub method_2753 : ResourceReference
  pub name_65 : ResourceReference
  pub method_2099 : ResourceReference
  pub method_1098 : ResourceReference
  pub method_925 : ResourceReference
  pub method_547 : ResourceReference

abbrev pub IsDominationResources : DominationResources → Type 0
IsDominationResources v =
    IsResourceReference v.method_1141
    × IsResourceReference v.method_2672
    × IsResourceReference v.method_2738
    × IsResourceReference v.method_2138
    × IsResourceReference v.method_1045
    × IsResourceReference v.method_2096
    × IsResourceReference v.method_2753
    × IsResourceReference v.name_65
    × IsResourceReference v.method_2099
    × IsResourceReference v.method_1098
    × IsResourceReference v.method_925
    × IsResourceReference v.method_547

unfoldable pub domination_resources : ⦃order : ByteOrder⦄ → Codec DominationResources
domination_resources = record {
  encode = λ v.
      resource_reference.encode v.method_1141
      ⧺ resource_reference.encode v.method_2672
      ⧺ resource_reference.encode v.method_2738
      ⧺ resource_reference.encode v.method_2138
      ⧺ resource_reference.encode v.method_1045
      ⧺ resource_reference.encode v.method_2096
      ⧺ resource_reference.encode v.method_2753
      ⧺ resource_reference.encode v.name_65
      ⧺ resource_reference.encode v.method_2099
      ⧺ resource_reference.encode v.method_1098
      ⧺ resource_reference.encode v.method_925
      ⧺ resource_reference.encode v.method_547
      ⧺ ok [];
  decode = do
    method_1141 ← resource_reference.decode
    method_2672 ← resource_reference.decode
    method_2738 ← resource_reference.decode
    method_2138 ← resource_reference.decode
    method_1045 ← resource_reference.decode
    method_2096 ← resource_reference.decode
    method_2753 ← resource_reference.decode
    name_65 ← resource_reference.decode
    method_2099 ← resource_reference.decode
    method_1098 ← resource_reference.decode
    method_925 ← resource_reference.decode
    method_547 ← resource_reference.decode
    pure (record {
      method_1141 = method_1141;
      method_2672 = method_2672;
      method_2738 = method_2738;
      method_2138 = method_2138;
      method_1045 = method_1045;
      method_2096 = method_2096;
      method_2753 = method_2753;
      name_65 = name_65;
      method_2099 = method_2099;
      method_1098 = method_1098;
      method_925 = method_925;
      method_547 = method_547;
    });
}

pub domination_resources-RoundTrips :
    ⦃order : ByteOrder⦄ → RoundTrips domination_resources IsDominationResources
unfolding domination_resources
domination_resources-RoundTrips v h =
    Carries-bind _ _ (resource_reference-RoundTrips v.method_1141 h.0) (
      Carries-bind _ _ (resource_reference-RoundTrips v.method_2672 h.1) (
        Carries-bind _ _ (resource_reference-RoundTrips v.method_2738 h.2) (
          Carries-bind _ _ (resource_reference-RoundTrips v.method_2138 h.3) (
            Carries-bind _ _ (resource_reference-RoundTrips v.method_1045 h.4) (
              Carries-bind _ _ (resource_reference-RoundTrips v.method_2096 h.5) (
                Carries-bind _ _ (resource_reference-RoundTrips v.method_2753 h.6) (
                  Carries-bind _ _ (resource_reference-RoundTrips v.name_65 h.7) (
                    Carries-bind _ _ (resource_reference-RoundTrips v.method_2099 h.8) (
                      Carries-bind _ _ (resource_reference-RoundTrips v.method_1098 h.9) (
                        Carries-bind _ _ (resource_reference-RoundTrips v.method_925 h.10) (
                          Carries-bind _ _ (resource_reference-RoundTrips v.method_547 h.11)
                            (Carries-pure _))))))))))))

pub record ClientPointData : Type 0 where
  pub id : ℕ
  pub name : Bytes
  pub position : Option Vector3
  pub score : ℕ
  pub method_2190 : ℕ
  pub state : ControlPointState
  pub method_2697 : Option (List Bytes)

abbrev pub IsClientPointData : ClientPointData → Type 0
IsClientPointData v =
    IsU32 v.id
    × IsString v.name
    × IsOption IsVector3 v.position
    × IsU32 v.score
    × IsU32 v.method_2190
    × IsKnown control_point_state_ordinal v.state
    × IsOption (IsVec IsString) v.method_2697

unfoldable pub client_point_data : ⦃order : ByteOrder⦄ → Codec ClientPointData
client_point_data = record {
  encode = λ v.
      i32.encode v.id
      ⧺ string.encode v.name
      ⧺ (option vector3).encode v.position
      ⧺ f32.encode v.score
      ⧺ f32.encode v.method_2190
      ⧺ control_point_state.encode v.state
      ⧺ (option (vec string)).encode v.method_2697
      ⧺ ok [];
  decode = do
    id ← i32.decode
    name ← string.decode
    position ← (option vector3).decode
    score ← f32.decode
    method_2190 ← f32.decode
    state ← control_point_state.decode
    method_2697 ← (option (vec string)).decode
    pure (record {
      id = id;
      name = name;
      position = position;
      score = score;
      method_2190 = method_2190;
      state = state;
      method_2697 = method_2697;
    });
}

pub client_point_data-RoundTrips :
    ⦃order : ByteOrder⦄ → RoundTrips client_point_data IsClientPointData
unfolding client_point_data
client_point_data-RoundTrips v h = Carries-bind _ _ (i32-RoundTrips v.id h.0) (
    Carries-bind _ _ (string-RoundTrips v.name h.1) (
      Carries-bind _ _ (option-RoundTrips vector3 IsVector3 vector3-RoundTrips v.position h.2) (
        Carries-bind _ _ (f32-RoundTrips v.score h.3) (
          Carries-bind _ _ (f32-RoundTrips v.method_2190 h.4) (
            Carries-bind _ _ (control_point_state-RoundTrips v.state h.5) (
              Carries-bind _ _
                (option-RoundTrips (vec string) (IsVec IsString)
                  (vec-RoundTrips string IsString string-RoundTrips) v.method_2697 h.6)
                (Carries-pure _)))))))

pub record ControlPointsCc : Type 0 where
  pub method_337 : ℕ
  pub name_47 : ℕ
  pub method_1123 : ℕ
  pub name_43 : List ClientPointData
  pub resources : DominationResources
  pub name_8 : DominationSounds

abbrev pub IsControlPointsCc : ControlPointsCc → Type 0
IsControlPointsCc v =
    IsU32 v.method_337
    × IsU32 v.name_47
    × IsU32 v.method_1123
    × IsVec IsClientPointData v.name_43
    × IsDominationResources v.resources
    × IsDominationSounds v.name_8

unfoldable pub control_points_cc : ⦃order : ByteOrder⦄ → Codec ControlPointsCc
control_points_cc = record {
  encode = λ v.
      f32.encode v.method_337
      ⧺ f32.encode v.name_47
      ⧺ f32.encode v.method_1123
      ⧺ (vec client_point_data).encode v.name_43
      ⧺ domination_resources.encode v.resources
      ⧺ domination_sounds.encode v.name_8
      ⧺ ok [];
  decode = do
    method_337 ← f32.decode
    name_47 ← f32.decode
    method_1123 ← f32.decode
    name_43 ← (vec client_point_data).decode
    resources ← domination_resources.decode
    name_8 ← domination_sounds.decode
    pure (record {
      method_337 = method_337;
      name_47 = name_47;
      method_1123 = method_1123;
      name_43 = name_43;
      resources = resources;
      name_8 = name_8;
    });
}

pub control_points_cc-RoundTrips :
    ⦃order : ByteOrder⦄ → RoundTrips control_points_cc IsControlPointsCc
unfolding control_points_cc
control_points_cc-RoundTrips v h = Carries-bind _ _ (f32-RoundTrips v.method_337 h.0) (
    Carries-bind _ _ (f32-RoundTrips v.name_47 h.1) (
      Carries-bind _ _ (f32-RoundTrips v.method_1123 h.2) (
        Carries-bind _ _
          (vec-RoundTrips client_point_data IsClientPointData client_point_data-RoundTrips v.name_43
            h.3)
          (Carries-bind _ _ (domination_resources-RoundTrips v.resources h.4)
            (Carries-bind _ _ (domination_sounds-RoundTrips v.name_8 h.5) (Carries-pure _))))))

-- Every struct of this file is read back as it was written, if its strings are UTF-8, its numbers
-- fit their types, its vectors are shorter than 2 ^ 32 and no enum in it is unknown.
abbrev pub PointsRoundTrip : ⦃order : ByteOrder⦄ → Type 0
PointsRoundTrip =
    RoundTrips domination_sounds IsDominationSounds
    × RoundTrips domination_resources IsDominationResources
    × RoundTrips client_point_data IsClientPointData
    × RoundTrips control_points_cc IsControlPointsCc

pub points_structs-RoundTrip : ⦃order : ByteOrder⦄ → PointsRoundTrip
points_structs-RoundTrip = (
  domination_sounds-RoundTrips, domination_resources-RoundTrips, client_point_data-RoundTrips,
  control_points_cc-RoundTrips,
)
