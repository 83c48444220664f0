-- ===== src/Protocol/Codec/Structs/RoundTrips.antt =====
-- The structs of protocol/src/codec/structs.rs and custom.rs, and the enums of enums.rs, all together.
use protanki_protocol_rs.Protocol.Codec.Primitives.{ByteOrder}
use protanki_protocol_rs.Protocol.Codec.Structs.Users.{UsersRoundTrip, users_structs-RoundTrip}
use protanki_protocol_rs.Protocol.Codec.Structs.Account.{
  AccountRoundTrip, account_structs-RoundTrip,
}
use protanki_protocol_rs.Protocol.Codec.Structs.Lobby.{LobbyRoundTrip, lobby_structs-RoundTrip}
use protanki_protocol_rs.Protocol.Codec.Structs.Tanks.{TanksRoundTrip, tanks_structs-RoundTrip}
use protanki_protocol_rs.Protocol.Codec.Structs.Battles.{
  BattlesRoundTrip, battles_structs-RoundTrip,
}
use protanki_protocol_rs.Protocol.Codec.Structs.Flags.{FlagsRoundTrip, flags_structs-RoundTrip}
use protanki_protocol_rs.Protocol.Codec.Structs.Points.{PointsRoundTrip, points_structs-RoundTrip}

-- Every struct of the users, their accounts and the lobby is read back as it was written, if its strings are UTF-8, its numbers fit their
-- types, its vectors are shorter than 2 ^ 32 and no enum in it is unknown.
pub account_and_lobby-RoundTrip :
    ⦃order : ByteOrder⦄ → UsersRoundTrip × AccountRoundTrip × LobbyRoundTrip
account_and_lobby-RoundTrip =
    (users_structs-RoundTrip, account_structs-RoundTrip, lobby_structs-RoundTrip)

-- Every struct of the tanks and the battles is read back as it was written, if its strings are UTF-8, its numbers fit their
-- types, its vectors are shorter than 2 ^ 32 and no enum in it is unknown.
pub tanks_and_battles-RoundTrip : ⦃order : ByteOrder⦄ → TanksRoundTrip × BattlesRoundTrip
tanks_and_battles-RoundTrip = (tanks_structs-RoundTrip, battles_structs-RoundTrip)

-- Every struct of the flags and the control points is read back as it was written, if its strings are UTF-8, its numbers fit their
-- types, its vectors are shorter than 2 ^ 32 and no enum in it is unknown.
pub flags_and_points-RoundTrip : ⦃order : ByteOrder⦄ → FlagsRoundTrip × PointsRoundTrip
flags_and_points-RoundTrip = (flags_structs-RoundTrip, points_structs-RoundTrip)
