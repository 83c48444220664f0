-- ===== src/Protocol/Codec/Basics.antt =====
-- protocol/src/codec/basics.rs, but for `Length`. A `String` is its bytes; that they are UTF-8 is what
-- the type promises in the source and `IsString` here.
pub mod RoundTrip
use protanki_protocol_rs.Common.{
  ℕ, zero, suc, ◌+◌, ◌%◌, ◌^◌, ◌<◌, ◌≡◌, refl, sym, ap, arith, Bool, true, false, Option, none,
  some, List, [], ◌∷◌, length, All, ltb, ◌==◌, leb, if◌then◌else◌, ◌&&◌,
}
use protanki_protocol_rs.Common.Bytes.{Bytes, IsByte, IsU32}
use protanki_protocol_rs.Protocol.Error.{ProtocolResult, ok, codec_utf8_decode_error}
use protanki_protocol_rs.Protocol.Codec.Reader.{
  Reader, pure, fail, read_exact, ◌>>=◌, ◌⧺◌, Codec, Carries, RoundTrips, Carries-pure,
  Carries-bind, Carries-map, Carries-read_exact,
}
use protanki_protocol_rs.Protocol.Codec.Primitives.{
  ByteOrder, u8, u32, u8-RoundTrips, u32-RoundTrips,
}

-- Where a UTF-8 decoder stands: between characters, or before `n` more bytes, the next of them
-- in 0x80 .. 0xBF or, after the leading bytes E0, ED, F0 and F4, in a part of that range.
pub data Utf8State : Type 0 where
  start need_one need_two need_three after_e0 after_ed after_f0 after_f4 invalid : Utf8State

abbrev pub in_range : ℕ → ℕ → ℕ → Bool
in_range lo hi b = leb lo b && leb b hi

unfoldable pub utf8_step : Utf8State → ℕ → Utf8State
utf8_step start b =
    if ltb b 0x80
    then start
    else if in_range 0xc2 0xdf b
    then need_one
    else if b == 0xe0
    then after_e0
    else if b == 0xed
    then after_ed
    else if in_range 0xe1 0xef b
    then need_two
    else if b == 0xf0
    then after_f0
    else if b == 0xf4
    then after_f4
    else if in_range 0xf1 0xf3 b
    then need_three
    else invalid
utf8_step need_one b = if in_range 0x80 0xbf b then start else invalid
utf8_step need_two b = if in_range 0x80 0xbf b then need_one else invalid
utf8_step need_three b = if in_range 0x80 0xbf b then need_two else invalid
utf8_step after_e0 b = if in_range 0xa0 0xbf b then need_one else invalid
utf8_step after_ed b = if in_range 0x80 0x9f b then need_one else invalid
utf8_step after_f0 b = if in_range 0x90 0xbf b then need_two else invalid
utf8_step after_f4 b = if in_range 0x80 0x8f b then need_two else invalid
utf8_step invalid b = invalid

unfoldable pub utf8_run : Utf8State → Bytes → Utf8State
unfolding utf8_step
utf8_run s [] = s
utf8_run s (b ∷ bs) = utf8_run (utf8_step s b) bs

-- The test of `String::from_utf8`.
unfoldable pub is_utf8 : Bytes → Bool
unfolding utf8_run
is_utf8 bs = elim (utf8_run start bs) [ start ↦ true | _ ↦ false ]

pub record IsString (s : Bytes) : Type 0 where
  pub utf8 : is_utf8 s ≡ true
  pub bytes : All IsByte s
  pub short : IsU32 (length s)

abbrev pub IsVec : {A : Type 0} → (A → Type 0) → List A → Type 0
IsVec Valid xs = All Valid xs × IsU32 (length xs)

abbrev pub IsOption : {A : Type 0} → (A → Type 0) → Option A → Type 0
IsOption Valid none = Unit {0}
IsOption Valid (some a) = Valid a

abbrev pub IsAlways : Bool → Type 0
IsAlways b = Unit {0}

module _ ⦃order : ByteOrder⦄ where
  unfoldable pub bool : Codec Bool
  bool = record {
    encode = λ b. u8.encode (if b then 1 else 0);
    decode = do
      b ← u8.decode
      pure (ltb 0 b);
  }

  unfoldable pub encode_string : Bytes → ProtocolResult Bytes
  unfolding bool
  encode_string [] = bool.encode true
  encode_string (b ∷ bs) =
      bool.encode false ⧺ u32.encode (length (b ∷ bs) % 2 ^ 32) ⧺ ok (b ∷ bs) ⧺ ok []

  unfoldable pub from_utf8 : Bytes → Reader Bytes
  unfolding is_utf8
  from_utf8 buffer = if is_utf8 buffer then pure buffer else fail codec_utf8_decode_error

  unfoldable pub decode_string_content : Bool → Reader Bytes
  unfolding from_utf8
  decode_string_content true = pure []
  decode_string_content false = do length ← u32.decode; buffer ← read_exact length; from_utf8 buffer

  unfoldable pub string : Codec Bytes
  unfolding encode_string decode_string_content
  string = record {
    encode = encode_string;
    decode = do
      empty ← bool.decode
      decode_string_content empty;
  }

  module _ {A : Type 0} (c : Codec A) where
    unfoldable pub encode_entries : List A → ProtocolResult Bytes
    encode_entries [] = ok []
    encode_entries (x ∷ xs) = c.encode x ⧺ encode_entries xs

    -- The loop over the resized vector.
    unfoldable pub decode_entries : ℕ → Reader (List A)
    decode_entries zero = pure []
    decode_entries (suc n) = do x ← c.decode; xs ← decode_entries n; pure (x ∷ xs)

    unfoldable pub vec : Codec (List A)
    unfolding encode_entries decode_entries
    vec = record {
      encode = λ xs. u32.encode (length xs % 2 ^ 32) ⧺ encode_entries xs;
      decode = do
        size ← u32.decode
        decode_entries size;
    }

    unfoldable pub encode_option : Option A → ProtocolResult Bytes
    encode_option (some value) = bool.encode false ⧺ c.encode value ⧺ ok []
    encode_option none = bool.encode true ⧺ ok []

    unfoldable pub decode_option_content : Bool → Reader (Option A)
    decode_option_content true = pure none
    decode_option_content false = do entry ← c.decode; pure (some entry)

    unfoldable pub option : Codec (Option A)
    unfolding encode_option decode_option_content
    option = record {
      encode = encode_option;
      decode = do
        empty ← bool.decode
        decode_option_content empty;
    }
