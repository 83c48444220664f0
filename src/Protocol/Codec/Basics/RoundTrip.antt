-- ===== src/Protocol/Codec/Basics/RoundTrip.antt =====
-- Booleans, strings, vectors and options of protocol/src/codec/basics.rs are read back as written.
use protanki_protocol_rs.Common.{
  ℕ, ◌%◌, ◌^◌, ◌≡◌, refl, arith, true, false, none, some, List, [], ◌∷◌, length, All,
}
use protanki_protocol_rs.Common.Bytes.{Bytes, IsU32}
use protanki_protocol_rs.Protocol.Error.{ok}
use protanki_protocol_rs.Protocol.Codec.Reader.{
  Codec, Carries, RoundTrips, Carries-pure, Carries-bind, Carries-map, Carries-end,
  Carries-read_exact,
}
use protanki_protocol_rs.Protocol.Codec.Primitives.{ByteOrder, u32, u8-RoundTrips, u32-RoundTrips}
use protanki_protocol_rs.Protocol.Codec.Basics.{
  bool, string, from_utf8, is_utf8, IsString, vec, encode_entries, decode_entries, option, IsVec,
  IsOption, IsAlways,
}

same_u32 : (n : ℕ) → IsU32 n → n % 2 ^ 32 ≡ n
same_u32 n h = omega arith

module _ ⦃order : ByteOrder⦄ where
  pub bool-RoundTrips : RoundTrips bool IsAlways
  unfolding bool
  bool-RoundTrips true h = Carries-map _ 1 (u8-RoundTrips 1 (omega arith))
  bool-RoundTrips false h = Carries-map _ 0 (u8-RoundTrips 0 (omega arith))

  from_utf8-Carries : (s : Bytes) → is_utf8 s ≡ true → Carries (from_utf8 s) (ok []) s
  unfolding from_utf8
  from_utf8-Carries s h = rw (h, from_utf8) (Carries-pure s)

  length-Carries : (n : ℕ) → IsU32 n → Carries u32.decode (u32.encode (n % 2 ^ 32)) n
  length-Carries n h = rw (same_u32 n h) (u32-RoundTrips n h)

  -- A string that is UTF-8 and shorter than 2 ^ 32 bytes is read back as written.
  pub string-RoundTrips : RoundTrips string IsString
  unfolding string
  string-RoundTrips [] v = Carries-end _ true (bool-RoundTrips true tt) (Carries-pure [])
  string-RoundTrips (b ∷ bs) v = Carries-bind _ false (bool-RoundTrips false tt) (
      Carries-bind _ (length (b ∷ bs)) (length-Carries _ v.short) (
        Carries-bind _ (b ∷ bs) (Carries-read_exact _ (b ∷ bs) refl v.bytes)
          (from_utf8-Carries (b ∷ bs) v.utf8)))

  module _ {A : Type 0} (c : Codec A) (Valid : A → Type 0) (trips : RoundTrips c Valid) where
    entries-Carries :
        (xs : List A)
        → All Valid xs
        → Carries (decode_entries c (length xs)) (encode_entries c xs) xs
    unfolding decode_entries encode_entries
    entries-Carries [] h = Carries-pure []
    entries-Carries (x ∷ xs) h =
        Carries-bind _ x (trips x h.0)
          (Carries-end _ xs (entries-Carries xs h.1) (Carries-pure (x ∷ xs)))

    pub vec-RoundTrips : RoundTrips (vec c) (IsVec Valid)
    unfolding vec
    vec-RoundTrips xs v = Carries-bind _ (length xs) (length-Carries _ v.1) (entries-Carries xs v.0)

    pub option-RoundTrips : RoundTrips (option c) (IsOption Valid)
    unfolding option
    option-RoundTrips none v = Carries-bind _ true (bool-RoundTrips true tt) (Carries-pure none)
    option-RoundTrips (some a) v =
        Carries-bind _ false (bool-RoundTrips false tt)
          (Carries-bind _ a (trips a v) (Carries-pure (some a)))

    -- From a codec whose values are read back as written: a vector of such values that is shorter than
    -- 2 ^ 32 is read back as written, and so is an option of such a value.
    pub containers-RoundTrip :
        RoundTrips (vec c) (IsVec Valid) × RoundTrips (option c) (IsOption Valid)
    containers-RoundTrip = (vec-RoundTrips, option-RoundTrips)
