-- ===== src/Protocol/ResourcePath/Injective.antt =====
-- What a path of protocol/src/resources.rs says of its resource.
use protanki_protocol_rs.Common.{
  ℕ, ◌+◌, ◌*◌, ◌/◌, ◌%◌, ◌^◌, ◌≡◌, refl, ap, ◌∙◌, arith, Option, none, some, List, [], ◌∷◌, ◌++◌,
  ◌==◌, if◌then◌else◌, All, take, drop,
}
use protanki_protocol_rs.Common.Bytes.{Bytes, IsU64}
use protanki_protocol_rs.Common.Decimal.{
  format, format_octal, format-IsDigit, format_octal-IsDigit, scan, scan-format, scan-format_octal,
  IsDigit,
}
use protanki_protocol_rs.Protocol.Codec.Primitives.{ByteOrder}
use protanki_protocol_rs.Protocol.ResourcePath.{to_be_bytes, build_resource_path}

abbrev cons_first : ℕ → List Bytes → List Bytes
cons_first c [] = (c ∷ []) ∷ []
cons_first c (part ∷ parts) = (c ∷ part) ∷ parts

-- The parts between the slashes.
unfoldable pub split : Bytes → List Bytes
split [] = [] ∷ []
split (c ∷ cs) = if c == b'/' then [] ∷ split cs else cons_first c (split cs)

abbrev pub number : ℕ → Bytes → Option ℕ
number base part = scan base (2 ^ 64) 0 part

infixl 5 ◌>>=◌
abbrev ◌>>=◌ : {A B : Type 0} → Option A → (A → Option B) → Option B
none >>= f = none
some a >>= f = f a

abbrev pub read_parts : List Bytes → Option (ℕ × ℕ)
read_parts (a ∷ b ∷ c ∷ d ∷ v ∷ []) = do
  a' ← number 10 a
  b' ← number 10 b
  c' ← number 10 c
  d' ← number 10 d
  v' ← number 8 v
  some (((a' * 2 ^ 16 + b') * 2 ^ 8 + c') * 2 ^ 8 + d', v')
read_parts _ = none

-- A reader of paths.
unfoldable pub read_path : Bytes → Option (ℕ × ℕ)
unfolding split
read_path path = read_parts (split path)

split_last : (xs : Bytes) → All IsDigit xs → split xs ≡ xs ∷ []
unfolding split
split_last [] a = refl
split_last (x ∷ xs) a = rw (split_last xs a.1) (ground (arith, a.0))

split_first : (xs rest : Bytes) → All IsDigit xs → split (xs ++ (b'/' ∷ rest)) ≡ xs ∷ split rest
unfolding split
split_first [] rest a = refl
split_first (x ∷ xs) rest a = rw (split_first xs rest a.1) (ground (arith, a.0))

module _ ⦃order : ByteOrder⦄ where
  from_bytes_one : (a : ℕ) → order.from_bytes (a ∷ []) ≡ a
  from_bytes_one a = order.from_bytes-append [] a ∙ rw order.from_bytes-nil (omega arith)

  from_bytes_two : (a b : ℕ) → order.from_bytes (a ∷ b ∷ []) ≡ a * 256 + b
  from_bytes_two a b = order.from_bytes-append (a ∷ []) b ∙ rw (from_bytes_one a) refl

  from_bytes_four :
      (a b c d : ℕ) → order.from_bytes (a ∷ b ∷ c ∷ d ∷ []) ≡ ((a * 256 + b) * 256 + c) * 256 + d
  from_bytes_four a b c d =
      order.from_bytes-append (a ∷ b ∷ c ∷ []) d
      ∙ rw (order.from_bytes-append (a ∷ b ∷ []) c, from_bytes_two a b) refl

  -- The four numbers of an id.
  build_parts :
      (id version : ℕ)
      → IsU64 id
      → build_resource_path id version
        ≡ format (id / 2 ^ 32)
          ++ (b'/'
              ∷ (format (id / 2 ^ 16 % 2 ^ 16)
                  ++ (b'/'
                      ∷ (format (id / 2 ^ 8 % 2 ^ 8)
                          ++ (b'/' ∷ (format (id % 2 ^ 8) ++ (b'/' ∷ format_octal version)))))))
  unfolding build_resource_path
  build_parts id version h =
      let e : order.from_bytes (take 4 (to_be_bytes id)) ≡ id / 2 ^ 32 =
        from_bytes_four _ _ _ _ ∙ omega arith in
      let f : order.from_bytes (take 2 (drop 4 (to_be_bytes id))) ≡ id / 2 ^ 16 % 2 ^ 16 =
        from_bytes_two _ _ ∙ omega arith in
      let g : order.from_bytes (take 1 (drop 6 (to_be_bytes id))) ≡ id / 2 ^ 8 % 2 ^ 8 =
        from_bytes_one _ ∙ omega arith in
      let k : order.from_bytes (take 1 (drop 7 (to_be_bytes id))) ≡ id % 2 ^ 8 =
        from_bytes_one _ ∙ omega arith in
      rw (e, f, g, k) refl

  -- A path names one resource: it can be read back to the id and the version, of 64 bits each.
  pub read_path-build_resource_path :
      (id version : ℕ)
      → IsU64 id
      → IsU64 version
      → read_path (build_resource_path id version) ≡ some (id, version)
  unfolding read_path
  read_path-build_resource_path id version h k =
      rw
        (
          build_parts id version h,
          split_first (format (id / 2 ^ 32)) _ (format-IsDigit _),
          split_first (format (id / 2 ^ 16 % 2 ^ 16)) _ (format-IsDigit _),
          split_first (format (id / 2 ^ 8 % 2 ^ 8)) _ (format-IsDigit _),
          split_first (format (id % 2 ^ 8)) _ (format-IsDigit _),
          split_last (format_octal version) (format_octal-IsDigit _),
          scan-format (id / 2 ^ 32) (omega arith),
          scan-format (id / 2 ^ 16 % 2 ^ 16) (omega arith),
          scan-format (id / 2 ^ 8 % 2 ^ 8) (omega arith),
          scan-format (id % 2 ^ 8) (omega arith),
          scan-format_octal version k,
        )
        (ap (λ (n : ℕ). some (n, version)) (omega arith))
