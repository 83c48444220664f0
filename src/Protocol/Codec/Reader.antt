-- ===== src/Protocol/Codec/Reader.antt =====
-- The trait `Codeable` of protocol/src/codec/mod.rs. A writer is a growing `Vec<u8>`, so `encode`
-- returns what it appends; a reader is a cursor, so `decode` takes the bytes not yet read and
-- returns those it leaves. `decode` sets every part of `self`, so the old value is no argument.
use protanki_protocol_rs.Common.{
  ℕ, ◌≡◌, refl, [], ◌∷◌, ◌++◌, append_assoc, append-nil, length, length-append, take, drop, All,
  leb, if◌then◌else◌, take-append, drop-append, arith,
}
use protanki_protocol_rs.Common.Bytes.{Bytes, IsByte}
use protanki_protocol_rs.Protocol.Error.{
  ProtocolError, io_error, unexpected_eof, ProtocolResult, ok, err, panic,
}

abbrev pub Reader : Type 0 → Type 0
Reader A = Bytes → ProtocolResult (A × Bytes)

unfoldable pub pure : {A : Type 0} → A → Reader A
pure a bytes = ok (a, bytes)

unfoldable pub fail : {A : Type 0} → ProtocolError → Reader A
fail e bytes = err e

infixl 5 ◌>>=◌
unfoldable pub ◌>>=◌ : {A B : Type 0} → Reader A → (A → Reader B) → Reader B
◌>>=◌ m f bytes = elim (m bytes) [ ok (a, rest) ↦ f a rest | err e ↦ err e | panic ↦ panic ]

-- `read_exact` of a cursor.
unfoldable pub read_exact : ℕ → Reader Bytes
read_exact n bytes =
    if leb n (length bytes) then ok (take n bytes, drop n bytes) else err (io_error unexpected_eof)

-- One write after another, each with `?`.
infixr 64 ◌⧺◌
unfoldable pub ◌⧺◌ : ProtocolResult Bytes → ProtocolResult Bytes → ProtocolResult Bytes
ok a ⧺ ok b = ok (a ++ b)
ok a ⧺ err e = err e
ok a ⧺ panic = panic
err e ⧺ w = err e
panic ⧺ w = panic

pub record Codec (A : Type 0) : Type 0 where
  pub encode : A → ProtocolResult Bytes
  pub decode : Reader A

-- The writes succeed, and the reader takes exactly what they wrote and answers `v`.
pub record Carries {A : Type 0} (d : Reader A) (w : ProtocolResult Bytes) (v : A) : Type 0 where
  pub written : Bytes
  pub writes : w ≡ ok written
  pub bytes : All IsByte written
  pub reads : (rest : Bytes) → d (written ++ rest) ≡ ok (v, rest)

abbrev pub RoundTrips : {A : Type 0} → Codec A → (A → Type 0) → Type 0
RoundTrips {A} c Valid = (v : A) → Valid v → Carries c.decode (c.encode v) v

pub All-append : (xs ys : Bytes) → All IsByte xs → All IsByte ys → All IsByte (xs ++ ys)
All-append [] ys h k = k
All-append (x ∷ xs) ys h k = (h.0, All-append xs ys h.1 k)

pub Carries-pure : {A : Type 0} (v : A) → Carries (pure v) (ok []) v
unfolding pure
Carries-pure v = record { written = []; writes = refl; bytes = tt; reads = λ rest. refl }

pub Carries-bind :
    {A B : Type 0} {d : Reader A} {w w' : ProtocolResult Bytes} (k : A → Reader B) (a : A) {b : B}
    → Carries d w a
    → Carries (k a) w' b
    → Carries (d >>= k) (w ⧺ w') b
unfolding ◌>>=◌ ◌⧺◌
Carries-bind k a p q = record {
  written = p.written ++ q.written;
  writes = ground (arith, p.writes, q.writes);
  bytes = All-append p.written q.written p.bytes q.bytes;
  reads = λ rest.
      ground
        (arith, append_assoc p.written q.written rest, p.reads (q.written ++ rest), q.reads rest);
}

pub Carries-read_exact :
    (n : ℕ) (xs : Bytes) → length xs ≡ n → All IsByte xs → Carries (read_exact n) (ok xs) xs
unfolding read_exact
Carries-read_exact n xs e h = record {
  written = xs;
  writes = refl;
  bytes = h;
  reads = λ rest.
      ground (
        arith,
        length-append xs rest,
        rw e at (take-append xs rest),
        rw e at (drop-append xs rest),
      );
}

pub Carries-map :
    {A B : Type 0} {d : Reader A} {w : ProtocolResult Bytes} (f : A → B) (a : A)
    → Carries d w a
    → Carries (d >>= λ x. pure (f x)) w (f a)
unfolding ◌>>=◌ pure
Carries-map f a p = record {
  written = p.written;
  writes = p.writes;
  bytes = p.bytes;
  reads = λ rest. ground (arith, p.reads rest);
}

⧺-nil : (w : ProtocolResult Bytes) → w ⧺ ok [] ≡ w
unfolding ◌⧺◌
⧺-nil (ok bytes) = rw (append-nil bytes)
⧺-nil (err e) = refl
⧺-nil panic = refl

-- The reader goes on without reading.
pub Carries-end :
    {A B : Type 0} {d : Reader A} {w : ProtocolResult Bytes} (k : A → Reader B) (a : A) {b : B}
    → Carries d w a
    → Carries (k a) (ok []) b
    → Carries (d >>= k) w b
Carries-end {d} {w} k a {b} p q = rw (⧺-nil w) at (Carries-bind k a p q)
