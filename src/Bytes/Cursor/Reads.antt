-- ===== src/Bytes/Cursor/Reads.antt =====
-- What a decoder reads off the bytes that stand at its cursor.
use voodoo_store.Prelude.{
  ℕ, ◌+◌, ◌^◌, ◌<◌, ◌≡◌, refl, sym, ap, ◌∙◌, [], ◌∷◌, ◌++◌, length, arith, lt→ltb, length-append,
  subst, le→leb, ap₂,
}
use mathlib.Core.List.{append_assoc, append-nil}
use voodoo_store.Result.{Result, ok, ok_or}
use voodoo_store.Bytes.{
  Bytes, slice-append, to_le_bytes, from_le_bytes, length-to_le_bytes, from_le_bytes-to_le_bytes,
}
use voodoo_store.Bytes.Cursor.{
  Cursor, take_bytes, take_u8, take_u32, take_u64, take_field, get_range, Decoder, first_byte,
}
use voodoo_store.Exec.{lift, pure, continue, ◌>>=◌}

-- A cursor between what was read and what is left.
abbrev pub between : Bytes → Bytes → Cursor
between read left = record { bytes = read ++ left; pos = length read }

-- The decoder reads `chunk` wherever it stands, and returns `a`.
pub record Reads {E A : Type 0} (m : Decoder E A) (chunk : Bytes) (a : A) : Type 0 where
  pub at :
      (read left : Bytes)
      → length (read ++ (chunk ++ left)) < 2 ^ 64
      → m (between read (chunk ++ left)) ≡ (ok a, between (read ++ chunk) left)

-- The decoder reads `chunk` to the end of the bytes, and returns `a`.
pub record Ends {E A : Type 0} (m : Decoder E A) (chunk : Bytes) (a : A) : Type 0 where
  pub at : (read : Bytes) → length (read ++ chunk) < 2 ^ 64 → (m (between read chunk)).0 ≡ ok a

module _ {E A B : Type 0} {m : Decoder E A} (f : A → Decoder E B) {first second : Bytes} {a : A}
    {b : B} where
  pub Reads-bind : Reads m first a → Reads (f a) second b → Reads (m >>= f) (first ++ second) b
  Reads-bind p q = record {
    at = λ read left h.
        let shift = append_assoc first second left in
        let moved = append_assoc read first (second ++ left) in
        let size : length (read ++ (first ++ (second ++ left))) < 2 ^ 64 =
          subst (λ bs. length (read ++ bs) < 2 ^ 64) shift h in
        ap (λ bs. (m >>= f) (between read bs)) shift
        ∙ ap (λ p. continue p.0 f p.1) (p.at read (second ++ left) size)
        ∙ q.at (read ++ first) left (subst (λ bs. length bs < 2 ^ 64) (sym moved) size)
        ∙ ap (λ bs. (ok b, between bs left)) (append_assoc read first second);
  }

  pub Ends-bind : Reads m first a → Ends (f a) second b → Ends (m >>= f) (first ++ second) b
  Ends-bind p q = record {
    at = λ read h.
        ap (λ p. (continue p.0 f p.1).0) (p.at read second h)
        ∙ q.at (read ++ first)
            (subst (λ bs. length bs < 2 ^ 64) (sym (append_assoc read first second)) h);
  }

pub Ends-lift :
    {E A B : Type 0} (r : Result E A) (f : A → Decoder E B) {chunk : Bytes} {a : A} {b : B}
    → r ≡ ok a
    → Ends (f a) chunk b
    → Ends (lift r >>= f) chunk b
Ends-lift r f {chunk} e p = record {
  at = λ read h. ap (λ x. (continue x f (between read chunk)).0) e ∙ p.at read h;
}

-- What the decoder returns is rewritten.
pub Reads-pure :
    {E A B : Type 0} {m : Decoder E A} (f : A → B) {chunk : Bytes} {a : A} {b : B}
    → Reads m chunk a
    → f a ≡ b
    → Reads (m >>= λ x. pure (f x)) chunk b
Reads-pure f {chunk} p e = record {
  at = λ read left h.
      ap (λ q. continue q.0 (λ x. pure (f x)) q.1) (p.at read left h)
      ∙ ap (λ x. (ok x, between (read ++ chunk) left)) e;
}

pub Reads-nothing : {E A : Type 0} (a : A) → Reads (pure {E = E} a) [] a
Reads-nothing a = record {
  at = λ read left h. ap (λ bs. (ok a, between bs left)) (sym (append-nil read));
}

module _ {E : Type 0} (corrupt : E) where
  pub take_bytes-Reads :
      (chunk : Bytes) (n : ℕ) → n ≡ length chunk → Reads (take_bytes corrupt n) chunk chunk
  unfolding take_bytes get_range
  take_bytes-Reads chunk n e = record {
    at = λ read left h.
        let all : length (read ++ (chunk ++ left)) ≡ length read + (n + length left) =
          omega (arith, length-append read (chunk ++ left), length-append chunk left, e) in
        rw
          (
            lt→ltb (length read + n) (2 ^ 64) (omega (arith, h, all)),
            le→leb (length read + n) (length (read ++ (chunk ++ left))) (omega (arith, all)),
            slice-append read chunk left (length read) (length read + n) refl (omega (arith, e)),
          )
          (ap₂ (λ bytes pos. (ok chunk, cursor bytes pos)) (sym (append_assoc read chunk left))
            (omega (arith, e, length-append read chunk)));
  }
    where
      cursor : Bytes → ℕ → Cursor
      cursor bytes pos = record { bytes = bytes; pos = pos }

  pub take_u8-Reads : (b : ℕ) → Reads (take_u8 corrupt) (b ∷ []) b
  unfolding take_u8
  take_u8-Reads b = record {
    at = λ read left h.
        ap (λ q. continue q.0 (λ value. lift (ok_or (first_byte value) corrupt)) q.1)
          ((take_bytes-Reads (b ∷ []) 1 refl).at read left h);
  }

  pub take_u32-Reads : (n : ℕ) → n < 2 ^ 32 → Reads (take_u32 corrupt) (to_le_bytes 4 n) n
  unfolding take_u32
  take_u32-Reads n h =
      Reads-pure from_le_bytes (take_bytes-Reads (to_le_bytes 4 n) 4 (sym (length-to_le_bytes 4 n)))
        (from_le_bytes-to_le_bytes 4 n h)

  pub take_u64-Reads : (n : ℕ) → n < 2 ^ 64 → Reads (take_u64 corrupt) (to_le_bytes 8 n) n
  unfolding take_u64
  take_u64-Reads n h =
      Reads-pure from_le_bytes (take_bytes-Reads (to_le_bytes 8 n) 8 (sym (length-to_le_bytes 8 n)))
        (from_le_bytes-to_le_bytes 8 n h)

  pub take_field-Reads :
      (bs : Bytes)
      → length bs < 2 ^ 32
      → Reads (take_field corrupt) (to_le_bytes 4 (length bs) ++ bs) bs
  unfolding take_field
  take_field-Reads bs h =
      Reads-bind _ (take_u32-Reads (length bs) h) (take_bytes-Reads bs (length bs) refl)
