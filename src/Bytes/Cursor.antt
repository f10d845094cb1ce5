-- ===== src/Bytes/Cursor.antt =====
-- Cursors over bytes, which several files of the core crate declare in the same way.
pub mod Reads
use voodoo_store.Prelude.{ℕ, Bool, Option, none, some, [], ◌∷◌, length, ◌==◌, leb, if◌then◌else◌}
use voodoo_store.Result.{ok_or}
use voodoo_store.Exec.{Exec, pure, lift, gets, modify, ◌>>=◌, ◌>>◌}
use voodoo_store.Bytes.{Bytes, from_le_bytes, slice}
use voodoo_store.Bytes.Words.{checked_add}

pub record Cursor : Type 0 where
  pub bytes : Bytes
  pub pos : ℕ

abbrev pub Decoder : Type 0 → Type 0 → Type 0
Decoder E A = Exec Cursor E A

-- `bytes.get(from..to)`, for `from <= to`.
unfoldable pub get_range : Bytes → ℕ → ℕ → Option Bytes
get_range bytes from to = if leb to (length bytes) then some (slice from to bytes) else none

-- The first byte of the one that was taken.
abbrev pub first_byte : Bytes → Option ℕ
first_byte [] = none
first_byte (b ∷ bs) = some b

unfoldable pub finished : Cursor → Bool
finished c = c.pos == length c.bytes

module _ {E : Type 0} (corrupt : E) where
  -- `Cursor::take`
  unfoldable pub take_bytes : ℕ → Decoder E Bytes
  take_bytes len = do
    pos ← gets (λ c. c.pos)
    end ← lift (ok_or (checked_add pos len) corrupt)
    bytes ← gets (λ c. c.bytes)
    value ← lift (ok_or (get_range bytes pos end) corrupt)
    modify (λ c. record c { pos = end })
    pure value

  unfoldable pub take_u8 : Decoder E ℕ
  take_u8 = do value ← take_bytes 1; lift (ok_or (first_byte value) corrupt)

  unfoldable pub take_u32 : Decoder E ℕ
  take_u32 = do value ← take_bytes 4; pure (from_le_bytes value)

  unfoldable pub take_u64 : Decoder E ℕ
  take_u64 = do value ← take_bytes 8; pure (from_le_bytes value)

  unfoldable pub take_field : Decoder E Bytes
  take_field = do len ← take_u32; take_bytes len
