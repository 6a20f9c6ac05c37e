-- ===== src/Encoding.antt =====
-- core/encoding.py: fixed-width big-endian integers and length-prefixed bytes. `Writer` collects
-- parts, `Reader` walks a buffer; an integer here is not negative, so `_uint_bytes` only tests its
-- upper bound.
pub mod BigEndian
pub mod Writes
pub mod Reads
pub mod Sound
use tal_cash.Base.{
  Bytes, Error, List, Result, [], bind, decode_error, drop, err, if◌then◌else◌, leb, length, ltb,
  not, ok, overflow_error, suc, take, value_error, zero, ℕ, ◌%◌, ◌*◌, ◌++◌, ◌+◌, ◌-◌, ◌/◌, ◌==◌,
  ◌^◌, ◌∷◌,
}

-- `value.to_bytes(size, "big")`, for a value that fits.
unfoldable pub to_bytes : ℕ → ℕ → Bytes
to_bytes zero value = []
to_bytes (suc size) value = to_bytes size (value / 256) ++ (value % 256) ∷ []

-- `int.from_bytes(bytes, "big")`
unfoldable pub from_bytes_acc : ℕ → Bytes → ℕ
from_bytes_acc acc [] = acc
from_bytes_acc acc (b ∷ bs) = from_bytes_acc (acc * 256 + b) bs

unfoldable pub from_bytes : Bytes → ℕ
unfolding from_bytes_acc
from_bytes = from_bytes_acc 0

-- Python's `value.to_bytes(size, "big")`
unfoldable pub int_to_bytes : ℕ → ℕ → Result Bytes
int_to_bytes size value =
    if leb (2 ^ (8 * size)) value then err overflow_error else ok (to_bytes size value)

unfoldable pub uint_bytes : ℕ → ℕ → Result Bytes
uint_bytes value size =
    if leb (2 ^ (8 * size)) value then err value_error else ok (to_bytes size value)

pub record Writer : Type 0 where
  pub parts : List Bytes

abbrev pub new_writer : Writer
new_writer = record { parts = [] }

-- A method of `Writer` that returns the writer, for chains of calls.
abbrev pub Writing : Type 0
Writing = Writer → Result Writer

infixr 5 ◌⨾◌
abbrev pub ◌⨾◌ : Writing → Writing → Writing
(m ⨾ k) w = bind (m w) k

unfoldable pub append_part : Bytes → Writing
append_part part w = ok (record { parts = w.parts ++ part ∷ [] })

unfoldable pub write_uint : ℕ → ℕ → Writing
unfolding append_part
write_uint size value w = bind (uint_bytes value size) λ part. append_part part w

abbrev pub write_u8 : ℕ → Writing
write_u8 = write_uint 1

abbrev pub write_u32 : ℕ → Writing
write_u32 = write_uint 4

abbrev pub write_u64 : ℕ → Writing
write_u64 = write_uint 8

abbrev pub write_u256 : ℕ → Writing
write_u256 = write_uint 32

unfoldable pub write_fixed : Bytes → ℕ → Writing
unfolding append_part
write_fixed part size w = if not (length part == size) then err value_error else append_part part w

unfoldable pub write_var8 : Bytes → Writing
unfolding append_part
write_var8 part = write_u8 (length part) ⨾ append_part part

abbrev pub write_raw : Bytes → Writing
write_raw = append_part

abbrev pub join : List Bytes → Bytes
join [] = []
join (part ∷ parts) = part ++ join parts

unfoldable pub get_value : Writer → Bytes
get_value w = join w.parts

pub record Reader : Type 0 where
  pub octets : Bytes
  pub pos : ℕ

abbrev pub new_reader : Bytes → Reader
new_reader octets = record { octets = octets; pos = 0 }

abbrev pub Reading : Type 0 → Type 0
Reading A = Reader → Result (A × Reader)

module _ {A : Type 0} where
  abbrev pub pure : A → Reading A
  pure a r = ok (a, r)

  abbrev pub raise : Error → Reading A
  raise e r = err e

infixl 5 ◌>>=◌ ◌>>◌
unfoldable pub ◌>>=◌ : {A B : Type 0} → Reading A → (A → Reading B) → Reading B
◌>>=◌ m f r = bind (m r) λ (a, r'). f a r'

abbrev pub ◌>>◌ : {A B : Type 0} → Reading A → Reading B → Reading B
m >> k = m >>= λ _. k

unfoldable pub take_bytes : ℕ → Reading Bytes
take_bytes size r =
    let end = r.pos + size in
    if ltb (length r.octets) end
    then err decode_error
    else ok (take size (drop r.pos r.octets), record r { pos = end })

abbrev pub first_byte : Bytes → ℕ
first_byte [] = 0
first_byte (b ∷ _) = b

unfoldable pub read_u8 : Reading ℕ
read_u8 = do chunk ← take_bytes 1; pure (first_byte chunk)

unfoldable pub read_uint : ℕ → Reading ℕ
read_uint size = do chunk ← take_bytes size; pure (from_bytes chunk)

abbrev pub read_u32 : Reading ℕ
read_u32 = read_uint 4

abbrev pub read_u64 : Reading ℕ
read_u64 = read_uint 8

abbrev pub read_u256 : Reading ℕ
read_u256 = read_uint 32

abbrev pub read_fixed : ℕ → Reading Bytes
read_fixed = take_bytes

unfoldable pub read_var8 : Reading Bytes
read_var8 = do size ← read_u8; take_bytes size

abbrev pub remaining : Reader → ℕ
remaining r = length r.octets - r.pos

unfoldable pub expect_end : Reading (Unit {0})
expect_end r = if not (r.pos == length r.octets) then err decode_error else ok (tt, r)

-- `w = Writer(); ...; return w.getvalue()`
unfoldable pub written : Writing → Result Bytes
unfolding get_value
written m = bind (m new_writer) λ w. ok (get_value w)

-- A value that is the whole of its input, as `header_from_bytes` and its kin read it.
unfoldable pub read_all : {A : Type 0} → Reading A → Bytes → Result A
read_all p octets = bind (p (new_reader octets)) λ (a, r). bind (expect_end r) λ _. ok a
