-- ===== src/BitVector.antt =====
-- src/components/JB_Util/BitVector.c: vectors of bits packed into bytes.
--
-- A `char` is a bit pattern below 256. The allocators are left out: `malloc` succeeds, so a
-- vector is a value, and `memset` fills all of its bytes. A function that may write to `this`
-- returns it as the first part of its result.
pub mod Valid
pub mod Access
pub mod Combine
pub mod Walk
pub mod Compare
use junction_box.Base.{
  ℕ, zero, suc, ◌+◌, ◌-◌, ◌*◌, ◌/◌, ◌%◌, ◌^◌, Bool, true, false, not, ◌&&◌, List, [], ◌∷◌, ◌++◌,
  bit_and, bit_or, bit_xor, ltb, ◌==◌, nonzero, if◌then◌else◌, set, replicate, length, Outcome, ok,
  abort, fault, ◌>>=◌, ◌>>◌, assert, read, write,
}

pub record BitVector : Type 0 where
  pub bits : List ℕ
  pub size : ℕ
  pub num_bytes : ℕ

abbrev pub char_bit : ℕ
char_bit = 8

abbrev pub schar_max : ℕ
schar_max = 127

-- The flags `BV_OP_IN_PLACE` and `BV_INIT_FILL`.
abbrev pub op_in_place : ℕ
op_in_place = 1

abbrev pub init_fill : ℕ
init_fill = 2

abbrev pub has_flag : ℕ → ℕ → Bool
has_flag flags flag = nonzero (bit_and flags flag)

-- `ceil(size / (double)CHAR_BIT)`
abbrev pub bytes_for : ℕ → ℕ
bytes_for size = (size + 7) / char_bit

unfoldable pub create : ℕ → ℕ → BitVector
create size flags =
    let init_val = if has_flag flags init_fill then schar_max else 0 in
    record { bits = replicate (bytes_for size) init_val; size = size; num_bytes = bytes_for size }

-- `get_bit_vector_ret`: `this` itself or a fresh vector of its size.
unfoldable pub get_bit_vector_ret : BitVector → ℕ → BitVector
unfolding create
get_bit_vector_ret this flags = if has_flag flags op_in_place then this else create this.size 0

-- `for (i = 0; i < numBytes; i++) ret->bits[i] = f(this->bits[i], other->bits[i])` with `left`
-- rounds left. In place `ret` is `this`, so that the loop reads what it has not yet written.
pub combine_loop : (ℕ → ℕ → ℕ) → Bool → ℕ → ℕ → List ℕ → List ℕ → List ℕ → Outcome (List ℕ)
combine_loop f in_place zero i this other ret = ok ret
combine_loop f in_place (suc left) i this other ret = do
  a ← read (if in_place then ret else this) i
  b ← read other i
  ret' ← write ret i (f a b)
  combine_loop f in_place left (i + 1) this other ret'

-- The common shape of `BitVector_And`, `BitVector_Or` and `BitVector_Xor`; the result is `this`
-- afterwards and the vector that is returned.
unfoldable pub combine : (ℕ → ℕ → ℕ) → BitVector → BitVector → ℕ → Outcome (BitVector × BitVector)
unfolding combine_loop get_bit_vector_ret
combine f this other flags = do
  let ret = get_bit_vector_ret this flags
  assert (this.size == other.size)
  bits ← combine_loop f (has_flag flags op_in_place) this.num_bytes 0 this.bits other.bits ret.bits
  let ret' = record ret { bits = bits }
  ok (if has_flag flags op_in_place then (ret', ret') else (this, ret'))

unfoldable pub and_ : BitVector → BitVector → ℕ → Outcome (BitVector × BitVector)
unfolding combine
and_ = combine bit_and

unfoldable pub or_ : BitVector → BitVector → ℕ → Outcome (BitVector × BitVector)
unfolding combine
or_ = combine bit_or

unfoldable pub xor_ : BitVector → BitVector → ℕ → Outcome (BitVector × BitVector)
unfolding combine
xor_ = combine bit_xor

-- `~c` cut to a `char`
abbrev pub complement : ℕ → ℕ
complement c = 2 ^ 8 - 1 - c

unfoldable pub not_ : BitVector → ℕ → Outcome (BitVector × BitVector)
unfolding combine_loop get_bit_vector_ret
not_ this flags = do
  let ret = get_bit_vector_ret this flags
  let flip = λ (a b : ℕ). complement a
  bits ←
      combine_loop flip (has_flag flags op_in_place) this.num_bytes 0 this.bits this.bits ret.bits
  let ret' = record ret { bits = bits }
  ok (if has_flag flags op_in_place then (ret', ret') else (this, ret'))

-- `1 << mnrIndex` for a minor index below 8
abbrev pub mask_at : ℕ → ℕ
mask_at mnr = 2 ^ mnr

-- The masked byte as it is returned: any non-zero pattern is true.
unfoldable pub get_bit : BitVector → ℕ → Outcome ℕ
get_bit this index = do
  assert (ltb index this.size)
  byte ← read this.bits (index / char_bit)
  ok (bit_and byte (mask_at (index % char_bit)))

-- The read, the change and the write of one byte that both setters make.
unfoldable pub set_bit_on : BitVector → ℕ → Outcome BitVector
set_bit_on this index = do
  assert (ltb index this.size)
  byte ← read this.bits (index / char_bit)
  bits ← write this.bits (index / char_bit) (bit_or byte (mask_at (index % char_bit)))
  ok (record this { bits = bits })

unfoldable pub set_bit_off : BitVector → ℕ → Outcome BitVector
set_bit_off this index = do
  assert (ltb index this.size)
  byte ← read this.bits (index / char_bit)
  let mask = complement (mask_at (index % char_bit))
  bits ← write this.bits (index / char_bit) (bit_and byte mask)
  ok (record this { bits = bits })

unfoldable pub set_byte : BitVector → ℕ → ℕ → Outcome BitVector
set_byte this index value = do bits ← write this.bits index value; ok (record this { bits = bits })

abbrev pub get_size : BitVector → ℕ
get_size this = this.size

abbrev pub get_num_bytes : BitVector → ℕ
get_num_bytes this = this.num_bytes

-- The walk over the bits that `BitVector_ToString` and `BitVector_GetNumOnBits` share. The inner
-- loop has `left` rounds left up to `CHAR_BIT`; `step` is its body, given the index of the bit
-- and `data & mask`.
module _ {S : Type 0} (step : S → ℕ → ℕ → Outcome S) (size : ℕ) where
  pub walk_byte : ℕ → ℕ → ℕ → ℕ → S → Outcome S
  walk_byte zero byte i j s = ok s
  walk_byte (suc left) byte i j s =
      let rest = (do
        s' ← step s (i * char_bit + j) (bit_and byte (mask_at j))
        walk_byte left byte i (j + 1) s') in
      if ltb (i * char_bit + j) size then rest else ok s

  -- `for (i = 0; i * CHAR_BIT < size; i++)`: the fuel is never used up, see `Walk`.
  pub walk : ℕ → List ℕ → ℕ → S → Outcome S
  unfolding walk_byte
  walk zero bits i s = fault
  walk (suc fuel) bits i s =
      let round = (do
        byte ← read bits i
        s' ← walk_byte char_bit byte i 0 s
        walk fuel bits (i + 1) s') in
      if ltb (i * char_bit) size then round else ok s

abbrev pub count_step : ℕ → ℕ → ℕ → Outcome ℕ
count_step ret k masked = ok (ret + (if nonzero masked then 1 else 0))

unfoldable pub get_num_on_bits : BitVector → Outcome ℕ
unfolding walk
get_num_on_bits this = walk count_step this.size (this.size + 1) this.bits 0 0

abbrev pub char_step : List ℕ → ℕ → ℕ → Outcome (List ℕ)
char_step ret k masked = write ret k (if nonzero masked then b'1' else b'0')

-- `fresh` is the content of the `size + 1` bytes that the allocator returns.
unfoldable pub to_string : BitVector → List ℕ → Outcome (List ℕ)
unfolding walk
to_string this fresh = do
  ret ← walk char_step this.size (this.size + 1) this.bits 0 fresh
  write ret (this.size + 1) 0

-- The inner loop of `check_vector`: `false` when it breaks at a bit that is not `value`.
pub check_byte : ℕ → ℕ → ℕ → ℕ → ℕ → ℕ → Bool
check_byte size value zero byte i j = true
check_byte size value (suc left) byte i j =
    let rest = check_byte size value left byte i (j + 1) in
    if ltb (i * char_bit + j) size
    then (if bit_and byte (mask_at j) == value then rest else false)
    else true

pub check_loop : ℕ → ℕ → ℕ → List ℕ → ℕ → Outcome Bool
unfolding check_byte
check_loop size value zero bits i = fault
check_loop size value (suc fuel) bits i =
    let round = (do
      byte ← read bits i
      let rest = check_loop size value fuel bits (i + 1)
      if check_byte size value char_bit byte i 0 then rest else ok false) in
    if ltb (i * char_bit) size then round else ok true

unfoldable pub check_vector : BitVector → ℕ → Outcome Bool
unfolding check_loop
check_vector bv value = check_loop bv.size value (bv.size + 1) bv.bits 0

unfoldable pub equals : BitVector → BitVector → Outcome Bool
unfolding xor_ check_vector
equals this other = do (_, test) ← xor_ this other 0; check_vector test 0
