-- ===== src/Pool.antt =====
-- luce/io/io_buffer.{h,cpp}: a buffer with a window of unprocessed bytes, and the pool of buffers in
-- seven size classes. The chain of a class through `next` is a list; `new` does not fail (it throws
-- in C++, so the code's null tests are dead). A negative size asked for counts as 0.
pub mod Buffers
pub mod Classes
use luce.Prelude.{
  ℕ, zero, suc, ◌+◌, ◌-◌, ◌*◌, ◌/◌, ◌%◌, ◌^◌, Bool, true, false, Option, none, some, List, [], ◌∷◌,
  ltb, leb, ◌==◌, if◌then◌else◌, Bytes, Outcome, ok, undefined, exits, ◌>>=◌,
}

-- IOBuf: `data_` gives the byte at an index below the capacity
pub record IoBuf : Type 0 where
  pub capacity : ℕ
  pub valid_length : ℕ
  pub head : ℕ
  pub data_ : ℕ → ℕ

abbrev pub new_io_buf : ℕ → IoBuf
new_io_buf size = record { capacity = size; valid_length = 0; head = 0; data_ = λ i. 0 }

-- IOBuf::Clear
unfoldable pub clear : IoBuf → IoBuf
clear b = record b { valid_length = 0; head = 0 }

-- memmove(data, data + head, length)
unfoldable pub moved_down : IoBuf → ℕ → ℕ
moved_down b i = if ltb i b.valid_length then b.data_ (b.head + i) else b.data_ i

unfoldable pub adjust : IoBuf → IoBuf
adjust b =
    if b.head == 0
    then b
    else if b.valid_length == 0
    then record b { head = 0 }
    else record b { head = 0; data_ = moved_down b }

-- IOBuf::Copy: memcpy over the end of either buffer is undefined
unfoldable pub copy : IoBuf → IoBuf → Outcome IoBuf
copy b other =
    if ltb b.capacity other.valid_length
    then undefined
    else if ltb other.capacity (other.head + other.valid_length)
    then undefined
    else ok (record b {
      head = 0;
      valid_length = other.valid_length;
      data_ = λ i. if ltb i other.valid_length then other.data_ (other.head + i) else b.data_ i;
    })

-- IOBuf::pop, on size_t
unfoldable pub pop : ℕ → IoBuf → IoBuf
pop len b = record b {
  valid_length = (b.valid_length + 2 ^ 64 - len) % 2 ^ 64;
  head = (b.head + len) % 2 ^ 64;
}

pub record BufPool : Type 0 where
  pub pool_ : ℕ → Option (List IoBuf)
  pub total_mem_ : ℕ

-- in kb
abbrev pub mem_limit : ℕ
mem_limit = 5 * 1024 * 1024

-- pool_[key], which is null for a new key
unfoldable pub bucket : ℕ → BufPool → List IoBuf
bucket key p = elim (p.pool_ key) [ none ↦ [] | some bs ↦ bs ]

unfoldable pub set_bucket : ℕ → List IoBuf → BufPool → BufPool
set_bucket key bs p = record p { pool_ = λ k. if k == key then some bs else p.pool_ k }

-- the chain of the buffers behind the first
unfoldable pub new_chain : ℕ → ℕ → List IoBuf
new_chain mem_cap zero = []
new_chain mem_cap (suc n) = new_io_buf mem_cap ∷ new_chain mem_cap n

-- AllocPoolMem, with the sum that follows each call of it in the constructor, in kb
unfoldable pub alloc_pool_mem : ℕ → ℕ → BufPool → BufPool
alloc_pool_mem mem_cap num p =
    set_bucket mem_cap (new_io_buf mem_cap ∷ new_chain mem_cap (num - 1)) p

unfoldable pub alloc_class : ℕ → ℕ → BufPool → BufPool
alloc_class mem_cap num p =
    let p' = alloc_pool_mem mem_cap num p in
    record p' { total_mem_ = p'.total_mem_ + mem_cap / 1024 * num }

-- BufPool::BufPool
unfoldable pub new_buf_pool : BufPool
new_buf_pool =
    let empty : BufPool = record { pool_ = λ k. none; total_mem_ = 0 } in
    alloc_class 8388608 10 (
      alloc_class 4194304 20 (
        alloc_class 1048576 50 (
          alloc_class 262144 200
            (alloc_class 65536 500 (alloc_class 16384 1000 (alloc_class 4096 5000 empty))))))

-- the class that AllocBuf takes a size from
unfoldable pub class_of : ℕ → Option ℕ
class_of n =
    if leb n 4096
    then some 4096
    else if leb n 16384
    then some 16384
    else if leb n 65536
    then some 65536
    else if leb n 262144
    then some 262144
    else if leb n 1048576
    then some 1048576
    else if leb n 4194304
    then some 4194304
    else if leb n 8388608
    then some 8388608
    else none

-- AllocBuf on an empty class: a buffer more, if the limit allows it
unfoldable pub grow : ℕ → BufPool → Outcome (Option IoBuf × BufPool)
grow key p =
    let p' = set_bucket key [] p in
    if leb mem_limit (p.total_mem_ + key / 1024)
    then exits
    else ok (some (new_io_buf key), record p' { total_mem_ = p'.total_mem_ + key / 1024 })

-- AllocBuf, once the class is known
unfoldable pub take_from : ℕ → BufPool → Outcome (Option IoBuf × BufPool)
take_from key p = elim (bucket key p) [
  | [] ↦ grow key p
  | target ∷ rest ↦ ok (some target, set_bucket key rest p)
]

unfoldable pub alloc_buf : ℕ → BufPool → Outcome (Option IoBuf × BufPool)
alloc_buf n p = elim (class_of n) [ none ↦ ok (none, p) | some key ↦ take_from key p ]

-- Revert; the assert that the class exists aborts
unfoldable pub revert : IoBuf → BufPool → Outcome BufPool
revert buffer p = elim (p.pool_ buffer.capacity) [
  | none ↦ exits
  | some bs ↦ ok (set_bucket buffer.capacity (record buffer { head = 0; valid_length = 0 } ∷ bs) p)
]
