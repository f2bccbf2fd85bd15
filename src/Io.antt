-- ===== src/Io.antt =====
-- luce/io/io_awaiter.cpp and the packet loops of luce/net/rpc/rpc_client.h: reading and writing over
-- a socket that takes or gives a part at a time. What the kernel's read and write return is a list,
-- one entry per call; the awaiters of io_awaiter.h turn a call that would block into a later call.
-- A count above what was asked for would overrun the buffer and is undefined behaviour.
pub mod Reading
pub mod Writing
use luce.Prelude.{
  ℕ, Option, some, none, zero, suc, ◌+◌, ◌-◌, ◌%◌, ◌^◌, Bool, true, false, List, [], ◌∷◌, ◌++◌, ltb,
  ◌==◌, if◌then◌else◌, length, take, drop, replicate, Bytes, Outcome, ok, undefined, out_of_fuel,
  ◌>>=◌,
}
use luce.Codec.Serializer.{memory, number}

-- errno: EINTR, EWOULDBLOCK and EAGAIN are tried again
pub data Errno : Type 0 where
  again other : Errno

-- read: the bytes it gave, none at the end of the stream, or its failure
pub data ReadResult : Type 0 where
  got : Bytes → ReadResult
  read_failed : Errno → ReadResult

-- write: the count it took, or its failure
pub data WriteResult : Type 0 where
  wrote : ℕ → WriteResult
  write_failed : Errno → WriteResult

unfoldable pub resize : ℕ → Bytes → Bytes
resize n buffer = take n (buffer ++ replicate n 0)

-- the bytes that a read puts into a buffer at an offset
unfoldable pub put_at : ℕ → Bytes → Bytes → Bytes
put_at offset data_ buffer = take offset buffer ++ (data_ ++ drop (offset + length data_) buffer)

-- AsyncRead: one read that gives bytes, with those before it that were to be tried again
unfoldable pub async_read : List ReadResult → Bytes → Outcome (ℕ × Bytes)
async_read [] buffer = out_of_fuel
async_read (read_failed again ∷ rs) buffer = async_read rs buffer
async_read (read_failed other ∷ rs) buffer = ok (0, resize 0 buffer)
async_read (got data_ ∷ rs) buffer =
    if ltb (length buffer) (length data_)
    then undefined
    else ok (length data_, resize (length data_) (put_at 0 data_ buffer))

-- The loop over a packet's body: whether it was read to its end, the count, and the buffer.
unfoldable pub read_body : List ReadResult → ℕ → ℕ → Bytes → Outcome (Bool × ℕ × Bytes)
read_body rs zero already buffer = ok (true, already, buffer)
read_body [] (suc t) already buffer = out_of_fuel
read_body (read_failed again ∷ rs) (suc t) already buffer = read_body rs (suc t) already buffer
read_body (read_failed other ∷ rs) (suc t) already buffer = ok (false, already, buffer)
read_body (got [] ∷ rs) (suc t) already buffer = ok (false, already, buffer)
read_body (got (c ∷ s) ∷ rs) (suc t) already buffer =
    let n = suc (length s) in
    let rest = read_body rs (suc t - n) (already + n) (put_at already (c ∷ s) buffer) in
    if ltb (suc t) n then undefined else rest

-- The count of a read of the header is dropped, and what it did not fill is indeterminate.
unfoldable pub async_read_packet : List ReadResult → Bytes → Outcome (Bool × Bytes)
async_read_packet (got head_buffer ∷ rs) buffer =
    if length head_buffer == 4
    then (let total = number head_buffer in
        do (succ, _, body) ← read_body rs total 0 (resize total buffer); ok (succ, body))
    else undefined
async_read_packet (read_failed _ ∷ rs) buffer = undefined
async_read_packet [] buffer = out_of_fuel

-- The loop over the header in BlockingRpcClient::ReadPacket: the counts are summed up, but each read
-- puts its bytes at the front of head_buffer. `head_buffer` is the part of the array that is set. At
-- the end of the stream the loop goes on.
unfoldable pub client_read_head :
    List ReadResult → ℕ → Bytes → Outcome (Option Bytes × List ReadResult)
client_read_head [] head_recv_size head_buffer =
    if head_recv_size == 4 then ok (some head_buffer, []) else out_of_fuel
client_read_head (r ∷ rs) head_recv_size head_buffer =
    if head_recv_size == 4 then ok (some head_buffer, r ∷ rs) else elim r [
      | got data_ ↦
          if ltb 4 (length data_)
          then undefined
          else client_read_head rs (head_recv_size + length data_)
              (data_ ++ drop (length data_) head_buffer)
      | read_failed again ↦ client_read_head rs head_recv_size head_buffer
      | read_failed other ↦ ok (none, rs)
    ]

-- the rest of ReadPacket; a header that is not set to its end is indeterminate
unfoldable pub client_read_rest : List ReadResult → Bytes → Bytes → Outcome (ℕ × Bytes)
client_read_rest rs head_buffer buffer =
    let total = number head_buffer in
    if length head_buffer == 4
    then (do
      (_, already, body) ← read_body rs total 0 (resize total buffer)
      ok (already, resize already body))
    else undefined

unfoldable pub client_read_packet : List ReadResult → Bytes → Outcome (ℕ × Bytes)
client_read_packet rs buffer = do
  (head, rs') ← client_read_head rs 0 []
  elim head [
    | none ↦ ok (2 ^ 64 - 1, buffer)
    | some head_buffer ↦ client_read_rest rs' head_buffer buffer
  ]

-- The loop of AsyncWrite: what is left, and the bytes that went out.
unfoldable pub write_loop : List WriteResult → ℕ → ℕ → Bytes → Outcome (ℕ × Bytes)
write_loop rs zero already buffer = ok (0, [])
write_loop [] (suc t) already buffer = out_of_fuel
write_loop (write_failed again ∷ rs) (suc t) already buffer = write_loop rs (suc t) already buffer
write_loop (write_failed other ∷ rs) (suc t) already buffer = ok (suc t, [])
write_loop (wrote zero ∷ rs) (suc t) already buffer = ok (suc t, [])
write_loop (wrote (suc n) ∷ rs) (suc t) already buffer =
    let rest = write_loop rs (suc t - suc n) (already + suc n) buffer in
    if ltb (suc t) (suc n)
    then undefined
    else (do (left, sent) ← rest; ok (left, take (suc n) (drop already buffer) ++ sent))

-- AsyncWrite: the count it returns, and the bytes that went out
unfoldable pub async_write : List WriteResult → Bytes → Outcome (ℕ × Bytes)
async_write rs buffer = do
  (left, sent) ← write_loop rs (length buffer) 0 buffer
  ok (length buffer - left, sent)

-- AsyncWritePacket: the header's own result is dropped; what it took of it went out.
unfoldable pub async_write_packet : List WriteResult → Bytes → Outcome (Bool × Bytes)
async_write_packet [] buffer = out_of_fuel
async_write_packet (w ∷ rs) buffer = do
  let head_buffer = memory 4 (length buffer % 2 ^ 32)
  (left, sent) ← write_loop rs (length buffer % 2 ^ 32) 0 buffer
  ok (left == 0, elim w [ wrote n ↦ take n head_buffer | write_failed _ ↦ [] ] ++ sent)

-- BlockingRpcClient::WritePacket: it fails with -1 when nothing of the header went out.
unfoldable pub write_packet : List WriteResult → Bytes → Outcome (ℕ × Bytes)
write_packet [] buffer = out_of_fuel
write_packet (write_failed _ ∷ rs) buffer = ok (2 ^ 64 - 1, [])
write_packet (wrote zero ∷ rs) buffer = ok (2 ^ 64 - 1, [])
write_packet (wrote (suc n) ∷ rs) buffer = do
  (left, sent) ← write_loop rs (length buffer) 0 buffer
  ok (length buffer - left, take (suc n) (memory 4 (length buffer % 2 ^ 32)) ++ sent)

-- RpcServer::WritePacket has the client's text, on the descriptor that it is given
unfoldable pub server_write_packet : List WriteResult → Bytes → Outcome (ℕ × Bytes)
unfolding write_packet
server_write_packet rs buffer = write_packet rs buffer
